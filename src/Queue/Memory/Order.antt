-- ===== src/Queue/Memory/Order.antt =====
-- What the in-memory queue of internal/queue/memory/queue.go keeps, and what it does not.
use mathlib.Core.List.{append_assoc, append-nil}
use argus_go.Base.{
  ℕ, suc, ◌≤◌, ◌<◌, true, false, List, [], ◌∷◌, ◌++◌, ◌≡◌, ◌⊎◌, inl, inr, refl, arith, sym, ap, ◌∙◌,
}
use argus_go.Base.Lists.{length}
use argus_go.Queue.{Message}
use argus_go.Queue.Memory.{MemoryQueue, send, delivered, receive, received, ended, waits}
use argus_go.Queue.Memory.Runs.{
  Run, Step, enter, refuse, deliver, hand_over, crash, give_up, start, take, end, cancel, shut,
  shut_again, unlock, Reach, begin, next,
}

-- What every interleaving keeps: first in, first out, and no more in the buffer than its size.
pub record Keeps (n : ℕ) (r : Run) : Type 0 where
  pub order : r.taken ++ r.queue.messages ≡ r.sent
  pub room : length r.queue.messages ≤ n
  pub size : r.queue.capacity ≡ n
  pub shut : r.locked ≡ true → r.queue.closed ≡ true

length-snoc : (l : List Message) (m : Message) → length (l ++ m ∷ []) ≡ suc (length l)
length-snoc [] m = refl
length-snoc (x ∷ l) m = ap suc (length-snoc l m)

List-cases : (l : List Message) → (l ≡ []) ⊎ ((m : Message) × (t : List Message) × (l ≡ m ∷ t))
List-cases [] = inl refl
List-cases (m ∷ t) = inr (m, t, refl)

sent_queue :
    (m : Message) (q q' : MemoryQueue)
    → send m q ≡ delivered q'
    → (q' ≡ record q { messages = q.messages ++ m ∷ [] })
      × (length q.messages < q.capacity)
      × (q.closed ≡ false)
unfolding send
sent_queue m q q' e = ground arith

taken_queue :
    (m : Message) (q q' : MemoryQueue)
    → receive q ≡ received m q'
    → (q.messages ≡ m ∷ q'.messages) × (q'.capacity ≡ q.capacity) × (q'.closed ≡ q.closed)
unfolding receive
taken_queue m q q' e = elim (List-cases q.messages) [
  | inl empty ↦ ground (arith, e, empty)
  | inr (x, l, full) ↦ ground (arith, e, full)
]

waits_empty : (q : MemoryQueue) → receive q ≡ waits → q.messages ≡ []
unfolding receive
waits_empty q e = ground arith

module _ {n : ℕ} {r : Run} (v : Keeps n r) where
  Step-Keeps : {s : Run} → Step r s → Keeps n s
  Step-Keeps (enter msg free accepts) = record {
    order = v.order;
    room = v.room;
    size = v.size;
    shut = v.shut;
  }
  Step-Keeps (refuse free refused) = v
  Step-Keeps (deliver before after msg q is_sending sends) =
      let (q_is, fits, is_open) = sent_queue msg r.queue q sends in
      record {
        order = rw q_is (
            sym (append_assoc r.taken r.queue.messages (msg ∷ []))
            ∙ ap (λ l. l ++ msg ∷ []) v.order);
        room = rw q_is (ground (arith, length-snoc r.queue.messages msg, v.size));
        size = rw q_is v.size;
        shut = rw q_is v.shut;
      }
  Step-Keeps (hand_over before after msg is_sending idle running) =
      let idle_empty = waits_empty r.queue idle in
      record {
        order = rw idle_empty (
            append-nil (r.taken ++ msg ∷ [])
            ∙ ap (λ l. l ++ msg ∷ [])
                (sym (append-nil r.taken) ∙ ap (λ l. r.taken ++ l) (sym idle_empty) ∙ v.order));
        room = v.room;
        size = v.size;
        shut = v.shut;
      }
  Step-Keeps (crash before after msg is_sending closed) = record {
    order = v.order;
    room = v.room;
    size = v.size;
    shut = v.shut;
  }
  Step-Keeps (give_up before after msg is_sending) = record {
    order = v.order;
    room = v.room;
    size = v.size;
    shut = v.shut;
  }
  Step-Keeps start = record { order = v.order; room = v.room; size = v.size; shut = v.shut }
  Step-Keeps (take msg q takes running) =
      let (was, same_size, same_closed) = taken_queue msg r.queue q takes in
      record {
        order =
            (append_assoc r.taken (msg ∷ []) q.messages
              ∙ ap (λ l. r.taken ++ l) (sym was)
              ∙ v.order);
        room = ground (arith, ap length was, v.room);
        size = same_size ∙ v.size;
        shut = λ e. same_closed ∙ v.shut e;
      }
  Step-Keeps (end k ends running) = record {
    order = v.order;
    room = v.room;
    size = v.size;
    shut = v.shut;
  }
  Step-Keeps (cancel k running) = record {
    order = v.order;
    room = v.room;
    size = v.size;
    shut = v.shut;
  }
  Step-Keeps (shut free not_closed) = record {
    order = v.order;
    room = v.room;
    size = v.size;
    shut = λ e. refl;
  }
  Step-Keeps (shut_again free closed) = v
  Step-Keeps (unlock held nobody) = record {
    order = v.order;
    room = v.room;
    size = v.size;
    shut = λ e. absurd (cc e);
  }

-- Whatever publishers, consumers and a closer do, in any order, on a queue made with room for n
-- messages: the messages taken out, followed by those in the buffer, are the messages sent, in the
-- order in which they were sent, and the buffer never holds more than n.
pub Reach-Keeps : (n : ℕ) {r : Run} → Reach n r → Keeps n r
Reach-Keeps n begin = record { order = refl; room = ground arith; size = refl; shut = λ e. e }
Reach-Keeps n (next r st) = Step-Keeps (Reach-Keeps n r) st

ended_queue : (q : MemoryQueue) → receive q ≡ ended → q.messages ≡ []
unfolding receive
ended_queue q e = ground arith

-- When the channel is closed and empty, so that consumers return, every message that was sent has
-- been taken out, in the order in which they were sent.
pub ended-taken : (n : ℕ) (r : Run) → Reach n r → receive r.queue ≡ ended → r.taken ≡ r.sent
ended-taken n r reached e =
    sym (append-nil r.taken)
    ∙ ap (λ l. r.taken ++ l) (sym (ended_queue r.queue e))
    ∙ (Reach-Keeps n reached).order

-- The states that steps lead to from a state.
pub data Leads (r : Run) : Run → Type 0 where
  stay : Leads r r
  go_on : {s t : Run} → Leads r s → Step s t → Leads r t

-- From every state with the queue open and its lock free, steps lead on to a state in which
-- a publisher has panicked: the queue is closed between its look at `closed` and its send.
pub close-panicked :
    (r : Run) (msg : Message)
    → r.locked ≡ false
    → r.queue.closed ≡ false
    → (s : Run) × Leads r s × (s.panicked ≡ true)
unfolding send
close-panicked r msg free not_closed = (
  _,
  go_on (go_on (go_on stay (enter msg free (ground arith))) (shut free not_closed))
      (crash [] r.sending msg refl refl),
  refl,
)
