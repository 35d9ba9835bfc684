-- ===== src/Queue/Memory/Runs.antt =====
-- Publishers, consumers and a closer that share one queue of internal/queue/memory/queue.go, in
-- any order. A publisher that has found the queue open is in `sending` until its send is done.
use argus_go.Base.{ℕ, suc, ◌<◌, Bool, true, false, none, some, List, [], ◌∷◌, ◌++◌, ◌≡◌}
use argus_go.Base.Effect.{queue_closed}
use argus_go.Queue.{Message}
use argus_go.Queue.Memory.{
  MemoryQueue, new_queue, refuses, send, delivered, panics, receive, received, ended, waits, close,
}

-- `sent` and `taken` are what went into the channel and what came out, the oldest first;
-- `running` counts the consumers in `Start`, `locked` says that `Close` holds the lock.
pub record Run : Type 0 where
  pub queue : MemoryQueue
  pub sending : List Message
  pub sent : List Message
  pub taken : List Message
  pub running : ℕ
  pub locked : Bool
  pub panicked : Bool

abbrev pub fresh : ℕ → Run
fresh n = record {
  queue = new_queue n;
  sending = [];
  sent = [];
  taken = [];
  running = 0;
  locked = false;
  panicked = false;
}

pub data Step : Run → Run → Type 0 where
  -- `Publish` finds the queue open, or returns `ErrQueueClosed`.
  enter :
      {r : Run} (msg : Message)
      → r.locked ≡ false
      → refuses r.queue ≡ none
      → Step r (record r { sending = msg ∷ r.sending })
  refuse : {r : Run} → r.locked ≡ false → refuses r.queue ≡ some queue_closed → Step r r
  -- The select of `Publish`: it sends, hands over to a consumer that waits, panics, or gives up.
  deliver :
      {r : Run} (before after : List Message) (msg : Message) (q : MemoryQueue)
      → r.sending ≡ before ++ msg ∷ after
      → send msg r.queue ≡ delivered q
      → Step r (record r { sending = before ++ after; queue = q; sent = r.sent ++ msg ∷ [] })
  hand_over :
      {r : Run} (before after : List Message) (msg : Message)
      → r.sending ≡ before ++ msg ∷ after
      → receive r.queue ≡ waits
      → 0 < r.running
      → Step r (record r {
        sending = before ++ after;
        sent = r.sent ++ msg ∷ [];
        taken = r.taken ++ msg ∷ [];
      })
  crash :
      {r : Run} (before after : List Message) (msg : Message)
      → r.sending ≡ before ++ msg ∷ after
      → send msg r.queue ≡ panics
      → Step r (record r { sending = before ++ after; panicked = true })
  give_up :
      {r : Run} (before after : List Message) (msg : Message)
      → r.sending ≡ before ++ msg ∷ after
      → Step r (record r { sending = before ++ after })
  -- A consumer calls `Start`, takes a message, or returns at the end or on cancellation.
  start : {r : Run} → Step r (record r { running = suc r.running })
  take :
      {r : Run} (msg : Message) (q : MemoryQueue)
      → receive r.queue ≡ received msg q
      → 0 < r.running
      → Step r (record r { queue = q; taken = r.taken ++ msg ∷ [] })
  end :
      {r : Run} (n : ℕ)
      → receive r.queue ≡ ended
      → r.running ≡ suc n
      → Step r (record r { running = n })
  cancel : {r : Run} (n : ℕ) → r.running ≡ suc n → Step r (record r { running = n })
  -- `Close` closes the channel under the lock, and returns when no consumer runs.
  -- A second `Close` returns at once.
  shut :
      {r : Run}
      → r.locked ≡ false
      → r.queue.closed ≡ false
      → Step r (record r { queue = close r.queue; locked = true })
  shut_again : {r : Run} → r.locked ≡ false → r.queue.closed ≡ true → Step r r
  unlock : {r : Run} → r.locked ≡ true → r.running ≡ 0 → Step r (record r { locked = false })

pub data Reach (n : ℕ) : Run → Type 0 where
  begin : Reach n (fresh n)
  next : {r s : Run} → Reach n r → Step r s → Reach n s
