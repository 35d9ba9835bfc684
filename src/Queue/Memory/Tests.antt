-- ===== src/Queue/Memory/Tests.antt =====
-- A queue with room for one message: one is published and taken, then the queue is closed.
use argus_go.Base.{ℕ, ◌≡◌, refl, true, false, [], ◌∷◌, arith, some, ok, err}
use argus_go.Base.Effect.{external}
use argus_go.Queue.{Message}
use argus_go.Queue.Memory.{MemoryQueue, send, receive, start, lasting, ending}
use argus_go.Queue.Memory.Runs.{Run, fresh, Reach, begin, next, enter, deliver, take, shut}
use argus_go.Queue.Memory.Runs as Runs
use argus_go.Queue.Memory.Order.{Keeps, Reach-Keeps, Leads, close-panicked}

abbrev hello : Message
hello = record { key = []; value = 1 ∷ []; headers = [] }

abbrev full : MemoryQueue
full = record { messages = hello ∷ []; capacity = 1; closed = false }

abbrev published : Run
published = record {
  queue = full;
  sending = [];
  sent = hello ∷ [];
  taken = [];
  running = 0;
  locked = false;
  panicked = false;
}

published-Reach : Reach 1 published
unfolding send
published-Reach = next (next begin (enter hello refl refl)) (deliver [] [] hello full refl refl)

abbrev finished : Run
finished = record published {
  queue = record full { messages = []; closed = true };
  taken = hello ∷ [];
  running = 1;
  locked = true;
}

finished-Reach : Reach 1 finished
unfolding receive
finished-Reach =
    next
      (next (next published-Reach Runs.start)
        (take hello (record full { messages = [] }) refl (ground arith)))
      (shut refl refl)

-- Start on a closed queue hands out what is in it, and returns.
counted :
    start {W = ℕ} (λ msg n. (ok tt, 1)) lasting (record full { closed = true }) 0 ≡ some (ok tt, 1)
unfolding start
counted = refl

-- A context that is done when Start is called: the message stays in the queue.
stopped :
    start {W = ℕ} (λ msg n. (ok tt, 1)) (ending 0 (external "canceled")) full 0
    ≡ some (err (external "canceled"), 0)
unfolding start
stopped = refl

Reach-Keeps_example : Keeps 1 published
Reach-Keeps_example = Reach-Keeps 1 published-Reach

close-panicked_example : (s : Run) × Leads published s × (s.panicked ≡ true)
close-panicked_example = close-panicked published hello refl refl
