-- ===== src/Processor/Consumer.antt =====
-- `Start` of internal/processor/service.go in memory mode: the loop of internal/queue/memory/queue.go
-- with the handler `handleMessage`.
use argus_go.Base.{
  ℕ, zero, suc, Bool, true, false, Option, none, some, List, [], ◌∷◌, ◌≡◌, refl, arith, Result, ok,
  err, if◌then◌else◌, ltb,
}
use argus_go.Base.Lists.{length}
use argus_go.Domain.{InternalEvent}
use argus_go.Queue.{Message}
use argus_go.Queue.Memory
use argus_go.Queue.Memory.{MemoryQueue, consume, Context, lasting, ending, within}
use argus_go.Processor.{handle_message}
use argus_go.Processor.World.{World, Outside, service}
use argus_go.Processor.Reachable.{Reach, next, message}

-- What a run of Start returns, by the number of messages in the channel.
abbrev pub answer : Bool → Context → ℕ → Option (Result (Unit {0}))
answer closed lasting n = if closed then some (ok tt) else none
answer closed (ending k e) n =
    if closed then (if ltb n k then some (ok tt) else some (err e)) else some (err e)

module _ (o : Outside) (unmarshal : List ℕ → Option InternalEvent) where
  unfoldable pub start : Context → MemoryQueue → World → Option (Result (Unit {0}) × World)
  unfolding Memory.start
  start ctx q w = Memory.start (handle_message (service o) unmarshal) ctx q w

  -- Every message handled once, in order.
  abbrev pub each_handled : List Message → World → World
  each_handled [] w = w
  each_handled (msg ∷ l) w = each_handled l (handle_message (service o) unmarshal msg w).1

  each_handled-Reach :
      (l : List Message) {w : World} → Reach o unmarshal w → Reach o unmarshal (each_handled l w)
  each_handled-Reach [] r = r
  each_handled-Reach (msg ∷ l) r = each_handled-Reach l (next r (message msg))

  consume-each_handled :
      (closed : Bool) (ctx : Context) (l : List Message) (w : World)
      → consume (handle_message (service o) unmarshal) closed ctx l w
        ≡ Memory.returned (each_handled (within ctx l) w) (answer closed ctx (length l))
  consume-each_handled true lasting [] w = refl
  consume-each_handled false lasting [] w = refl
  consume-each_handled true (ending zero e) [] w = refl
  consume-each_handled true (ending (suc k) e) [] w = ground arith
  consume-each_handled false (ending zero e) [] w = refl
  consume-each_handled false (ending (suc k) e) [] w = refl
  consume-each_handled closed lasting (msg ∷ l) w =
      consume-each_handled closed lasting l (handle_message (service o) unmarshal msg w).1
  consume-each_handled true (ending zero e) (msg ∷ l) w = ground arith
  consume-each_handled false (ending zero e) (msg ∷ l) w = refl
  consume-each_handled true (ending (suc k) e) (msg ∷ l) w =
      let rest =
        consume-each_handled true (ending k e) l (handle_message (service o) unmarshal msg w).1 in
      ground (arith, rest)
  consume-each_handled false (ending (suc k) e) (msg ∷ l) w =
      consume-each_handled false (ending k e) l (handle_message (service o) unmarshal msg w).1

  -- On a queue that nobody else uses, Start handles the messages in it, each once and in order, whether
  -- handling fails or not: all of them, or as many as it takes before its context is done. It returns
  -- without an error where the queue is closed and the context is not done when the messages have been
  -- taken, returns the context's error where the context is done by then or while it waits on an open
  -- queue, and does not return on an open queue where the context is never done. From a reachable world
  -- it ends in a reachable one.
  pub start-handles :
      (ctx : Context) (q : MemoryQueue) {w : World}
      → Reach o unmarshal w
      → (start ctx q w
          ≡ Memory.returned
              (each_handled (within ctx q.messages) w)
              (answer q.closed ctx (length q.messages)))
        × Reach o unmarshal (each_handled (within ctx q.messages) w)
  unfolding start
  start-handles ctx q {w} r =
      (consume-each_handled q.closed ctx q.messages w, each_handled-Reach (within ctx q.messages) r)
