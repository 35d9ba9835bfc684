-- ===== src/Queue/Memory.antt =====
-- internal/queue/memory/queue.go and errors.go: a queue over a buffered channel. `Publish` looks
-- whether the queue is closed and gives its lock back before it sends, so these are two operations
-- here; Queue.Memory.Runs interleaves them.
pub mod Runs
pub mod Order
mod Tests
use argus_go.Base.{
  ℕ, zero, suc, Bool, true, false, Option, none, some, List, [], ◌∷◌, ◌++◌, Result, ok, err, Error,
  ltb, if◌then◌else◌,
}
use argus_go.Base.Effect.{queue_closed}
use argus_go.Base.Lists.{length, take, drop}
use argus_go.Queue.{Message, MessageHandler}

-- The buffer of the channel, whether the channel is closed (`closed` tells the same), and the
-- buffer's size.
pub record MemoryQueue : Type 0 where
  pub messages : List Message
  pub capacity : ℕ
  pub closed : Bool

abbrev pub new_queue : ℕ → MemoryQueue
new_queue buffer_size = record { messages = []; capacity = buffer_size; closed = false }

-- The part of `Publish` that holds the lock: the error with which it returns, if any.
abbrev pub refuses : MemoryQueue → Option Error
refuses q = if q.closed then some queue_closed else none

-- `q.messages <- msg`: a send on a closed channel panics, one on a full channel waits.
pub data Sending : Type 0 where
  delivered : MemoryQueue → Sending
  blocked panics : Sending

unfoldable pub send : Message → MemoryQueue → Sending
send msg q =
    if q.closed
    then panics
    else if ltb (length q.messages) q.capacity
    then delivered (record q { messages = q.messages ++ msg ∷ [] })
    else blocked

-- `msg, ok := <-q.messages`: a closed channel hands out its buffer first.
pub data Receiving : Type 0 where
  received : Message → MemoryQueue → Receiving
  ended waits : Receiving

abbrev receive_from : List Message → MemoryQueue → Receiving
receive_from [] q = if q.closed then ended else waits
receive_from (msg ∷ l) q = received msg (record q { messages = l })

unfoldable pub receive : MemoryQueue → Receiving
receive q = receive_from q.messages q

-- `Close`, up to its wait for the consumers.
abbrev pub close : MemoryQueue → MemoryQueue
close q = record q { closed = true }

-- `Len`
abbrev pub len : MemoryQueue → ℕ
len q = length q.messages

-- The context of a consumer: it is never done, or the select of `Start` takes `ctx.Done()`, with the
-- context's error, once it has taken so many messages, or while it waits for the next one.
pub data Context : Type 0 where
  lasting : Context
  ending : ℕ → Error → Context

-- A select that waits on an empty channel, open or closed.
abbrev pub waited : Bool → Context → Option (Result (Unit {0}))
waited true (ending zero e) = some (err e)
waited true _ = some (ok tt)
waited false (ending n e) = some (err e)
waited false lasting = none

abbrev pub returned : {W : Type 0} → W → Option (Result (Unit {0})) → Option (Result (Unit {0}) × W)
returned w none = none
returned w (some r) = some (r, w)

-- The loop of `Start`, on the messages in the channel while nobody else uses it: what it has done
-- when it returns, with `none` where it goes on waiting. The handler's error is dropped.
abbrev pub consume :
    {W : Type 0}
    → MessageHandler W
    → Bool
    → Context
    → List Message
    → W
    → Option (Result (Unit {0}) × W)
consume handler closed ctx [] w = returned w (waited closed ctx)
consume handler closed lasting (msg ∷ l) w = consume handler closed lasting l (handler msg w).1
consume handler closed (ending zero e) (msg ∷ l) w = some (err e, w)
consume handler closed (ending (suc n) e) (msg ∷ l) w =
    consume handler closed (ending n e) l (handler msg w).1

unfoldable pub start :
    {W : Type 0} → MessageHandler W → Context → MemoryQueue → W → Option (Result (Unit {0}) × W)
start handler ctx q w = consume handler q.closed ctx q.messages w

-- The messages that `Start` takes from the channel, and those that it leaves there.
abbrev pub within : Context → List Message → List Message
within lasting l = l
within (ending n e) l = take n l

abbrev pub beyond : Context → List Message → List Message
beyond lasting l = []
beyond (ending n e) l = drop n l
