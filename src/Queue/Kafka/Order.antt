-- ===== src/Queue/Kafka/Order.antt =====
-- What the loop of internal/queue/kafka/consumer.go handles and commits.
use argus_go.Base.{
  true, none, some, List, [], ◌∷◌, ◌++◌, map, Result, ok, err, Error, ◌≡◌, refl, sym, ap, ◌∙◌,
  Result-cases, inl, inr,
}
use mathlib.Core.List.{append-nil, append_assoc}
use argus_go.Base.Effect.{wrapped}
use argus_go.Queue.{MessageHandler}
use argus_go.Queue.Memory
use argus_go.Queue.Memory.{consume, lasting}
use argus_go.Queue.Kafka.{
  Conversions, KafkaMessage, Outcome, done, fetched, not_fetched, Loop, incoming, start,
}

-- Rounds that go on: a fetch that fails while the context lives, and a message, which is committed
-- without an error where it is committed.
pub data Quiet : Type 0 where
  missed : Error → Quiet
  got : KafkaMessage → Quiet

abbrev pub outcome : Quiet → Outcome
outcome (missed e) = not_fetched e none
outcome (got msg) = fetched msg (ok tt)

-- The messages of such rounds.
unfoldable pub messages : List Quiet → List KafkaMessage
messages [] = []
messages (missed e ∷ qs) = messages qs
messages (got msg ∷ qs) = msg ∷ messages qs

module _ {W : Type 0} (go : Conversions) (handler : MessageHandler W) where
  abbrev kept : Result (Unit {0}) → KafkaMessage → List KafkaMessage → List KafkaMessage
  kept (ok a) msg rest = msg ∷ rest
  kept (err e) msg rest = rest

  -- The messages that the handler accepts, where it handles them one after the other.
  unfoldable pub accepted : List KafkaMessage → W → List KafkaMessage
  accepted [] w = []
  accepted (msg ∷ ms) w =
      kept (handler (incoming go msg) w).0 msg (accepted ms (handler (incoming go msg) w).1)

  -- What is left where all messages are handled, in order.
  unfoldable pub world_after : List KafkaMessage → W → W
  world_after [] w = w
  world_after (msg ∷ ms) w = world_after ms (handler (incoming go msg) w).1

  consume-world_after :
      (ms : List KafkaMessage) (w : W)
      → consume handler true lasting (map (incoming go) ms) w ≡ some (ok tt, world_after ms w)
  unfolding world_after
  consume-world_after [] w = refl
  consume-world_after (msg ∷ ms) w = consume-world_after ms (handler (incoming go msg) w).1

  after_quiet :
      (qs : List Quiet) (rest : List Outcome) (s : Loop W)
      → start go handler (map outcome qs ++ rest) s
        ≡ start go handler rest (record {
          world = world_after (messages qs) s.world;
          committed = s.committed ++ accepted (messages qs) s.world;
        })
  unfolding start messages accepted world_after
  after_quiet [] rest s =
      ap (λ l. start go handler rest (record { world = s.world; committed = l }))
        (sym (append-nil s.committed))
  after_quiet (missed f ∷ qs) rest s = after_quiet qs rest s
  after_quiet (got msg ∷ qs) rest s =
      let w = (handler (incoming go msg) s.world).1 in
      elim (Result-cases (handler (incoming go msg) s.world).0) [
        | inl (a, ran) ↦ rw ran (
            rw (append_assoc s.committed (msg ∷ []) (accepted (messages qs) w)) at
              (after_quiet qs rest (record { world = w; committed = s.committed ++ msg ∷ [] })))
        | inr (f, failed) ↦
            rw failed (after_quiet qs rest (record { world = w; committed = s.committed }))
      ]

  -- While fetches fail or give messages, commits succeed and the context lives, the Kafka consumer hands
  -- every fetched message to the handler, once and in order, as the in-memory consumer does, so it
  -- leaves the world that the in-memory consumer leaves on these messages; it commits exactly those
  -- that the handler accepts, in order; and when the context is done it returns the context's error.
  pub start-as_memory :
      (qs : List Quiet) (e : Error) (w : W)
      → (u : W) × (Memory.start handler lasting
            (record { messages = map (incoming go) (messages qs); capacity = 0; closed = true })
            w
          ≡ some (ok tt, u))
        × (start go handler (map outcome qs ++ done e ∷ []) (record { world = w; committed = [] })
            ≡ (some (err e), record { world = u; committed = accepted (messages qs) w }))
  unfolding Memory.start start
  start-as_memory qs e w = (
    world_after (messages qs) w,
    consume-world_after (messages qs) w,
    after_quiet qs (done e ∷ []) (record { world = w; committed = [] }),
  )

  -- When, after rounds in which fetches fail or give messages and commits succeed, the handler accepts
  -- a message and its commit fails, the Kafka consumer's Start returns the commit's error at once: the
  -- message has been handled and is not committed, and no later round is run.
  pub start-commit_fails :
      (qs : List Quiet) (msg : KafkaMessage) (e : Error) (more : List Outcome) (w : W)
      → (handler (incoming go msg) (world_after (messages qs) w)).0 ≡ ok tt
      → start go handler
          (map outcome qs ++ fetched msg (err e) ∷ more)
          (record { world = w; committed = [] })
        ≡ (
          some (err (wrapped "failed to commit message" e)),
          record {
            world = (handler (incoming go msg) (world_after (messages qs) w)).1;
            committed = accepted (messages qs) w;
          },
        )
  unfolding start
  start-commit_fails qs msg e more w ran =
      after_quiet qs (fetched msg (err e) ∷ more) (record { world = w; committed = [] })
      ∙ rw ran refl
