-- ===== src/Queue/Kafka/Tests.antt =====
-- Go's conversions between strings and bytes, with a character in place of its bytes of UTF-8, and
-- small runs of the Kafka consumer over a handler that counts.
use Prim.Native.Nat.{Ordering, compare}
use Prim.Native.Char.{Char, char, code, nul, IsScalar, IsLt}
use Prim.Native.String as Text
use argus_go.Base.{
  ℕ, suc, String, Option, none, some, List, [], ◌∷◌, ◌++◌, map, ok, err, ◌≡◌, ◌≢◌, ◌∙◌, sym, refl,
  ap, arith, eq_iff, true, ltb, if◌then◌else◌,
}
use argus_go.Base.Effect.{external, wrapped}
use argus_go.Base.Map.{Map, get}
use argus_go.Queue.{Message, MessageHandler}
use argus_go.Queue.Memory
use argus_go.Queue.Memory.{lasting}
use argus_go.Queue.Kafka.{Conversions, KafkaMessage, done, fetched, start, incoming, outgoing}
use argus_go.Queue.Kafka.Headers.{Same, incoming-outgoing}
use argus_go.Queue.Kafka.Order.{
  Quiet, missed, got, outcome, messages, accepted, world_after, start-as_memory, start-commit_fails,
}

-- `IsScalar n`, as a condition on three comparisons.
abbrev Both : Ordering → Ordering → Type 0
Both Ordering.lt b = IsLt b
Both Ordering.eq _ = ⊥
Both Ordering.gt _ = ⊥

abbrev Scalar : Ordering → Ordering → Ordering → Type 0
Scalar Ordering.lt _ _ = Unit
Scalar Ordering.eq b c = Both b c
Scalar Ordering.gt b c = Both b c

abbrev is_lt : (a : Ordering) → Option (IsLt a)
is_lt Ordering.lt = some tt
is_lt _ = none

abbrev both : (a b : Ordering) → Option (Both a b)
both Ordering.lt b = is_lt b
both Ordering.eq b = none
both Ordering.gt b = none

abbrev scalar : (a b c : Ordering) → Option (Scalar a b c)
scalar Ordering.lt b c = some tt
scalar Ordering.eq b c = both b c
scalar Ordering.gt b c = both b c

is_lt-some : (a : Ordering) (p : IsLt a) → is_lt a ≡ some p
is_lt-some Ordering.lt p = refl
is_lt-some Ordering.eq p = elim p [ ]
is_lt-some Ordering.gt p = elim p [ ]

both-some : (a b : Ordering) (p : Both a b) → both a b ≡ some p
both-some Ordering.lt b p = is_lt-some b p
both-some Ordering.eq b p = elim p [ ]
both-some Ordering.gt b p = elim p [ ]

scalar-some : (a b c : Ordering) (p : Scalar a b c) → scalar a b c ≡ some p
scalar-some Ordering.lt b c p = refl
scalar-some Ordering.eq b c p = both-some b c p
scalar-some Ordering.gt b c p = both-some b c p

abbrev char_or_nul : (n : ℕ) → Option (IsScalar n) → Char
char_or_nul n (some p) = char n p
char_or_nul n none = nul

abbrev character : ℕ → Char
character n = char_or_nul n (scalar (compare n 55296) (compare 57343 n) (compare n 1114112))

character-code : (c : Char) → character (code c) ≡ c
character-code (char n p) =
    ap (char_or_nul n) (scalar-some (compare n 55296) (compare 57343 n) (compare n 1114112) p)

unfoldable bytes : String → List ℕ
bytes Text.[] = []
bytes (Text.◌∷◌ c s) = code c ∷ bytes s

unfoldable text : List ℕ → String
text [] = Text.[]
text (n ∷ l) = Text.◌∷◌ (character n) (text l)

text-bytes : (s : String) → text (bytes s) ≡ s
unfolding bytes text
text-bytes Text.[] = refl
text-bytes (Text.◌∷◌ c s) = rw (character-code c, text-bytes s) refl

abbrev go : Conversions
go = record { bytes = bytes; text = text }

abbrev message : Message
message = record { key = 1 ∷ []; value = 2 ∷ []; headers = ("trace", "7") ∷ ("source", "api") ∷ [] }

abbrev backwards : Map String → Map String
backwards m = ("source", "api") ∷ ("trace", "7") ∷ []

apart : (k : String) → "source" ≡ k → "trace" ≢ k
apart k p q = absurd (ground (arith, eq_iff "source" "trace", p ∙ sym q))

swapped : (k : String) → get (backwards message.headers) k ≡ get message.headers k
unfolding get
swapped k = ground (arith, eq_iff "source" k, eq_iff "trace" k, apart k)

incoming-outgoing_example : Same (incoming go (outgoing go backwards message)) message
unfolding get
incoming-outgoing_example =
    incoming-outgoing go text-bytes backwards message ((refl, (refl, tt)), swapped)

-- A handler that takes two messages and rejects the rest.
abbrev handler : MessageHandler ℕ
handler msg n = (if ltb n 2 then ok tt else err (external "full"), suc n)

abbrev received : ℕ → KafkaMessage
received n = record { key = []; value = n ∷ []; headers = []; partition = 0; offset = n }

abbrev quiet : List Quiet
quiet = got (received 0) ∷ missed (external "broker") ∷ got (received 1) ∷ got (received 2) ∷ []

start-as_memory_example :
    (u : ℕ) × (Memory.start handler lasting
        (record { messages = map (incoming go) (messages quiet); capacity = 0; closed = true })
        0
      ≡ some (ok tt, u))
    × (start go handler
          (map outcome quiet ++ done (external "canceled") ∷ [])
          (record { world = 0; committed = [] })
        ≡ (
          some (err (external "canceled")),
          record { world = u; committed = accepted go handler (messages quiet) 0 },
        ))
start-as_memory_example = start-as_memory go handler quiet (external "canceled") 0

handled-3 : world_after go handler (messages quiet) 0 ≡ 3
unfolding world_after messages
handled-3 = refl

committed-2 : accepted go handler (messages quiet) 0 ≡ received 0 ∷ received 1 ∷ []
unfolding accepted messages
committed-2 = refl

start-commit_fails_example :
    start go handler
      (map outcome (missed (external "broker") ∷ got (received 0) ∷ [])
        ++ fetched (received 1) (err (external "commit")) ∷ outcome (got (received 2)) ∷ [])
      (record { world = 0; committed = [] })
    ≡ (
      some (err (wrapped "failed to commit message" (external "commit"))),
      record { world = 2; committed = received 0 ∷ [] },
    )
unfolding world_after accepted messages
start-commit_fails_example =
    start-commit_fails go handler (missed (external "broker") ∷ got (received 0) ∷ []) (received 1)
      (external "commit") (outcome (got (received 2)) ∷ []) 0 refl
