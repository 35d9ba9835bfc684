-- ===== src/Queue/Kafka/Headers.antt =====
-- Messages through internal/queue/kafka: what the producer writes, the consumer reads.
use argus_go.Base.{String, Option, none, some, [], ◌∷◌, ◌≡◌, refl, ◌∙◌, arith, eq_iff}
use argus_go.Base.Map.{Map, Once, get, put, get-put}
use argus_go.Queue.{Message}
use argus_go.Queue.Kafka.{Conversions, header_list, outgoing, incoming, read_headers}

-- An order of a map: `range` visits every entry once.
abbrev pub IsRange : Map String → Map String → Type 0
IsRange l m = Once l × ((k : String) → get l k ≡ get m k)

abbrev or_get : Option String → Option String → Option String
or_get none rest = rest
or_get (some v) rest = some v

-- Two messages with the same contents, whose maps of headers read the same.
abbrev pub Same : Message → Message → Type 0
Same m n =
    (m.key ≡ n.key) × (m.value ≡ n.value) × ((k : String) → get m.headers k ≡ get n.headers k)

module _ (go : Conversions) (reads : (s : String) → go.text (go.bytes s) ≡ s) where
  get-read_headers :
      (l m : Map String) (k : String)
      → Once l
      → get (read_headers go (header_list go l) m) k ≡ or_get (get l k) (get m k)
  unfolding get read_headers header_list
  get-read_headers [] m k once = refl
  get-read_headers ((j, v) ∷ l) m k (fresh, once) =
      get-read_headers l (put m j (go.text (go.bytes v))) k once
      ∙ rw (reads v) (ground (arith, get-put m j k v, eq_iff j k, fresh))

  get-read_range :
      (l m : Map String) (k : String)
      → IsRange l m
      → get (read_headers go (header_list go l) []) k ≡ get m k
  unfolding get
  get-read_range l m k (once, same) = get-read_headers l [] k once ∙ ground (arith, same k)

  -- A message that the producer writes and the consumer reads comes back with its key, its value and
  -- its headers, in whatever order Go ranges over the headers' map, every entry once, wherever
  -- `string([]byte(s))` is `s`.
  pub incoming-outgoing :
      (order : Map String → Map String) (msg : Message)
      → IsRange (order msg.headers) msg.headers
      → Same (incoming go (outgoing go order msg)) msg
  unfolding incoming
  incoming-outgoing order msg range =
      (refl, refl, λ k. get-read_range (order msg.headers) msg.headers k range)
