-- ===== src/Api/Queries.antt =====
-- The query parameters of GET /v1/alerts in internal/api/alert_handler.go, and `strconv.Atoi`, which
-- reads them.
pub mod Bounds
use Prim.Native.Char.{code}
use Prim.Native.String as Text
use argus_go.Base.{
  ℕ, zero, suc, ◌+◌, ◌-◌, ◌*◌, String, Bool, not, ◌&&◌, ◌||◌, Option, none, some, List, [], ◌∷◌,
  ◌==◌, if◌then◌else◌, ltb, leb,
}
use argus_go.Base.Int.{ℤ, pos, negsuc, two_63, lt_ℤ, le_ℤ}
use argus_go.Domain.{AlertFilter}

abbrev pub codes : String → List ℕ
codes Text.[] = []
codes (Text.◌∷◌ c s) = code c ∷ codes s

-- The number that digits spell behind `n`, without a bound.
unfoldable pub digits : List ℕ → ℕ → Option ℕ
digits [] n = some n
digits (c ∷ l) n =
    let rest = digits l (n * 10 + (c - b'0')) in if ltb c b'0' || ltb b'9' c then none else rest

-- One digit or more.
unfoldable pub unsigned : List ℕ → Option ℕ
unfolding digits
unsigned [] = none
unsigned (c ∷ l) = digits (c ∷ l) 0

abbrev positive : Option ℕ → Option ℤ
positive none = none
positive (some n) = if ltb n two_63 then some (pos n) else none

abbrev negative : Option ℕ → Option ℤ
negative none = none
negative (some zero) = some (pos 0)
negative (some (suc n)) = if ltb n two_63 then some (negsuc n) else none

-- `strconv.Atoi`; `none` is its error, of the syntax or of the range.
unfoldable pub atoi : List ℕ → Option ℤ
unfolding unsigned
atoi [] = none
atoi (c ∷ l) =
    if ltb c b'+' || ltb b'-' c || (ltb b'+' c && ltb c b'-')
    then positive (unsigned (c ∷ l))
    else if ltb c b'-'
    then positive (unsigned l)
    else negative (unsigned l)

-- `c.Query`: a parameter that is not given is empty.
pub record AlertQuery : Type 0 where
  pub event_manager_id : String
  pub status : String
  pub type : String
  pub limit : String
  pub offset : String

-- What a parsed number sets: `l > 0` for the limit, `o >= 0` for the offset; an error sets nothing.
abbrev parsed_limit : Option ℤ → ℤ
parsed_limit none = pos 0
parsed_limit (some l) = if lt_ℤ (pos 0) l then l else pos 0

abbrev parsed_offset : Option ℤ → ℤ
parsed_offset none = pos 0
parsed_offset (some o) = if le_ℤ (pos 0) o then o else pos 0

-- "Default limit if not specified"
abbrev or_default : ℤ → ℤ
or_default (pos n) = if ltb 0 n then pos n else pos 100
or_default l = l

-- The filter that `List` builds. An empty limit or offset, which is not parsed, sets nothing either.
unfoldable pub filter_of : AlertQuery → AlertFilter
unfolding atoi
filter_of q = record {
  event_manager_id = q.event_manager_id;
  status = q.status;
  type = q.type;
  limit = or_default (parsed_limit (atoi (codes q.limit)));
  offset = parsed_offset (atoi (codes q.offset));
}
