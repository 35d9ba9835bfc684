-- ===== src/Postgres/Filters.antt =====
-- The query that List of internal/store/postgres/alert_repository.go builds: its placeholders and its
-- arguments fit.
use Prim.Native.String as Text
use argus_go.Base.{
  ℕ, zero, suc, String, Bool, true, false, not, Option, none, some, List, [], ◌∷◌, ◌++◌, map, ◌≡◌,
  refl, sym, ap, ◌∙◌, if◌then◌else◌, ◌==◌,
}
use mathlib.Core.List.{append-nil, append_assoc}
use argus_go.Base.Lists.{length}
use argus_go.Domain.{AlertFilter}
use argus_go.Postgres.{Value, text, number}
use argus_go.Postgres.Alerts.{
  Piece, plain, placed, Query, add, add_if, add_last_if, add_plain, positive, no_condition,
  list_query, select_alert,
}

-- The argument that `$i` stands for: the first is `$1`.
unfoldable pub at_place : List Value → ℕ → Option Value
at_place [] i = none
at_place (v ∷ vs) zero = none
at_place (v ∷ vs) (suc zero) = some v
at_place (v ∷ vs) (suc (suc i)) = at_place vs (suc i)

-- What a part of a query asks for: its text, and the argument in its placeholder.
pub data Part : Type 0 where
  words : String → Part
  bound : String → Option Value → Part

abbrev pub bind : List Value → Piece → Part
bind args (plain s) = words s
bind args (placed s n) = bound s (at_place args n)

abbrev pub part_if : Bool → String → Value → List Part
part_if b s v = if b then bound s (some v) ∷ [] else []

-- What the filter asks for.
abbrev pub wanted : AlertFilter → List Part
wanted f =
    (((((words (Text.◌++◌ select_alert "1=1") ∷ []
              ++ part_if (not (f.event_manager_id == "")) " AND event_manager_id = "
                  (text f.event_manager_id))
            ++ part_if (not (f.status == "")) " AND status = " (text f.status))
          ++ part_if (not (f.type == "")) " AND type = " (text f.type))
        ++ words " ORDER BY created_at DESC" ∷ [])
      ++ part_if (positive f.limit) " LIMIT " (number f.limit))
    ++ part_if (positive f.offset) " OFFSET " (number f.offset)

-- The arguments in the placeholders of the parts, in order.
abbrev pub arguments : List Part → List (Option Value)
arguments [] = []
arguments (words s ∷ ps) = arguments ps
arguments (bound s v ∷ ps) = v ∷ arguments ps

-- The query asks for `parts`, whatever arguments follow its own, and each of its arguments stands in
-- one of them.
record Binds (q : Query) (parts : List Part) : Type 0 where
  binds : (more : List Value) → map (bind (q.args ++ more)) q.pieces ≡ parts
  used : arguments parts ≡ map some q.args

-- And the next placeholder is the one after its arguments.
record Asks (q : Query) (parts : List Part) : Type 0 where
  now : Binds q parts
  next : q.arg_num ≡ suc (length q.args)

arguments-append : (ps qs : List Part) → arguments (ps ++ qs) ≡ arguments ps ++ arguments qs
arguments-append [] qs = refl
arguments-append (words s ∷ ps) qs = arguments-append ps qs
arguments-append (bound s v ∷ ps) qs = ap (λ l. v ∷ l) (arguments-append ps qs)

at_place-append :
    (vs : List Value) (v : Value) (more : List Value)
    → at_place (vs ++ v ∷ more) (suc (length vs)) ≡ some v
unfolding at_place
at_place-append [] v more = refl
at_place-append (u ∷ vs) v more = at_place-append vs v more

length-snoc : (vs : List Value) (v : Value) → length (vs ++ v ∷ []) ≡ suc (length vs)
length-snoc [] v = refl
length-snoc (u ∷ vs) v = ap suc (length-snoc vs v)

map-append : {A B : Type 0} (f : A → B) (ps qs : List A) → map f (ps ++ qs) ≡ map f ps ++ map f qs
map-append f [] qs = refl
map-append f (p ∷ ps) qs = ap (λ l. f p ∷ l) (map-append f ps qs)

add-Binds :
    (s : String) (v : Value) (q : Query) (parts : List Part)
    → Asks q parts
    → Binds (add s v q) (parts ++ bound s (some v) ∷ [])
add-Binds s v q parts asks = record {
  binds = λ more.
      rw
        (
          append_assoc q.args (v ∷ []) more,
          map-append (bind (q.args ++ v ∷ more)) q.pieces (placed s q.arg_num ∷ []),
          asks.now.binds (v ∷ more),
          asks.next,
          at_place-append q.args v more,
        )
        refl;
  used =
      arguments-append parts (bound s (some v) ∷ [])
      ∙ ap (λ l. l ++ some v ∷ []) asks.now.used
      ∙ sym (map-append some q.args (v ∷ []));
}

add-Asks :
    (s : String) (v : Value) (q : Query) (parts : List Part)
    → Asks q parts
    → Asks (add s v q) (parts ++ bound s (some v) ∷ [])
add-Asks s v q parts asks = record {
  now = add-Binds s v q parts asks;
  next = ap suc (asks.next ∙ sym (length-snoc q.args v));
}

add_if-Asks :
    (b : Bool) (s : String) (v : Value) (q : Query) (parts : List Part)
    → Asks q parts
    → Asks (add_if b s v q) (parts ++ part_if b s v)
add_if-Asks true s v q parts asks = add-Asks s v q parts asks
add_if-Asks false s v q parts asks = rw (append-nil parts) asks

add_last_if-Binds :
    (b : Bool) (s : String) (v : Value) (q : Query) (parts : List Part)
    → Asks q parts
    → Binds (add_last_if b s v q) (parts ++ part_if b s v)
add_last_if-Binds true s v q parts asks =
    let last = add-Binds s v q parts asks in record { binds = last.binds; used = last.used }
add_last_if-Binds false s v q parts asks = rw (append-nil parts) asks.now

add_plain-Asks :
    (s : String) (q : Query) (parts : List Part)
    → Asks q parts
    → Asks (add_plain s q) (parts ++ words s ∷ [])
add_plain-Asks s q parts asks = record {
  now = record {
    binds = λ more.
        rw (map-append (bind (q.args ++ more)) q.pieces (plain s ∷ []), asks.now.binds more) refl;
    used = arguments-append parts (words s ∷ []) ∙ append-nil (arguments parts) ∙ asks.now.used;
  };
  next = asks.next;
}

no_condition-Asks : Asks no_condition (words (Text.◌++◌ select_alert "1=1") ∷ [])
unfolding no_condition
no_condition-Asks = record { now = record { binds = λ more. refl; used = refl }; next = refl }

-- Whatever the filter, every placeholder of the query that List sends stands for the value that the
-- filter has for the condition before it: the query asks for the event manager, the status and the type
-- exactly where they are given, then for the order, and for the limit and the offset where they are
-- positive; and the arguments are those of the placeholders, in order, so that none is left over.
pub list_query-binds :
    (f : AlertFilter)
    → (map (bind (list_query f).args) (list_query f).pieces ≡ wanted f)
      × (arguments (wanted f) ≡ map some (list_query f).args)
unfolding list_query
list_query-binds f =
    let asks = add_last_if-Binds (positive f.offset) " OFFSET " (number f.offset) _ _ (
      add_if-Asks (positive f.limit) " LIMIT " (number f.limit) _ _ (
        add_plain-Asks " ORDER BY created_at DESC" _ _ (
          add_if-Asks (not (f.type == "")) " AND type = " (text f.type) _ _ (
            add_if-Asks (not (f.status == "")) " AND status = " (text f.status) _ _ (
              add_if-Asks (not (f.event_manager_id == "")) " AND event_manager_id = "
                (text f.event_manager_id) _ _ no_condition-Asks))))) in
    (rw (append-nil (list_query f).args) at (asks.binds []), asks.used)
