-- ===== src/Redis/Represents.antt =====
-- How the keys of internal/store/redis/state_store.go stand for the content of a state store, and
-- what SET, DEL, SADD and SREM of one of them change of it.
use argus_go.Base.{
  String, Bool, true, false, Option, none, some, ok, ◌≡◌, sym, refl, ◌∙◌, ◌⊎◌, inl, inr, arith,
  ◌==◌, ◌&&◌, if◌then◌else◌,
}
use argus_go.Store.{ParentState, AlertState, PendingResolve}
use argus_go.Store.Contract.{Content, update, update_child, InRange}
use argus_go.Redis.{Json, StateCodec, alert_key, children_key, pending_key}
use argus_go.Redis.Server.{Entry}
use argus_go.Redis.Keys.{
  window_key, Single, children-ne-Single, letter-alert, letter-children, letter-pending,
  letter-window, ne, alert-eq, children-eq, pending-eq, window-eq,
}

-- JSON that reads back what it writes. A time is written only where its year has four digits.
pub record IsCodec {B : Type 0} (codec : StateCodec B) : Type 0 where
  pub parent :
      (p : ParentState)
      → InRange p.created_at
      → (l : B) × (codec.parent.marshal p ≡ ok l) × (codec.parent.unmarshal l ≡ ok p)
  pub alert :
      (a : AlertState) → (l : B) × (codec.alert.marshal a ≡ ok l) × (codec.alert.unmarshal l ≡ ok a)
  pub pending :
      (p : PendingResolve)
      → InRange p.requested_at
      → (l : B) × (codec.pending.marshal p ≡ ok l) × (codec.pending.unmarshal l ≡ ok p)

-- A key's entry that stands for what the abstract content has.
abbrev pub Stored : {B A : Type 0} → Json B A → Entry B → Option A → Type 0
Stored json none none = Unit
Stored json none (some a) = ⊥
Stored json (some e) none = ⊥
Stored json (some (l, lasts)) (some a) = json.unmarshal l ≡ ok a

-- The same for an entry that never expires.
abbrev pub Lasting : {B A : Type 0} → Json B A → Entry B → Option A → Type 0
Lasting json none none = Unit
Lasting json none (some a) = ⊥
Lasting json (some e) none = ⊥
Lasting json (some (l, lasts)) (some a) = (lasts ≡ true) × (json.unmarshal l ≡ ok a)

pub Stored-cases :
    {B A : Type 0} (json : Json B A) (e : Entry B) (d : Option A)
    → Stored json e d
    → ((e ≡ none) × (d ≡ none))
      ⊎ ((l : B) × (lasts : Bool) × (a : A) × (e ≡ some (l, lasts))
          × (d ≡ some a)
          × (json.unmarshal l ≡ ok a))
Stored-cases json none none stored = inl (refl, refl)
Stored-cases json none (some a) wrong = elim wrong [ ]
Stored-cases json (some e) none wrong = elim wrong [ ]
Stored-cases json (some (l, lasts)) (some a) stored = inr (l, lasts, a, refl, refl, stored)

pub Lasting-cases :
    {B A : Type 0} (json : Json B A) (e : Entry B) (d : Option A)
    → Lasting json e d
    → ((e ≡ none) × (d ≡ none))
      ⊎ ((l : B) × (a : A) × (e ≡ some (l, true)) × (d ≡ some a) × (json.unmarshal l ≡ ok a))
Lasting-cases json none none stored = inl (refl, refl)
Lasting-cases json none (some a) wrong = elim wrong [ ]
Lasting-cases json (some e) none wrong = elim wrong [ ]
Lasting-cases json (some (l, lasts)) (some a) (lasting, reads) =
    inr (l, a, rw lasting refl, refl, reads)

-- The entries and sets of a server that stand for an abstract content.
pub record Represents {B : Type 0} (codec : StateCodec B) (entry : String → Entry B)
    (member : String → String → Bool) (c : Content) : Type 0 where
  pub windows : (g : String) → Stored codec.parent (entry (window_key g)) (c.windows g)
  pub alerts : (k : String) → Lasting codec.alert (entry (alert_key k)) (c.alerts k)
  pub pending : (k : String) → Lasting codec.pending (entry (pending_key k)) (c.pending k)
  pub no_text : (p : String) → entry (children_key p) ≡ none
  pub children : (p k : String) → member (children_key p) k ≡ c.children p k
  pub no_sets : {k : String} → Single k → (x : String) → member k x ≡ false

-- Both sides of a relation, changed at one key.
if-related :
    {A B : Type 0} (R : A → B → Type 0) (b : Bool) {a x : A} {d y : B}
    → R a d
    → R x y
    → R (if b then a else x) (if b then d else y)
if-related R true related rest = related
if-related R false related rest = rest

at_key :
    {B A : Type 0} (R : Entry B → Option A → Type 0) {e e' x : Entry B} {d y : Option A}
    {b b' : Bool}
    → e' ≡ (if b then e else x)
    → b ≡ b'
    → R e d
    → R x y
    → R e' (if b' then d else y)
at_key R {e} {x} {b} p q related rest = rw p (rw (sym q) (if-related R b related rest))

elsewhere :
    {A B : Type 0} (R : A → B → Type 0) (e : A) {e' x : A} {y : B} {b : Bool}
    → e' ≡ (if b then e else x)
    → b ≡ false
    → R x y
    → R e' y
elsewhere R e p q rest = rw (p, q) rest

module _ {B : Type 0} (codec : StateCodec B) (entry entry' : String → Entry B)
    (member member' : String → String → Bool) (c : Content)
    (rep : Represents codec entry member c) where
  pub same-Represents :
      ((j : String) → entry' j ≡ entry j)
      → ((p x : String) → member' p x ≡ member p x)
      → Represents codec entry' member' c
  same-Represents entries members = record {
    windows = λ g. rw (entries (window_key g)) (rep.windows g);
    alerts = λ k. rw (entries (alert_key k)) (rep.alerts k);
    pending = λ k. rw (entries (pending_key k)) (rep.pending k);
    no_text = λ p. entries (children_key p) ∙ rep.no_text p;
    children = λ p k. members (children_key p) k ∙ rep.children p k;
    no_sets = λ {k} s x. members k x ∙ rep.no_sets s x;
  }

  -- SET or DEL of a key, that leaves it with the entry `e`
  abbrev Writes : String → Entry B → Type 0
  Writes key e =
      ((j : String) → entry' j ≡ (if key == j then e else entry j))
      × ((p x : String) → member' p x ≡ (if key == p then false else member p x))

  pub window-Represents :
      (k : String) (e : Entry B) (d : Option ParentState)
      → Writes (window_key k) e
      → Stored codec.parent e d
      → Represents codec entry' member' (record c { windows = update c.windows k d })
  window-Represents k e d w stored = record {
    windows = λ j.
        at_key (Stored codec.parent) (w.0 (window_key j)) (window-eq k j) stored (rep.windows j);
    alerts = λ j.
        elsewhere (Lasting codec.alert) e (w.0 (alert_key j))
          (ne _ _ (letter-window k) (letter-alert j) (omega arith)) (rep.alerts j);
    pending = λ j.
        elsewhere (Lasting codec.pending) e (w.0 (pending_key j))
          (ne _ _ (letter-window k) (letter-pending j) (omega arith)) (rep.pending j);
    no_text = λ p.
        elsewhere (λ x y. x ≡ y) e (w.0 (children_key p))
          (ne _ _ (letter-window k) (letter-children p) (omega arith)) (rep.no_text p);
    children = λ p x.
        elsewhere (λ x y. x ≡ y) false (w.1 (children_key p) x)
          (ne _ _ (letter-window k) (letter-children p) (omega arith)) (rep.children p x);
    no_sets = λ {k} s x. w.1 k x ∙ ground (arith, rep.no_sets s x);
  }

  pub alert-Represents :
      (k : String) (e : Entry B) (d : Option AlertState)
      → Writes (alert_key k) e
      → Lasting codec.alert e d
      → Represents codec entry' member' (record c { alerts = update c.alerts k d })
  alert-Represents k e d w stored = record {
    windows = λ j.
        elsewhere (Stored codec.parent) e (w.0 (window_key j))
          (ne _ _ (letter-alert k) (letter-window j) (omega arith)) (rep.windows j);
    alerts =
        λ j. at_key (Lasting codec.alert) (w.0 (alert_key j)) (alert-eq k j) stored (rep.alerts j);
    pending = λ j.
        elsewhere (Lasting codec.pending) e (w.0 (pending_key j))
          (ne _ _ (letter-alert k) (letter-pending j) (omega arith)) (rep.pending j);
    no_text = λ p.
        elsewhere (λ x y. x ≡ y) e (w.0 (children_key p))
          (ne _ _ (letter-alert k) (letter-children p) (omega arith)) (rep.no_text p);
    children = λ p x.
        elsewhere (λ x y. x ≡ y) false (w.1 (children_key p) x)
          (ne _ _ (letter-alert k) (letter-children p) (omega arith)) (rep.children p x);
    no_sets = λ {k} s x. w.1 k x ∙ ground (arith, rep.no_sets s x);
  }

  pub pending-Represents :
      (k : String) (e : Entry B) (d : Option PendingResolve)
      → Writes (pending_key k) e
      → Lasting codec.pending e d
      → Represents codec entry' member' (record c { pending = update c.pending k d })
  pending-Represents k e d w stored = record {
    windows = λ j.
        elsewhere (Stored codec.parent) e (w.0 (window_key j))
          (ne _ _ (letter-pending k) (letter-window j) (omega arith)) (rep.windows j);
    alerts = λ j.
        elsewhere (Lasting codec.alert) e (w.0 (alert_key j))
          (ne _ _ (letter-pending k) (letter-alert j) (omega arith)) (rep.alerts j);
    pending = λ j.
        at_key (Lasting codec.pending) (w.0 (pending_key j)) (pending-eq k j) stored
          (rep.pending j);
    no_text = λ p.
        elsewhere (λ x y. x ≡ y) e (w.0 (children_key p))
          (ne _ _ (letter-pending k) (letter-children p) (omega arith)) (rep.no_text p);
    children = λ p x.
        elsewhere (λ x y. x ≡ y) false (w.1 (children_key p) x)
          (ne _ _ (letter-pending k) (letter-children p) (omega arith)) (rep.children p x);
    no_sets = λ {k} s x. w.1 k x ∙ ground (arith, rep.no_sets s x);
  }

  -- SADD or SREM
  pub children-Represents :
      (p k : String) (there : Bool)
      → ((j : String) → entry' j ≡ entry j)
      → ((q x : String)
          → member' q x ≡ (if children_key p == q && k == x then there else member q x))
      → Represents codec entry' member' (record c { children = update_child c.children p k there })
  children-Represents p k there entries members = record {
    windows = λ g. rw (entries (window_key g)) (rep.windows g);
    alerts = λ j. rw (entries (alert_key j)) (rep.alerts j);
    pending = λ j. rw (entries (pending_key j)) (rep.pending j);
    no_text = λ q. entries (children_key q) ∙ rep.no_text q;
    children = λ q x.
        members (children_key q) x
        ∙ rw (children-eq p q)
            (if-related (λ x y. x ≡ y) (p == q && k == x) refl (rep.children q x));
    no_sets = λ {k} s x. members k x ∙ ground (arith, children-ne-Single p s, rep.no_sets s x);
  }
