-- ===== src/Redis/Keys.antt =====
-- The keys of internal/store/redis/state_store.go do not clash: keys of two kinds differ, and keys of
-- one kind are equal only for equal names.
use Prim.Native.Char.{Char, code}
use Prim.Native.String as Text
use text.Mathlib.TextLemmas.{append_cancel_left, cons-append}
use argus_go.Base.{ℕ, String, false, ◌≡◌, ◌≢◌, sym, ap, ◌∙◌, arith, eq_iff, ◌==◌}
use argus_go.Redis.{
  alert_key, children_key, pending_key, prefix_alert, prefix_parent, prefix_children,
  prefix_pending_resolve,
}

-- `parent_key em key value` is the key of the grouping `em:key:value`.
abbrev pub window_key : String → String
window_key g = Text.◌++◌ prefix_parent g

-- The keys that hold a state, and not a set.
pub data Single : String → Type 0 where
  window : (g : String) → Single (window_key g)
  alert : (k : String) → Single (alert_key k)
  pending : (k : String) → Single (pending_key k)

-- The second letter, in which the four prefixes differ.
abbrev letter_head : String → ℕ
letter_head Text.[] = 0
letter_head (Text.◌∷◌ c s) = code c

abbrev letter : String → ℕ
letter Text.[] = 0
letter (Text.◌∷◌ c s) = letter_head s

letter-append :
    (a b : Char) (s k : String) → letter (Text.◌++◌ (Text.◌∷◌ a (Text.◌∷◌ b s)) k) ≡ code b
letter-append a b s k =
    ap letter (cons-append a (Text.◌∷◌ b s) k ∙ ap (Text.◌∷◌ a) (cons-append b s k))

pub letter-alert : (k : String) → letter (alert_key k) ≡ b'l'
unfolding alert_key
letter-alert k = letter-append "a" "l" "ert:" k

pub letter-children : (k : String) → letter (children_key k) ≡ b'h'
unfolding children_key
letter-children k = letter-append "c" "h" "ildren:" k

pub letter-pending : (k : String) → letter (pending_key k) ≡ b'e'
unfolding pending_key
letter-pending k = letter-append "p" "e" "nding:" k

pub letter-window : (g : String) → letter (window_key g) ≡ b'a'
letter-window g = letter-append "p" "a" "rent:" g

letter-ne : (s t : String) → letter s ≢ letter t → (s == t) ≡ false
letter-ne s t h = ground (arith, eq_iff s t, h, ap letter)

pub ne : {a b : ℕ} (s t : String) → letter s ≡ a → letter t ≡ b → a ≢ b → (s == t) ≡ false
ne s t p q h = letter-ne s t (λ e. h (sym p ∙ e ∙ q))

pub children-ne-Single : (p : String) {k : String} → Single k → (children_key p == k) ≡ false
children-ne-Single p (window g) = ne _ _ (letter-children p) (letter-window g) (omega arith)
children-ne-Single p (alert k) = ne _ _ (letter-children p) (letter-alert k) (omega arith)
children-ne-Single p (pending k) = ne _ _ (letter-children p) (letter-pending k) (omega arith)

prefix-eq : (p k j : String) → (Text.◌++◌ p k == Text.◌++◌ p j) ≡ (k == j)
prefix-eq p k j =
    ground (arith, eq_iff (Text.◌++◌ p k) (Text.◌++◌ p j), eq_iff k j, append_cancel_left p k j)

pub alert-eq : (k j : String) → (alert_key k == alert_key j) ≡ (k == j)
unfolding alert_key
alert-eq k j = prefix-eq prefix_alert k j

pub children-eq : (k j : String) → (children_key k == children_key j) ≡ (k == j)
unfolding children_key
children-eq k j = prefix-eq prefix_children k j

pub pending-eq : (k j : String) → (pending_key k == pending_key j) ≡ (k == j)
unfolding pending_key
pending-eq k j = prefix-eq prefix_pending_resolve k j

pub window-eq : (k j : String) → (window_key k == window_key j) ≡ (k == j)
window-eq k j = prefix-eq prefix_parent k j
