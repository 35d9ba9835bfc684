-- ===== src/Memory/Alerts/Pages.antt =====
-- The pages of `List` of internal/store/memory/alert_repository.go.
use argus_go.Base.{
  ℕ, zero, suc, ◌+◌, ◌-◌, ◌≤◌, ◌<◌, none, some, List, [], ◌∷◌, ◌≡◌, refl, arith, ap,
}
use argus_go.Base.Int.{pos, negsuc, wrap64, ◌+ℤ◌}
use argus_go.Base.Lists.{length, take, drop}
use argus_go.Base.Map.{Map}
use argus_go.Domain.{Alert, AlertFilter}
use argus_go.Memory.Alerts.{MemoryAlertRepository, list, passes, select, page, slice}

-- The alerts that pass the filter, in the order in which the map yields them.
abbrev pub matching : (Map Alert → List Alert) → AlertFilter → MemoryAlertRepository → List Alert
matching order f r = select (passes f) (order r.alerts)

drop_all : (l : List Alert) (n : ℕ) → length l ≤ n → drop n l ≡ []
drop_all [] zero h = refl
drop_all (x ∷ l) zero h = absurd (ground arith)
drop_all [] (suc n) h = refl
drop_all (x ∷ l) (suc n) h = drop_all l n (ground arith)

take_all : (l : List Alert) (n : ℕ) → length l ≤ n → take n l ≡ l
take_all [] zero h = refl
take_all (x ∷ l) zero h = absurd (ground arith)
take_all [] (suc n) h = refl
take_all (x ∷ l) (suc n) h = ap (λ t. x ∷ t) (take_all l n (ground arith))

sum-small : (a b : ℕ) → a + b < 9_223_372_036_854_775_808 → wrap64 (pos a +ℤ pos b) ≡ pos (a + b)
unfolding wrap64 ◌+ℤ◌
sum-small a b h = ground arith

sum-large :
    (a b : ℕ)
    → 9_223_372_036_854_775_808 ≤ a + b
    → a + b < 18_446_744_073_709_551_616
    → wrap64 (pos a +ℤ pos b) ≡ negsuc (18_446_744_073_709_551_615 - (a + b))
unfolding wrap64 ◌+ℤ◌
sum-large a b h k = ground arith

page_lem :
    (f : AlertFilter) (l : List Alert) (i j : ℕ)
    → f.offset ≡ pos i
    → f.limit ≡ pos j
    → 0 < j
    → length l + j < 9_223_372_036_854_775_808
    → page f l ≡ some (drop i (take (i + j) l))
unfolding page slice
page_lem f l i j at_offset at_limit some_limit small =
    rw (at_offset, at_limit)
      (ground (
        arith,
        drop_all l i,
        take_all l (i + j),
        take_all l (length l),
        drop_all l (length l),
        sum-small i j,
        sum-small (length l) j,
      ))

page-overflow :
    (f : AlertFilter) (l : List Alert) (i : ℕ)
    → f.offset ≡ pos (suc i)
    → f.limit ≡ pos 9_223_372_036_854_775_807
    → 0 < length l
    → length l < 9_223_372_036_854_775_808
    → page f l ≡ none
unfolding page slice
page-overflow f l i at_offset at_limit some_alert small =
    rw (at_offset, at_limit)
      (ground (
        arith,
        sum-large (suc i) 9_223_372_036_854_775_807,
        sum-large (length l) 9_223_372_036_854_775_807,
      ))

-- With an offset i and a limit j above 0, where the number of matching alerts plus j is below
-- 2 ^ 63, List returns the first i + j of the matching alerts without the first i of them.
pub list-page :
    (order : Map Alert → List Alert) (f : AlertFilter) (r : MemoryAlertRepository) (i j : ℕ)
    → f.offset ≡ pos i
    → f.limit ≡ pos j
    → 0 < j
    → length (matching order f r) + j < 9_223_372_036_854_775_808
    → list order f r ≡ some (drop i (take (i + j) (matching order f r)))
unfolding list
list-page order f r i j at_offset at_limit some_limit small =
    page_lem f (matching order f r) i j at_offset at_limit some_limit small

-- With an offset above 0, the greatest limit, and at least one matching alert, their number below
-- 2 ^ 63, the sum of offset and limit wraps around and List panics.
pub list-overflow :
    (order : Map Alert → List Alert) (f : AlertFilter) (r : MemoryAlertRepository) (i : ℕ)
    → f.offset ≡ pos (suc i)
    → f.limit ≡ pos 9_223_372_036_854_775_807
    → 0 < length (matching order f r)
    → length (matching order f r) < 9_223_372_036_854_775_808
    → list order f r ≡ none
unfolding list
list-overflow order f r i at_offset at_limit some_alert small =
    page-overflow f (matching order f r) i at_offset at_limit some_alert small
