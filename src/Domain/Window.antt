-- ===== src/Domain/Window.antt =====
-- The grouping window of a rule: `GroupingRule.TimeWindow` of internal/domain/grouping_rule.go.
use argus_go.Base.{ℕ, ◌*◌, ◌≤◌, ◌≡◌, ◌≢◌, none, arith, eq_iff}
use argus_go.Base.Int.{pos, ◌<ℤ◌}
use argus_go.Domain.GroupingRules.{GroupingRule, validate_grouping_rule, time_window, minute}

-- A rule of m minutes, m up to 153722867, has a window of exactly m minutes.
pub time_window-exact :
    (gr : GroupingRule) (m : ℕ)
    → gr.time_window_minutes ≡ pos m
    → m ≤ 153_722_867
    → time_window gr ≡ pos (m * minute)
unfolding time_window
time_window-exact gr m e h = rw (e, time_window) (ground arith)

-- A rule with a name and a grouping key and of 153722868 to 307445734 minutes passes validation,
-- and its window is negative.
pub time_window-wraps :
    (gr : GroupingRule) (m : ℕ)
    → gr.name ≢ ""
    → gr.grouping_key ≢ ""
    → gr.time_window_minutes ≡ pos m
    → 153_722_868 ≤ m
    → m ≤ 307_445_734
    → (validate_grouping_rule gr ≡ none) × (time_window gr <ℤ pos 0)
unfolding time_window validate_grouping_rule
time_window-wraps gr m named keyed e h k = (
  rw e (ground (arith, eq_iff gr.name "", eq_iff gr.grouping_key "")),
  rw (e, time_window) (ground arith),
)
