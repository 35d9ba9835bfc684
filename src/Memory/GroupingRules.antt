-- ===== src/Memory/GroupingRules.antt =====
-- internal/store/memory/grouping_rule_repository.go. `Create` overwrites a rule with the same ID.
use argus_go.Base.{String, Option, none, some, List, Result, ok, err}
use argus_go.Base.Effect.{grouping_rule_not_found}
use argus_go.Base.Map
use argus_go.Base.Map.{Map}
use argus_go.Domain.{GroupingRule}

pub record MemoryGroupingRuleRepository : Type 0 where
  pub grouping_rules : Map GroupingRule

-- `NewGroupingRuleRepository`, and what `Clear` leaves.
abbrev pub new_grouping_rule_repository : MemoryGroupingRuleRepository
new_grouping_rule_repository = record { grouping_rules = Map.empty }

unfoldable pub create :
    GroupingRule → MemoryGroupingRuleRepository → Result (Unit {0}) × MemoryGroupingRuleRepository
create rule r = (ok tt, record { grouping_rules = Map.put r.grouping_rules rule.id rule })

unfoldable pub update :
    GroupingRule → MemoryGroupingRuleRepository → Result (Unit {0}) × MemoryGroupingRuleRepository
update rule r = elim (Map.get r.grouping_rules rule.id) [
  | none ↦ (err grouping_rule_not_found, r)
  | some _ ↦ (ok tt, record { grouping_rules = Map.put r.grouping_rules rule.id rule })
]

unfoldable pub delete :
    String → MemoryGroupingRuleRepository → Result (Unit {0}) × MemoryGroupingRuleRepository
delete id r = elim (Map.get r.grouping_rules id) [
  | none ↦ (err grouping_rule_not_found, r)
  | some _ ↦ (ok tt, record { grouping_rules = Map.delete r.grouping_rules id })
]

abbrev found : Option GroupingRule → Result GroupingRule
found none = err grouping_rule_not_found
found (some rule) = ok rule

unfoldable pub get_by_id : String → MemoryGroupingRuleRepository → Result GroupingRule
get_by_id id r = found (Map.get r.grouping_rules id)

-- `order` is the order in which Go ranges over the map.
unfoldable pub list :
    (Map GroupingRule → List GroupingRule) → MemoryGroupingRuleRepository → List GroupingRule
list order r = order r.grouping_rules
