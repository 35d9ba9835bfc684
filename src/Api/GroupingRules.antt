-- ===== src/Api/GroupingRules.antt =====
-- internal/api/grouping_rule_handler.go. A handler takes what fiber has parsed of the request: the
-- parameter `id` of the path, and the body, which is `none` where it does not parse. `text` is the
-- method `Error` of an error; reading the clock and making a UUID do not fail.
use argus_go.Base.{
  String, Bool, true, false, Option, none, some, List, Result, ok, err, Error, Eff, ◌>>=◌, ◌>>◌,
  pure, ◌==◌, if◌then◌else◌, is,
}
use argus_go.Base.Effect.{grouping_rule_not_found}
use argus_go.Domain.{
  Time, GroupingRule, CreateGroupingRuleRequest, UpdateGroupingRuleRequest,
  validate_create_grouping_rule, validate_update_grouping_rule, to_grouping_rule,
  apply_to_grouping_rule,
}
use argus_go.Store.{GroupingRuleRepository}
use argus_go.Api.Responses.{
  Response, success, created, no_content, bad_request, validation_error, not_found, internal_error,
}

abbrev pub is_not_found : Error → Bool
is_not_found grouping_rule_not_found = true
is_not_found _ = false

pub record GroupingRuleHandler (W : Type 0) : Type 0 where
  pub repo : GroupingRuleRepository W
  pub now : Eff W Time
  pub new_id : Eff W String
  pub text : Error → String

-- The response to an error of a lookup or of a deletion.
abbrev not_found_or_failed : {A : Type 0} → String → Error → Response A
not_found_or_failed message e =
    if is is_not_found e then not_found "grouping rule not found" else internal_error message

module _ {W : Type 0} (h : GroupingRuleHandler W) where
  abbrev create_response : Result GroupingRule → Response GroupingRule
  create_response (ok rule) = created rule
  create_response (err e) = internal_error "failed to create grouping rule"

  abbrev create_valid : CreateGroupingRuleRequest → Eff W GroupingRule
  create_valid req = do
    id ← h.new_id
    now ← h.now
    let rule = to_grouping_rule req id now
    h.repo.create rule
    pure rule

  abbrev create_checked : CreateGroupingRuleRequest → Option Error → W → Response GroupingRule × W
  create_checked req (some e) w = (validation_error (h.text e), w)
  create_checked req none w = let (r, w') = create_valid req w in (create_response r, w')

  unfoldable pub create : Option CreateGroupingRuleRequest → W → Response GroupingRule × W
  create none w = (bad_request "invalid request body", w)
  create (some req) w = create_checked req (validate_create_grouping_rule req) w

  abbrev list_response : Result (List GroupingRule) → Response (List GroupingRule)
  list_response (ok l) = success l
  list_response (err e) = internal_error "failed to list grouping rules"

  unfoldable pub list : W → Response (List GroupingRule) × W
  list w = let (r, w') = h.repo.list w in (list_response r, w')

  abbrev get_response : Result GroupingRule → Response GroupingRule
  get_response (ok rule) = success rule
  get_response (err e) = not_found_or_failed "failed to get grouping rule" e

  unfoldable pub get_by_id : String → W → Response GroupingRule × W
  get_by_id id w =
      if id == ""
      then (bad_request "id is required", w)
      else let (r, w') = h.repo.get_by_id id w in (get_response r, w')

  abbrev update_response : Result GroupingRule → Response GroupingRule
  update_response (ok rule) = success rule
  update_response (err e) = internal_error "failed to update grouping rule"

  -- "Apply updates" and "Persist changes".
  abbrev save : UpdateGroupingRuleRequest → GroupingRule → Eff W GroupingRule
  save req rule = do
    now ← h.now
    let rule' = apply_to_grouping_rule req rule now
    h.repo.update rule'
    pure rule'

  abbrev update_fetched :
      UpdateGroupingRuleRequest → Result GroupingRule → W → Response GroupingRule × W
  update_fetched req (err e) w = (not_found_or_failed "failed to get grouping rule" e, w)
  update_fetched req (ok rule) w = let (r, w') = save req rule w in (update_response r, w')

  abbrev update_checked :
      String → UpdateGroupingRuleRequest → Option Error → W → Response GroupingRule × W
  update_checked id req (some e) w = (validation_error (h.text e), w)
  update_checked id req none w = let (r, w') = h.repo.get_by_id id w in update_fetched req r w'

  abbrev update_parsed : String → Option UpdateGroupingRuleRequest → W → Response GroupingRule × W
  update_parsed id none w = (bad_request "invalid request body", w)
  update_parsed id (some req) w = update_checked id req (validate_update_grouping_rule req) w

  unfoldable pub update : String → Option UpdateGroupingRuleRequest → W → Response GroupingRule × W
  update id body w = if id == "" then (bad_request "id is required", w) else update_parsed id body w

  abbrev delete_response : Result (Unit {0}) → Response (Unit {0})
  delete_response (ok _) = no_content
  delete_response (err e) = not_found_or_failed "failed to delete grouping rule" e

  unfoldable pub delete : String → W → Response (Unit {0}) × W
  delete id w =
      if id == ""
      then (bad_request "id is required", w)
      else let (r, w') = h.repo.delete id w in (delete_response r, w')
