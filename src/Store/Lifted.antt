-- ===== src/Store/Lifted.antt =====
-- The stores of a part of the world, as stores of the whole.
use argus_go.Base.{Eff}
use argus_go.Store.{StateStore, AlertRepository, EventManagerRepository, GroupingRuleRepository}

-- Where the part `V` of the whole `W` is.
pub record Part (V W : Type 0) : Type 0 where
  pub view : W → V
  pub set : V → W → W

abbrev pub on_part : {V W A : Type 0} → Part V W → Eff V A → Eff W A
on_part part m w = let (r, v) = m (part.view w) in (r, part.set v w)

module _ {V W : Type 0} (part : Part V W) where
  abbrev pub state_store_on : StateStore V → StateStore W
  state_store_on s = record {
    get_parent = λ em key value. on_part part (s.get_parent em key value);
    set_parent = λ em key value state ttl. on_part part (s.set_parent em key value state ttl);
    delete_parent = λ em key value. on_part part (s.delete_parent em key value);
    get_alert = λ k. on_part part (s.get_alert k);
    set_alert = λ state. on_part part (s.set_alert state);
    delete_alert = λ k. on_part part (s.delete_alert k);
    add_child = λ parent child. on_part part (s.add_child parent child);
    remove_child = λ parent child. on_part part (s.remove_child parent child);
    get_children = λ parent. on_part part (s.get_children parent);
    get_child_count = λ parent. on_part part (s.get_child_count parent);
    set_pending_resolve = λ parent pending. on_part part (s.set_pending_resolve parent pending);
    get_pending_resolve = λ parent. on_part part (s.get_pending_resolve parent);
    delete_pending_resolve = λ parent. on_part part (s.delete_pending_resolve parent);
  }

  abbrev pub alerts_on : AlertRepository V → AlertRepository W
  alerts_on r = record {
    create = λ a. on_part part (r.create a);
    update = λ a. on_part part (r.update a);
    get_by_id = λ id. on_part part (r.get_by_id id);
    get_by_dedup_key = λ k. on_part part (r.get_by_dedup_key k);
    list = λ f. on_part part (r.list f);
    get_children_by_parent = λ parent. on_part part (r.get_children_by_parent parent);
    count_active_children = λ parent. on_part part (r.count_active_children parent);
  }

  abbrev pub event_managers_on : EventManagerRepository V → EventManagerRepository W
  event_managers_on r = record {
    create = λ em. on_part part (r.create em);
    update = λ em. on_part part (r.update em);
    delete = λ id. on_part part (r.delete id);
    get_by_id = λ id. on_part part (r.get_by_id id);
    list = on_part part r.list;
  }

  abbrev pub grouping_rules_on : GroupingRuleRepository V → GroupingRuleRepository W
  grouping_rules_on r = record {
    create = λ rule. on_part part (r.create rule);
    update = λ rule. on_part part (r.update rule);
    delete = λ id. on_part part (r.delete id);
    get_by_id = λ id. on_part part (r.get_by_id id);
    list = on_part part r.list;
  }
