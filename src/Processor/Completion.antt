-- ===== src/Processor/Completion.antt =====
-- A parent that waits can be resolved: `checkParentResolution` of internal/processor/service.go, over
-- as many messages as it takes.
use argus_go.Base.{
  ℕ, zero, suc, ◌<◌, String, true, List, [], ◌∷◌, map, Option, none, ◌≡◌, ◌≢◌, refl, sym, ap, ◌∙◌,
  arith, eq_iff,
}
use argus_go.Base.Int.{pos}
use argus_go.Base.Lists.{length}
use argus_go.Base.Map.{get}
use argus_go.Domain.{Time, Alert, InternalEvent, resolve}
use argus_go.Memory.Alerts.{count_active_children}
use argus_go.Memory.Alerts.Tidy.{IsTidy, active_child}
use argus_go.Processor.{handle_event}
use argus_go.Processor.World.{World, Outside, service}
use argus_go.Processor.Kept.{Inv, Distinct}
use argus_go.Processor.Changes.{Stored}
use argus_go.Processor.Messages.{handle_event-Inv}
use argus_go.Processor.Reachable.{Reach, Reach-Inv}
use argus_go.Processor.Tidy.{handle_event-IsTidy, Reach-IsTidy}
use argus_go.Processor.Waiting.{resolve-last_child, resolve-one_child}

-- A message that asks to resolve the alert under a key.
abbrev pub resolve_of : String → InternalEvent
resolve_of k = record {
  event = record {
    event_manager_id = "";
    summary = "";
    severity = "";
    action = "resolve";
    class = "";
    dedup_key = k;
  };
  partition_key = "";
  grouping_value = "";
  received_at = pos 0;
}

pred_of : (m : ℕ) → 0 < m → (n : ℕ) × (m ≡ suc n)
pred_of zero more = absurd (omega (arith, more))
pred_of (suc n) more = (n, refl)

module _ (o : Outside) where
  -- The messages, handled one after the other.
  unfoldable pub handle_all : List InternalEvent → World → World
  handle_all [] w = w
  handle_all (e ∷ es) w = handle_all es (handle_event (service o) e w).1

  -- The keys whose resolves complete the parent's resolution.
  abbrev pub Completes : String → Alert → World → List String → Type 0
  Completes k p w js =
      (t : Time) × Stored (handle_all (map resolve_of js) w) k (resolve p t)
      × (get (handle_all (map resolve_of js) w).states.pending_resolves k ≡ none)

  record ActiveChild (w : World) (k : String) : Type 0 where
    key : String
    child : Alert
    there : Stored w key child
    type : child.type ≡ "child"
    status : child.status ≡ "active"
    parent : child.parent_dedup_key ≡ k
    named : child.parent_dedup_key ≢ ""

  first_child :
      (k : String) (w : World)
      → Inv o w
      → IsTidy w.repo
      → 0 < count_active_children k w.repo
      → ActiveChild w k
  first_child k w v tidy more =
      let (j, b, there, joining, active) = active_child k v.consistent.index tidy more in
      record {
        key = j;
        child = b;
        there = there;
        type = ground (arith, joining, eq_iff b.type "child");
        status = ground (arith, active, eq_iff b.status "active");
        parent = ground (arith, joining, eq_iff b.parent_dedup_key k);
        named = λ e. ground (arith, joining, e, eq_iff b.parent_dedup_key "");
      }

  last-Completes :
      (k : String) (p : Alert) (w : World)
      → Inv o w
      → (c : ActiveChild w k) → Stored w k p
      → p.resolve_requested ≡ true
      → count_active_children k w.repo ≡ 1
      → Completes k p w (c.key ∷ [])
  unfolding handle_all
  last-Completes k p w v c stored waits counted =
      let (done, child, resolved, gone, idle) =
        resolve-last_child o (resolve_of c.key) w v c.child refl c.there p c.type c.status c.named
          (rw c.parent stored) waits (rw c.parent counted) in
      (o.clock (suc w.ticks), rw c.parent at resolved, rw c.parent at gone)

  complete :
      (n : ℕ) (k : String) (p : Alert) (w : World)
      → Distinct o
      → Inv o w
      → IsTidy w.repo
      → Stored w k p
      → p.resolve_requested ≡ true
      → count_active_children k w.repo ≡ suc n
      → (js : List String) × (length js ≡ suc n) × Completes k p w js
  unfolding handle_all
  complete zero k p w distinct v tidy stored waits counted =
      let c = first_child k w v tidy (omega (arith, counted)) in
      (c.key ∷ [], refl, last-Completes k p w v c stored waits counted)
  complete (suc n) k p w distinct v tidy stored waits counted =
      let c = first_child k w v tidy (omega (arith, counted)) in
      let event = resolve_of c.key in
      let (kept, fewer) =
        resolve-one_child o event w v c.child refl c.there p c.type c.status c.named
          (rw c.parent stored) waits n (rw c.parent counted) in
      let (js, as_many, completes) =
        complete n k p (handle_event (service o) event w).1 distinct
          (handle_event-Inv o event w v distinct) (handle_event-IsTidy o event w v tidy)
          (rw c.parent at kept) waits (rw c.parent at fewer) in
      (c.key ∷ js, ap suc as_many, completes)

  -- Where no UUID comes twice: in every world that messages and the API lead to, a parent that waits
  -- for its children can be resolved: there are as many messages as it has active children, each a
  -- resolve, after which the parent is stored as resolved and its pending resolve is gone.
  pub waiting-Completes :
      (unmarshal : List ℕ → Option InternalEvent) (k : String) (p : Alert) {w : World}
      → Distinct o
      → Reach o unmarshal w
      → Stored w k p
      → p.resolve_requested ≡ true
      → (js : List String) × (length js ≡ count_active_children k w.repo) × Completes k p w js
  waiting-Completes unmarshal k p {w} distinct r stored waits =
      let v = Reach-Inv o unmarshal distinct r in
      let more = v.waiting k (rw stored waits) in
      let (n, counted) = pred_of (count_active_children k w.repo) more in
      let (js, as_many, completes) =
        complete n k p w distinct v (Reach-IsTidy o unmarshal distinct r) stored waits counted in
      (js, as_many ∙ sym counted, completes)
