-- ===== src/Processor/Grouping.antt =====
-- How a first trigger is grouped.
use argus_go.Base.{
  suc, none, some, ◌≡◌, ◌≢◌, inl, inr, refl, arith, eq_iff, eq_refl, if◌then◌else◌, ok, ap, [], ◌∷◌,
  ◌++◌, Bool-cases,
}
use native.Mathlib.Nat.{le_refl}
use argus_go.Base.Int.{lt_ℤ}
use argus_go.Base.Map.{get, get-put}
use argus_go.Domain.{Alert, InternalEvent, EventManager, GroupingRule, increment_child_count}
use argus_go.Store.{ParentState}
use argus_go.Memory.States.{parent_key, unexpired}
use argus_go.Memory.Alerts.{count_active_children, create}
use argus_go.Memory.Alerts.Invariant.{get-create, create-IsIndexed}
use argus_go.Notification.{new_parent}
use argus_go.Processor.{handle_event}
use argus_go.Processor.World.{World, Outside, service}
use argus_go.Processor.Writes.{Replaces, active-overwrite, active-new}
use argus_go.Processor.Kept.{Inv, Distinct, parent_created-Inv}
use argus_go.Processor.Reference.{reference, linked_to, handle_event-eq-reference}
use argus_go.Processor.Messages.{ticked-Inv}
use argus_go.Processor.Runs.{
  parent_created, child_created, new_parent_of, new_child_of, entry_of, get-create_other,
}
use argus_go.Processor.Changes.{Stored, Configured, window, ticked}

module _ (o : Outside) (event : InternalEvent) (w : World) (v : Inv o w) (em : EventManager)
    (rule : GroupingRule) (action : event.action ≡ "trigger") (known : Configured event em rule w)
    (missing : get w.repo.by_dedup_key event.dedup_key ≡ none) where
  trigger-run :
      handle_event (service o) event w
      ≡ (ok tt, linked_to o event rule em (ticked w) (window o event rule w))
  trigger-run = rw (handle_event-eq-reference o event v) (
      unfold reference in
      ground (arith, eq_iff event.action "trigger", known.its_manager, known.its_rule, missing))

  -- Where the invariant holds and the event's manager and rule exist, a first trigger with no open
  -- window becomes an active parent, opens the window of its rule under its event manager and its
  -- grouping value, and sends one notice.
  pub trigger-opens :
      window o event rule w ≡ none
      → let (result, u) = handle_event (service o) event w in
        (result ≡ ok tt)
        × Stored u event.dedup_key (new_parent_of o event (ticked w))
        × (get u.states.parents
              (parent_key event.event_manager_id rule.grouping_key event.grouping_value)
            ≡ some (entry_of o event rule (ticked w)))
        × (u.log
            ≡ w.log
              ++ new_parent em.notification_config.webhook_url
                  (o.uuid w.used)
                  event.dedup_key
                  event.summary
                  event.severity
                ∷ [])
  trigger-opens shut =
      let key = parent_key event.event_manager_id rule.grouping_key event.grouping_value in
      rw (trigger-run, shut)
        (
          refl,
          ground (
            arith,
            get-create w.repo (new_parent_of o event (ticked w)) event.dedup_key,
            eq_refl event.dedup_key,
          ),
          ground (
            arith,
            get-put w.states.parents key key (entry_of o event rule (ticked w)),
            eq_refl key,
          ),
          refl,
        )

  module _ (p : ParentState) (b : Alert) (is_open : window o event rule w ≡ some p)
      (there : Stored w p.dedup_key b) where
    its_key : b.dedup_key ≡ p.dedup_key
    its_key = v.consistent.index.keyed _ b there

    join-active :
        b.type ≡ "parent"
        → p.dedup_key ≢ ""
        → count_active_children p.dedup_key (child_created o event p b (ticked w)).repo
          ≡ suc (count_active_children p.dedup_key w.repo)
    join-active type named =
        let a = new_child_of o event p (ticked w) in
        let b' = increment_child_count b (o.clock (suc (suc w.ticks))) in
        let index =
          create-IsIndexed v.consistent.index a missing
            (v.consistent.fresh w.used (le_refl w.used)) in
        let still : get (create a w.repo).by_dedup_key b.dedup_key ≡ some b =
          get-create_other w.repo a b.dedup_key missing (cc (its_key, there)) in
        let rep : Replaces (create a w.repo) b b' = record {
          there = still;
          id = refl;
          type = refl;
          parent = refl;
        } in
        ground (
          arith,
          active-overwrite b b' rep index p.dedup_key,
          eq_iff p.dedup_key "",
          active-new w.repo a missing v.consistent.index p.dedup_key,
          eq_refl p.dedup_key,
        )

    -- Where the invariant holds and the event's manager and rule exist, a first trigger in an open
    -- window becomes an active child of the parent that opened it, whatever that parent's status.
    -- The parent, whose key is not empty, counts one child more and has one active child more, and
    -- no notice is sent.
    pub trigger-joins :
        b.type ≡ "parent"
        → p.dedup_key ≢ ""
        → let (result, u) = handle_event (service o) event w in
          (result ≡ ok tt)
          × Stored u event.dedup_key (new_child_of o event p (ticked w))
          × Stored u p.dedup_key (increment_child_count b (o.clock (suc (suc w.ticks))))
          × (count_active_children p.dedup_key u.repo
              ≡ suc (count_active_children p.dedup_key w.repo))
          × (u.log ≡ w.log)
    trigger-joins type named =
        let a = new_child_of o event p (ticked w) in
        let b' = increment_child_count b (o.clock (suc (suc w.ticks))) in
        rw (trigger-run, is_open, there)
          (
            refl,
            ground (
              arith,
              get-create w.repo a event.dedup_key,
              get-create (create a w.repo) b' event.dedup_key,
              eq_refl event.dedup_key,
              eq_iff b.dedup_key event.dedup_key,
              its_key,
            ),
            ground (
              arith,
              get-create (create a w.repo) b' p.dedup_key,
              eq_iff b.dedup_key p.dedup_key,
              its_key,
            ),
            join-active type named,
            refl,
          )

module _ (o : Outside) (event event' : InternalEvent) (w : World) (em : EventManager)
    (rule : GroupingRule) (distinct : Distinct o) (v : Inv o w)
    (action' : event'.action ≡ "trigger") (known : Configured event em rule w)
    (same_em : event'.event_manager_id ≡ event.event_manager_id)
    (same_value : event'.grouping_value ≡ event.grouping_value)
    (other : event'.dedup_key ≢ event.dedup_key)
    (missing : get w.repo.by_dedup_key event.dedup_key ≡ none)
    (missing' : get w.repo.by_dedup_key event'.dedup_key ≡ none)
    (named : event.dedup_key ≢ "") where
  abbrev after_first : World
  after_first = parent_created o event rule em (ticked w)

  first-Inv : Inv o after_first
  first-Inv = parent_created-Inv (ticked-Inv o v) event rule em distinct missing

  first-Stored : Stored after_first event.dedup_key (new_parent_of o event (ticked w))
  first-Stored = ground (
    arith,
    get-create w.repo (new_parent_of o event (ticked w)) event.dedup_key,
    eq_refl event.dedup_key,
  )

  second-known : Configured event' em rule after_first
  second-known = record { its_manager = rw same_em known.its_manager; its_rule = known.its_rule }

  second-missing : get after_first.repo.by_dedup_key event'.dedup_key ≡ none
  second-missing = ground (
    arith,
    get-create w.repo (new_parent_of o event (ticked w)) event'.dedup_key,
    eq_iff event.dedup_key event'.dedup_key,
  )

  second-window :
      window o event' rule after_first
      ≡ unexpired (o.clock after_first.ticks) (some (entry_of o event rule (ticked w)))
  second-window =
      let key = parent_key event.event_manager_id rule.grouping_key event.grouping_value in
      rw (same_em, same_value)
        (ap (unexpired (o.clock after_first.ticks)) {y = some (entry_of o event rule (ticked w))} (
          ground (
            arith,
            get-put w.states.parents key key (entry_of o event rule (ticked w)),
            eq_refl key,
          )))

  second_in_opened :
      let x = (handle_event (service o) event' after_first).1 in
      Stored x event'.dedup_key (
        if lt_ℤ (entry_of o event rule (ticked w)).expires_at (o.clock after_first.ticks)
        then new_parent_of o event' (ticked after_first)
        else new_child_of o event' (entry_of o event rule (ticked w)).state (ticked after_first))
  second_in_opened =
      let e = entry_of o event rule (ticked w) in
      elim (Bool-cases (lt_ℤ e.expires_at (o.clock after_first.ticks))) [
        | inl late ↦
            rw late
              (trigger-opens o event' after_first first-Inv em rule action' second-known
                second-missing (rw (second-window, late))).1
        | inr in_time ↦
            rw in_time
              (trigger-joins o event' after_first first-Inv em rule action' second-known
                second-missing e.state (new_parent_of o event (ticked w))
                (rw (second-window, in_time)) first-Stored refl named).1
      ]

-- Where the invariant holds, no UUID comes twice and no window is open: of two first triggers in a
-- row, under two keys, with one event manager, its rule and one grouping value, the second one's
-- alert is a child of the first one's while the clock has not passed the end of the window that the
-- first one opened, and a parent of its own after that. The first one's key is not empty.
pub second_trigger :
    (o : Outside) (event event' : InternalEvent) (w : World) (em : EventManager)
    (rule : GroupingRule)
    → Distinct o
    → Inv o w
    → event.action ≡ "trigger"
    → event'.action ≡ "trigger"
    → Configured event em rule w
    → event'.event_manager_id ≡ event.event_manager_id
    → event'.grouping_value ≡ event.grouping_value
    → event'.dedup_key ≢ event.dedup_key
    → get w.repo.by_dedup_key event.dedup_key ≡ none
    → get w.repo.by_dedup_key event'.dedup_key ≡ none
    → window o event rule w ≡ none
    → event.dedup_key ≢ ""
    → let u = (handle_event (service o) event w).1 in
      let x = (handle_event (service o) event' u).1 in
      Stored x event'.dedup_key (
        if lt_ℤ (entry_of o event rule (ticked w)).expires_at (o.clock u.ticks)
        then new_parent_of o event' (ticked u)
        else new_child_of o event' (entry_of o event rule (ticked w)).state (ticked u))
second_trigger o event event' w em rule distinct v action action' known same_em same_value other
      missing missing' shut named =
    rw (trigger-run o event w v em rule action known missing, shut)
      (second_in_opened o event event' w em rule distinct v action' known same_em same_value other
        missing missing' named)
