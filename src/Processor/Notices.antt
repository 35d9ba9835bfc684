-- ===== src/Processor/Notices.antt =====
-- The notices and the errors of a message.
use argus_go.Base.{
  ap, none, ◌≡◌, ◌⊎◌, inl, inr, refl, arith, eq_iff, eq_refl, Result, ok, err, [], ◌∷◌, ◌++◌, Error,
}
use argus_go.Base.Effect.{event_manager_not_found, grouping_rule_not_found}
use argus_go.Base.Map.{get}
use argus_go.Domain.{Alert, InternalEvent, EventManager, resolve}
use argus_go.Memory.EventManagers
use argus_go.Memory.GroupingRules
use argus_go.Memory.Alerts.Invariant.{get-create}
use argus_go.Notification.{Notice, new_parent, resolved}
use argus_go.Processor.{handle_event}
use argus_go.Processor.World.{World, Outside, service}
use argus_go.Processor.Kept.{Inv}
use argus_go.Processor.Runs.{new_parent_of, notified, parent_resolved}
use argus_go.Processor.Reference.{reference, handle_event-eq-reference}
use argus_go.Processor.Changes.{
  Stored, Change, idle, opened, finished, completed, child_closed, ticked, handle_event-Change,
}

-- What a notice tells of: an alert that was not there and is an active parent now, or a parent that was
-- active and is resolved now.
abbrev pub TellsOf : World → World → Notice → Type 0
TellsOf w u (new_parent url id key summary severity) =
    (b : Alert) × (get w.repo.by_dedup_key key ≡ none)
    × Stored u key b
    × (b.type ≡ "parent")
    × (b.status ≡ "active")
TellsOf w u (resolved url id key summary n) =
    (b c : Alert) × Stored w key b
    × (b.type ≡ "parent")
    × (b.status ≡ "active")
    × Stored u key c
    × (c.type ≡ "parent")
    × (c.status ≡ "resolved")

-- No notice, or one that tells of what happened.
abbrev pub Notifies : World → World → Type 0
Notifies w u = (u.log ≡ w.log) ⊎ ((n : Notice) × (u.log ≡ w.log ++ n ∷ []) × TellsOf w u n)

-- A resolution leaves the notice of `a` where its manager is known.
notified-Notifies :
    (o : Outside) (b a : Alert) (r : Result EventManager) (w u : World)
    → u.log ≡ w.log
    → Stored w a.dedup_key b
    → b.type ≡ "parent"
    → b.status ≡ "active"
    → Stored u a.dedup_key a
    → a.type ≡ "parent"
    → a.status ≡ "resolved"
    → Notifies w (notified o a r u)
notified-Notifies o b a (ok em) w u same stored type status after type' status' =
    let n = resolved em.notification_config.webhook_url a.id a.dedup_key a.summary a.child_count in
    inr (n, ap (λ l. l ++ n ∷ []) same, (b, a, stored, type, status, after, type', status'))
notified-Notifies o b a (err e) w u same stored type status after type' status' = inl same

module _ (o : Outside) (event : InternalEvent) (w : World) (v : Inv o w) where
  resolved-Notifies :
      (b : Alert) (u : World)
      → u.log ≡ w.log
      → Stored w b.dedup_key b
      → b.type ≡ "parent"
      → b.status ≡ "active"
      → Notifies w (parent_resolved o b u)
  resolved-Notifies b u same stored type status =
      let a = resolve b (o.clock u.ticks) in
      notified-Notifies o b a (EventManagers.get_by_id b.event_manager_id u.event_managers) w _ same
        stored type status (ground (arith, get-create u.repo a b.dedup_key, eq_refl b.dedup_key))
        type refl

  Change-Notifies : {u : World} → Change o event w u → Notifies w u
  Change-Notifies (idle why) = inl refl
  Change-Notifies (opened em rule action known missing shut) = inr (
    _,
    refl,
    (
      new_parent_of o event (ticked w),
      missing,
      ground (
        arith,
        get-create w.repo (new_parent_of o event (ticked w)) event.dedup_key,
        eq_refl event.dedup_key,
      ),
      refl,
      refl,
    ),
  )
  Change-Notifies (finished b action there type status nobody) =
      let key = v.consistent.index.keyed _ b there in
      resolved-Notifies b w refl (cc (key, there)) type status
  Change-Notifies (completed b p action there type status stored parent still waits last) =
      let key = v.consistent.index.keyed _ b there in
      let before : Stored w b.parent_dedup_key p = ground (
        arith,
        stored,
        parent,
        type,
        get-create w.repo (resolve b (o.clock w.ticks)) b.parent_dedup_key,
        eq_iff b.dedup_key b.parent_dedup_key,
        eq_iff "parent" "child",
      ) in
      let its_key = v.consistent.index.keyed _ p before in
      resolved-Notifies p (child_closed o event w b) refl (cc (its_key, before)) parent still
  Change-Notifies _ = inl refl

  -- From a world that satisfies the invariant, an event sends no notice, or one. A notice of a new parent
  -- is about an alert that was not stored before and is stored as an active parent afterwards; a notice
  -- of a resolution is about a parent that was stored as active before and is stored as resolved
  -- afterwards.
  pub handle_event-Notifies : Notifies w (handle_event (service o) event w).1
  handle_event-Notifies = Change-Notifies (handle_event-Change o event w v)

  -- Where the invariant holds, an event fails only if it is the first trigger under its key and its event manager or that
  -- one's rule is missing, and then it leaves the whole world as it was.
  pub handle_event-failure :
      (e : Error)
      → (handle_event (service o) event w).0 ≡ err e
      → ((handle_event (service o) event w).1 ≡ w)
        × (event.action ≡ "trigger")
        × (get w.repo.by_dedup_key event.dedup_key ≡ none)
        × ((e ≡ event_manager_not_found) ⊎ (e ≡ grouping_rule_not_found))
  handle_event-failure e = rw (handle_event-eq-reference o event v) (
      unfold reference EventManagers.get_by_id GroupingRules.get_by_id in
      λ h. ground (arith, eq_iff event.action "trigger"))
