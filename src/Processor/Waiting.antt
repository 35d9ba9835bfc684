-- ===== src/Processor/Waiting.antt =====
-- Parents that wait for their children: `resolveParentAlert` and `checkParentResolution` of
-- internal/processor/service.go.
use argus_go.Base.{
  ℕ, suc, inl, inr, Option-cases, ◌<◌, true, none, some, ◌≡◌, ◌≢◌, ◌∙◌, refl, arith, eq_iff,
  eq_refl, ok,
}
use argus_go.Base.Map.{get, get-put, get-delete}
use argus_go.Domain.{Alert, InternalEvent, resolve, mark_resolve_requested}
use argus_go.Store.{PendingResolve}
use argus_go.Memory.Alerts.{count_active_children, create, MemoryAlertRepository}
use argus_go.Memory.Alerts.Invariant.{get-create}
use argus_go.Processor.{handle_event}
use argus_go.Processor.World.{World, Outside, service}
use argus_go.Processor.Writes.{Replaces, active-overwrite}
use argus_go.Processor.Kept.{Inv, child_resolved-IsConsistent}
use argus_go.Processor.Reference.{reference, resolving, handle_event-eq-reference}
use argus_go.Processor.Handled.{recounted}
use argus_go.Processor.Frame.{get-parent_resolved, states-notified}
use argus_go.Processor.Runs.{requested, parent_resolved}
use argus_go.Processor.Changes.{Stored, child_closed}
use argus_go.Processor.Resolution.{active-parent_resolved}

module _ (o : Outside) (event : InternalEvent) (w : World) (v : Inv o w) (b : Alert)
    (action : event.action ≡ "resolve") (there : Stored w event.dedup_key b) where
  resolve-run : handle_event (service o) event w ≡ (ok tt, resolving o event w (some b))
  resolve-run = rw (handle_event-eq-reference o event v) (
      unfold reference in
      ground (
        arith,
        eq_iff "trigger" "resolve",
        eq_iff event.action "trigger",
        eq_iff event.action "resolve",
      ))

  resolving-asks :
      b.type ≡ "parent"
      → b.status ≡ "active"
      → 0 < count_active_children event.dedup_key w.repo
      → resolving o event w (some b) ≡ requested o b w
  resolving-asks type status more = ground (
    arith,
    v.consistent.index.keyed _ b there,
    eq_iff b.status "resolved",
    eq_iff b.type "child",
    eq_iff "active" "resolved",
    eq_iff "parent" "child",
  )

  module _ (p : Alert) (type : b.type ≡ "child") (status : b.status ≡ "active")
      (named : b.parent_dedup_key ≢ "") (stored : Stored w b.parent_dedup_key p)
      (waits : p.resolve_requested ≡ true) where
    key : b.dedup_key ≡ event.dedup_key
    key = v.consistent.index.keyed _ b there

    its_key : p.dedup_key ≡ b.parent_dedup_key
    its_key = v.consistent.index.keyed _ p stored

    its_type : p.type ≡ "parent"
    its_type = ((v.consistent.shaped _ p stored).requested waits).0

    abbrev next_repo : MemoryAlertRepository
    next_repo = create (resolve b (o.clock w.ticks)) w.repo

    next-stored : get next_repo.by_dedup_key b.parent_dedup_key ≡ some p
    next-stored = ground (
      arith,
      get-create w.repo (resolve b (o.clock w.ticks)) b.parent_dedup_key,
      key,
      its_type,
      eq_iff b.dedup_key b.parent_dedup_key,
      eq_iff "parent" "child",
    )

    next-count :
        (n : ℕ)
        → count_active_children b.parent_dedup_key w.repo ≡ suc n
        → count_active_children b.parent_dedup_key next_repo ≡ n
    next-count n counted =
        let a = resolve b (o.clock w.ticks) in
        let rep : Replaces w.repo b a = record {
          there = cc (there, key);
          id = refl;
          type = refl;
          parent = refl;
        } in
        ground (
          arith,
          active-overwrite b a rep v.consistent.index b.parent_dedup_key,
          eq_iff b.type "child",
          eq_iff b.parent_dedup_key "",
          eq_refl b.parent_dedup_key,
          eq_iff b.status "active",
          eq_iff "resolved" "active",
        )

    resolving-last :
        count_active_children b.parent_dedup_key w.repo ≡ 1
        → resolving o event w (some b) ≡ parent_resolved o p (child_closed o event w b)
    resolving-last last = ground (
      arith,
      next-stored,
      next-count 0 last,
      eq_iff b.status "resolved",
      eq_iff b.type "child",
      eq_iff "active" "resolved",
      eq_iff b.parent_dedup_key "",
      v.consistent.pending b.parent_dedup_key,
    )

    resolving-one :
        (n : ℕ) (q : PendingResolve)
        → count_active_children b.parent_dedup_key w.repo ≡ suc (suc n)
        → get w.states.pending_resolves b.parent_dedup_key ≡ some q
        → resolving o event w (some b) ≡ recounted o b.parent_dedup_key q (child_closed o event w b)
    resolving-one n q counted asked = ground (
      arith,
      next-count (suc n) counted,
      asked,
      eq_iff b.status "resolved",
      eq_iff b.type "child",
      eq_iff "active" "resolved",
      eq_iff b.parent_dedup_key "",
    )

    -- A resolve of one of several active children leaves the parent waiting for the others.
    pub resolve-one_child :
        (n : ℕ)
        → count_active_children b.parent_dedup_key w.repo ≡ suc (suc n)
        → let u = (handle_event (service o) event w).1 in
          Stored u b.parent_dedup_key p × (count_active_children b.parent_dedup_key u.repo ≡ suc n)
    resolve-one_child n counted =
        elim (Option-cases (get w.states.pending_resolves b.parent_dedup_key)) [
          | inl missing ↦
              absurd
                (ground (arith, v.consistent.pending b.parent_dedup_key, missing, stored, waits))
          | inr (q, asked) ↦
              rw (resolve-run, resolving-one n q counted asked)
                (next-stored, next-count (suc n) counted)
        ]

  -- Where the invariant holds, a resolve of a stored active parent that has active children is
  -- recorded, and does not resolve it: the alert is stored with the request, the pending resolve
  -- holds the number of active children, and no notice is sent. This is so whether the parent waits
  -- already or not: the time of the pending resolve is that of this request, so that a second request
  -- overwrites the time of the first.
  pub resolve-waits :
      b.type ≡ "parent"
      → b.status ≡ "active"
      → 0 < count_active_children event.dedup_key w.repo
      → let (result, u) = handle_event (service o) event w in
        (result ≡ ok tt)
        × Stored u event.dedup_key (mark_resolve_requested b (o.clock (suc w.ticks)))
        × (get u.states.pending_resolves event.dedup_key
            ≡ some (record {
              requested_at = o.clock w.ticks;
              remaining_children = count_active_children event.dedup_key w.repo;
            }))
        × (u.log ≡ w.log)
  resolve-waits type status more =
      let key = v.consistent.index.keyed _ b there in
      let a = mark_resolve_requested b (o.clock (suc w.ticks)) in
      let q : PendingResolve = record {
        requested_at = o.clock w.ticks;
        remaining_children = count_active_children b.dedup_key w.repo;
      } in
      rw (resolve-run, resolving-asks type status more)
        (
          refl,
          ground (arith, get-create w.repo a event.dedup_key, eq_iff b.dedup_key event.dedup_key),
          ground (
            arith,
            get-put w.states.pending_resolves b.dedup_key event.dedup_key q,
            eq_iff b.dedup_key event.dedup_key,
          ),
          refl,
        )

  -- Where the invariant holds, a resolve of the last active child of a parent that waits, under a
  -- key that is not empty, stores both child and parent as resolved; no child of the parent is
  -- active, and the pending resolve is gone.
  pub resolve-last_child :
      (p : Alert)
      → b.type ≡ "child"
      → b.status ≡ "active"
      → b.parent_dedup_key ≢ ""
      → Stored w b.parent_dedup_key p
      → p.resolve_requested ≡ true
      → count_active_children b.parent_dedup_key w.repo ≡ 1
      → let (result, u) = handle_event (service o) event w in
        (result ≡ ok tt)
        × Stored u event.dedup_key (resolve b (o.clock w.ticks))
        × Stored u b.parent_dedup_key (resolve p (o.clock (suc w.ticks)))
        × (get u.states.pending_resolves b.parent_dedup_key ≡ none)
        × (count_active_children b.parent_dedup_key u.repo ≡ 0)
  resolve-last_child p type status named stored waits last =
      let next = child_closed o event w b in
      let its = its_key p type status named stored waits in
      let parent = its_type p type status named stored waits in
      let after =
        child_resolved-IsConsistent v b (cc (there, v.consistent.index.keyed _ b there)) type in
      rw (resolve-run, resolving-last p type status named stored waits last)
        (
          refl,
          ground (
            arith,
            get-parent_resolved o p next event.dedup_key,
            get-create w.repo (resolve b (o.clock w.ticks)) event.dedup_key,
            key p type status named stored waits,
            eq_iff b.dedup_key event.dedup_key,
            eq_iff p.dedup_key event.dedup_key,
            eq_iff "parent" "child",
          ),
          ground (
            arith,
            get-parent_resolved o p next b.parent_dedup_key,
            eq_iff p.dedup_key b.parent_dedup_key,
          ),
          rw (states-notified o (resolve p (o.clock (suc w.ticks)))) (
              ground (
                arith,
                get-delete w.states.pending_resolves p.dedup_key b.parent_dedup_key,
                eq_iff p.dedup_key b.parent_dedup_key,
              )),
          active-parent_resolved o p next b.parent_dedup_key after.index
                (cc (its, next-stored p type status named stored waits)) parent
              ∙ next-count p type status named stored waits 0 last,
        )
