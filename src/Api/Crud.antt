-- ===== src/Api/Crud.antt =====
-- What a client of /v1/event-managers reads back, in memory mode.
use argus_go.Base.{
  String, Option, none, some, ◌≡◌, ◌≢◌, arith, eq_iff, eq_refl, Error, Option-cases, inl, inr,
}
use argus_go.Base.Map.{get, get-put}
use argus_go.Domain.{
  EventManager, CreateEventManagerRequest, UpdateEventManagerRequest, to_event_manager,
  apply_to_event_manager,
}
use argus_go.Memory.EventManagers as Store
use argus_go.Processor.World.{World, Outside}
use argus_go.Api.Responses.{success, created}
use argus_go.Api.EventManagers
use argus_go.Api.World.{event_manager_handler}

-- Every event manager is stored under its own ID.
abbrev pub IsKeyed : World → Type 0
IsKeyed w =
    (id : String) (em : EventManager)
    → get w.event_managers.event_managers id ≡ some em
    → em.id ≡ id

module _ (o : Outside) (text : Error → String) where
  -- In memory mode, an event manager that POST answers with 201 is what GET under its ID answers with
  -- 200 next, where its ID is not empty.
  pub create-get_by_id :
      (body : Option CreateEventManagerRequest) (w : World) (em : EventManager)
      → em.id ≢ ""
      → let h = event_manager_handler o text in
        (EventManagers.create h body w).0 ≡ created em
        → (EventManagers.get_by_id h em.id (EventManagers.create h body w).1).0 ≡ success em
  unfolding EventManagers.create EventManagers.get_by_id Store.create Store.get_by_id
      to_event_manager
  create-get_by_id none w em named answered = absurd (ground arith)
  create-get_by_id (some req) w em named answered =
      let id = o.uuid w.used in
      let made = to_event_manager req id (o.clock w.ticks) in
      ground (
        arith,
        get-put w.event_managers.event_managers id em.id made,
        eq_iff em.id "",
        eq_iff id em.id,
      )

  -- In memory mode, where every event manager is stored under its own ID: an event manager that PUT answers with 200
  -- has the ID of the path, and is what GET under that ID answers with 200 next.
  pub update-get_by_id :
      (id : String) (body : Option UpdateEventManagerRequest) (w : World) (em : EventManager)
      → IsKeyed w
      → let h = event_manager_handler o text in
        (EventManagers.update h id body w).0 ≡ success em
        → (em.id ≡ id)
          × ((EventManagers.get_by_id h id (EventManagers.update h id body w).1).0 ≡ success em)
  unfolding EventManagers.update EventManagers.get_by_id Store.update Store.get_by_id
      apply_to_event_manager
  update-get_by_id id none w em keyed answered = absurd (ground (arith, eq_iff id ""))
  update-get_by_id id (some req) w em keyed answered =
      elim (Option-cases (get w.event_managers.event_managers id)) [
        | inl missing ↦ absurd (ground (arith, eq_iff id ""))
        | inr (old, there) ↦
            let new = apply_to_event_manager req old (o.clock w.ticks) in
            ground (
              arith,
              keyed id old there,
              get-put w.event_managers.event_managers id id new,
              eq_iff id "",
              eq_refl id,
            )
      ]
