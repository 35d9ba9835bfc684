-- ===== src/Command/Connections/Closed.antt =====
-- When main of cmd/argus/main.go has returned, nothing that it opened is still open.
use mathlib.Core.Path.{subst}
use mathlib.Core.Option.{some-injective}
use argus_go.Base.{
  ℕ, zero, suc, true, false, Option, none, some, List, [], ◌∷◌, Result, ok, ◌≡◌, ◌⊎◌, inl, inr,
  refl, sym, if◌then◌else◌, String, Error,
}
use argus_go.Base.Lists.{length, take, get_elem?}
use argus_go.Base.Triple.{OnOk}
use argus_go.Config.{Config}
use argus_go.Ingest.{Codec}
use argus_go.Postgres.Database.{Db}
use argus_go.Postgres.Database
use argus_go.Redis.Connection as RedisConnection
use argus_go.Queue.Kafka.Connection.{close_producer, close_consumer}
use argus_go.Processor.World.{Outside}
use argus_go.Api.Server.{shutdown}
use argus_go.Command.{
  Machine, Platform, Resource, in_memory_states, in_memory_queue, database, redis_store,
  kafka_producer, kafka_consumer, Dependencies, init_dependencies, close_resource, duties,
  stop_processor,
}
use argus_go.Command.Lifecycle.{
  Duties, Phase, waiting, shutting_down, stopping, exited, cleaning, Runtime, launched, Event,
  signal, processor_returns, server_returns, works, Run, here, happens, acts, advance, clean,
  main_step,
}
use argus_go.Command.Connections.{
  Handle, Closes, closes_pool, closes_client, closes_writer, closes_reader, Covered, first, later,
  IsTracked,
}
use argus_go.Command.Connections.Opened.{Within, Harmless, Ready, init_dependencies-Triple}

module _ {P N T R : Type 0} {h : Handle P N T R} where
  Covered-take :
      (l : List (Resource P N T R)) (i : ℕ) (x : Resource P N T R)
      → get_elem? l i ≡ some x
      → Covered h (take (suc i) l)
      → Covered h (take i l) ⊎ Closes x h
  Covered-take [] i x e c = elim c [ ]
  Covered-take (y ∷ l) zero x e (first c) = inr (rw (sym (some-injective _ _ e)) c)
  Covered-take (y ∷ l) zero x e (later c) = elim c [ ]
  Covered-take (y ∷ l) (suc i) x e (first c) = inl (first c)
  Covered-take (y ∷ l) (suc i) x e (later c) = elim (Covered-take l i x e c) [
    | inl before ↦ inl (later before)
    | inr last ↦ inr last
  ]

  Covered-take_length : (l : List (Resource P N T R)) → Covered h l → Covered h (take (length l) l)
  Covered-take_length [] c = c
  Covered-take_length (x ∷ l) (first c) = first c
  Covered-take_length (x ∷ l) (later c) = later (Covered-take_length l c)

module _ {C P N B T R A E : Type 0} (o : Outside) (lib : Platform C P N B T R A (Machine E))
    {IsOpen : E → Handle P N T R → Type 0} (t : IsTracked lib IsOpen) where
  close_resource_lem :
      (x : Resource P N T R) (m : Machine E) (h : Handle P N T R)
      → IsOpen (close_resource lib x m).outside h
      → IsOpen m.outside h
  unfolding close_resource Database.close RedisConnection.close close_producer close_consumer
  close_resource_lem in_memory_states m h = λ is_open. is_open
  close_resource_lem in_memory_queue m h = λ is_open. is_open
  close_resource_lem (database db) m h =
      elim db.pool
        as (λ x.
          IsOpen (close_resource lib (database (record { pool = x })) m).outside h
          → IsOpen m.outside h) [ none ↦ λ is_open. is_open | some x ↦ t.close_pool x m h ]
  close_resource_lem (redis_store s) m h =
      elim s.client
        as (λ x.
          IsOpen (close_resource lib (redis_store (record { client = x })) m).outside h
          → IsOpen m.outside h) [ none ↦ λ is_open. is_open | some x ↦ t.close_client x m h ]
  close_resource_lem (kafka_producer p) m h =
      elim p.writer
        as (λ x.
          IsOpen (close_resource lib (kafka_producer (record { writer = x })) m).outside h
          → IsOpen m.outside h) [ none ↦ λ is_open. is_open | some x ↦ t.close_writer x m h ]
  close_resource_lem (kafka_consumer c) m h =
      elim c.reader
        as (λ x.
          IsOpen (close_resource lib (kafka_consumer (record { reader = x })) m).outside h
          → IsOpen m.outside h) [ none ↦ λ is_open. is_open | some x ↦ t.close_reader x m h ]

  close_resource-Closes :
      (x : Resource P N T R) (m : Machine E) (h : Handle P N T R)
      → Closes x h
      → ¬ IsOpen (close_resource lib x m).outside h
  unfolding close_resource Database.close RedisConnection.close close_producer close_consumer
  close_resource-Closes x m h (closes_pool p) = t.pool_closed p m
  close_resource-Closes x m h (closes_client n) = t.client_closed n m
  close_resource-Closes x m h (closes_writer w) = t.writer_closed w m
  close_resource-Closes x m h (closes_reader r) = t.reader_closed r m

  module _ (H : Handle P N T R → Type 0) (deps : Dependencies A (Machine E))
      (funcs : List (Resource P N T R)) where
    abbrev d : Duties (Resource P N T R) (Machine E)
    d = duties lib deps funcs

    -- What main still closes from a phase on.
    abbrev remaining : Phase → List (Resource P N T R)
    remaining (cleaning i) = take i funcs
    remaining exited = []
    remaining _ = funcs

    abbrev Guarded : Phase → Machine E → Type 0
    Guarded p m = Within lib {IsOpen = IsOpen} t (λ h. H h ⊎ Covered h (remaining p)) m

    abbrev GuardedStep : Option (Runtime (Resource P N T R) (Machine E)) → Type 0
    GuardedStep none = Unit
    GuardedStep (some s) = Guarded s.phase s.world

    clean-Guarded :
        (i : ℕ) (s : Runtime (Resource P N T R) (Machine E)) (found : Option (Resource P N T R))
        → get_elem? funcs i ≡ found
        → Guarded (cleaning (suc i)) s.world
        → GuardedStep (clean d found i s)
    clean-Guarded i s none e guarded = tt
    clean-Guarded i s (some x) e guarded = λ h is_open.
        elim (guarded h (close_resource_lem x s.world h is_open)) [
          | inl before ↦ inl before
          | inr c ↦ elim (Covered-take funcs i x e c) [
            | inl rest ↦ inr rest
            | inr closed ↦ absurd (close_resource-Closes x s.world h closed is_open)
          ]
        ]

    module _
        (stopping_opens_nothing : Harmless lib {IsOpen = IsOpen} t
          (stop_processor deps.processor)) where
      advance-Guarded :
          (p : Phase) (s : Runtime (Resource P N T R) (Machine E))
          → Guarded p s.world
          → GuardedStep (advance d p s)
      unfolding shutdown
      advance-Guarded waiting s guarded =
          elim s.cancelled
            as (λ c. GuardedStep (if c then some (record s { phase = shutting_down }) else none)) [
              | true ↦ guarded
              | false ↦ tt
            ]
      advance-Guarded shutting_down s guarded =
          λ h is_open. guarded h (t.shutdown deps.server.app s.world h is_open)
      advance-Guarded stopping s guarded = λ h is_open.
          elim (guarded h (stopping_opens_nothing s.world h is_open)) [
            | inl before ↦ inl before
            | inr c ↦ inr (Covered-take_length funcs c)
          ]
      advance-Guarded (cleaning zero) s guarded = guarded
      advance-Guarded (cleaning (suc i)) s guarded = clean-Guarded i s _ refl guarded
      advance-Guarded exited s guarded = tt

      main_step-Guarded :
          (s : Runtime (Resource P N T R) (Machine E))
          → Guarded s.phase s.world
          → GuardedStep (main_step d s)
      unfolding main_step
      main_step-Guarded s = advance-Guarded s.phase s

      module _ (Works : Machine E → Machine E → Type 0)
          (working_opens_nothing : (m v : Machine E) (h : Handle P N T R)
            → Works m v
            → IsOpen v.outside h
            → IsOpen m.outside h) where
        Event-Guarded :
            {r s : Runtime (Resource P N T R) (Machine E)}
            → Event Works r s
            → Guarded r.phase r.world
            → Guarded s.phase s.world
        Event-Guarded (signal _) guarded = guarded
        Event-Guarded (processor_returns _ _ _) guarded = guarded
        Event-Guarded (server_returns _ _ _) guarded = guarded
        Event-Guarded {r} (works w _ _ working) guarded =
            λ h is_open. guarded h (working_opens_nothing r.world w h working is_open)

        pub Run-Guarded :
            (m : Machine E) {n : ℕ} {s : Runtime (Resource P N T R) (Machine E)}
            → Guarded waiting m
            → Run d Works (launched m) n s
            → Guarded s.phase s.world
        Run-Guarded m guarded here = guarded
        Run-Guarded m guarded (happens r e) = Event-Guarded e (Run-Guarded m guarded r)
        Run-Guarded m guarded (acts {t = r} {u} before e) =
            subst GuardedStep e (main_step-Guarded r (Run-Guarded m guarded before))

  module _ (codec : Codec) (text : Error → String) where
    -- Where the constructors of the libraries open at most the connection that they return, a Close
    -- closes its connection, and nothing else, the goroutines' work included, opens any: if
    -- initDependencies succeeds and main returns, in whatever order signals, the goroutines and main's
    -- steps follow one another, every connection that is open then was open before initDependencies.
    pub Run-Closed :
        (Works : Machine E → Machine E → Type 0)
        → ((m v : Machine E) (h : Handle P N T R)
            → Works m v
            → IsOpen v.outside h
            → IsOpen m.outside h)
        → (cfg : Config) (m m' : Machine E) (deps : Dependencies A (Machine E))
          (funcs : List (Resource P N T R)) {n : ℕ} {s : Runtime (Resource P N T R) (Machine E)}
        → init_dependencies o lib codec text cfg m ≡ (ok (deps, funcs), m')
        → Run (duties lib deps funcs) Works (launched m') n s
        → s.phase ≡ exited
        → (h : Handle P N T R) → IsOpen s.world.outside h
        → IsOpen m.outside h
    Run-Closed Works opens_nothing cfg m m' deps funcs {s} made r at_end h is_open =
        let H : Handle P N T R → Type 0 = λ g. IsOpen m.outside g in
        let ready : Ready lib t o H codec text (deps, funcs) m' =
          subst
            (λ (x : Result (Dependencies A (Machine E) × List (Resource P N T R)) × Machine E).
              OnOk (Ready lib t o H codec text) x.0 x.1)
            made ((init_dependencies-Triple lib t o H codec text cfg).run m (λ g x. x)) in
        let guarded : Guarded H deps funcs s.phase s.world =
          Run-Guarded H deps funcs ready.1 Works opens_nothing m' ready.0 r in
        elim ((subst (λ p. Guarded H deps funcs p s.world) at_end guarded) h is_open) [
          | inl before ↦ before
          | inr c ↦ elim c [ ]
        ]
