-- ===== src/Command/Wired.antt =====
-- In memory mode, the processor that `initDependencies` of cmd/argus/main.go makes is the one of
-- Processor.World.
use argus_go.Base.{ℕ, String, true, Option, List, [], ◌∷◌, Result, ok, err, Error, Eff, ◌≡◌, refl}
use argus_go.Base.Effect.{resume}
use argus_go.Config.{Config, use_memory}
use argus_go.Domain.{Time, InternalEvent}
use argus_go.Ingest.{Codec}
use argus_go.Queue.{Message}
use argus_go.Processor.{Service, handle_message}
use argus_go.Processor.World.{World, Outside, service}
use argus_go.Processor.Beside.{Good}
use argus_go.Processor.Beside.Calls.{Any, any-Good}
use argus_go.Processor.Beside.Alike.{Relation, IsSimulation, Alike}
use argus_go.Processor.Beside.Handlers.{handle_decoded-Same}
use argus_go.Command.{
  Machine, Platform, Resource, Dependencies, in_memory_states, in_memory_queue, new_memory,
  world_part, memory_wiring, init_dependencies, wired,
}

-- What an action of the world does, to the whole process.
abbrev pub lifted : {E A : Type 0} → Machine E → Result A × World → Result A × Machine E
lifted m (r, w) = (r, world_part.set w m)

record Lifts {E A : Type 0} (o : Outside) (Q : A → Type 0) (m : Eff (Machine E) A)
    (n : (ℕ → Time) → Eff World A) : Type 0 where
  run : (x : Machine E) → m x ≡ lifted x (n o.clock x.system.world)
  good : (w : World) → Good Q (n o.clock w).0

abbrev lifting : {E : Type 0} → Outside → Relation (Machine E)
lifting o A Q m n = Lifts o Q m n

resume-lifted :
    {E A B : Type 0} (o : Outside) (Q : A → Type 0) (P : B → Type 0) (f : A → Eff (Machine E) B)
    (g : (ℕ → Time) → A → Eff World B) (x : Machine E) (r : Result A) (w : World)
    → Good Q r
    → ((a : A) → Q a → Lifts o P (f a) (λ clock. g clock a))
    → resume f r (world_part.set w x) ≡ lifted x (resume (g o.clock) r w)
resume-lifted o Q P f g x (ok a) w good rest = (rest a good).run (world_part.set w x)
resume-lifted o Q P f g x (err e) w good rest = refl

resume-Good :
    {E A B : Type 0} (o : Outside) (Q : A → Type 0) (P : B → Type 0) (f : A → Eff (Machine E) B)
    (g : (ℕ → Time) → A → Eff World B) (r : Result A) (w : World)
    → Good Q r
    → ((a : A) → Q a → Lifts o P (f a) (λ clock. g clock a))
    → Good P (resume (g o.clock) r w).0
resume-Good o Q P f g (ok a) w good rest = (rest a good).good w
resume-Good o Q P f g (err e) w good rest = tt

lifting-IsSimulation : {E : Type 0} (o : Outside) → IsSimulation (lifting {E = E} o)
lifting-IsSimulation o = record {
  returns = λ a q. record { run = λ x. refl; good = λ w. q };
  raises = λ e. record { run = λ x. refl; good = λ w. tt };
  binds = λ {A} {B} {Q} {P} m n f g first rest. record {
    run = λ x. rw (first.run x) (
        resume-lifted o Q P f g x (n o.clock x.system.world).0 (n o.clock x.system.world).1
          (first.good x.system.world) rest);
    good = λ w. resume-Good o Q P f g (n o.clock w).0 (n o.clock w).1 (first.good w) rest;
  };
  attempts = λ m n first. record { run = λ x. rw (first.run x) refl; good = first.good };
}

module _ {E A : Type 0} (o : Outside) where
  -- A call that the wiring lifts as it is.
  direct :
      (m : Eff (Machine E) A) (n : (ℕ → Time) → Eff World A)
      → ((x : Machine E) → m x ≡ lifted x (n o.clock x.system.world))
      → Lifts o Any m n
  direct m n e = record { run = e; good = λ w. any-Good (n o.clock w).0 }

module _ {C P N B T R A E : Type 0} (o : Outside) (lib : Platform C P N B T R A (Machine E))
    (codec : Codec) (text : Error → String) (cfg : Config) where
  abbrev memory_service : Service (Machine E)
  unfolding wired
  memory_service = (wired o lib codec text cfg (memory_wiring o)).processor.service

  memory_service-Alike : Alike (lifting o) Any Any memory_service (λ clock. service o)
  unfolding memory_service
  memory_service-Alike = record {
    recent = λ p any. tt;
    now = direct o _ _ (λ x. refl);
    new_id = direct o _ _ (λ x. refl);
    get_parent = λ em key value. direct o _ _ (λ x. refl);
    set_parent = λ em key value p ttl any. direct o _ _ (λ x. refl);
    get_alert = λ k. direct o _ _ (λ x. refl);
    set_alert = λ a. direct o _ _ (λ x. refl);
    add_child = λ p k. direct o _ _ (λ x. refl);
    get_pending_resolve = λ k. direct o _ _ (λ x. refl);
    set_pending_resolve = λ k p any. direct o _ _ (λ x. refl);
    delete_pending_resolve = λ k. direct o _ _ (λ x. refl);
    create = λ a. direct o _ _ (λ x. refl);
    update = λ a. direct o _ _ (λ x. refl);
    get_by_dedup_key = λ k. direct o _ _ (λ x. refl);
    count_active_children = λ k. direct o _ _ (λ x. refl);
    event_manager = λ id. direct o _ _ (λ x. refl);
    grouping_rule = λ id. direct o _ _ (λ x. refl);
    notify_new_parent = λ a em. direct o _ _ (λ x. refl);
    notify_resolved = λ a em. direct o _ _ (λ x. refl);
  }

  -- Where the configuration asks for memory mode, initDependencies succeeds, and its processor handles
  -- every message, at any moment of the process, as the processor over the in-memory stores does: it
  -- returns the same result, does the same to the stores, and leaves the queue and all that is outside
  -- of the process alone.
  pub init_dependencies-memory :
      (unmarshal : List ℕ → Option InternalEvent) (msg : Message) (m x : Machine E)
      → use_memory cfg.storage ≡ true
      → (deps : Dependencies A (Machine E)) × (funcs : List (Resource P N T R)) × (m' : Machine E)
        × (init_dependencies o lib codec text cfg m ≡ (ok (deps, funcs), m'))
        × (handle_message deps.processor.service unmarshal msg x
            ≡ lifted x (handle_message (service o) unmarshal msg x.system.world))
  unfolding init_dependencies handle_message memory_service
  init_dependencies-memory unmarshal msg m x in_memory = (
    wired o lib codec text cfg (memory_wiring o),
    in_memory_states ∷ in_memory_queue ∷ [],
    new_memory 10000 m,
    rw in_memory refl,
    (handle_decoded-Same (lifting o) Any Any memory_service (λ clock. service o)
          (lifting-IsSimulation o) memory_service-Alike (unmarshal msg.value)).run
        x,
  )
