-- ===== src/Api/Traffic.antt =====
-- Requests and messages in any order: the whole service in memory mode, with one consumer.
use argus_go.Base.{ℕ, ◌≤◌, List, Option, ◌≡◌, arith, Error, String}
use argus_go.Domain.{InternalEvent}
use argus_go.Queue.{Message}
use argus_go.Queue.Memory.{new_queue, MemoryQueue, receive, received}
use argus_go.Processor.{handle_message}
use argus_go.Processor.World.{World, Outside, service, init}
use argus_go.Processor.Invariant.{IsConsistent}
use argus_go.Processor.Kept.{Inv, Distinct}
use argus_go.Processor.Reachable.{start, Reach-Inv, message-Inv}
use argus_go.Ingest.{Codec}
use argus_go.Ingest.World.{System, RequestContext}
use argus_go.Api.World.{Request, serve}
use argus_go.Api.Spares.{Spares, serve-Spares}

fresh_later :
    (o : Outside) (w : World) (n : ℕ)
    → w.used ≤ n
    → IsConsistent o.uuid w.states w.repo w.used
    → IsConsistent o.uuid w.states w.repo n
fresh_later o w n le v = record {
  index = v.index;
  coherent = v.coherent;
  fresh = λ m h. v.fresh m (omega arith);
  shaped = v.shaped;
  linked = v.linked;
  entries = v.entries;
  pending = v.pending;
}

Spares-Inv : {o : Outside} {w u : World} → Spares w u → Inv o w → Inv o u
Spares-Inv {o} {w} {u} sp v = record {
  consistent = rw (sp.states, sp.repo) (fresh_later o w u.used sp.used v.consistent);
  counted = rw sp.repo v.counted;
  waiting = rw sp.repo v.waiting;
}

module _ (o : Outside) (text : Error → String) (c : Codec)
    (unmarshal : List ℕ → Option InternalEvent) where
  -- The API answers a request, or the processor takes a message from the queue and handles it.
  pub data Step : System → System → Type 0 where
    request :
        {s : System} (r : Request) (ctx : RequestContext)
        → Step s (serve o text c r (record s { request = ctx })).1
    process :
        {s : System} (msg : Message) (q : MemoryQueue)
        → receive s.queue ≡ received msg q
        → Step s
            (record s { world = (handle_message (service o) unmarshal msg s.world).1; queue = q })

  pub data Traffic (n : ℕ) : System → Type 0 where
    idle :
        (ctx : RequestContext)
        → Traffic n (record { world = init; queue = new_queue n; request = ctx })
    next : {s t : System} → Traffic n s → Step s t → Traffic n t

  module _ (distinct : Distinct o) where
    Step-Inv : {s t : System} → Step s t → Inv o s.world → Inv o t.world
    Step-Inv {s} (request r ctx) v =
        Spares-Inv (serve-Spares o text c r (record s { request = ctx })) v
    Step-Inv (process msg q taken) v = message-Inv o unmarshal distinct msg v

    -- Where no UUID comes twice: however requests to the API, valid or not, and handled messages
    -- follow one another, the invariant of the processor holds in every world that they lead to,
    -- starting with empty stores and an empty queue of any size.
    pub Traffic-Inv : {n : ℕ} {s : System} → Traffic n s → Inv o s.world
    Traffic-Inv (idle ctx) = Reach-Inv o unmarshal distinct start
    Traffic-Inv (next t st) = Step-Inv st (Traffic-Inv t)
