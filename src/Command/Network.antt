-- ===== src/Command/Network.antt =====
-- Libraries that remember which of their connections are open.
use argus_go.Base.{Bool, true, false, [], Result, ok, err, ◌≡◌, ◌⊎◌, inl, inr, refl, raise, pure}
use argus_go.Base.Effect.{external}
use argus_go.Postgres.{Pool}
use argus_go.Command.{Machine, Platform}
use argus_go.Command.Connections.{Handle, pool, client, writer, reader, IsTracked}

pub record Network : Type 0 where
  pub old_pool_open : Bool
  pub pool_open : Bool
  pub client_open : Bool
  pub writer_open : Bool
  pub reader_open : Bool

abbrev pub Process : Type 0
Process = Machine Network

abbrev changed : (Network → Network) → Process → Process
changed f m = record m { outside = f m.outside }

-- `true` is the pool that main makes, `false` one that another program holds.
abbrev close_pool : Bool → Network → Network
close_pool true n = record n { pool_open = false }
close_pool false n = record n { old_pool_open = false }

abbrev no_rows : {Row : Type 0} → Pool Row Process
no_rows = record {
  exec = λ text args. raise (external "unused");
  query_row = λ text args. raise (external "unused");
  query = λ text args. raise (external "unused");
  count = λ text args. raise (external "unused");
}

abbrev pub platform : Platform Unit Bool Unit Unit Unit Unit Unit Process
platform = record {
  pgx = record {
    parse_config = λ s. ok tt;
    with_limits = λ c l. tt;
    new_with_config = λ c m. (ok true, changed (λ n. record n { pool_open = true }) m);
    ping = λ p m. (ok tt, m);
    exec = λ p s m. (ok 0, m);
    close = λ p m. changed (close_pool p) m;
  };
  alert_rows = λ p. no_rows;
  event_manager_rows = λ p. no_rows;
  grouping_rule_rows = λ p. no_rows;
  redis = record {
    new_client = λ options m. (tt, changed (λ n. record n { client_open = true }) m);
    ping = λ c m. (ok tt, m);
    close = λ c m. (ok tt, changed (λ n. record n { client_open = false }) m);
  };
  commands = λ c. record {
    get = λ k. raise (external "unused");
    set = λ k v ttl. raise (external "unused");
    del = λ k. raise (external "unused");
    s_add = λ k x. raise (external "unused");
    s_rem = λ k x. raise (external "unused");
    s_members = λ k. raise (external "unused");
    s_card = λ k. raise (external "unused");
  };
  state_codec = record {
    parent = record { marshal = λ a. ok tt; unmarshal = λ b. err (external "unused") };
    alert = record { marshal = λ a. ok tt; unmarshal = λ b. err (external "unused") };
    pending = record { marshal = λ a. ok tt; unmarshal = λ b. err (external "unused") };
  };
  kafka = record {
    new_writer = λ config m. (tt, changed (λ n. record n { writer_open = true }) m);
    close_writer = λ t m. (ok tt, changed (λ n. record n { writer_open = false }) m);
    new_reader = λ config m. (tt, changed (λ n. record n { reader_open = true }) m);
    close_reader = λ r m. (ok tt, changed (λ n. record n { reader_open = false }) m);
  };
  write_messages = λ t msg. pure tt;
  rounds = λ r. [];
  header_order = λ m. m;
  conversions = record { bytes = λ s. []; text = λ l. "" };
  fiber = record {
    new = λ config. tt;
    add_middleware = λ m app. app;
    add_route = λ r app. app;
    listen = λ app address. pure tt;
    shutdown_with_context = λ app. pure tt;
  };
}

abbrev pub IsOpen : Network → Handle Bool Unit Unit Unit → Type 0
IsOpen n (pool true) = n.pool_open ≡ true
IsOpen n (pool false) = n.old_pool_open ≡ true
IsOpen n (client c) = n.client_open ≡ true
IsOpen n (writer t) = n.writer_open ≡ true
IsOpen n (reader r) = n.reader_open ≡ true

pool_made :
    (m : Process) (h : Handle Bool Unit Unit Unit)
    → IsOpen (record m.outside { pool_open = true }) h
    → IsOpen m.outside h ⊎ ((p : Bool) × (◌≡◌ {A = Result Bool} (ok true) (ok p)) × (h ≡ pool p))
pool_made m (pool true) e = inr (true, refl, refl)
pool_made m (pool false) e = inl e
pool_made m (client c) e = inl e
pool_made m (writer w) e = inl e
pool_made m (reader r) e = inl e

client_made :
    (m : Process) (h : Handle Bool Unit Unit Unit)
    → IsOpen (record m.outside { client_open = true }) h
    → IsOpen m.outside h ⊎ (h ≡ client tt)
client_made m (pool true) e = inl e
client_made m (pool false) e = inl e
client_made m (client c) e = inr refl
client_made m (writer w) e = inl e
client_made m (reader r) e = inl e

writer_made :
    (m : Process) (h : Handle Bool Unit Unit Unit)
    → IsOpen (record m.outside { writer_open = true }) h
    → IsOpen m.outside h ⊎ (h ≡ writer tt)
writer_made m (pool true) e = inl e
writer_made m (pool false) e = inl e
writer_made m (client c) e = inl e
writer_made m (writer w) e = inr refl
writer_made m (reader r) e = inl e

reader_made :
    (m : Process) (h : Handle Bool Unit Unit Unit)
    → IsOpen (record m.outside { reader_open = true }) h
    → IsOpen m.outside h ⊎ (h ≡ reader tt)
reader_made m (pool true) e = inl e
reader_made m (pool false) e = inl e
reader_made m (client c) e = inl e
reader_made m (writer w) e = inl e
reader_made m (reader r) e = inr refl

pool_kept :
    (p : Bool) (m : Process) (h : Handle Bool Unit Unit Unit)
    → IsOpen (close_pool p m.outside) h
    → IsOpen m.outside h
pool_kept true m (pool true) e = cc
pool_kept true m (pool false) e = e
pool_kept false m (pool true) e = e
pool_kept false m (pool false) e = cc
pool_kept true m (client c) e = e
pool_kept false m (client c) e = e
pool_kept true m (writer w) e = e
pool_kept false m (writer w) e = e
pool_kept true m (reader r) e = e
pool_kept false m (reader r) e = e

pool_shut : (p : Bool) (m : Process) → ¬ IsOpen (close_pool p m.outside) (pool p)
pool_shut true m e = cc
pool_shut false m e = cc

client_kept :
    (m : Process) (h : Handle Bool Unit Unit Unit)
    → IsOpen (record m.outside { client_open = false }) h
    → IsOpen m.outside h
client_kept m (pool true) e = e
client_kept m (pool false) e = e
client_kept m (client c) e = cc
client_kept m (writer w) e = e
client_kept m (reader r) e = e

writer_kept :
    (m : Process) (h : Handle Bool Unit Unit Unit)
    → IsOpen (record m.outside { writer_open = false }) h
    → IsOpen m.outside h
writer_kept m (pool true) e = e
writer_kept m (pool false) e = e
writer_kept m (client c) e = e
writer_kept m (writer w) e = cc
writer_kept m (reader r) e = e

reader_kept :
    (m : Process) (h : Handle Bool Unit Unit Unit)
    → IsOpen (record m.outside { reader_open = false }) h
    → IsOpen m.outside h
reader_kept m (pool true) e = e
reader_kept m (pool false) e = e
reader_kept m (client c) e = e
reader_kept m (writer w) e = e
reader_kept m (reader r) e = cc

pub platform-IsTracked : IsTracked platform IsOpen
platform-IsTracked = record {
  new_with_config = λ c m h e. pool_made m h e;
  ping_pool = λ p m h e. e;
  exec = λ p s m h e. e;
  close_pool = λ p m h e. pool_kept p m h e;
  pool_closed = pool_shut;
  new_client = λ options m h e. client_made m h e;
  ping_client = λ n m h e. e;
  close_client = λ n m h e. client_kept m h e;
  client_closed = λ n m e. cc;
  new_writer = λ config m h e. writer_made m h e;
  close_writer = λ t m h e. writer_kept m h e;
  writer_closed = λ t m e. cc;
  new_reader = λ config m h e. reader_made m h e;
  close_reader = λ r m h e. reader_kept m h e;
  reader_closed = λ r m e. cc;
  shutdown = λ app m h e. e;
}
