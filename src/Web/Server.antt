-- ===== src/Web/Server.antt =====
-- backend/web/server.go: the globals, `startCluster`, `StartServer` and `Stop`; `Routes` has the
-- handlers behind the server's four paths.
pub mod Routes
pub mod Sound
pub mod Lifecycle
use etcdlabs.Prelude.{
  ℕ, ◌+◌, Bool, true, false, Option, none, some, [], Exec, ret, panics, ◌>>=◌, Text, if◌then◌else◌,
}
use etcdlabs.Prelude.Int.{pos}
use etcdlabs.Ratelimit.{Buckets, new_request_limiter}
use etcdlabs.Cluster.Types.{Outcome, good, fail, Platform, TlsInfo, Config, Cluster}
use etcdlabs.Cluster.Build.{BuildEvent, start_cluster, host_port, localhost}
use etcdlabs.Cluster.Ops.{shutdown}
use etcdlabs.Web.Sessions.{Sessions}
use etcdlabs.Web.Requests.{Backend}

-- What the program uses of `hyperloglog`: `New16`, `Insert` and `Estimate`.
pub record Counter : Type 1 where
  pub Sketch : Type 0
  pub new16 : Sketch
  pub insert_visit : Text → Sketch → Sketch
  pub estimate : Sketch → ℕ

-- The globals of the package while the server runs.
pub record World (L V : Type 0) : Type 0 where
  pub web_port : ℕ
  pub backend : Backend L
  pub users : Sessions
  pub visits : V

-- `Server`: whether `httpServer` is set, and what has happened to its channels and its context.
pub record Server : Type 0 where
  pub addr : Text
  pub has_http_server : Bool
  pub root_cancelled : Bool
  pub stopc_closed : Bool
  pub donec_closed : Bool

-- `transport.TLSInfo{}`
abbrev pub no_tls_info : TlsInfo
no_tls_info = record { is_empty = true; client_config = fail [] }

-- `rootPort` before the first server.
abbrev pub first_root_port : ℕ
first_root_port = 2389

-- The configuration that `startCluster` builds.
unfoldable pub cluster_config : Text → ℕ → Config
cluster_config dir port = record {
  size = pos 5;
  root_dir = dir;
  root_port = port;
  embedded_client = true;
  peer_tls_info = no_tls_info;
  peer_auto_tls = false;
  client_tls_info = no_tls_info;
  client_auto_tls = false;
  dial_timeout = pos 0;
}

-- `startCluster` with the port that `rootPort` holds: the next `rootPort`, and what `cluster.Start`
-- answers, or the error of `ioutil.TempDir`.
unfoldable pub start_playground :
    Platform → BuildEvent → Outcome Text → ℕ → ℕ × Exec (Option (Option Cluster × Option Text))
unfolding cluster_config
start_playground p ev temp_dir root_port = (
  root_port + 10,
  elim temp_dir [
    | fail e ↦ ret (some (none, some e))
    | good dir ↦ start_cluster p ev (cluster_config dir root_port)
  ],
)

-- 3 and 5 seconds.
abbrev pub client_request_interval : ℕ
client_request_interval = 3_000_000_000

abbrev pub stop_restart_interval : ℕ
stop_restart_interval = 5_000_000_000

module _ (buckets : Buckets) where
  open buckets use {Limiter}

  -- The globals behind a cluster that has started. The user cache and the visits outlive a server,
  -- so they are handed on.
  unfoldable pub serve_cluster : {V : Type 0} → ℕ → Sessions → V → Cluster → World Limiter V
  serve_cluster port users visits clus = record {
    web_port = port;
    backend = record {
      client_limiter = new_request_limiter buckets (pos client_request_interval);
      node_limiter = new_request_limiter buckets (pos stop_restart_interval);
      cluster = clus;
    };
    users = users;
    visits = visits;
  }

  -- `http.Server` and its goroutine, which runs until the server is closed.
  unfoldable pub new_server : ℕ → Server
  new_server port = record {
    addr = host_port localhost port;
    has_http_server = true;
    root_cancelled = false;
    stopc_closed = false;
    donec_closed = false;
  }

  -- `StartServer`: `none` inside `ret` means that the cluster still waits for a leader when the
  -- events end.
  unfoldable pub start_server :
      {V : Type 0}
      → Platform
      → BuildEvent
      → Outcome Text
      → ℕ
      → ℕ
      → Sessions
      → V
      → Exec (Option (Outcome (Server × World Limiter V)))
  unfolding start_playground serve_cluster new_server
  start_server p ev temp_dir root_port port users visits = do
    started ← (start_playground p ev temp_dir root_port).1
    elim started [
      | none ↦ ret none
      | some (clus, some e) ↦ ret (some (fail e))
      | some (none, none) ↦ panics
      | some (some clus, none) ↦
          ret (some (good (new_server port, serve_cluster port users visits clus)))
    ]

-- `StopNotify`: whether the channel that it returns has been closed.
abbrev pub stop_notify : Server → Bool
stop_notify srv = srv.stopc_closed

-- `(srv *Server) Stop()` of a server whose cluster runs. Closing the closed channel `stopc` panics;
-- otherwise the goroutine of the server cancels the root context and closes `donec`, and then the
-- cluster is shut down.
unfoldable pub stop_server :
    {L V : Type 0} → Platform → (ℕ → ℕ) → Server → World L V → Exec (Server × World L V)
stop_server p now srv w =
    if srv.has_http_server
    then if srv.stopc_closed
      then panics
      else (shutdown p now w.backend.cluster >>= λ clus. ret (
        record srv { root_cancelled = true; stopc_closed = true; donec_closed = true },
        record w { backend = record (w.backend) { cluster = clus } },
      ))
    else ret (srv, w)
