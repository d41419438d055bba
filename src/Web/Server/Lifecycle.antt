-- ===== src/Web/Server/Lifecycle.antt =====
-- `StartServer`, everything that the server does while it runs, and `Stop`.
use etcdlabs.Prelude.{
  ap, ℕ, ◌≡◌, refl, inl, inr, true, false, none, some, arith, ret, panics, Exec-cases, Text, length,
}
use etcdlabs.Prelude.Int.{pos_part, ℤ}
use etcdlabs.Ratelimit.{Buckets, new_request_limiter}
use etcdlabs.Cluster.Types.{Outcome, good, fail, Platform, Cluster}
use etcdlabs.Cluster.Status.{FetchEvent}
use etcdlabs.Cluster.Member.{StartEvent}
use etcdlabs.Cluster.Build.{BuildEvent, start_cluster}
use etcdlabs.Cluster.View.{active_node_n, quorum, size_of}
use etcdlabs.Cluster.Hosts.Kept.{KeepsUrls}
use etcdlabs.Cluster.Launch.{start_cluster_lem}
use etcdlabs.Cluster.Shutdown.{shutdown_lem}
use etcdlabs.Web.Identity.{hash_sha512, Library}
use etcdlabs.Web.Sessions.{Sessions}
use etcdlabs.Web.Sessions.Lifetime.{IsSound}
use etcdlabs.Web.Server.{
  World, Server, Counter, start_server, start_playground, serve_cluster, new_server, stop_server,
  cluster_config,
}
use etcdlabs.Web.Server.Routes.{Arrival, Response, serve_http, update_cluster_status, clean_cache}
use etcdlabs.Web.Server.Sound.{
  IsServing, serve_http-IsServing, update_cluster_status-IsServing, clean_cache-IsServing,
}

module _ (buckets : Buckets) where
  start_server-inv :
      {V : Type 0} (p : Platform) (ev : BuildEvent) (temp_dir : Outcome Text) (root_port port : ℕ)
      (users : Sessions) (visits : V) (srv : Server) (w : World buckets.Limiter V)
      → start_server buckets p ev temp_dir root_port port users visits ≡ ret (some (good (srv, w)))
      → (dir : Text) × (clus : Cluster) × (start_cluster p ev (cluster_config dir root_port)
          ≡ ret (some (some clus, none)))
        × (w ≡ serve_cluster buckets port users visits clus)
        × (srv ≡ new_server buckets port)
  unfolding start_server start_playground
  start_server-inv p ev (fail t) root_port port users visits srv w e = ground arith
  start_server-inv p ev (good dir) root_port port users visits srv w e =
      elim (Exec-cases (start_cluster p ev (cluster_config dir root_port))) [
        | inl q ↦ ground (arith, q)
        | inr (none, q) ↦ ground (arith, q)
        | inr (some (clus, some t), q) ↦ ground (arith, q)
        | inr (some (none, none), q) ↦ ground (arith, q)
        | inr (some (some clus, none), q) ↦ (dir, clus, q, ground (arith, q), ground (arith, q))
      ]

  -- The server that `StartServer` returns, if it returns one, has not been stopped, its globals are
  -- sound, and its cluster has five members, three of which are a quorum. The user cache was sound
  -- before, and servers keep the client URLs that they are given.
  pub start_server-IsServing :
      {V : Type 0} (p : Platform) (ev : BuildEvent) (temp_dir : Outcome Text) (root_port port : ℕ)
      (users : Sessions) (visits : V) (srv : Server) (w : World buckets.Limiter V)
      → ((j : ℕ) → KeepsUrls (ev.starts j))
      → IsSound users
      → start_server buckets p ev temp_dir root_port port users visits ≡ ret (some (good (srv, w)))
      → IsServing w
        × (srv.has_http_server ≡ true)
        × (srv.stopc_closed ≡ false)
        × (size_of w.backend.cluster ≡ 5)
        × (quorum w.backend.cluster ≡ 3)
  unfolding size_of quorum new_server serve_cluster new_request_limiter cluster_config
  start_server-IsServing p ev temp_dir root_port port users visits srv w keeps u e =
      let (dir, clus, q, same, new) =
        start_server-inv p ev temp_dir root_port port users visits srv w e in
      let (v, o, n, a) = start_cluster_lem p ev (cluster_config dir root_port) clus keeps q in
      let five : length clus.members ≡ 5 = omega (arith, v.sized, ap pos_part n) in
      (
        rw same (record {
          cluster_ok = v;
          has_servers = a;
          still_open = o;
          users_ok = u;
          client_ok = record { interval_eq = refl; scale_eq = refl; fits = omega arith };
          node_ok = record { interval_eq = refl; scale_eq = refl; fits = omega arith };
        }),
        rw new refl,
        rw new refl,
        rw same five,
        rw (same, five) refl,
      )

-- What happens to the globals between `StartServer` and `Stop`: requests, and the rounds of the two
-- loops. `Boots` says which answers of etcd a restart may get.
pub data Serves (show_duration : ℤ → Text) (counter : Counter) (p : Platform) (lib : Library)
    (Boots : StartEvent → Type 0) {L : Type 0} (w : World L counter.Sketch)
    : World L counter.Sketch → Type 0 where
  started : Serves show_duration counter p lib Boots w w
  requested :
      {w₁ w₂ : World L counter.Sketch} (q : Arrival) (resp : Response)
      → Serves show_duration counter p lib Boots w w₁
      → Boots q.event.restarted
      → serve_http show_duration counter p lib q w₁ ≡ ret (w₂, resp)
      → Serves show_duration counter p lib Boots w w₂
  updated :
      {w₁ : World L counter.Sketch} (evs : ℕ → FetchEvent)
      → Serves show_duration counter p lib Boots w w₁
      → Serves show_duration counter p lib Boots w (update_cluster_status p evs w₁)
  cleaned_up :
      {w₁ : World L counter.Sketch} (now : ℕ)
      → Serves show_duration counter p lib Boots w w₁
      → Serves show_duration counter p lib Boots w (clean_cache now w₁)

Serves-IsServing :
    (show_duration : ℤ → Text) (counter : Counter) (p : Platform) (lib : Library)
    (Boots : StartEvent → Type 0)
    → ((s : Text) → length (hash_sha512 lib s) ≡ 88)
    → ((ev : StartEvent) → Boots ev → KeepsUrls ev)
    → {L : Type 0} {w w' : World L counter.Sketch} → IsServing w
    → Serves show_duration counter p lib Boots w w'
    → IsServing w'
Serves-IsServing sd counter p lib Boots hashed keeps v started = v
Serves-IsServing sd counter p lib Boots hashed keeps {L} {w} {w'} v (requested {w₁} q resp h k e) =
    serve_http-IsServing sd counter p lib q w₁ w' resp hashed (keeps q.event.restarted k)
      (Serves-IsServing sd counter p lib Boots hashed keeps v h) e
Serves-IsServing sd counter p lib Boots hashed keeps v (updated {w₁} evs h) =
    update_cluster_status-IsServing p evs w₁
      (Serves-IsServing sd counter p lib Boots hashed keeps v h)
Serves-IsServing sd counter p lib Boots hashed keeps v (cleaned_up {w₁} now h) =
    clean_cache-IsServing lib hashed now w₁
      (Serves-IsServing sd counter p lib Boots hashed keeps v h)

-- `Stop` of a server whose globals are sound.
stop_server_total :
    {L V : Type 0} (p : Platform) (now : ℕ → ℕ) (srv : Server) (w : World L V)
    → srv.has_http_server ≡ true
    → srv.stopc_closed ≡ false
    → IsServing w
    → (srv' : Server) × (w' : World L V) × (stop_server p now srv w ≡ ret (srv', w'))
      × (active_node_n w'.backend.cluster ≡ 0)
      × (srv'.donec_closed ≡ true)
      × ((later : ℕ → ℕ) → stop_server p later srv' w' ≡ panics)
unfolding stop_server
stop_server_total p now srv w h o v =
    let (clus, e, down, l, closed, done, removed, again) =
      shutdown_lem p now w.backend.cluster v.still_open v.cluster_ok.sized v.has_servers in
    (
      record srv { root_cancelled = true; stopc_closed = true; donec_closed = true },
      record w { backend = record (w.backend) { cluster = clus } },
      rw (h, o, e) refl,
      down,
      refl,
      λ later. rw h refl,
    )

-- Start the server, let it serve any requests that return, status updates and rounds of the cache
-- cleaner, in any order, and stop it: `Stop` returns, no member of the cluster runs, and a second
-- `Stop` panics. The user cache was sound before the start, servers keep the client URLs that they
-- are given, and a SHA-512 sum has 88 bytes in base64.
pub stop_server_lem :
    (show_duration : ℤ → Text) (buckets : Buckets) (counter : Counter) (p : Platform)
    (lib : Library) (Boots : StartEvent → Type 0) (ev : BuildEvent) (temp_dir : Outcome Text)
    (root_port port : ℕ) (users : Sessions) (visits : counter.Sketch) (srv : Server)
    (w w' : World buckets.Limiter counter.Sketch) (now : ℕ → ℕ)
    → ((s : Text) → length (hash_sha512 lib s) ≡ 88)
    → ((start : StartEvent) → Boots start → KeepsUrls start)
    → ((j : ℕ) → Boots (ev.starts j))
    → IsSound users
    → start_server buckets p ev temp_dir root_port port users visits ≡ ret (some (good (srv, w)))
    → Serves show_duration counter p lib Boots w w'
    → (srv' : Server) × (down : World buckets.Limiter counter.Sketch) × (stop_server p now srv w'
        ≡ ret (srv', down))
      × (active_node_n down.backend.cluster ≡ 0)
      × (srv'.donec_closed ≡ true)
      × ((later : ℕ → ℕ) → stop_server p later srv' down ≡ panics)
stop_server_lem sd buckets counter p lib Boots ev temp_dir root_port port users visits srv w w' now
      hashed keeps boots u e h =
    let (v, has, o, five, three) =
      start_server-IsServing buckets p ev temp_dir root_port port users visits srv w
        (λ j. keeps (ev.starts j) (boots j)) u e in
    stop_server_total p now srv w' has o (Serves-IsServing sd counter p lib Boots hashed keeps v h)
