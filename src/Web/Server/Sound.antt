-- ===== src/Web/Server/Sound.antt =====
-- The invariant of the server's globals through every request and every round of its two loops.
use etcdlabs.Prelude.{
  ℕ, ◌≡◌, refl, subst, ◌∙◌, ◌==◌, ◌++◌, >>=-eq-ret, inl, inr, false, arith, Exec, ret, Exec-cases,
  Text, codes, text_eq, All, Bool-cases, length,
}
use etcdlabs.Prelude.Int.{ℤ}
use etcdlabs.Ratelimit.{RequestLimiter, advance}
use etcdlabs.Ratelimit.Decision.{HasInterval}
use etcdlabs.Cluster.Types.{Platform}
use etcdlabs.Cluster.Status.{FetchEvent, update_member_status}
use etcdlabs.Cluster.Hosts.{WellFormed}
use etcdlabs.Cluster.Hosts.Kept.{KeepsUrls, update_member_status-WellFormed}
use etcdlabs.Cluster.Election.{HasServer}
use etcdlabs.Cluster.Refresh.{refresh_from-HasServer}
use etcdlabs.Web.Identity.{hash_sha512, Library, generate_user_id, slice}
use etcdlabs.Web.Sessions.{visit, touch, clean, leave, get_user_ids}
use etcdlabs.Web.Sessions.Lifetime.{IsSound, visited, left_, touched, cleaned, Event-IsSound}
use etcdlabs.Web.Requests.{Backend}
use etcdlabs.Web.Requests.Handler.{client_request_handler}
use etcdlabs.Web.Requests.Change.{Change-WellFormed, Change-HasServer, Change-stopc}
use etcdlabs.Web.Requests.Effects.{Limited, Effect, client_request_handler-Effect}
use etcdlabs.Cluster.View.{all_member_status}
use etcdlabs.Web.Server.{World, Counter, client_request_interval, stop_restart_interval}
use etcdlabs.Web.Server.Routes.{
  Arrival, Response, serve_http, with_cache, connect_handler, server_status_handler, client_request,
  update_cluster_status, clean_cache, zero_status,
}

-- The cluster is well formed and runs, every member has a server, the user cache is sound, and the
-- limiters have their intervals.
pub record IsServing {L V : Type 0} (w : World L V) : Type 0 where
  pub cluster_ok : WellFormed w.backend.cluster
  pub has_servers : All HasServer w.backend.cluster.members
  pub still_open : w.backend.cluster.stopc_closed ≡ false
  pub users_ok : IsSound w.users
  pub client_ok : HasInterval client_request_interval w.backend.client_limiter
  pub node_ok : HasInterval stop_restart_interval w.backend.node_limiter

Limited-HasInterval :
    {L : Type 0} (n : ℕ) (rl rl' : RequestLimiter L)
    → HasInterval n rl
    → Limited rl rl'
    → HasInterval n rl'
unfolding advance
Limited-HasInterval n rl rl' v (inl same) = rw same v
Limited-HasInterval n rl rl' v (inr (now, moved)) =
    rw moved (record { interval_eq = v.interval_eq; scale_eq = v.scale_eq; fits = v.fits })

with_users :
    {L V : Type 0} (w w' : World L V)
    → IsServing w
    → w'.backend ≡ w.backend
    → IsSound w'.users
    → IsServing w'
with_users w w' s same u = record {
  cluster_ok = rw same s.cluster_ok;
  has_servers = rw same s.has_servers;
  still_open = rw same s.still_open;
  users_ok = u;
  client_ok = rw same s.client_ok;
  node_ok = rw same s.node_ok;
}

pub update_cluster_status-IsServing :
    {L V : Type 0} (p : Platform) (evs : ℕ → FetchEvent) (w : World L V)
    → IsServing w
    → IsServing (update_cluster_status p evs w)
unfolding update_cluster_status update_member_status
update_cluster_status-IsServing p evs w s = elim (Bool-cases (length w.users == 0)) [
  | inl nobody ↦ rw nobody s
  | inr some_ ↦ rw some_ (record {
    cluster_ok = update_member_status-WellFormed p evs w.backend.cluster s.cluster_ok;
    has_servers =
        refresh_from-HasServer p evs w.backend.cluster 0 w.backend.cluster.size
          w.backend.cluster.members s.has_servers;
    still_open = s.still_open;
    users_ok = s.users_ok;
    client_ok = s.client_ok;
    node_ok = s.node_ok;
  })
]

-- A request to the cluster keeps the rest.
Effect-IsServing :
    {L V : Type 0} (p : Platform) (q : Arrival) (w : World L V) (b : Backend L)
    → KeepsUrls q.event.restarted
    → Effect p q.event w.backend b
    → IsServing w
    → IsServing (record w { backend = b })
Effect-IsServing p q w b k f s = record {
  cluster_ok = Change-WellFormed p q.event w.backend.cluster b.cluster k s.cluster_ok f.change;
  has_servers = Change-HasServer p q.event w.backend.cluster b.cluster s.has_servers f.change;
  still_open = Change-stopc p q.event w.backend.cluster b.cluster f.change ∙ s.still_open;
  users_ok = s.users_ok;
  client_ok =
      Limited-HasInterval client_request_interval w.backend.client_limiter b.client_limiter
        s.client_ok f.client;
  node_ok =
      Limited-HasInterval stop_restart_interval w.backend.node_limiter b.node_limiter s.node_ok
        f.node;
}

module _ (lib : Library) (hashed : (s : Text) → length (hash_sha512 lib s) ≡ 88) where
  pub clean_cache-IsServing :
      {L V : Type 0} (now : ℕ) (w : World L V) → IsServing w → IsServing (clean_cache now w)
  unfolding clean_cache
  clean_cache-IsServing now w s =
      with_users w (record w { users = clean now w.users }) s refl
        (Event-IsSound lib hashed (cleaned now) s.users_ok)

  connect_handler-IsServing :
      {L V : Type 0} (q : Arrival) (id : Text) (w : World L V)
      → IsServing w
      → IsServing (connect_handler q id w).0
  unfolding connect_handler
  connect_handler-IsServing q id w s = elim (Bool-cases (text_eq q.method (codes "GET"))) [
    | inl get_ ↦ rw get_ s
    | inr n₁ ↦ elim (Bool-cases (text_eq q.method (codes "DELETE"))) [
      | inl delete_ ↦
          rw (n₁, delete_)
            (with_users w (record w { users = leave id w.users }) s refl
              (Event-IsSound lib hashed (left_ id) s.users_ok))
      | inr n₂ ↦ rw (n₁, n₂) s
    ]
  ]

-- A visit that `withCache` lets through.
visited_world :
    {L V : Type 0} (lib : Library) (q : Arrival) (w : World L V) (id : Text) (v : V)
    → ((s : Text) → length (hash_sha512 lib s) ≡ 88)
    → generate_user_id lib q.from ≡ ret id
    → IsServing w
    → IsServing (record w { visits = v; users = visit q.visited_at id w.users })
visited_world lib q w id v hashed g s =
    with_users w (record w { visits = v; users = visit q.visited_at id w.users }) s refl
      (Event-IsSound lib hashed (visited q.visited_at q.from id g) s.users_ok)

module _ (show_duration : ℤ → Text) (counter : Counter) where
  with_cache-inv :
      {L A : Type 0} (lib : Library) (q : Arrival)
      (handler : Text → World L counter.Sketch → Exec A) (w : World L counter.Sketch) (a : A)
      → with_cache show_duration counter lib q handler w ≡ ret a
      → (id : Text) × (v : counter.Sketch) × (generate_user_id lib q.from ≡ ret id)
        × (handler id (record w { visits = v; users = visit q.visited_at id w.users }) ≡ ret a)
  unfolding with_cache
  with_cache-inv lib q handler w a e =
      let (id, g, r) = >>=-eq-ret (generate_user_id lib q.from) _ e in
      let (hour, h, r') = >>=-eq-ret (slice q.time_text 0 13) _ r in
      (id, counter.insert_visit (id ++ hour) w.visits, g, r')

  server_status_handler-IsServing :
      {L : Type 0} (lib : Library) (p : Platform) (q : Arrival) (id : Text)
      (w w' : World L counter.Sketch) (resp : Response)
      → ((s : Text) → length (hash_sha512 lib s) ≡ 88)
      → IsServing w
      → server_status_handler show_duration counter p q id w ≡ ret (w', resp)
      → IsServing w'
  unfolding server_status_handler
  server_status_handler-IsServing lib p q id w w' resp hashed s e =
      elim (Bool-cases (text_eq q.method (codes "GET"))) [
        | inr other ↦ subst IsServing (ground (arith, other)) s
        | inl get_ ↦
            elim (Exec-cases (get_user_ids (q.range_order (touch q.touched_at id w.users).0))) [
              | inl x ↦ ground (arith, get_, x)
              | inr (masks, x) ↦
                  elim (Exec-cases (all_member_status zero_status w.backend.cluster)) [
                    | inl y ↦ ground (arith, get_, x, y)
                    | inr (statuses, y) ↦ subst IsServing (ground (arith, get_, x, y)) (
                        with_users w (record w { users = (touch q.touched_at id w.users).0 }) s refl
                          (Event-IsSound lib hashed (touched q.touched_at id) s.users_ok))
                  ]
            ]
      ]

  client_request-IsServing :
      {L : Type 0} (p : Platform) (q : Arrival) (w w' : World L counter.Sketch) (resp : Response)
      → KeepsUrls q.event.restarted
      → IsServing w
      → client_request show_duration counter p q w ≡ ret (w', resp)
      → IsServing w'
  unfolding client_request
  client_request-IsServing p q w w' resp k s e =
      let (done, h, r) =
        >>=-eq-ret
          (client_request_handler show_duration p (text_eq q.method (codes "POST")) q.event
            w.backend)
          _ e in
      let f =
        client_request_handler-Effect show_duration p (text_eq q.method (codes "POST")) q.event
          w.backend done.0 done.1 h in
      subst IsServing (ground (arith, r)) (Effect-IsServing p q w done.0 k f s)

  -- A request that returns, whatever its method, path and body, keeps the server's globals sound: a
  -- well-formed cluster that is open and all of whose members have servers, a sound user cache, and
  -- limiters of 3 and 5 seconds. Servers keep the client URLs that they are given, and a SHA-512 sum
  -- has 88 bytes in base64.
  pub serve_http-IsServing :
      {L : Type 0} (p : Platform) (lib : Library) (q : Arrival) (w w' : World L counter.Sketch)
      (resp : Response)
      → ((s : Text) → length (hash_sha512 lib s) ≡ 88)
      → KeepsUrls q.event.restarted
      → IsServing w
      → serve_http show_duration counter p lib q w ≡ ret (w', resp)
      → IsServing w'
  unfolding serve_http
  serve_http-IsServing p lib q w w' resp hashed k s e =
      elim (Bool-cases (text_eq q.path (codes "/health"))) [
        | inl y ↦ subst IsServing (ground (arith, y)) s
        | inr n₁ ↦ elim (Bool-cases (text_eq q.path (codes "/conn"))) [
          | inl y ↦
              let (id, v, g, r) =
                with_cache-inv lib q (λ id w₁. ret (connect_handler q id w₁)) w (w', resp)
                  (rw (n₁, y) at e) in
              subst IsServing (ground (arith, r)) (
                connect_handler-IsServing lib hashed q id _ (visited_world lib q w id v hashed g s))
          | inr n₂ ↦ elim (Bool-cases (text_eq q.path (codes "/server-status"))) [
            | inl y ↦
                let (id, v, g, r) =
                  with_cache-inv lib q (server_status_handler show_duration counter p q) w
                    (w', resp) (rw (n₁, n₂, y) at e) in
                server_status_handler-IsServing lib p q id _ w' resp hashed
                  (visited_world lib q w id v hashed g s) r
            | inr n₃ ↦ elim (Bool-cases (text_eq q.path (codes "/client-request"))) [
              | inl y ↦
                  let (id, v, g, r) =
                    with_cache-inv lib q (λ id w₁. client_request show_duration counter p q w₁) w
                      (w', resp) (rw (n₁, n₂, n₃, y) at e) in
                  client_request-IsServing p q _ w' resp k (visited_world lib q w id v hashed g s) r
              | inr n₄ ↦ subst IsServing (ground (arith, n₁, n₂, n₃, n₄)) s
            ]
          ]
        ]
      ]
