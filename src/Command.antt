-- ===== src/Command.antt =====
-- cmd/backend-web-server/main.go: `main` starts the web server, waits for a signal or for the server's
-- stop channel, and stops the server on its way out. Logging is left out.
use etcdlabs.Prelude.{
  ℕ, ◌≡◌, refl, Bool, true, Option, none, some, [], arith, Exec, ret, panics, ◌>>=◌, Text, length,
  if◌then◌else◌, Bool-cases, Exec-cases, inl, inr,
}
use etcdlabs.Prelude.Int.{ℤ}
use etcdlabs.Ratelimit.{Buckets}
use etcdlabs.Cluster.Types.{Outcome, good, fail, Platform}
use etcdlabs.Cluster.Member.{StartEvent}
use etcdlabs.Cluster.Build.{BuildEvent}
use etcdlabs.Cluster.Ops.{shutdown}
use etcdlabs.Cluster.View.{active_node_n}
use etcdlabs.Cluster.Hosts.Kept.{KeepsUrls}
use etcdlabs.Web.Identity.{hash_sha512, Library}
use etcdlabs.Web.Sessions.Lifetime.{IsSound}
use etcdlabs.Web.Server.{
  World, Server, Counter, first_root_port, start_server, stop_server, stop_notify,
}
use etcdlabs.Web.Server.Lifecycle.{Serves, start_server-IsServing, stop_server_lem}

-- The flag `web-port`, 2200 if it is not given.
unfoldable pub web_port : Option ℕ → ℕ
web_port none = 2200
web_port (some port) = port

-- The case of the `select` that `main` takes.
pub data Wake : Type 0 where
  signalled stop_notified : Wake

-- A case is taken only if its channel is ready; `StopNotify` is ready once it has been closed.
abbrev pub is_ready : Wake → Server → Bool
is_ready signalled srv = true
is_ready stop_notified srv = stop_notify srv

module _ (buckets : Buckets) (counter : Counter) where
  -- `served` is what the server does until `main` wakes up; the deferred `Stop` runs in both cases of
  -- the `select`. `none` says that `main` still waits.
  unfoldable pub main :
      Platform
      → BuildEvent
      → Outcome Text
      → Option ℕ
      → (Server
          → World buckets.Limiter counter.Sketch
          → Server × World buckets.Limiter counter.Sketch)
      → Wake
      → (ℕ → ℕ)
      → Exec (Option (Server × World buckets.Limiter counter.Sketch))
  unfolding web_port
  main p ev temp_dir flag served wake now =
      start_server buckets p ev temp_dir first_root_port (web_port flag) [] counter.new16
      >>= λ started. elim started [
        | none ↦ ret none
        | some (fail e) ↦ panics
        | some (good (srv, w)) ↦
            let (srv', w') = served srv w in
            let stopping = (stop_server p now srv' w' >>= λ r. ret (some r)) in
            if is_ready wake srv' then stopping else ret none
      ]

-- A server that has been stopped.
stopped_server :
    {L V : Type 0} (p : Platform) (earlier : ℕ → ℕ) (srv srv₂ : Server) (w w₂ : World L V)
    → srv.has_http_server ≡ true
    → stop_server p earlier srv w ≡ ret (srv₂, w₂)
    → (srv₂.stopc_closed ≡ true) × ((later : ℕ → ℕ) → stop_server p later srv₂ w₂ ≡ panics)
unfolding stop_server
stopped_server p earlier srv srv₂ w w₂ has e = elim (Bool-cases srv.stopc_closed) [
  | inl done ↦ ground (arith, has, done)
  | inr open_ ↦ elim (Exec-cases (shutdown p earlier w.backend.cluster)) [
    | inl q ↦ ground (arith, has, open_, q)
    | inr (clus, q) ↦
        let closed : srv₂.stopc_closed ≡ true = ground (arith, has, open_, q) in
        let there : srv₂.has_http_server ≡ true = ground (arith, has, open_, q) in
        (closed, λ later. ground (arith, closed, there))
  ]
]

is_ready-closed : (wake : Wake) (srv : Server) → srv.stopc_closed ≡ true → is_ready wake srv ≡ true
is_ready-closed signalled srv h = refl
is_ready-closed stop_notified srv h = h

-- Let `main` start the web server, and let the server serve any requests that return, status updates
-- and rounds of the cache cleaner until `main` wakes up. On a signal `main` returns, and no member of the
-- cluster runs. If something else stops the server before `main` wakes up, which `Stop` does without a
-- panic, then `main` panics in its deferred `Stop`, whichever case of the `select` it takes. Servers keep the client URLs that they
-- are given, and a SHA-512 sum has 88 bytes in base64.
pub main_lem :
    (show_duration : ℤ → Text) (buckets : Buckets) (counter : Counter) (p : Platform)
    (lib : Library) (Boots : StartEvent → Type 0) (ev : BuildEvent) (temp_dir : Outcome Text)
    (flag : Option ℕ) (srv : Server) (w w' : World buckets.Limiter counter.Sketch)
    (now earlier : ℕ → ℕ) (wake : Wake)
    → ((s : Text) → length (hash_sha512 lib s) ≡ 88)
    → ((start : StartEvent) → Boots start → KeepsUrls start)
    → ((j : ℕ) → Boots (ev.starts j))
    → start_server buckets p ev temp_dir first_root_port (web_port flag) [] counter.new16
      ≡ ret (some (good (srv, w)))
    → Serves show_duration counter p lib Boots w w'
    → (srv' : Server) × (down : World buckets.Limiter counter.Sketch) × (main buckets counter p ev
          temp_dir flag
          (λ s x. (s, w'))
          signalled
          now
        ≡ ret (some (srv', down)))
      × (active_node_n down.backend.cluster ≡ 0)
      × (srv₂ : Server) × (w₂ : World buckets.Limiter counter.Sketch) × (stop_server p earlier srv
            w'
          ≡ ret (srv₂, w₂))
      × (main buckets counter p ev temp_dir flag (λ s x. (srv₂, w₂)) wake now ≡ panics)
unfolding main
main_lem sd buckets counter p lib Boots ev temp_dir flag srv w w' now earlier wake hashed keeps
      boots e h =
    let stops = λ (t : ℕ → ℕ).
      stop_server_lem sd buckets counter p lib Boots ev temp_dir first_root_port (web_port flag) []
        counter.new16 srv w w' t hashed keeps boots no_users e h in
    let (srv', down, r, none_up, closed, again) = stops now in
    let (srv₂, w₂, s, none_left, shut, twice) = stops earlier in
    let (done, broken) =
      stopped_server p earlier srv srv₂ w' w₂
        (start_server-IsServing buckets p ev temp_dir first_root_port (web_port flag) []
          counter.new16 srv w (λ j. keeps (ev.starts j) (boots j)) no_users e).1
        s in
    (
      srv',
      down,
      rw (e, r) refl,
      none_up,
      srv₂,
      w₂,
      s,
      rw (e, is_ready-closed wake srv₂ done, broken now) refl,
    )
  where
    no_users : IsSound []
    no_users = record { keyed = tt; long = tt }
