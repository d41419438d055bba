-- ===== src/Web/Requests/Effects.antt =====
-- What a request does to the cluster, whatever its body says.
use etcdlabs.Prelude.{
  ℕ, ◌+◌, ◌≤◌, ◌≡◌, ap, subst, inl, inr, Bool, true, false, arith, Exec, ret, Exec-cases, Text,
  codes, text_eq, Bool-cases, Option-cases,
}
use etcdlabs.Prelude.Int.{ℤ}
use etcdlabs.Prelude.{List-cases}
use etcdlabs.Ratelimit.{check, advance}
use etcdlabs.Cluster.Types.{Outcome-cases, Platform, Cluster}
use etcdlabs.Cluster.View.{find_index, quorum, active_node_n}
use etcdlabs.Cluster.Hosts.{WellFormed}
use etcdlabs.Cluster.Hosts.Kept.{KeepsUrls}
use etcdlabs.Web.Requests.{
  ClientResponse, Reply, Backend, RequestEvent, write, stress, delete, get, stop_node, restart_node,
}
use etcdlabs.Web.Requests.Handler.{
  reading, limited, dispatch, serve_body, client_request_handler, blank, escaped,
}
use etcdlabs.Ratelimit.{RequestLimiter}
use etcdlabs.Prelude.{◌⊎◌}
use etcdlabs.Web.Requests.Change.{
  Change, kept, stop_node-Change, restart_node-Change, Change-WellFormed, Change-quorum,
}

-- A limiter stays, or its last request moves.
abbrev pub Limited : {L : Type 0} → RequestLimiter L → RequestLimiter L → Type 0
Limited rl rl' = (rl' ≡ rl) ⊎ ((now : ℕ) × (rl' ≡ advance now rl))

-- What a request may do to the globals.
pub record Effect {L : Type 0} (p : Platform) (ev : RequestEvent) (b b' : Backend L) : Type 0 where
  pub change : Change p ev b.cluster b'.cluster
  pub client : Limited b.client_limiter b'.client_limiter
  pub node : Limited b.node_limiter b'.node_limiter

unchanged :
    {L : Type 0} (p : Platform) (ev : RequestEvent) (b b' : Backend L) → b' ≡ b → Effect p ev b b'
unchanged p ev b b' e = record {
  change = kept (ap (λ c. c.cluster) e);
  client = inl (ap (λ c. c.client_limiter) e);
  node = inl (ap (λ c. c.node_limiter) e);
}

advanced_again :
    {L : Type 0} (t : ℕ) (rl rl' : RequestLimiter L)
    → Limited (advance t rl) rl'
    → (now : ℕ) × (rl' ≡ advance now rl)
unfolding advance
advanced_again t rl rl' (inl same) = (t, same)
advanced_again t rl rl' (inr (now, moved)) = (now, moved)

reading-Effect :
    {L : Type 0} (p : Platform) (ev : RequestEvent) (b b' : Backend L) (act : Exec ClientResponse)
    (reply : Reply)
    → reading b act ≡ ret (b', reply)
    → Effect p ev b b'
unfolding reading
reading-Effect p ev b b' act reply e = elim (Exec-cases act) [
  | inl x ↦ ground (arith, x)
  | inr (r, x) ↦ unchanged p ev b b' (ground (arith, x))
]

module _ (show_duration : ℤ → Text) where
  limited-Effect :
      {L : Type 0} (p : Platform) (ev : RequestEvent) (name : Text)
      (act : Cluster → ClientResponse → Exec (Cluster × ClientResponse)) (b b' : Backend L)
      (r : ClientResponse) (reply : Reply)
      → ((d : Cluster) (r' : ClientResponse)
          → act b.cluster r ≡ ret (d, r')
          → Change p ev b.cluster d)
      → limited show_duration name act ev b r ≡ ret (b', reply)
      → Effect p ev b b'
  unfolding limited
  limited-Effect p ev name act b b' r reply keeps e =
      elim (Exec-cases (check show_duration ev.node_select ev.node_at b.node_limiter)) [
        | inl x ↦ ground (arith, x)
        | inr ((msg, false), x) ↦ unchanged p ev b b' (ground (arith, x))
        | inr ((msg, true), x) ↦ elim (Exec-cases (act b.cluster r)) [
          | inl y ↦ ground (arith, x, y)
          | inr ((d, r'), y) ↦
              let same : d ≡ b'.cluster = ground (arith, x, y) in
              record {
                change = subst (Change p ev b.cluster) same (keeps d r' y);
                client = inl (ground (arith, x, y));
                node = inr (ev.node_advanced, ground (arith, x, y));
              }
        ]
      ]

  dispatch-Effect :
      {L : Type 0} (p : Platform) (ev : RequestEvent) (idx : ℕ) (b b' : Backend L)
      (r : ClientResponse) (reply : Reply)
      → dispatch show_duration p ev idx b r ≡ ret (b', reply)
      → Effect p ev b b'
  unfolding dispatch
  dispatch-Effect p ev idx b b' r reply e =
      let action = r.client_request.action in
      elim (Bool-cases (text_eq action (codes "write"))) [
        | inl y ↦ reading-Effect p ev b b' (write p ev b.cluster r) reply (rw y at e)
        | inr n₁ ↦ elim (Bool-cases (text_eq action (codes "stress"))) [
          | inl y ↦ reading-Effect p ev b b' (stress p ev b.cluster r) reply (rw (n₁, y) at e)
          | inr n₂ ↦ elim (Bool-cases (text_eq action (codes "delete"))) [
            | inl y ↦ reading-Effect p ev b b' (delete p ev b.cluster r) reply (rw (n₁, n₂, y) at e)
            | inr n₃ ↦ elim (Bool-cases (text_eq action (codes "get"))) [
              | inl y ↦
                  reading-Effect p ev b b' (get p ev b.cluster r) reply (rw (n₁, n₂, n₃, y) at e)
              | inr n₄ ↦ elim (Bool-cases (text_eq action (codes "stop-node"))) [
                | inl y ↦
                    limited-Effect p ev (codes "'stop-node'") (stop_node p ev idx) b b' r reply
                      (λ d r' q. stop_node-Change p ev idx b.cluster d r r' q)
                      (rw (n₁, n₂, n₃, n₄, y) at e)
                | inr n₅ ↦ elim (Bool-cases (text_eq action (codes "restart-node"))) [
                  | inl y ↦
                      limited-Effect p ev (codes "'restart-node'") (restart_node p ev idx) b b' r
                        reply (λ d r' q. restart_node-Change p ev idx b.cluster d r r' q)
                        (rw (n₁, n₂, n₃, n₄, n₅, y) at e)
                  | inr n₆ ↦ unchanged p ev b b' (ground (arith, n₁, n₂, n₃, n₄, n₅, n₆))
                ]
              ]
            ]
          ]
        ]
      ]

  serve_body-Effect :
      {L : Type 0} (p : Platform) (ev : RequestEvent) (b b' : Backend L) (reply : Reply)
      → serve_body show_duration p ev b ≡ ret (b', reply)
      → Effect p ev b b'
  unfolding serve_body
  serve_body-Effect p ev b b' reply e = elim (Outcome-cases ev.body) [
    | inr (t, x) ↦ unchanged p ev b b' (ground (arith, x))
    | inl (q, x) ↦ elim (List-cases q.endpoints) [
      | inl none_ ↦ unchanged p ev b b' (ground (arith, x, none_))
      | inr (ep, eps, some_) ↦ elim (Option-cases (find_index p ep b.cluster)) [
        | inl lost ↦ unchanged p ev b b' (ground (arith, x, some_, lost))
        | inr (idx, found) ↦
            dispatch-Effect p ev idx b b' (record blank { client_request = escaped p q }) reply
              (ground (arith, x, some_, found))
      ]
    ]
  ]

  pub client_request_handler-Effect :
      {L : Type 0} (p : Platform) (is_post : Bool) (ev : RequestEvent) (b b' : Backend L)
      (reply : Reply)
      → client_request_handler show_duration p is_post ev b ≡ ret (b', reply)
      → Effect p ev b b'
  unfolding client_request_handler
  client_request_handler-Effect p false ev b b' reply e = unchanged p ev b b' (ground arith)
  client_request_handler-Effect p true ev b b' reply e =
      elim (Exec-cases (check show_duration ev.client_select ev.client_at b.client_limiter)) [
        | inl x ↦ ground (arith, x)
        | inr ((msg, false), x) ↦ unchanged p ev b b' (ground (arith, x))
        | inr ((msg, true), x) ↦
            let passed = record b {
              client_limiter = advance ev.client_advanced b.client_limiter;
            } in
            let behind = serve_body-Effect p ev passed b' reply (rw x at e) in
            record {
              change = behind.change;
              client = inr (
                  advanced_again ev.client_advanced b.client_limiter b'.client_limiter
                    behind.client);
              node = behind.node;
            }
      ]

  -- A request that returns leaves the cluster as it is, or it stops one member that runs, while a
  -- quorum of the members runs, or it restarts one stopped member.
  pub client_request_handler-Change :
      {L : Type 0} (p : Platform) (is_post : Bool) (ev : RequestEvent) (b b' : Backend L)
      (reply : Reply)
      → client_request_handler show_duration p is_post ev b ≡ ret (b', reply)
      → Change p ev b.cluster b'.cluster
  client_request_handler-Change p is_post ev b b' reply e =
      (client_request_handler-Effect p is_post ev b b' reply e).change

module _ (show_duration : ℤ → Text) where
  -- A request that returns keeps the cluster well formed, and never leaves it more than one running
  -- member short of a quorum, if it was not before; servers keep the client URLs that they are given.
  pub client_request_handler-keeps :
      {L : Type 0} (p : Platform) (is_post : Bool) (ev : RequestEvent) (b b' : Backend L)
      (reply : Reply)
      → KeepsUrls ev.restarted
      → WellFormed b.cluster
      → quorum b.cluster ≤ active_node_n b.cluster + 1
      → client_request_handler show_duration p is_post ev b ≡ ret (b', reply)
      → WellFormed b'.cluster × (quorum b'.cluster ≤ active_node_n b'.cluster + 1)
  client_request_handler-keeps p is_post ev b b' reply k v h e =
      let change = client_request_handler-Change show_duration p is_post ev b b' reply e in
      (
        Change-WellFormed p ev b.cluster b'.cluster k v change,
        Change-quorum p ev b.cluster b'.cluster h change,
      )
