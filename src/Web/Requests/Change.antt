-- ===== src/Web/Requests/Change.antt =====
-- What the actions "stop-node" and "restart-node" may do to the cluster, and what that keeps.
use etcdlabs.Prelude.{
  ℕ, ◌+◌, ◌≤◌, ◌≡◌, ap, ◌∙◌, inl, inr, true, false, Option, arith, ret, Exec-cases, Text, length,
  length-set, ltb, Bool-cases, Option-cases,
}
use etcdlabs.Cluster.Inversion.{restart_at-inv}
use etcdlabs.Cluster.Member.{StartEvent}
use etcdlabs.Cluster.Types.{Outcome-cases, Platform, Cluster}
use etcdlabs.Cluster.Ops.{stop_at, restart_at}
use etcdlabs.Cluster.View.{is_stopped_at, member_status, quorum, active_node_n, size_of}
use etcdlabs.Cluster.Hosts.{WellFormed}
use etcdlabs.Cluster.Hosts.Kept.{KeepsUrls, stop_at-WellFormed, restart_at-WellFormed}
use etcdlabs.Cluster.Quorum.{stop_at-active, restart_at-active}
use etcdlabs.Web.Requests.{ClientResponse, RequestEvent, stop_node, restart_node}
use etcdlabs.Prelude.{zero, suc, List, [], ◌∷◌, set, All}
use etcdlabs.Clusterpb.{is_stopped}
use etcdlabs.Cluster.Types.{Member, existing}
use etcdlabs.Cluster.Member
use etcdlabs.Cluster.Election.{HasServer}
use etcdlabs.Cluster.Inversion.{stop_at-inv}

-- The cluster stays; or a member that runs is stopped while a quorum runs; or a stopped member is
-- restarted.
pub data Change (p : Platform) (ev : RequestEvent) (c : Cluster) (d : Cluster) : Type 0 where
  kept : d ≡ c → Change p ev c d
  stopped_one :
      (idx : ℕ)
      → quorum c ≤ active_node_n c
      → is_stopped_at c idx ≡ ret false
      → stop_at p ev.stop_at_time idx c ≡ ret d
      → Change p ev c d
  restarted_one :
      (idx : ℕ) (err : Option Text)
      → is_stopped_at c idx ≡ ret true
      → restart_at p ev.restarted idx c ≡ ret (d, err)
      → Change p ev c d

pub stop_node-Change :
    (p : Platform) (ev : RequestEvent) (idx : ℕ) (c d : Cluster) (r r' : ClientResponse)
    → stop_node p ev idx c r ≡ ret (d, r')
    → Change p ev c d
unfolding stop_node
stop_node-Change p ev idx c d r r' e = elim (Bool-cases (ltb (active_node_n c) (quorum c))) [
  | inl lost ↦ kept (ground (arith, lost))
  | inr running ↦ elim (Exec-cases (member_status c idx)) [
    | inl x ↦ ground (arith, running, x)
    | inr (st, x) ↦ elim (Exec-cases (is_stopped_at c idx)) [
      | inl y ↦ ground (arith, running, x, y)
      | inr (true, y) ↦ kept (ground (arith, running, x, y))
      | inr (false, y) ↦ elim (Exec-cases (stop_at p ev.stop_at_time idx c)) [
        | inl z ↦ ground (arith, running, x, y, z)
        | inr (c', z) ↦ elim (Exec-cases (member_status c' idx)) [
          | inl w ↦ ground (arith, running, x, y, z, w)
          | inr (st', w) ↦
              let same : c' ≡ d = ground (arith, running, x, y, z, w) in
              stopped_one idx (ground (arith, running)) y (z ∙ ap ret same)
        ]
      ]
    ]
  ]
]

pub restart_node-Change :
    (p : Platform) (ev : RequestEvent) (idx : ℕ) (c d : Cluster) (r r' : ClientResponse)
    → restart_node p ev idx c r ≡ ret (d, r')
    → Change p ev c d
unfolding restart_node
restart_node-Change p ev idx c d r r' e = elim (Exec-cases (member_status c idx)) [
  | inl x ↦ ground (arith, x)
  | inr (st, x) ↦ elim (Exec-cases (is_stopped_at c idx)) [
    | inl y ↦ ground (arith, x, y)
    | inr (false, y) ↦ kept (ground (arith, x, y))
    | inr (true, y) ↦ elim (Exec-cases (restart_at p ev.restarted idx c)) [
      | inl z ↦ ground (arith, x, y, z)
      | inr ((c', err), z) ↦ elim (Exec-cases (member_status c' idx)) [
        | inl w ↦ ground (arith, x, y, z, w)
        | inr (st', w) ↦
            let same : c' ≡ d = ground (arith, x, y, z, w) in
            restarted_one idx err y (z ∙ ap (λ t. ret (t, err)) same)
      ]
    ]
  ]
]

pub Change-WellFormed :
    (p : Platform) (ev : RequestEvent) (c d : Cluster)
    → KeepsUrls ev.restarted
    → WellFormed c
    → Change p ev c d
    → WellFormed d
Change-WellFormed p ev c d k v (kept same) = rw same v
Change-WellFormed p ev c d k v (stopped_one idx q w e) =
    stop_at-WellFormed p ev.stop_at_time idx c d v e
Change-WellFormed p ev c d k v (restarted_one idx err w e) =
    restart_at-WellFormed p ev.restarted idx c d err k v e

restart_at-size :
    (p : Platform) (ev : StartEvent) (i : ℕ) (c d : Cluster) (err : Option Text)
    → restart_at p ev i c ≡ ret (d, err)
    → size_of d ≡ size_of c
unfolding size_of
restart_at-size p ev i c d err e =
    let (m, m', q, s, r) = restart_at-inv p ev i c d err e in rw r (length-set c.members i m')

pub Change-quorum :
    (p : Platform) (ev : RequestEvent) (c d : Cluster)
    → quorum c ≤ active_node_n c + 1
    → Change p ev c d
    → quorum d ≤ active_node_n d + 1
unfolding quorum
Change-quorum p ev c d h (kept same) = rw same h
Change-quorum p ev c d h (stopped_one idx q w e) =
    let (now_stopped, size, n) = stop_at-active p ev.stop_at_time idx c d false w e in
    let same : length d.members ≡ length c.members = unfold size_of in size in omega arith
Change-quorum p ev c d h (restarted_one idx err w e) =
    let same : length d.members ≡ length c.members =
      unfold size_of in restart_at-size p ev.restarted idx c d err e in
    elim (restart_at-active p ev.restarted idx c d true err w e) [
      | inl (fine, running, n) ↦ omega arith
      | inr (t, bad, x, y, n) ↦ omega arith
    ]

-- Every member keeps a server.
set-HasServer :
    (ms : List Member) (i : ℕ) (m : Member)
    → All HasServer ms
    → HasServer m
    → All HasServer (set ms i m)
set-HasServer [] i m a h = tt
set-HasServer (n ∷ ms) zero m (one, a) h = (h, a)
set-HasServer (n ∷ ms) (suc i) m (one, a) h = (one, set-HasServer ms i m a h)

stop-HasServer :
    (p : Platform) (now : ℕ) (m m' : Member) → Member.stop p now m ≡ ret m' → HasServer m'
unfolding Member.stop
stop-HasServer p now m m' e = elim (Option-cases m.srv) [
  | inl q ↦ ground (arith, q)
  | inr (srv, q) ↦ (srv, ground (arith, q))
]

restart-HasServer :
    (p : Platform) (ev : StartEvent) (m m' : Member) (err : Option Text)
    → Member.restart p ev m ≡ ret (m', err)
    → HasServer m'
unfolding Member.restart
restart-HasServer p ev m m' err e = elim (Option-cases m.srv) [
  | inl q ↦ ground (arith, q)
  | inr (srv, q) ↦ elim (Outcome-cases (ev.server (record (m.cfg) { cluster_state = existing }))) [
    | inl (new, s) ↦ elim (Bool-cases (is_stopped m.status.state)) [
      | inl down ↦ (new, ground (arith, q, s, down))
      | inr up ↦ (srv, ground (arith, q, s, up))
    ]
    | inr (t, s) ↦ (srv, ground (arith, q, s))
  ]
]

pub Change-HasServer :
    (p : Platform) (ev : RequestEvent) (c d : Cluster)
    → All HasServer c.members
    → Change p ev c d
    → All HasServer d.members
Change-HasServer p ev c d a (kept same) = rw same a
Change-HasServer p ev c d a (stopped_one idx q w e) =
    let (m, m', g, s, r) = stop_at-inv p ev.stop_at_time idx c d e in
    rw r (set-HasServer c.members idx m' a (stop-HasServer p ev.stop_at_time m m' s))
Change-HasServer p ev c d a (restarted_one idx err w e) =
    let (m, m', g, s, r) = restart_at-inv p ev.restarted idx c d err e in
    rw r (set-HasServer c.members idx m' a (restart-HasServer p ev.restarted m m' err s))

-- The channel `stopc` of the cluster stays open.
pub Change-stopc :
    (p : Platform) (ev : RequestEvent) (c d : Cluster)
    → Change p ev c d
    → d.stopc_closed ≡ c.stopc_closed
Change-stopc p ev c d (kept same) = ap (λ x. x.stopc_closed) same
Change-stopc p ev c d (stopped_one idx q w e) =
    let (m, m', g, s, r) = stop_at-inv p ev.stop_at_time idx c d e in ap (λ x. x.stopc_closed) r
Change-stopc p ev c d (restarted_one idx err w e) =
    let (m, m', g, s, r) = restart_at-inv p ev.restarted idx c d err e in ap (λ x. x.stopc_closed) r
