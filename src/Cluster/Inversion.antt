-- ===== src/Cluster/Inversion.antt =====
-- What a call of cluster.go that returned has done to the member that it was called for.
use etcdlabs.Prelude.{
  ℕ, ◌+◌, ◌≡◌, ◌⊎◌, inl, inr, Option, none, some, List, arith, ret, >>=-eq-ret, Exec-cases, Text,
  length, get_elem?, Option-cases,
}
use etcdlabs.Cluster.Types.{ClusterState, Platform, Member, Cluster}
use etcdlabs.Cluster.Member
use etcdlabs.Cluster.Member.{StartEvent}
use etcdlabs.Cluster.Build.{set_initial_cluster, member_config, add_member, host_or_localhost}
use etcdlabs.Cluster.Ops.{put_member, stop_at, restart_at, add, grow, announce, ask_first, AddEvent}

pub stop_at-inv :
    (p : Platform) (now i : ℕ) (clus clus' : Cluster)
    → stop_at p now i clus ≡ ret clus'
    → (m : Member) × (m' : Member) × (get_elem? clus.members i ≡ some m)
      × (Member.stop p now m ≡ ret m')
      × (clus' ≡ put_member clus i m')
unfolding stop_at
stop_at-inv p now i clus clus' e = elim (Option-cases (get_elem? clus.members i)) [
  | inl q ↦ ground (arith, q)
  | inr (m, q) ↦ elim (Exec-cases (Member.stop p now m)) [
    | inl s ↦ ground (arith, q, s)
    | inr (m', s) ↦ (m, m', q, s, ground (arith, q, s))
  ]
]

pub restart_at-inv :
    (p : Platform) (ev : StartEvent) (i : ℕ) (clus clus' : Cluster) (err : Option Text)
    → restart_at p ev i clus ≡ ret (clus', err)
    → (m : Member) × (m' : Member) × (get_elem? clus.members i ≡ some m)
      × (Member.restart p ev m ≡ ret (m', err))
      × (clus' ≡ put_member clus i m')
unfolding restart_at
restart_at-inv p ev i clus clus' err e = elim (Option-cases (get_elem? clus.members i)) [
  | inl q ↦ ground (arith, q)
  | inr (m, q) ↦ elim (Exec-cases (Member.restart p ev m)) [
    | inl s ↦ ground (arith, q, s)
    | inr ((m', err'), s) ↦ (m, m', q, ground (arith, q, s), ground (arith, q, s))
  ]
]

-- `Add` leaves the grown cluster, with the last member started or as it is.
pub announce-inv :
    (p : Platform) (ev : AddEvent) (idx : ℕ) (clus clus' : Cluster) (err : Option Text)
    → announce p ev idx clus ≡ ret (clus', err)
    → (clus' ≡ clus)
      ⊎ ((m : Member) × (m' : Member) × (get_elem? clus.members idx ≡ some m)
          × (Member.start p ev.start m ≡ ret (m', err))
          × (clus' ≡ put_member clus idx m'))
unfolding announce
announce-inv p ev idx clus clus' err e = elim (Exec-cases (ask_first ev idx clus)) [
  | inl a ↦ ground (arith, a)
  | inr (some t, a) ↦ inl (ground (arith, a))
  | inr (none, a) ↦ elim (Option-cases (get_elem? clus.members idx)) [
    | inl q ↦ ground (arith, a, q)
    | inr (m, q) ↦ elim (Exec-cases (Member.start p ev.start m)) [
      | inl s ↦ ground (arith, a, q, s)
      | inr ((m', err'), s) ↦ inr (m, m', q, ground (arith, a, q, s), ground (arith, a, q, s))
    ]
  ]
]

pub add-inv :
    (p : Platform) (ev : AddEvent) (clus clus' : Cluster) (err : Option Text)
    → add p ev clus ≡ ret (clus', err)
    → (grown : Cluster) × (grow p ev clus ≡ ret grown)
      × (announce p ev (length clus.members) grown ≡ ret (clus', err))
unfolding add
add-inv p ev clus clus' err e = >>=-eq-ret (grow p ev clus) _ e

pub grow-inv :
    (p : Platform) (ev : AddEvent) (clus clus' : Cluster)
    → grow p ev clus ≡ ret clus'
    → let cfg =
        member_config p clus.ccfg ev.base ClusterState.existing clus.root_dir
          (host_or_localhost ev.default_host)
          (clus.size + 1)
          clus.base_port in
      let grown = add_member clus.ccfg cfg clus.base_port clus in
      (ms : List Member) × (set_initial_cluster grown.members (clus.size + 1) grown.members
        ≡ ret ms)
      × (clus'
          ≡ record grown { size = clus.size + 1; base_port = clus.base_port + 2; members = ms })
unfolding grow
grow-inv p ev clus clus' e =
    let (ms, s, r) = >>=-eq-ret (set_initial_cluster _ _ _) _ e in (ms, s, ground arith)
