-- ===== src/Cluster/Coherence.antt =====
-- The status of a member agrees with itself, through every operation of member.go.
use etcdlabs.Prelude.{
  ℕ, ◌≡◌, refl, inl, inr, Bool, true, false, Option, some, List, [], ◌∷◌, arith, ret, Exec-cases,
  Text, Bool-cases, Option-cases,
}
use etcdlabs.Clusterpb.{MemberState, MemberStatus, stopped, follower, leader, is_stopped}
use etcdlabs.Cluster.Types.{Outcome-cases, Platform, EmbedConfig, Member, Cluster, new_member}
use etcdlabs.Cluster.Member
use etcdlabs.Cluster.Member.{StartEvent}
use etcdlabs.Cluster.Status.{FetchEvent, StatusResponse, fetch_member_status}
use etcdlabs.Cluster.Leader.{
  WaitEvent, Round, lead_rounds, pending, settled, poll_lead, all_member_ids,
  member_wait_for_leader,
}

abbrev leads : MemberState → Bool
leads stopped = false
leads follower = false
leads leader = true

-- `IsLeader` says whether the state is "Leader", and a stopped member shows no size and no hash.
pub record IsCoherent (s : MemberStatus) : Type 0 where
  pub leader_eq : s.is_leader ≡ leads s.state
  pub empty_size : is_stopped s.state ≡ true → s.db_size ≡ 0
  pub empty_hash : is_stopped s.state ≡ true → s.hash ≡ 0

start-IsCoherent :
    (p : Platform) (ev : StartEvent) (m m' : Member) (err : Option Text)
    → IsCoherent m.status
    → Member.start p ev m ≡ ret (m', err)
    → IsCoherent m'.status
unfolding Member.start
start-IsCoherent p ev m m' err v e = ground arith

restart-IsCoherent :
    (p : Platform) (ev : StartEvent) (m m' : Member) (err : Option Text)
    → IsCoherent m.status
    → Member.restart p ev m ≡ ret (m', err)
    → IsCoherent m'.status
unfolding Member.restart
restart-IsCoherent p ev m m' err v e = ground arith

stop-IsCoherent :
    (p : Platform) (now : ℕ) (m m' : Member)
    → IsCoherent m.status
    → Member.stop p now m ≡ ret m'
    → IsCoherent m'.status
unfolding Member.stop
stop-IsCoherent p now m m' v e = ground arith

fetch-IsCoherent :
    (p : Platform) (ev : FetchEvent) (clus : Cluster) (m m' : Member) (err : Option Text)
    → IsCoherent m.status
    → fetch_member_status p ev clus m ≡ ret (m', err)
    → IsCoherent m'.status
unfolding fetch_member_status
fetch-IsCoherent p ev clus m m' err v e = ground arith

settled-IsCoherent :
    (p : Platform) (resp : StatusResponse) (m : Member)
    → IsCoherent (settled p resp m).status × (is_stopped (settled p resp m).status.state ≡ false)
settled-IsCoherent p resp m = ground arith

lead_rounds-IsCoherent :
    (p : Platform) (ids : List ℕ) (rs : List Round) (m m' : Member)
    → IsCoherent m.status
    → is_stopped m.status.state ≡ false
    → lead_rounds p ids rs m ≡ some m'
    → IsCoherent m'.status
unfolding lead_rounds
lead_rounds-IsCoherent p ids [] m m' v r e = cc
lead_rounds-IsCoherent p ids (r ∷ rs) m m' v h e = elim (Option-cases (poll_lead ids r.polls)) [
  | inl q ↦ ground (arith, q)
  | inr (lead, q) ↦ elim (Outcome-cases r.answer) [
    | inr (t, a) ↦ ground (arith, q, a, lead_rounds-IsCoherent p ids rs m m' v h)
    | inl (resp, a) ↦
        let (v₁, h₁) = settled-IsCoherent p resp m in
        ground (
          arith,
          q,
          a,
          v₁,
          lead_rounds-IsCoherent p ids rs (pending p resp m) m'
              (record { leader_eq = refl; empty_size = λ x. cc; empty_hash = λ x. cc }) refl,
          lead_rounds-IsCoherent p ids rs (settled p resp m) m' v₁ h₁,
        )
  ]
]

member_wait-IsCoherent :
    (p : Platform) (ev : WaitEvent) (clus : Cluster) (m m' : Member) (err : Option Text)
    → IsCoherent m.status
    → member_wait_for_leader p ev clus m ≡ ret (some (m', err))
    → IsCoherent m'.status
unfolding member_wait_for_leader
member_wait-IsCoherent p ev clus m m' err v e = elim (Bool-cases (is_stopped m.status.state)) [
  | inl s ↦ ground (arith, s)
  | inr s ↦ elim (Exec-cases (all_member_ids clus.members)) [
    | inl q ↦ ground (arith, s, q)
    | inr (ids, q) ↦ elim (Option-cases (lead_rounds p ids ev.rounds m)) [
      | inl l ↦ ground (arith, s, q, l)
      | inr (m₁, l) ↦
          let w = lead_rounds-IsCoherent p ids ev.rounds m m₁ v s l in ground (arith, s, q, l, w)
    ]
  ]
]

-- One call on a member, with whatever the world answers.
pub data MemberStep (p : Platform) (clus : Cluster) : Member → Member → Type 0 where
  starts :
      {m m' : Member} (ev : StartEvent) (err : Option Text)
      → Member.start p ev m ≡ ret (m', err)
      → MemberStep p clus m m'
  restarts :
      {m m' : Member} (ev : StartEvent) (err : Option Text)
      → Member.restart p ev m ≡ ret (m', err)
      → MemberStep p clus m m'
  stops : {m m' : Member} (now : ℕ) → Member.stop p now m ≡ ret m' → MemberStep p clus m m'
  fetches :
      {m m' : Member} (ev : FetchEvent) (err : Option Text)
      → fetch_member_status p ev clus m ≡ ret (m', err)
      → MemberStep p clus m m'
  waits :
      {m m' : Member} (ev : WaitEvent) (err : Option Text)
      → member_wait_for_leader p ev clus m ≡ ret (some (m', err))
      → MemberStep p clus m m'

-- A life of a member; the cluster around it may change between the calls.
pub data Life (p : Platform) (m : Member) : Member → Type 0 where
  born : Life p m m
  then_ : {n o : Member} (clus : Cluster) → Life p m n → MemberStep p clus n o → Life p m o

MemberStep-IsCoherent :
    (p : Platform) (clus : Cluster) {m m' : Member}
    → MemberStep p clus m m'
    → IsCoherent m.status
    → IsCoherent m'.status
MemberStep-IsCoherent p clus {m} {m'} (starts ev err e) v = start-IsCoherent p ev m m' err v e
MemberStep-IsCoherent p clus {m} {m'} (restarts ev err e) v = restart-IsCoherent p ev m m' err v e
MemberStep-IsCoherent p clus {m} {m'} (stops now e) v = stop-IsCoherent p now m m' v e
MemberStep-IsCoherent p clus {m} {m'} (fetches ev err e) v = fetch-IsCoherent p ev clus m m' err v e
MemberStep-IsCoherent p clus {m} {m'} (waits ev err e) v =
    member_wait-IsCoherent p ev clus m m' err v e

Life-keeps : (p : Platform) {m n : Member} → IsCoherent m.status → Life p m n → IsCoherent n.status
Life-keeps p v born = v
Life-keeps p v (then_ clus l st) = MemberStep-IsCoherent p clus st (Life-keeps p v l)

-- From a new member on, after any starts, restarts, stops, status fetches and waits for a leader that
-- return, with errors or without: `IsLeader` holds exactly in the state "Leader", and a member in the
-- state "Stopped" shows no database size and no hash.
pub Life-IsCoherent :
    (p : Platform) (cfg : EmbedConfig) (endpoint : Text) (m : Member)
    → Life p (new_member cfg endpoint) m
    → IsCoherent m.status
unfolding new_member
Life-IsCoherent p cfg endpoint m l =
    Life-keeps p (record { leader_eq = refl; empty_size = λ x. refl; empty_hash = λ x. refl }) l
