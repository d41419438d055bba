-- ===== src/Cluster/Quorum.antt =====
-- `ActiveNodeN`, `Quorum`, and what `Stop` and `Restart` do to them.
use etcdlabs.Prelude.{
  ℕ, zero, suc, ◌+◌, ◌-◌, ◌*◌, ◌≤◌, ◌<◌, ◌≡◌, ◌⊎◌, inl, inr, Bool, true, false, Option, none, some,
  List, [], ◌∷◌, arith, ret, Text, length, get_elem?, set, length-set, get_elem?-set_self,
  get_elem?-some_lt, if◌then◌else◌, Option-cases,
}
use etcdlabs.Clusterpb.{is_stopped}
use etcdlabs.Cluster.Types.{Platform, Member, Cluster}
use etcdlabs.Cluster.Member
use etcdlabs.Cluster.Member.{StartEvent}
use etcdlabs.Cluster.Ops.{stop_at, restart_at}
use etcdlabs.Cluster.View.{active, active_node_n, quorum, size_of, is_stopped_at}
use etcdlabs.Cluster.Inversion.{stop_at-inv, restart_at-inv}

active-le-length : (ms : List Member) → active ms ≤ length ms
unfolding active
active-le-length [] = omega arith
active-le-length (m ∷ ms) = ground (arith, active-le-length ms)

abbrev weight : Member → ℕ
weight m = if is_stopped m.status.state then 0 else 1

-- Replacing one member moves the count by what the two members count for.
active-set :
    (ms : List Member) (i : ℕ) (m m' : Member)
    → get_elem? ms i ≡ some m
    → active (set ms i m') + weight m ≡ active ms + weight m'
unfolding active
active-set [] i m m' e = cc
active-set (n ∷ ms) zero m m' e = ground arith
active-set (n ∷ ms) (suc i) m m' e = ground (arith, active-set ms i m m' e)

pub stop-state :
    (p : Platform) (now : ℕ) (m m' : Member)
    → Member.stop p now m ≡ ret m'
    → is_stopped m'.status.state ≡ true
unfolding Member.stop
stop-state p now m m' e = ground arith

pub restart-state :
    (p : Platform) (ev : StartEvent) (m m' : Member)
    → Member.restart p ev m ≡ ret (m', none)
    → is_stopped m'.status.state ≡ false
unfolding Member.restart
restart-state p ev m m' e = ground arith

pub restart-error :
    (p : Platform) (ev : StartEvent) (m m' : Member) (t : Text)
    → Member.restart p ev m ≡ ret (m', some t)
    → (m'.status ≡ m.status) × (is_stopped m.status.state ≡ true)
unfolding Member.restart
restart-error p ev m m' t e = ground arith

-- `Stop(i)`, if it returns, leaves member `i` stopped and the size as it was. The number of running
-- members falls by one if the member ran, and stays if it was stopped.
pub stop_at-active :
    (p : Platform) (now i : ℕ) (clus clus' : Cluster) (was : Bool)
    → is_stopped_at clus i ≡ ret was
    → stop_at p now i clus ≡ ret clus'
    → (is_stopped_at clus' i ≡ ret true)
      × (size_of clus' ≡ size_of clus)
      × (active_node_n clus' + (if was then 0 else 1) ≡ active_node_n clus)
unfolding is_stopped_at size_of active_node_n
stop_at-active p now i clus clus' was w e =
    let (m, m', q, s, r) = stop_at-inv p now i clus clus' e in
    let now_stopped = stop-state p now m m' s in
    let lt = get_elem?-some_lt clus.members i m q in
    rw r (
      ground (arith, get_elem?-set_self clus.members i m' lt, now_stopped),
      length-set clus.members i m',
      ground (arith, active-set clus.members i m m' q, w, q, now_stopped),
    )

-- `Restart(i)` without an error leaves member `i` running, and the number of running members grows by
-- one if it was stopped. With an error the number of running members stays, and the member was and is
-- stopped.
pub restart_at-active :
    (p : Platform) (ev : StartEvent) (i : ℕ) (clus clus' : Cluster) (was : Bool) (err : Option Text)
    → is_stopped_at clus i ≡ ret was
    → restart_at p ev i clus ≡ ret (clus', err)
    → ((err ≡ none)
        × (is_stopped_at clus' i ≡ ret false)
        × (active_node_n clus' ≡ active_node_n clus + (if was then 1 else 0)))
      ⊎ ((t : Text) × (err ≡ some t)
          × (was ≡ true)
          × (is_stopped_at clus' i ≡ ret true)
          × (active_node_n clus' ≡ active_node_n clus))
unfolding is_stopped_at active_node_n
restart_at-active p ev i clus clus' was err w e =
    let (m, m', q, s, r) = restart_at-inv p ev i clus clus' err e in
    let lt = get_elem?-some_lt clus.members i m q in
    let counted = active-set clus.members i m m' q in
    let there = get_elem?-set_self clus.members i m' lt in
    elim (Option-cases err) [
      | inl good_ ↦
          let running = restart-state p ev m m' (rw good_ at s) in
          inl (
            good_,
            rw r (ground (arith, there, running)),
            rw r (ground (arith, counted, w, q, running)),
          )
      | inr (t, bad) ↦
          let (same, idle) = restart-error p ev m m' t (rw bad at s) in
          inr (
            t,
            bad,
            ground (arith, w, q, idle),
            rw r (ground (arith, there, same, idle)),
            rw r (ground (arith, counted, same)),
          )
    ]

-- Any two quorums of a cluster share a member, and losing one member of a running quorum leaves at
-- least half of the members.
pub quorum_majority :
    (clus : Cluster) → (size_of clus < 2 * quorum clus) × (2 * (quorum clus - 1) ≤ size_of clus)
unfolding quorum size_of
quorum_majority clus = omega arith

pub active-le-size : (clus : Cluster) → active_node_n clus ≤ size_of clus
unfolding active_node_n size_of
active-le-size clus = active-le-length clus.members
