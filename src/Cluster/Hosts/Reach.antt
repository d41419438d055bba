-- ===== src/Cluster/Hosts/Reach.antt =====
-- The cluster through its life: any order of calls from `Start` on.
use etcdlabs.Prelude.{ℕ, ◌≡◌, refl, subst, inl, inr, Option, some, List, arith, ret, Text}
use etcdlabs.Cluster.Types.{good, Platform, Member, Cluster, Config}
use etcdlabs.Cluster.Member.{StartEvent}
use etcdlabs.Cluster.Leader.{WaitEvent, wait_for_leader}
use etcdlabs.Cluster.Build.{start_from, configure, BuildEvent}
use etcdlabs.Cluster.Status.{FetchEvent, update_member_status}
use etcdlabs.Cluster.Ops.{stop_at, restart_at, add, AddEvent, remove, RemoveEvent, shutdown}
use etcdlabs.Cluster.Hosts.{WellFormed, WellFormed-same}
use etcdlabs.Cluster.Hosts.Kept.{
  KeepsUrls, stop_at-WellFormed, restart_at-WellFormed, update_member_status-WellFormed,
}
use etcdlabs.Cluster.Hosts.Grown.{
  add-WellFormed, shutdown-WellFormed, wait_for_leader-WellFormed, start_from-urls,
}
use etcdlabs.Cluster.Hosts.Shrunk.{remove-WellFormed}
use etcdlabs.Cluster.Hosts.Built.{configure_lem}

-- One call of the package on a cluster that runs; `Boots` says which answers of etcd a start may get.
pub data Step (p : Platform) (Boots : StartEvent → Type 0) : Cluster → Cluster → Type 0 where
  stops :
      {clus clus' : Cluster} (now i : ℕ)
      → stop_at p now i clus ≡ ret clus'
      → Step p Boots clus clus'
  restarts :
      {clus clus' : Cluster} (ev : StartEvent) (i : ℕ) (err : Option Text)
      → Boots ev
      → restart_at p ev i clus ≡ ret (clus', err)
      → Step p Boots clus clus'
  adds :
      {clus clus' : Cluster} (ev : AddEvent) (err : Option Text)
      → Boots ev.start
      → add p ev clus ≡ ret (clus', err)
      → Step p Boots clus clus'
  removes :
      {clus clus' : Cluster} (ev : RemoveEvent) (i : ℕ) (err : Option Text)
      → remove p ev i clus ≡ ret (clus', err)
      → Step p Boots clus clus'
  updates :
      {clus clus' : Cluster} (evs : ℕ → FetchEvent)
      → clus' ≡ update_member_status p evs clus
      → Step p Boots clus clus'
  waits :
      {clus clus' : Cluster} (evs : ℕ → WaitEvent) (k : ℕ) (err : Option Text)
      → wait_for_leader p evs k clus ≡ ret (some (clus', err))
      → Step p Boots clus clus'
  launches :
      {clus clus' : Cluster} (evs : ℕ → StartEvent) (ms : List Member) (errs : List Text)
      → ((j : ℕ) → Boots (evs j))
      → start_from p evs 0 clus.size clus.members ≡ ret (ms, errs)
      → clus' ≡ record clus { members = ms }
      → Step p Boots clus clus'
  shuts_down :
      {clus clus' : Cluster} (now : ℕ → ℕ)
      → shutdown p now clus ≡ ret clus'
      → Step p Boots clus clus'

pub data Reaches (p : Platform) (Boots : StartEvent → Type 0) (clus : Cluster)
    : Cluster → Type 0 where
  here : Reaches p Boots clus clus
  next : {c d : Cluster} → Reaches p Boots clus c → Step p Boots c d → Reaches p Boots clus d

module _ (p : Platform) (Boots : StartEvent → Type 0)
    (keeps : (ev : StartEvent) → Boots ev → KeepsUrls ev) where
  Step-WellFormed : {c d : Cluster} → Step p Boots c d → WellFormed c → WellFormed d
  Step-WellFormed {c} {d} (stops now i e) v = stop_at-WellFormed p now i c d v e
  Step-WellFormed {c} {d} (restarts ev i err k e) v =
      restart_at-WellFormed p ev i c d err (keeps ev k) v e
  Step-WellFormed {c} {d} (adds ev err k e) v =
      (add-WellFormed p ev c d err (keeps ev.start k) v e).0
  Step-WellFormed {c} {d} (removes ev i err e) v = remove-WellFormed p ev i c d err v e
  Step-WellFormed {c} {d} (updates evs e) v = rw e (update_member_status-WellFormed p evs c v)
  Step-WellFormed {c} {d} (waits evs k err e) v = wait_for_leader-WellFormed p evs k c d err v e
  Step-WellFormed {c} {d} (launches evs ms errs k s e) v = rw e (
      WellFormed-same c (record c { members = ms }) v refl refl refl
        (start_from-urls p evs 0 c.size c.members ms errs (λ j. keeps (evs j) (k j)) s))
  Step-WellFormed {c} {d} (shuts_down now e) v = shutdown-WellFormed p now c d v e

  Reaches-keeps : {c d : Cluster} → WellFormed c → Reaches p Boots c d → WellFormed d
  Reaches-keeps v here = v
  Reaches-keeps v (next r st) = Step-WellFormed st (Reaches-keeps v r)

-- If every server that starts reports the client URLs that it was started with, then every cluster
-- that `Start` configures stays well formed under any sequence of launches, stops, restarts,
-- additions, removals, status updates, waits for a leader and shutdowns that return.
pub Reaches-WellFormed :
    (p : Platform) (Boots : StartEvent → Type 0) (ev : BuildEvent) (ccfg : Config) (c d : Cluster)
    → ((start : StartEvent) → Boots start → KeepsUrls start)
    → configure p ev ccfg ≡ ret (good c)
    → Reaches p Boots c d
    → WellFormed d
Reaches-WellFormed p Boots ev ccfg c d keeps e r = elim (configure_lem p ev ccfg) [
  | inl (negative, q) ↦ cc (e, q)
  | inr (inl (sized, refused, (t, q))) ↦ cc (e, q)
  | inr (inr (accepted, (built, q, ok))) ↦
      let same : built ≡ c = ground (arith, e, q) in
      Reaches-keeps p Boots keeps (subst WellFormed same ok.valid) r
]
