-- ===== src/Cluster/Hosts/Kept.antt =====
-- The operations keep the invariant.
use etcdlabs.Cluster.Hosts.{urls_of, WellFormed, WellFormed-same}
use etcdlabs.Prelude.{
  ℕ, zero, suc, ◌+◌, ◌≡◌, refl, ap, inl, inr, Option, some, List, [], ◌∷◌, arith, ret, Exec-cases,
  Text, length, get_elem?, set, length-append,
}
use mathlib.Core.Path.{ap₂}
use etcdlabs.Cluster.Types.{
  EmbedConfig, Outcome-cases, good, Platform, Server, Member, Cluster, existing,
}
use etcdlabs.Cluster.Member
use etcdlabs.Cluster.Member.{StartEvent}
use etcdlabs.Cluster.Build.{add_member, host_or_localhost}
use etcdlabs.Cluster.Status.{
  FetchEvent, fetch_member_status, refreshed, refresh_from, update_member_status,
}
use etcdlabs.Cluster.Ops.{put_member, stop_at, restart_at, grow, AddEvent}
use etcdlabs.Cluster.Inversion.{stop_at-inv, restart_at-inv, grow-inv}
use etcdlabs.Cluster.Hosts.Loop.{add_member-hosted, set_initial_cluster-keeps}

-- What the program relies on in `embed`: a started server's configuration listens on the client URLs
-- that it was given.
abbrev pub KeepsUrls : StartEvent → Type 0
KeepsUrls ev =
    (cfg : EmbedConfig) (srv : Server) → ev.server cfg ≡ good srv → srv.config.lc_urls ≡ cfg.lc_urls

pub stop-urls :
    (p : Platform) (now : ℕ) (m m' : Member) → Member.stop p now m ≡ ret m' → m'.cfg ≡ m.cfg
unfolding Member.stop
stop-urls p now m m' e = ground arith

pub start-urls :
    (p : Platform) (ev : StartEvent) (m m' : Member) (err : Option Text)
    → KeepsUrls ev
    → Member.start p ev m ≡ ret (m', err)
    → m'.cfg.lc_urls ≡ m.cfg.lc_urls
unfolding Member.start
start-urls p ev m m' err k e = elim (Outcome-cases (ev.server m.cfg)) [
  | inl (srv, q) ↦ let same = k m.cfg srv q in ground (arith, q, same)
  | inr (t, q) ↦ ground (arith, q)
]

pub restart-urls :
    (p : Platform) (ev : StartEvent) (m m' : Member) (err : Option Text)
    → KeepsUrls ev
    → Member.restart p ev m ≡ ret (m', err)
    → m'.cfg.lc_urls ≡ m.cfg.lc_urls
unfolding Member.restart
restart-urls p ev m m' err k e =
    elim (Outcome-cases (ev.server (record (m.cfg) { cluster_state = existing }))) [
      | inl (srv, q) ↦
          let same = k (record (m.cfg) { cluster_state = existing }) srv q in
          ground (arith, q, same)
      | inr (t, q) ↦ ground (arith, q)
    ]

fetch-cfg :
    (p : Platform) (ev : FetchEvent) (clus : Cluster) (m m' : Member) (err : Option Text)
    → fetch_member_status p ev clus m ≡ ret (m', err)
    → m'.cfg ≡ m.cfg
unfolding fetch_member_status
fetch-cfg p ev clus m m' err e = ground arith

pub urls_of-set :
    (ms : List Member) (i : ℕ) (m m' : Member)
    → get_elem? ms i ≡ some m
    → m'.cfg.lc_urls ≡ m.cfg.lc_urls
    → urls_of (set ms i m') ≡ urls_of ms
urls_of-set [] i m m' e u = refl
urls_of-set (n ∷ ms) zero m m' e u = ground arith
urls_of-set (n ∷ ms) (suc i) m m' e u = ground (arith, urls_of-set ms i m m' e u)

refreshed-cfg :
    (p : Platform) (ev : FetchEvent) (clus : Cluster) (m : Member)
    → (refreshed p ev clus m).cfg ≡ m.cfg
unfolding refreshed
refreshed-cfg p ev clus m = elim (Exec-cases (fetch_member_status p ev clus m)) [
  | inl q ↦ rw (q, refreshed) refl
  | inr ((m', err), q) ↦ rw (q, refreshed) (fetch-cfg p ev clus m m' err q)
]

refresh_from-urls :
    (p : Platform) (evs : ℕ → FetchEvent) (clus : Cluster) (i n : ℕ) (ms : List Member)
    → urls_of (refresh_from p evs clus i n ms) ≡ urls_of ms
unfolding refresh_from
refresh_from-urls p evs clus i zero ms = refl
refresh_from-urls p evs clus i (suc n) [] = refl
refresh_from-urls p evs clus i (suc n) (m ∷ ms) =
    ap₂ ◌∷◌ (ap (λ c. c.lc_urls) (refreshed-cfg p (evs i) clus m))
      (refresh_from-urls p evs clus (i + 1) n ms)

pub stop_at-WellFormed :
    (p : Platform) (now i : ℕ) (clus clus' : Cluster)
    → WellFormed clus
    → stop_at p now i clus ≡ ret clus'
    → WellFormed clus'
stop_at-WellFormed p now i clus clus' v e =
    let (m, m', q, s, r) = stop_at-inv p now i clus clus' e in
    rw r (
      WellFormed-same clus (put_member clus i m') v refl refl refl
        (urls_of-set clus.members i m m' q (ap (λ c. c.lc_urls) (stop-urls p now m m' s))))

pub restart_at-WellFormed :
    (p : Platform) (ev : StartEvent) (i : ℕ) (clus clus' : Cluster) (err : Option Text)
    → KeepsUrls ev
    → WellFormed clus
    → restart_at p ev i clus ≡ ret (clus', err)
    → WellFormed clus'
restart_at-WellFormed p ev i clus clus' err k v e =
    let (m, m', q, s, r) = restart_at-inv p ev i clus clus' err e in
    rw r (
      WellFormed-same clus (put_member clus i m') v refl refl refl
        (urls_of-set clus.members i m m' q (restart-urls p ev m m' err k s)))

pub update_member_status-WellFormed :
    (p : Platform) (evs : ℕ → FetchEvent) (clus : Cluster)
    → WellFormed clus
    → WellFormed (update_member_status p evs clus)
unfolding update_member_status
update_member_status-WellFormed p evs clus v =
    WellFormed-same clus (update_member_status p evs clus) v refl refl refl
      (refresh_from-urls p evs clus 0 clus.size clus.members)

-- `Add` configures a member on the base port before it asks the cluster, so the invariant holds
-- whatever it returns.
pub grow-WellFormed :
    (p : Platform) (ev : AddEvent) (clus clus' : Cluster)
    → WellFormed clus
    → grow p ev clus ≡ ret clus'
    → WellFormed clus' × (length clus'.members ≡ length clus.members + 1)
unfolding add_member
grow-WellFormed p ev clus clus' v e =
    let (ms, s, r) = grow-inv p ev clus clus' e in
    let (u, d, l) = set_initial_cluster-keeps _ _ _ ms s in
    let n : length ms ≡ length clus.members + 1 =
      omega (arith, l, length-append clus.members (_ ∷ [])) in
    rw r (
      record {
        sized = omega (arith, v.sized, n);
        hosted = rw u (
            add_member-hosted p clus.ccfg ev.base (host_or_localhost ev.default_host) existing
              clus.root_dir (clus.size + 1) clus.base_port clus v.hosted);
      },
      n,
    )
