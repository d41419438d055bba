-- ===== src/Cluster/Hosts/Grown.antt =====
-- `Add`, `Shutdown`, the launch of the members and the waits for a leader keep the invariant.
use etcdlabs.Prelude.{
  ℕ, zero, suc, ◌+◌, ◌≡◌, refl, ap, inl, inr, Option, some, List, [], ◌∷◌, arith, ret, >>=-eq-ret,
  Exec-cases, Text, length,
}
use mathlib.Core.Path.{ap₂}
use etcdlabs.Cluster.Waiting.{AllKin, wait_for_leader-inv}
use etcdlabs.Cluster.Types.{Platform, Member, Cluster}
use etcdlabs.Cluster.Member
use etcdlabs.Cluster.Member.{StartEvent}
use etcdlabs.Cluster.Leader.{WaitEvent, wait_for_leader}
use etcdlabs.Cluster.Build.{start_from}
use etcdlabs.Cluster.Ops.{put_member, add, AddEvent, stop_from, shutdown}
use etcdlabs.Cluster.Inversion.{add-inv, announce-inv}
use etcdlabs.Cluster.Hosts.{urls_of, WellFormed, WellFormed-same}
use etcdlabs.Cluster.Hosts.Kept.{KeepsUrls, start-urls, stop-urls, urls_of-set, grow-WellFormed}

-- Whatever `Add` returns, an error of the client or of the start included, the cluster is well formed
-- and one member larger, if the started server keeps the client URLs that it was given.
pub add-WellFormed :
    (p : Platform) (ev : AddEvent) (clus clus' : Cluster) (err : Option Text)
    → KeepsUrls ev.start
    → WellFormed clus
    → add p ev clus ≡ ret (clus', err)
    → WellFormed clus' × (clus'.size ≡ clus.size + 1)
add-WellFormed p ev clus clus' err k v e =
    let (grown, g, a) = add-inv p ev clus clus' err e in
    let (w, n) = grow-WellFormed p ev clus grown v g in
    let larger : grown.size ≡ clus.size + 1 = omega (arith, w.sized, v.sized, n) in
    elim (announce-inv p ev (length clus.members) grown clus' err a) [
      | inl same ↦ rw same (w, larger)
      | inr (m, m', q, s, r) ↦ rw r (
        WellFormed-same grown (put_member grown (length clus.members) m') w refl refl refl (
            urls_of-set grown.members (length clus.members) m m' q
              (start-urls p ev.start m m' err k s)),
        larger,
      )
    ]

stop_from-urls :
    (p : Platform) (now : ℕ → ℕ) (i n : ℕ) (ms ms' : List Member)
    → stop_from p now i n ms ≡ ret ms'
    → urls_of ms' ≡ urls_of ms
unfolding stop_from
stop_from-urls p now i zero ms ms' e = ground arith
stop_from-urls p now i (suc n) [] ms' e = cc
stop_from-urls p now i (suc n) (m ∷ ms) ms' e =
    let (m₁, s, e₁) = >>=-eq-ret (Member.stop p (now i) m) _ e in
    let (ms₁, t, e₂) = >>=-eq-ret (stop_from p now (i + 1) n ms) _ e₁ in
    ground (
      arith,
      ap (λ c. c.lc_urls) (stop-urls p (now i) m m₁ s),
      stop_from-urls p now (i + 1) n ms ms₁ t,
      e₂,
    )

pub shutdown-WellFormed :
    (p : Platform) (now : ℕ → ℕ) (clus clus' : Cluster)
    → WellFormed clus
    → shutdown p now clus ≡ ret clus'
    → WellFormed clus'
unfolding shutdown
shutdown-WellFormed p now clus clus' v e =
    elim (Exec-cases (stop_from p now 0 clus.size clus.members)) [
      | inl q ↦ ground (arith, q)
      | inr (ms, q) ↦
          WellFormed-same clus clus' v (ground (arith, q)) (ground (arith, q)) (ground (arith, q))
            (ground (arith, q, stop_from-urls p now 0 clus.size clus.members ms q))
    ]

AllKin-urls : (ms ns : List Member) → AllKin ms ns → urls_of ns ≡ urls_of ms
AllKin-urls [] [] a = refl
AllKin-urls [] (n ∷ ns) a = elim a [ ]
AllKin-urls (m ∷ ms) [] a = elim a [ ]
AllKin-urls (m ∷ ms) (n ∷ ns) (same, a) =
    ap₂ (λ c us. c.lc_urls ∷ us) same.cfg_eq (AllKin-urls ms ns a)

pub wait_for_leader-WellFormed :
    (p : Platform) (evs : ℕ → WaitEvent) (k : ℕ) (clus clus' : Cluster) (err : Option Text)
    → WellFormed clus
    → wait_for_leader p evs k clus ≡ ret (some (clus', err))
    → WellFormed clus'
wait_for_leader-WellFormed p evs k clus clus' err v e =
    let (ms, l, a, same) = wait_for_leader-inv p evs k clus clus' err e in
    rw same (
      WellFormed-same clus (record clus { members = ms; lead_idx = l }) v refl refl refl
        (AllKin-urls clus.members ms a))

pub start_from-urls :
    (p : Platform) (evs : ℕ → StartEvent) (i n : ℕ) (ms ms' : List Member) (errs : List Text)
    → ((j : ℕ) → KeepsUrls (evs j))
    → start_from p evs i n ms ≡ ret (ms', errs)
    → urls_of ms' ≡ urls_of ms
unfolding start_from
start_from-urls p evs i zero ms ms' errs k e = ground arith
start_from-urls p evs i (suc n) [] ms' errs k e = cc
start_from-urls p evs i (suc n) (m ∷ ms) ms' errs k e =
    elim (Exec-cases (Member.start p (evs i) m)) [
      | inl s ↦ ground (arith, s)
      | inr ((m₁, err), s) ↦ elim (Exec-cases (start_from p evs (i + 1) n ms)) [
        | inl t ↦ ground (arith, s, t)
        | inr ((ms₁, errs₁), t) ↦ ground (
          arith,
          s,
          t,
          start-urls p (evs i) m m₁ err (k i) s,
          start_from-urls p evs (i + 1) n ms ms₁ errs₁ k t,
        )
      ]
    ]
