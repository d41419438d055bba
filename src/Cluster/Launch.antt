-- ===== src/Cluster/Launch.antt =====
-- A cluster that `Start` returns without an error: every member has been started.
use etcdlabs.Prelude.Int.{pos}
use etcdlabs.Prelude.{
  ℕ, zero, suc, ◌+◌, ◌≡◌, refl, ap, ◌%◌, subst, ◌∙◌, inl, inr, false, none, some, List, [], ◌∷◌,
  arith, ret, Exec-cases, Text, length, All, Option-cases, get_elem?_lt,
}
use etcdlabs.Cluster.Types.{Outcome-cases, good, fail, Platform, Member, Cluster, Config}
use etcdlabs.Cluster.Member
use etcdlabs.Cluster.Member.{StartEvent}
use etcdlabs.Cluster.Leader.{group_error, wait_for_leader}
use etcdlabs.Cluster.Build.{BuildEvent, configure, start_from, start_cluster}
use etcdlabs.Cluster.Election.{HasServer}
use etcdlabs.Cluster.Waiting.{AllKin, wait_for_leader-inv}
use etcdlabs.Cluster.Hosts.{WellFormed, WellFormed-same}
use etcdlabs.Cluster.Hosts.Kept.{KeepsUrls}
use etcdlabs.Cluster.Hosts.Grown.{start_from-urls, wait_for_leader-WellFormed}
use etcdlabs.Cluster.Hosts.Built.{configure_lem, Configured}

start-HasServer :
    (p : Platform) (ev : StartEvent) (m m' : Member)
    → Member.start p ev m ≡ ret (m', none)
    → HasServer m'
unfolding Member.start
start-HasServer p ev m m' e = elim (Outcome-cases (ev.server m.cfg)) [
  | inr (t, q) ↦ ground (arith, q)
  | inl (srv, q) ↦ (srv, ground (arith, q))
]

start_from-HasServer :
    (p : Platform) (evs : ℕ → StartEvent) (i n : ℕ) (ms ms' : List Member)
    → n ≡ length ms
    → start_from p evs i n ms ≡ ret (ms', [])
    → All HasServer ms' × (length ms' ≡ length ms)
unfolding start_from
start_from-HasServer p evs i zero [] ms' h e = ground arith
start_from-HasServer p evs i zero (m ∷ ms) ms' h e = absurd (omega arith)
start_from-HasServer p evs i (suc n) [] ms' h e = cc
start_from-HasServer p evs i (suc n) (m ∷ ms) ms' h e =
    elim (Exec-cases (Member.start p (evs i) m)) [
      | inl s ↦ ground (arith, s)
      | inr ((m₁, some t), s) ↦ elim (Exec-cases (start_from p evs (i + 1) n ms)) [
        | inl t ↦ ground (arith, s, t)
        | inr (rest, t) ↦ ground (arith, s, t)
      ]
      | inr ((m₁, none), s) ↦ elim (Exec-cases (start_from p evs (i + 1) n ms)) [
        | inl t ↦ ground (arith, s, t)
        | inr ((ms₁, errs₁), t) ↦
            let no_errors : errs₁ ≡ [] = ground (arith, s, t) in
            let (a, l) =
              start_from-HasServer p evs (i + 1) n ms ms₁ (omega arith)
                (t ∙ ap (λ es. ret (ms₁, es)) no_errors) in
            let same : ms' ≡ m₁ ∷ ms₁ = ground (arith, s, t) in
            (rw same (start-HasServer p (evs i) m m₁ s, a), rw same (omega arith))
      ]
    ]

group_error-none : (k : ℕ) (es : List Text) → group_error k es ≡ none → es ≡ []
unfolding group_error
group_error-none k [] h = refl
group_error-none k (e ∷ es) h =
    let (t, q) = get_elem?_lt (e ∷ es) (k % suc (length es)) (omega arith) in cc (h, q)

AllKin-HasServer : (ms ns : List Member) → AllKin ms ns → All HasServer ms → All HasServer ns
AllKin-HasServer [] [] k a = tt
AllKin-HasServer [] (n ∷ ns) k a = elim k [ ]
AllKin-HasServer (m ∷ ms) [] k a = elim k [ ]
AllKin-HasServer (m ∷ ms) (n ∷ ns) (same, k) ((srv, e), a) =
    ((srv, same.srv_eq ∙ e), AllKin-HasServer ms ns k a)

configured :
    (p : Platform) (ev : BuildEvent) (ccfg : Config) (c : Cluster)
    → configure p ev ccfg ≡ ret (good c)
    → Configured ccfg c
configured p ev ccfg c e = elim (configure_lem p ev ccfg) [
  | inl (negative, q) ↦ cc (e, q)
  | inr (inl (sized, refused, (t, q))) ↦ cc (e, q)
  | inr (inr (accepted, (built, q, ok))) ↦
      let same : built ≡ c = ground (arith, e, q) in subst (Configured ccfg) same ok
]

-- `Start` returns a cluster and no error only behind each of its steps.
start_cluster-inv :
    (p : Platform) (ev : BuildEvent) (ccfg : Config) (clus : Cluster)
    → start_cluster p ev ccfg ≡ ret (some (some clus, none))
    → (c : Cluster) × (ms : List Member) × (configure p ev ccfg ≡ ret (good c))
      × (start_from p ev.starts 0 c.size c.members ≡ ret (ms, []))
      × (wait_for_leader p ev.waits ev.first_wait_error (record c { members = ms })
          ≡ ret (some (clus, none)))
unfolding start_cluster
start_cluster-inv p ev ccfg clus e = elim (Exec-cases (configure p ev ccfg)) [
  | inl q ↦ ground (arith, q)
  | inr (fail t, q) ↦ ground (arith, q)
  | inr (good c, q) ↦ elim (Exec-cases (start_from p ev.starts 0 c.size c.members)) [
    | inl s ↦ ground (arith, q, s)
    | inr ((ms, errors), s) ↦ elim (Option-cases (group_error ev.first_start_error errors)) [
      | inr (t, g) ↦ ground (arith, q, s, g)
      | inl g ↦
          elim (Exec-cases
            (wait_for_leader p ev.waits ev.first_wait_error (record c { members = ms }))) [
              | inl w ↦ ground (arith, q, s, g, w)
              | inr (none, w) ↦ ground (arith, q, s, g, w)
              | inr (some (clus', err), w) ↦ (
                c,
                ms,
                q,
                s ∙ ap (λ es. ret (ms, es)) (group_error-none ev.first_start_error errors g),
                ground (arith, q, s, g, w),
              )
            ]
    ]
  ]
]

-- A cluster that `Start` returns without an error is well formed and open, has as many members as
-- asked for, and every member has a server; servers keep the client URLs that they are given.
pub start_cluster_lem :
    (p : Platform) (ev : BuildEvent) (ccfg : Config) (clus : Cluster)
    → ((j : ℕ) → KeepsUrls (ev.starts j))
    → start_cluster p ev ccfg ≡ ret (some (some clus, none))
    → WellFormed clus
      × (clus.stopc_closed ≡ false)
      × (pos clus.size ≡ ccfg.size)
      × All HasServer clus.members
start_cluster_lem p ev ccfg clus keeps e =
    let (c, ms, q, s, w) = start_cluster-inv p ev ccfg clus e in
    let ok : Configured ccfg c = configured p ev ccfg c q in
    let launched = record c { members = ms } in
    let v : WellFormed launched =
      WellFormed-same c launched ok.valid refl refl refl
        (start_from-urls p ev.starts 0 c.size c.members ms [] keeps s) in
    let (a, l) = start_from-HasServer p ev.starts 0 c.size c.members ms ok.valid.sized s in
    let (ns, lead, k, same) =
      wait_for_leader-inv p ev.waits ev.first_wait_error launched clus none w in
    (
      wait_for_leader-WellFormed p ev.waits ev.first_wait_error launched clus none v w,
      ap (λ x. x.stopc_closed) same ∙ ok.opened,
      ap (λ x. pos x.size) same ∙ ok.size_eq,
      rw same (AllKin-HasServer ms ns k a),
    )
