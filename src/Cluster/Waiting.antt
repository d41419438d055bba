-- ===== src/Cluster/Waiting.antt =====
-- What the two `WaitForLeader` leave as it is: the configuration and the server of every member.
use etcdlabs.Prelude.{
  ℕ, zero, suc, ◌+◌, ◌≡◌, refl, subst, inl, inr, Option, none, some, List, [], ◌∷◌, arith, ret,
  Exec-cases, Text, Option-cases,
}
use etcdlabs.Cluster.Types.{Outcome-cases, Platform, Member, Cluster}
use etcdlabs.Cluster.Leader.{
  Round, WaitEvent, all_member_ids, poll_lead, pending, settled, lead_rounds,
  member_wait_for_leader, wait_from, group_error, elect, wait_for_leader,
}

pub record IsKin (m m' : Member) : Type 0 where
  pub cfg_eq : m'.cfg ≡ m.cfg
  pub srv_eq : m'.srv ≡ m.srv

abbrev pub AllKin : List Member → List Member → Type 0
AllKin [] [] = Unit {0}
AllKin [] (n ∷ ns) = ⊥
AllKin (m ∷ ms) [] = ⊥
AllKin (m ∷ ms) (n ∷ ns) = IsKin m n × AllKin ms ns

AllKin-refl : (ms : List Member) → AllKin ms ms
AllKin-refl [] = tt
AllKin-refl (m ∷ ms) = (record { cfg_eq = refl; srv_eq = refl }, AllKin-refl ms)

IsKin-refl : (m m' : Member) → m ≡ m' → IsKin m m'
IsKin-refl m m' e = record { cfg_eq = ground arith; srv_eq = ground arith }

lead_rounds-IsKin :
    (p : Platform) (ids : List ℕ) (rs : List Round) (m m' : Member)
    → lead_rounds p ids rs m ≡ some m'
    → IsKin m m'
unfolding lead_rounds
lead_rounds-IsKin p ids [] m m' e = cc
lead_rounds-IsKin p ids (r ∷ rs) m m' e = elim (Option-cases (poll_lead ids r.polls)) [
  | inl q ↦ ground (arith, q)
  | inr (lead, q) ↦ elim (Outcome-cases r.answer) [
    | inr (t, a) ↦ ground (arith, q, a, lead_rounds-IsKin p ids rs m m')
    | inl (resp, a) ↦ ground (
      arith,
      q,
      a,
      lead_rounds-IsKin p ids rs (pending p resp m) m',
      lead_rounds-IsKin p ids rs (settled p resp m) m',
    )
  ]
]

member_wait-IsKin :
    (p : Platform) (ev : WaitEvent) (clus : Cluster) (m m' : Member) (err : Option Text)
    → member_wait_for_leader p ev clus m ≡ ret (some (m', err))
    → IsKin m m'
unfolding member_wait_for_leader
member_wait-IsKin p ev clus m m' err e = elim (Exec-cases (all_member_ids clus.members)) [
  | inl q ↦ IsKin-refl m m' (ground (arith, q))
  | inr (ids, q) ↦ elim (Option-cases (lead_rounds p ids ev.rounds m)) [
    | inl l ↦ IsKin-refl m m' (ground (arith, q, l))
    | inr (m₁, l) ↦ ground (arith, q, l, lead_rounds-IsKin p ids ev.rounds m m₁ l, IsKin-refl m m')
  ]
]

wait_from-AllKin :
    (p : Platform) (evs : ℕ → WaitEvent) (clus : Cluster) (i n : ℕ) (ms ms' : List Member)
    (errs : List Text)
    → wait_from p evs clus i n ms ≡ ret (some (ms', errs))
    → AllKin ms ms'
unfolding wait_from
wait_from-AllKin p evs clus i zero ms ms' errs e = ground (arith, AllKin-refl ms)
wait_from-AllKin p evs clus i (suc n) [] ms' errs e = cc
wait_from-AllKin p evs clus i (suc n) (m ∷ ms) ms' errs e =
    elim (Exec-cases (member_wait_for_leader p (evs i) clus m)) [
      | inl s ↦ ground (arith, s)
      | inr (one, s) ↦ elim (Exec-cases (wait_from p evs clus (i + 1) n ms)) [
        | inl t ↦ ground (arith, s, t)
        | inr (others, t) ↦ elim (Option-cases one) [
          | inl u ↦ ground (arith, s, t, u)
          | inr ((m₁, err), u) ↦ elim (Option-cases others) [
            | inl v ↦ ground (arith, s, t, u, v)
            | inr ((ms₁, errs₁), v) ↦ ground (
              arith,
              s,
              t,
              u,
              v,
              member_wait-IsKin p (evs i) clus m m₁ err (ground (arith, s, u)),
              wait_from-AllKin p evs clus (i + 1) n ms ms₁ errs₁ (ground (arith, t, v)),
            )
          ]
        ]
      ]
    ]

elect-same :
    (p : Platform) (clus clus' : Cluster) (err : Option Text)
    → elect p clus ≡ ret (clus', err)
    → clus' ≡ record clus { lead_idx = clus'.lead_idx }
unfolding elect
elect-same p clus clus' err e = ground arith

-- A wait that returns changes `LeadIdx` and the members' statuses only.
pub wait_for_leader-inv :
    (p : Platform) (evs : ℕ → WaitEvent) (k : ℕ) (clus clus' : Cluster) (err : Option Text)
    → wait_for_leader p evs k clus ≡ ret (some (clus', err))
    → (ms : List Member) × (lead : ℕ) × AllKin clus.members ms
      × (clus' ≡ record clus { members = ms; lead_idx = lead })
unfolding wait_for_leader
wait_for_leader-inv p evs k clus clus' err e =
    elim (Exec-cases (wait_from p evs clus 0 clus.size clus.members)) [
      | inl q ↦ ground (arith, q)
      | inr (none, q) ↦ ground (arith, q)
      | inr (some (ms, errors), q) ↦
          let a = wait_from-AllKin p evs clus 0 clus.size clus.members ms errors q in
          elim (Option-cases (group_error k errors)) [
            | inr (t, g) ↦ (ms, clus.lead_idx, a, ground (arith, q, g))
            | inl g ↦ elim (Exec-cases (elect p (record clus { members = ms }))) [
              | inl x ↦ ground (arith, q, g, x)
              | inr ((c, err'), x) ↦
                  let same : c ≡ clus' = ground (arith, q, g, x) in
                  (
                    ms,
                    c.lead_idx,
                    a,
                    subst (λ d. d ≡ record clus { members = ms; lead_idx = c.lead_idx }) same
                        (elect-same p (record clus { members = ms }) c err' x),
                  )
            ]
          ]
    ]
