-- ===== src/Cluster/Election.antt =====
-- The scan for the leader in `WaitForLeader`, against the list of all members that claim to lead.
use etcdlabs.Prelude.{
  ℕ, suc, ◌+◌, ◌≡◌, refl, subst, ◌↔◌, inl, inr, Bool, true, false, Option, none, some, List, [],
  ◌∷◌, arith, ret, Exec-cases, Text, get_elem?, All, if◌then◌else◌, Bool-cases,
}
use etcdlabs.Prelude.{List-cases}
use etcdlabs.Cluster.Types.{Platform, Server, Member, Cluster}
use etcdlabs.Cluster.Leader.{scan_leaders, elect, duplicate_message}

-- The indices of the members that claim to lead, from the index `i` on.
abbrev pub claimants : ℕ → List Member → List ℕ
claimants i [] = []
claimants i (m ∷ ms) =
    let rest = claimants (i + 1) ms in if m.status.is_leader then i ∷ rest else rest

abbrev pub HasServer : Member → Type 0
HasServer m = (srv : Server) × (m.srv ≡ some srv)

-- The outcome that the claimants determine.
abbrev pub first_or : ℕ → List ℕ → ℕ
first_or d [] = d
first_or d (j ∷ js) = j

abbrev pub has_two : List ℕ → Bool
has_two [] = false
has_two (j ∷ []) = false
has_two (j ∷ k ∷ js) = true

abbrev is_some_list : List ℕ → Bool
is_some_list [] = false
is_some_list (j ∷ js) = true

scan_found :
    (i lead : ℕ) (ms : List Member)
    → All HasServer ms
    → scan_leaders i true lead ms ≡ ret (lead, is_some_list (claimants i ms))
unfolding scan_leaders
scan_found i lead [] h = refl
scan_found i lead (m ∷ ms) h = ground (arith, scan_found (i + 1) lead ms h.1)

has_two-cons : (j : ℕ) (js : List ℕ) → has_two (j ∷ js) ≡ is_some_list js
has_two-cons j [] = refl
has_two-cons j (k ∷ js) = refl

scan_leaders_lem :
    (i lead : ℕ) (ms : List Member)
    → All HasServer ms
    → scan_leaders i false lead ms ≡ ret (first_or lead (claimants i ms), has_two (claimants i ms))
unfolding scan_leaders
scan_leaders_lem i lead [] h = refl
scan_leaders_lem i lead (m ∷ ms) ((srv, e), h) = ground (
  arith,
  e,
  scan_found (i + 1) i ms h,
  scan_leaders_lem (i + 1) lead ms h,
  has_two-cons i (claimants (i + 1) ms),
)

claimant_there :
    (i : ℕ) (ms : List Member) (j : ℕ) (js : List ℕ)
    → claimants i ms ≡ j ∷ js
    → All HasServer ms
    → (k : ℕ) × (j ≡ i + k) × (m : Member) × (get_elem? ms k ≡ some m) × HasServer m
claimant_there i [] j js e h = cc
claimant_there i (m ∷ ms) j js e (s, h) = elim (Bool-cases m.status.is_leader) [
  | inl l ↦ (0, ground (arith, l), m, refl, s)
  | inr n ↦
      let (k, eq, m', g, s') = claimant_there (i + 1) ms j js (ground (arith, n)) h in
      (suc k, omega arith, m', g, s')
]

duplicate_message_total :
    (p : Platform) (ms : List Member) (j : ℕ) (js : List ℕ)
    → claimants 0 ms ≡ j ∷ js
    → All HasServer ms
    → (t : Text) × (duplicate_message p ms j ≡ ret t)
duplicate_message_total p ms j js e h =
    let (k, eq, m, g, (srv, s)) = claimant_there 0 ms j js e h in
    let at : get_elem? ms j ≡ some m = subst (λ n. get_elem? ms n ≡ some m) (omega arith) g in
    elim (Exec-cases (duplicate_message p ms j)) [
      | inl broken ↦ absurd (unfold duplicate_message in ground (arith, broken, at, s))
      | inr (t, fine) ↦ (t, fine)
    ]

-- The scan finds the leader if exactly one member claims to lead, keeps `LeadIdx` if none does, and
-- returns an error, with `LeadIdx` at the first, if two do. It changes nothing else, and it returns,
-- if every member has a server.
pub elect_lem :
    (p : Platform) (clus : Cluster)
    → All HasServer clus.members
    → (err : Option Text) × (elect p clus
        ≡ ret (record clus { lead_idx = first_or clus.lead_idx (claimants 0 clus.members) }, err))
      × ((err ≡ none) ↔ (has_two (claimants 0 clus.members) ≡ false))
unfolding elect
elect_lem p clus h = elim (Bool-cases (has_two (claimants 0 clus.members))) [
  | inl two ↦ elim (List-cases (claimants 0 clus.members)) [
    | inl none_ ↦ ground (arith, two, none_)
    | inr (j, js, some_) ↦
        let (t, fine) = duplicate_message_total p clus.members j js some_ h in
        (
          some t,
          rw (scan_leaders_lem 0 clus.lead_idx clus.members h, two) (rw some_ (rw fine refl)),
          ((λ x. cc), (λ x. cc (x, two))),
        )
  ]
  | inr one ↦ (
    none,
    rw (scan_leaders_lem 0 clus.lead_idx clus.members h, one) refl,
    ((λ x. one), (λ x. refl)),
  )
]
