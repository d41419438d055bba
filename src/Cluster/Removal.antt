-- ===== src/Cluster/Removal.antt =====
-- What `Remove` does behind a successful `MemberRemove`, and what a refused `Add` leaves behind.
use etcdlabs.Prelude.{
  ℕ, zero, suc, ◌%◌, false, panics, ◌+◌, ◌≤◌, ◌<◌, ◌≡◌, refl, sym, ap, subst, ◌∙◌, ◌≢◌, inl, inr,
  true, Option, none, some, List, [], ◌∷◌, ◌++◌, arith, ret, Exec-cases, Text, length, get_elem?,
  set, erase_idx, get_elem?-set_self, get_elem?-some_lt, get_elem?-erase_idx_ge, Option-cases,
}
use native.Mathlib.Nat.{mod_self}
use etcdlabs.Clusterpb.{is_stopped}
use etcdlabs.Cluster.Types.{
  Outcome, good, fail, TlsConfig, Platform, Server, Member, Cluster, new_member,
}
use etcdlabs.Cluster.Member
use etcdlabs.Cluster.Build.{set_initial_cluster, initial_cluster, add_member}
use etcdlabs.Cluster.Ops.{
  remove, take_out, reindex, RemoveEvent, add, AddEvent, announce, ask_first, grow, stop_from,
  shutdown,
}
use etcdlabs.Cluster.Hosts.{WellFormed}
use etcdlabs.Cluster.Hosts.Kept.{stop-urls, grow-WellFormed}
use etcdlabs.Cluster.Inversion.{add-inv, grow-inv}

stop-stopped :
    (p : Platform) (now : ℕ) (m m' : Member)
    → Member.stop p now m ≡ ret m'
    → is_stopped m'.status.state ≡ true
unfolding Member.stop
stop-stopped p now m m' e = ground arith

-- A `Remove` without an error went through `take_out`.
pub remove-inv :
    (p : Platform) (ev : RemoveEvent) (i : ℕ) (clus clus' : Cluster)
    → remove p ev i clus ≡ ret (clus', none)
    → take_out p ev.now i clus ≡ ret clus'
unfolding remove
remove-inv p ev i clus clus' e = elim (Exec-cases (take_out p ev.now i clus)) [
  | inl t ↦ ground (arith, t)
  | inr (c, t) ↦ ground (arith, t)
]

take_out-inv :
    (p : Platform) (now i : ℕ) (clus clus' : Cluster)
    → take_out p now i clus ≡ ret clus'
    → (m : Member) × (m' : Member) × (get_elem? (erase_idx clus.members i) i ≡ some m)
      × (Member.stop p now m ≡ ret m')
      × (clus'.members ≡ set (erase_idx clus.members i) i m')
      × (clus'.removed_dirs ≡ clus.removed_dirs ++ m.cfg.dir ∷ m.cfg.wal_dir ∷ [])
unfolding take_out
take_out-inv p now i clus clus' e =
    elim (Exec-cases (reindex 0 (erase_idx clus.members i) clus.client_host_to_index)) [
      | inl h ↦ ground (arith, h)
      | inr (hosts, h) ↦ elim (Option-cases (get_elem? (erase_idx clus.members i) i)) [
        | inl q ↦ ground (arith, h, q)
        | inr (m, q) ↦ elim (Exec-cases (Member.stop p now m)) [
          | inl s ↦ ground (arith, h, q, s)
          | inr (m', s) ↦ (m, m', q, s, ground (arith, h, q, s), ground (arith, h, q, s))
        ]
      ]
    ]

-- The last member has no successor in the shortened list.
take_out_last :
    (p : Platform) (now i : ℕ) (clus : Cluster)
    → length clus.members ≤ i + 1
    → take_out p now i clus ≡ panics
take_out_last p now i clus h = elim (Exec-cases (take_out p now i clus)) [
  | inl e ↦ e
  | inr (clus', e) ↦
      let (m, m', q, s, r, d) = take_out-inv p now i clus clus' e in
      let gone : get_elem? clus.members (suc i) ≡ some m =
        sym (get_elem?-erase_idx_ge clus.members i i (omega arith)) ∙ q in
      absurd (omega (arith, get_elem?-some_lt clus.members (suc i) m gone))
]

-- Take the last member of a well-formed cluster, with a server behind it, and a call of the first
-- member's `Client` that returns. `Remove` of the last member returns an error of `Client` or of
-- `MemberRemove`, with the cluster as it was. If neither fails, then `Remove` panics.
pub remove_last :
    (p : Platform) (ev : RemoveEvent) (i : ℕ) (clus : Cluster) (gone first : Member) (srv : Server)
    (answer : Outcome (Member.Client × Option TlsConfig))
    → WellFormed clus
    → length clus.members ≡ i + 1
    → get_elem? clus.members i ≡ some gone
    → get_elem? clus.members 0 ≡ some first
    → gone.srv ≡ some srv
    → Member.client ev.client_error clus false [] first ≡ ret answer
    → remove p ev i clus ≡ (elim answer [
      | fail e ↦ ret (clus, some e)
      | good cli ↦ elim ev.member_remove [ some e ↦ ret (clus, some e) | none ↦ panics ]
    ])
unfolding remove
remove_last p ev i clus gone first srv answer v last g f has c =
    let sized : clus.size ≡ suc i = omega (arith, v.sized, last) in
    let next : i + 1 ≡ suc i = omega arith in
    let wraps : (i + 1) % suc i ≡ 0 = ap (λ (k : ℕ). k % suc i) next ∙ mod_self (suc i) in
    let lost : take_out p ev.now i clus ≡ panics = take_out_last p ev.now i clus (omega arith) in
    ground (arith, sized, wraps, g, f, has, c, lost)

-- A `Remove(i)` without an error stops the member that stood behind the one it took out of the list,
-- and removes that member's data directories.
pub remove_stops_next :
    (p : Platform) (ev : RemoveEvent) (i : ℕ) (clus clus' : Cluster)
    → remove p ev i clus ≡ ret (clus', none)
    → (m : Member) × (m' : Member) × (get_elem? clus.members (i + 1) ≡ some m)
      × (get_elem? clus'.members i ≡ some m')
      × (m'.cfg ≡ m.cfg)
      × (is_stopped m'.status.state ≡ true)
      × (clus'.removed_dirs ≡ clus.removed_dirs ++ m.cfg.dir ∷ m.cfg.wal_dir ∷ [])
remove_stops_next p ev i clus clus' e =
    let (m, m', q, s, r, d) = take_out-inv p ev.now i clus clus' (remove-inv p ev i clus clus' e) in
    (
      m,
      m',
      subst (λ n. get_elem? clus.members n ≡ some m) (omega arith)
          (sym (get_elem?-erase_idx_ge clus.members i i (omega arith)) ∙ q),
      rw r (
          get_elem?-set_self (erase_idx clus.members i) i m'
            (get_elem?-some_lt (erase_idx clus.members i) i m q)),
      stop-urls p ev.now m m' s,
      stop-stopped p ev.now m m' s,
      d,
    )

abbrev servers : List Member → List (Option Server)
servers [] = []
servers (m ∷ ms) = m.srv ∷ servers ms

set_initial_cluster-servers :
    (whole : List Member) (n : ℕ) (ms ms' : List Member)
    → set_initial_cluster whole n ms ≡ ret ms'
    → servers ms' ≡ servers ms
unfolding set_initial_cluster
set_initial_cluster-servers whole zero ms ms' e = ground arith
set_initial_cluster-servers whole (suc n) [] ms' e = cc
set_initial_cluster-servers whole (suc n) (m ∷ ms) ms' e =
    elim (Exec-cases (initial_cluster whole)) [
      | inl q ↦ ground (arith, q)
      | inr (t, q) ↦ elim (Exec-cases (set_initial_cluster whole n ms)) [
        | inl r ↦ ground (arith, q, r)
        | inr (rest, r) ↦ ground (arith, q, r, set_initial_cluster-servers whole n ms rest r)
      ]
    ]

-- A member without a server makes the stop of all members panic.
stop_from_nil :
    (p : Platform) (now : ℕ → ℕ) (i n k : ℕ) (ms ms' : List Member)
    → k < n
    → get_elem? (servers ms) k ≡ some none
    → stop_from p now i n ms ≢ ret ms'
unfolding stop_from Member.stop
stop_from_nil p now i zero k ms ms' h g e = absurd (omega arith)
stop_from_nil p now i (suc n) k [] ms' h g e = cc
stop_from_nil p now i (suc n) zero (m ∷ ms) ms' h g e = ground (arith, g)
stop_from_nil p now i (suc n) (suc k) (m ∷ ms) ms' h g e =
    elim (Exec-cases (stop_from p now (i + 1) n ms)) [
      | inl t ↦ ground (arith, t)
      | inr (ms₁, t) ↦ stop_from_nil p now (i + 1) n k ms ms₁ (omega arith) g t
    ]

servers-last :
    (ms : List Member) (m : Member)
    → m.srv ≡ none
    → get_elem? (servers (ms ++ m ∷ [])) (length ms) ≡ some none
servers-last [] m e = ap some e
servers-last (n ∷ ms) m e = servers-last ms m e

-- A refused call of the cluster leaves the grown cluster.
announce-refused :
    (p : Platform) (ev : AddEvent) (idx : ℕ) (clus clus' : Cluster) (err : Option Text) (t : Text)
    → ev.member_add ≡ some t
    → announce p ev idx clus ≡ ret (clus', err)
    → (clus' ≡ clus) × (err ≢ none)
unfolding announce ask_first
announce-refused p ev idx clus clus' err t r e = (ground (arith, r), λ n. ground (arith, r))

grow-servers :
    (p : Platform) (ev : AddEvent) (clus grown : Cluster)
    → grow p ev clus ≡ ret grown
    → get_elem? (servers grown.members) (length clus.members) ≡ some none
unfolding add_member new_member
grow-servers p ev clus grown g =
    let (ms, s, r) = grow-inv p ev clus grown g in
    rw r (rw (set_initial_cluster-servers _ _ _ ms s) (servers-last clus.members _ refl))

-- When the cluster refuses the new member, `Add` returns an error, but the member stays in the list,
-- and `size` counts it. It has no server, so that a later `Shutdown` panics.
pub add_refused :
    (p : Platform) (ev : AddEvent) (clus clus' : Cluster) (err : Option Text) (t : Text)
    → WellFormed clus
    → ev.member_add ≡ some t
    → add p ev clus ≡ ret (clus', err)
    → (err ≢ none)
      × (clus'.size ≡ clus.size + 1)
      × (length clus'.members ≡ length clus.members + 1)
      × ((now : ℕ → ℕ) (down : Cluster) → shutdown p now clus' ≢ ret down)
unfolding shutdown
add_refused p ev clus clus' err t v r e =
    let (grown, g, a) = add-inv p ev clus clus' err e in
    let (w, n) = grow-WellFormed p ev clus grown v g in
    let (same, bad) = announce-refused p ev (length clus.members) grown clus' err t r a in
    let nil : get_elem? (servers grown.members) (length clus.members) ≡ some none =
      grow-servers p ev clus grown g in
    rw same (
      bad,
      omega (arith, w.sized, v.sized, n),
      n,
      λ now down x. elim (Exec-cases (stop_from p now 0 grown.size grown.members)) [
        | inl q ↦ ground (arith, q)
        | inr (ms, q) ↦
            stop_from_nil p now 0 grown.size (length clus.members) grown.members ms
              (omega (arith, w.sized, n)) nil q
      ],
    )
