-- ===== src/Cluster/Calm.antt =====
-- What the status of a member says of its server: the calls of member.go, when nothing goes wrong behind
-- the launch of a server.
use etcdlabs.Prelude.{
  ℕ, ◌≡◌, refl, ◌∙◌, ap, inl, inr, true, false, not, Option, none, some, List, [], ◌∷◌, arith, ret,
  Exec-cases, Text, Bool-cases, Option-cases,
}
use etcdlabs.Clusterpb.{is_stopped}
use etcdlabs.Cluster.Types.{good, fail, Outcome-cases, Platform, TlsConfig, Server, Member, Cluster}
use etcdlabs.Cluster.Member
use etcdlabs.Cluster.Member.{StartEvent}
use etcdlabs.Cluster.Status.{FetchEvent, StatusResponse, fetch_member_status}
use etcdlabs.Cluster.Leader.{
  WaitEvent, Round, lead_rounds, pending, settled, poll_lead, all_member_ids,
  member_wait_for_leader,
}

-- The status says whether the server is open.
abbrev pub Agrees : Member → Type 0
Agrees m = m.srv_open ≡ not (is_stopped m.status.state)

-- What etcd answers to a status fetch: everything if the server is open, and otherwise nothing.
pub record IsTruthful (ev : FetchEvent) (m : Member) : Type 0 where
  pub up :
      m.srv_open ≡ true
      → (resp : StatusResponse) × (h : ℕ) × (ev.status ≡ good resp)
        × (ev.dial_error ≡ none)
        × (ev.hash ≡ good h)
  pub down : m.srv_open ≡ false → (e : Text) × (ev.status ≡ fail e)

-- A call in whose course nothing goes wrong behind the launch of a server: a `Start` whose server has
-- launched finds it ready, and `FetchMemberStatus` gets an answer from an open server, and from no
-- other.
pub data CalmStep (p : Platform) (clus : Cluster) : Member → Member → Type 0 where
  starts :
      {m m' : Member} (ev : StartEvent) (err : Option Text)
      → Member.start p ev m ≡ ret (m', err)
      → ((srv : Server) → ev.server m.cfg ≡ good srv → err ≡ none)
      → CalmStep p clus m m'
  restarts :
      {m m' : Member} (ev : StartEvent) (err : Option Text)
      → Member.restart p ev m ≡ ret (m', err)
      → CalmStep p clus m m'
  stops : {m m' : Member} (now : ℕ) → Member.stop p now m ≡ ret m' → CalmStep p clus m m'
  fetches :
      {m m' : Member} (ev : FetchEvent) (err : Option Text)
      → fetch_member_status p ev clus m ≡ ret (m', err)
      → IsTruthful ev m
      → CalmStep p clus m m'
  waits :
      {m m' : Member} (ev : WaitEvent) (err : Option Text)
      → member_wait_for_leader p ev clus m ≡ ret (some (m', err))
      → CalmStep p clus m m'

-- A life of calm calls; the cluster around the member may change between them.
pub data CalmLife (p : Platform) (m : Member) : Member → Type 0 where
  born : CalmLife p m m
  then_ : {n o : Member} (clus : Cluster) → CalmLife p m n → CalmStep p clus n o → CalmLife p m o

start-Agrees :
    (p : Platform) (ev : StartEvent) (m m' : Member) (err : Option Text)
    → Agrees m
    → ((srv : Server) → ev.server m.cfg ≡ good srv → err ≡ none)
    → Member.start p ev m ≡ ret (m', err)
    → Agrees m'
unfolding Member.start
start-Agrees p ev m m' err a calm e = elim (Outcome-cases (ev.server m.cfg)) [
  | inr (t, q) ↦ ground (arith, q)
  | inl (srv, q) ↦ ground (arith, q, calm srv q)
]

restart-Agrees :
    (p : Platform) (ev : StartEvent) (m m' : Member) (err : Option Text)
    → Agrees m
    → Member.restart p ev m ≡ ret (m', err)
    → Agrees m'
unfolding Member.restart
restart-Agrees p ev m m' err a e = ground arith

pub stop-Agrees :
    (p : Platform) (now : ℕ) (m m' : Member)
    → Agrees m
    → Member.stop p now m ≡ ret m'
    → Agrees m' × (m'.srv_open ≡ false)
unfolding Member.stop
stop-Agrees p now m m' a e = ground arith

pub fetch-open :
    (p : Platform) (ev : FetchEvent) (clus : Cluster) (m m' : Member) (err : Option Text)
    → fetch_member_status p ev clus m ≡ ret (m', err)
    → m'.srv_open ≡ m.srv_open
unfolding fetch_member_status
fetch-open p ev clus m m' err e = ground arith

-- A fetch behind a client that could be made: the status agrees, whatever it said before.
pub fetch_repairs :
    (p : Platform) (ev : FetchEvent) (clus : Cluster) (m m' : Member) (err : Option Text)
    (cli : Member.Client × Option TlsConfig)
    → IsTruthful ev m
    → Member.client ev.client_error clus false [] m ≡ ret (good cli)
    → fetch_member_status p ev clus m ≡ ret (m', err)
    → Agrees m'
unfolding fetch_member_status
fetch_repairs p ev clus m m' err cli t c e = elim (Bool-cases m.srv_open) [
  | inl on ↦ let (resp, h, s, d, q) = t.up on in ground (arith, c, s, d, q, on)
  | inr off ↦ let (x, s) = t.down off in ground (arith, c, s, off)
]

fetch-Agrees :
    (p : Platform) (ev : FetchEvent) (clus : Cluster) (m m' : Member) (err : Option Text)
    → Agrees m
    → IsTruthful ev m
    → fetch_member_status p ev clus m ≡ ret (m', err)
    → Agrees m'
unfolding fetch_member_status
fetch-Agrees p ev clus m m' err a t e =
    elim (Exec-cases (Member.client ev.client_error clus false [] m)) [
      | inl c ↦ ground (arith, c)
      | inr (fail x, c) ↦ ground (arith, c)
      | inr (good cli, c) ↦ fetch_repairs p ev clus m m' err cli t c e
    ]

Agrees-open : (m : Member) → Agrees m → is_stopped m.status.state ≡ false → m.srv_open ≡ true
Agrees-open m a h = a ∙ ap not h

settled-Agrees :
    (p : Platform) (resp : StatusResponse) (m : Member)
    → m.srv_open ≡ true
    → Agrees (settled p resp m) × (is_stopped (settled p resp m).status.state ≡ false)
settled-Agrees p resp m h = ground arith

lead_rounds-Agrees :
    (p : Platform) (ids : List ℕ) (rs : List Round) (m m' : Member)
    → Agrees m
    → is_stopped m.status.state ≡ false
    → lead_rounds p ids rs m ≡ some m'
    → Agrees m'
unfolding lead_rounds
lead_rounds-Agrees p ids [] m m' v r e = cc
lead_rounds-Agrees p ids (r ∷ rs) m m' v h e = elim (Option-cases (poll_lead ids r.polls)) [
  | inl q ↦ ground (arith, q)
  | inr (lead, q) ↦ elim (Outcome-cases r.answer) [
    | inr (t, a) ↦ ground (arith, q, a, lead_rounds-Agrees p ids rs m m' v h)
    | inl (resp, a) ↦ ground (
      arith,
      q,
      a,
      settled-Agrees p resp m (Agrees-open m v h),
      lead_rounds-Agrees p ids rs (pending p resp m) m' (Agrees-open m v h) refl,
      lead_rounds-Agrees p ids rs (settled p resp m) m'
          (settled-Agrees p resp m (Agrees-open m v h)).0
          (settled-Agrees p resp m (Agrees-open m v h)).1,
    )
  ]
]

wait-Agrees :
    (p : Platform) (ev : WaitEvent) (clus : Cluster) (m m' : Member) (err : Option Text)
    → Agrees m
    → member_wait_for_leader p ev clus m ≡ ret (some (m', err))
    → Agrees m'
unfolding member_wait_for_leader
wait-Agrees p ev clus m m' err v e = elim (Bool-cases (is_stopped m.status.state)) [
  | inl s ↦ ground (arith, s)
  | inr s ↦ elim (Exec-cases (all_member_ids clus.members)) [
    | inl q ↦ ground (arith, s, q)
    | inr (ids, q) ↦ elim (Option-cases (lead_rounds p ids ev.rounds m)) [
      | inl l ↦ ground (arith, s, q, l)
      | inr (m₁, l) ↦
          let w = lead_rounds-Agrees p ids ev.rounds m m₁ v s l in ground (arith, s, q, l, w)
    ]
  ]
]

CalmStep-Agrees :
    (p : Platform) (clus : Cluster) {m m' : Member} → CalmStep p clus m m' → Agrees m → Agrees m'
CalmStep-Agrees p clus {m} {m'} (starts ev err e calm) a = start-Agrees p ev m m' err a calm e
CalmStep-Agrees p clus {m} {m'} (restarts ev err e) a = restart-Agrees p ev m m' err a e
CalmStep-Agrees p clus {m} {m'} (stops now e) a = (stop-Agrees p now m m' a e).0
CalmStep-Agrees p clus {m} {m'} (fetches ev err e t) a = fetch-Agrees p ev clus m m' err a t e
CalmStep-Agrees p clus {m} {m'} (waits ev err e) a = wait-Agrees p ev clus m m' err a e

pub CalmLife-Agrees : (p : Platform) {m n : Member} → Agrees m → CalmLife p m n → Agrees n
CalmLife-Agrees p a born = a
CalmLife-Agrees p a (then_ clus l st) = CalmStep-Agrees p clus st (CalmLife-Agrees p a l)
