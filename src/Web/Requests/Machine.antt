-- ===== src/Web/Requests/Machine.antt =====
-- What a user of the playground sees of the cluster: which nodes run. Each request is a turn of a
-- small machine on that view.
use etcdlabs.Prelude.{
  ℕ, zero, suc, ◌+◌, ◌*◌, ◌≤◌, ◌<◌, ◌≡◌, refl, sym, ap, subst, ◌∙◌, inl, inr, Bool, true, false,
  not, some, List, [], ◌∷◌, arith, ret, Text, length, get_elem?, set, length-set, Option-cases,
}
use etcdlabs.Prelude.Int.{ℤ}
use etcdlabs.Clusterpb.{is_stopped}
use etcdlabs.Cluster.Types.{Platform, Member, Cluster}
use etcdlabs.Cluster.Inversion.{stop_at-inv, restart_at-inv}
use etcdlabs.Cluster.Quorum.{stop-state, restart-state, restart-error}
use etcdlabs.Cluster.View.{active, active_node_n, quorum, is_stopped_at}
use etcdlabs.Web.Requests.{Backend, RequestEvent, Reply}
use etcdlabs.Web.Requests.Handler.{client_request_handler}
use etcdlabs.Web.Requests.Change.{Change, kept, stopped_one, restarted_one}
use etcdlabs.Web.Requests.Effects.{client_request_handler-Change}

-- Which nodes run.
abbrev pub ups : List Member → List Bool
ups [] = []
ups (m ∷ ms) = not (is_stopped m.status.state) ∷ ups ms

abbrev pub running : List Bool → ℕ
running [] = 0
running (true ∷ s) = suc (running s)
running (false ∷ s) = running s

-- A turn of the machine: nothing happens, or a running node goes down while more than half of the
-- nodes run, or a node that is down comes up.
pub data Turn (s : List Bool) : List Bool → Type 0 where
  idle : Turn s s
  take_down :
      (i : ℕ) → length s < 2 * running s → get_elem? s i ≡ some true → Turn s (set s i false)
  bring_up : (i : ℕ) → get_elem? s i ≡ some false → Turn s (set s i true)

pub data Turns (s : List Bool) : List Bool → Type 0 where
  still : Turns s s
  turn : {t u : List Bool} → Turns s t → Turn t u → Turns s u

ups-set :
    (ms : List Member) (i : ℕ) (m : Member)
    → ups (set ms i m) ≡ set (ups ms) i (not (is_stopped m.status.state))
ups-set [] i m = refl
ups-set (n ∷ ms) zero m = refl
ups-set (n ∷ ms) (suc i) m = ap (λ s. not (is_stopped n.status.state) ∷ s) (ups-set ms i m)

get_elem?-ups :
    (ms : List Member) (i : ℕ) (m : Member)
    → get_elem? ms i ≡ some m
    → get_elem? (ups ms) i ≡ some (not (is_stopped m.status.state))
get_elem?-ups [] i m e = cc
get_elem?-ups (n ∷ ms) zero m e = ground arith
get_elem?-ups (n ∷ ms) (suc i) m e = get_elem?-ups ms i m e

length-ups : (ms : List Member) → length (ups ms) ≡ length ms
length-ups [] = refl
length-ups (m ∷ ms) = ap suc (length-ups ms)

running-ups : (ms : List Member) → running (ups ms) ≡ active ms
unfolding active
running-ups [] = refl
running-ups (m ∷ ms) = ground (arith, running-ups ms)

-- Setting a place to what it holds changes nothing.
set_same : (s : List Bool) (i : ℕ) (b : Bool) → get_elem? s i ≡ some b → set s i b ≡ s
set_same [] i b e = refl
set_same (c ∷ s) zero b e = ground arith
set_same (c ∷ s) (suc i) b e = ap (λ t. c ∷ t) (set_same s i b e)

-- What `IsStopped` answers about a member.
stopped-ups :
    (c : Cluster) (i : ℕ) (b : Bool) (m : Member)
    → is_stopped_at c i ≡ ret b
    → get_elem? c.members i ≡ some m
    → is_stopped m.status.state ≡ b
unfolding is_stopped_at
stopped-ups c i b m w g = ground arith

Change-Turn :
    (p : Platform) (ev : RequestEvent) (c d : Cluster)
    → Change p ev c d
    → Turn (ups c.members) (ups d.members)
unfolding quorum active_node_n
Change-Turn p ev c d (kept same) = subst (λ x. Turn (ups c.members) (ups x.members)) (sym same) idle
Change-Turn p ev c d (stopped_one i q w e) =
    let (m, m', g, s, r) = stop_at-inv p ev.stop_at_time i c d e in
    let up = stopped-ups c i false m w g in
    let down = stop-state p ev.stop_at_time m m' s in
    let next : ups d.members ≡ set (ups c.members) i false =
      rw r (ups-set c.members i m' ∙ ap (λ b. set (ups c.members) i (not b)) down) in
    subst (Turn (ups c.members)) (sym next) (
      take_down i (omega (arith, length-ups c.members, running-ups c.members, q))
        (get_elem?-ups c.members i m g ∙ ap (λ b. some (not b)) up))
Change-Turn p ev c d (restarted_one i err w e) =
    let (m, m', g, s, r) = restart_at-inv p ev.restarted i c d err e in
    let down = stopped-ups c i true m w g in
    let here : get_elem? (ups c.members) i ≡ some false =
      get_elem?-ups c.members i m g ∙ ap (λ b. some (not b)) down in
    elim (Option-cases err) [
      | inl fine ↦
          let up = restart-state p ev.restarted m m' (rw fine at s) in
          subst (Turn (ups c.members))
            (sym (rw r (ups-set c.members i m' ∙ ap (λ b. set (ups c.members) i (not b)) up)))
            (bring_up i here)
      | inr (t, bad) ↦
          let (same, idle_) = restart-error p ev.restarted m m' t (rw bad at s) in
          let next : ups d.members ≡ ups c.members = rw r (
            ups-set c.members i m'
            ∙ ap (λ b. set (ups c.members) i (not b)) (ap (λ x. is_stopped x.state) same ∙ down)
            ∙ set_same (ups c.members) i false here) in
          subst (Turn (ups c.members)) (sym next) idle
    ]

-- Requests one after the other, with the responses that they get.
pub data Conversation (show_duration : ℤ → Text) (p : Platform) {L : Type 0} (b : Backend L)
    : Backend L → Type 0 where
  nothing : Conversation show_duration p b b
  request :
      {c d : Backend L} (is_post : Bool) (ev : RequestEvent) (reply : Reply)
      → Conversation show_duration p b c
      → client_request_handler show_duration p is_post ev c ≡ ret (d, reply)
      → Conversation show_duration p b d

-- The handler refines the machine: any sequence of requests that return is, on the view, a sequence
-- of turns.
pub Conversation-Turns :
    (show_duration : ℤ → Text) (p : Platform) {L : Type 0} {b b' : Backend L}
    → Conversation show_duration p b b'
    → Turns (ups b.cluster.members) (ups b'.cluster.members)
Conversation-Turns sd p nothing = still
Conversation-Turns sd p {L} {b} {b'} (request {c} is_post ev reply h e) =
    turn (Conversation-Turns sd p h) (
      Change-Turn p ev c.cluster b'.cluster
        (client_request_handler-Change sd p is_post ev c b' reply e))

running-take_down :
    (s : List Bool) (i : ℕ) → get_elem? s i ≡ some true → running (set s i false) + 1 ≡ running s
running-take_down [] i e = cc
running-take_down (true ∷ s) zero e = omega arith
running-take_down (false ∷ s) zero e = cc
running-take_down (true ∷ s) (suc i) e = ground (arith, running-take_down s i e)
running-take_down (false ∷ s) (suc i) e = running-take_down s i e

running-bring_up :
    (s : List Bool) (i : ℕ) → get_elem? s i ≡ some false → running (set s i true) ≡ running s + 1
running-bring_up [] i e = cc
running-bring_up (true ∷ s) zero e = cc
running-bring_up (false ∷ s) zero e = omega arith
running-bring_up (true ∷ s) (suc i) e = ground (arith, running-bring_up s i e)
running-bring_up (false ∷ s) (suc i) e = running-bring_up s i e

-- Whatever users do, the machine keeps its number of nodes, and at least half of them, rounded down,
-- run if that many did before.
pub Turns-running :
    (s t : List Bool)
    → Turns s t
    → (length t ≡ length s) × (length s ≤ 2 * running s + 1 → length t ≤ 2 * running t + 1)
Turns-running s t still = (refl, λ h. h)
Turns-running s t (turn {t = u} h idle) = Turns-running s u h
Turns-running s t (turn {t = u} h (take_down i q e)) =
    let (n, k) = Turns-running s u h in
    (length-set u i false ∙ n, λ x. omega (arith, running-take_down u i e, length-set u i false))
Turns-running s t (turn {t = u} h (bring_up i e)) =
    let (n, k) = Turns-running s u h in
    (length-set u i true ∙ n, λ x. omega (arith, k x, running-bring_up u i e, length-set u i true))

-- After any sequence of requests that return, the cluster has the same number of nodes; and if at
-- least half of the nodes, rounded down, ran before it, then at least half of them, rounded down, run
-- after it.
pub Conversation-active :
    (show_duration : ℤ → Text) (p : Platform) {L : Type 0} {b b' : Backend L}
    → Conversation show_duration p b b'
    → (length b'.cluster.members ≡ length b.cluster.members)
      × (quorum b.cluster ≤ active_node_n b.cluster + 1
          → quorum b'.cluster ≤ active_node_n b'.cluster + 1)
unfolding quorum active_node_n
Conversation-active sd p {L} {b} {b'} h =
    let ms = b.cluster.members in
    let ms' = b'.cluster.members in
    let (n, k) = Turns-running (ups ms) (ups ms') (Conversation-Turns sd p h) in
    (
      sym (length-ups ms') ∙ n ∙ length-ups ms,
      λ q. omega (arith, k, running-ups ms, running-ups ms', length-ups ms, length-ups ms', n),
    )
