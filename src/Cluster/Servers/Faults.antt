-- ===== src/Cluster/Servers/Faults.antt =====
-- Where the status of a member and its server part: a status fetch that gets no answer from an open
-- server, and one that writes behind a `Stop`.
use etcdlabs.Prelude.{
  ℕ, zero, suc, ◌+◌, ◌≡◌, refl, sym, ◌∙◌, inl, inr, Bool, true, false, Option, none, some, List, [],
  ◌∷◌, arith, Exec, ret, ◌>>=◌, Exec-cases, Text, get_elem?, get_elem?-some_lt, get_elem?-set_self,
  All-get, Bool-cases, Option-cases, not, ap, index, All, length,
}
use etcdlabs.Clusterpb.{is_stopped}
use etcdlabs.Cluster.Types.{good, fail, Url, Platform, TlsConfig, Member, Cluster}
use etcdlabs.Cluster.Member
use etcdlabs.Cluster.Member.{StartEvent}
use etcdlabs.Cluster.Status.{
  FetchEvent, fetch_member_status, refreshed, update_member_status, write_status,
}
use etcdlabs.Cluster.Refresh.{refresh_from-HasServer, refresh_from-get, length-refresh_from}
use etcdlabs.Cluster.Ops.{put_member, stop_at, stop_from, shutdown}
use etcdlabs.Cluster.View.{is_stopped_at}
use etcdlabs.Cluster.Election.{HasServer}
use etcdlabs.Cluster.Shutdown.{shutdown_lem}
use etcdlabs.Cluster.Calm.{IsTruthful, fetch_repairs, fetch-open}

-- Whether the server of a member is open.
abbrev pub is_open_at : Cluster → ℕ → Exec Bool
is_open_at clus i = index clus.members i >>= λ m. ret m.srv_open

-- A member in the state "Stopped" stays as it is through the stops of `Shutdown`.
stop_from-stopped :
    (p : Platform) (now : ℕ → ℕ) (k n i : ℕ) (ms ms' : List Member) (m : Member)
    → get_elem? ms i ≡ some m
    → is_stopped m.status.state ≡ true
    → stop_from p now k n ms ≡ ret ms'
    → get_elem? ms' i ≡ some m
unfolding stop_from Member.stop
stop_from-stopped p now k zero i ms ms' m g s e = ground (arith, g, e)
stop_from-stopped p now k (suc n) i [] ms' m g s e = cc
stop_from-stopped p now k (suc n) zero (x ∷ ms) ms' m g s e =
    elim (Exec-cases (stop_from p now (k + 1) n ms)) [
      | inl q ↦ ground (arith, q)
      | inr (ms₁, q) ↦ ground (arith, q, s)
    ]
stop_from-stopped p now k (suc n) (suc i) (x ∷ ms) ms' m g s e =
    elim (Exec-cases (Member.stop p (now k) x)) [
      | inl x₁ ↦ ground (arith, x₁)
      | inr (x₁, y) ↦ elim (Exec-cases (stop_from p now (k + 1) n ms)) [
        | inl q ↦ ground (arith, y, q)
        | inr (ms₁, q) ↦
            let there = stop_from-stopped p now (k + 1) n i ms ms₁ m g s q in
            ground (arith, y, q, there)
      ]
    ]

shutdown-stopped :
    (p : Platform) (now : ℕ → ℕ) (i : ℕ) (clus clus' : Cluster) (m : Member)
    → get_elem? clus.members i ≡ some m
    → is_stopped m.status.state ≡ true
    → clus.stopc_closed ≡ false
    → shutdown p now clus ≡ ret clus'
    → get_elem? clus'.members i ≡ some m
unfolding shutdown
shutdown-stopped p now i clus clus' m g s o e =
    elim (Exec-cases (stop_from p now 0 clus.size clus.members)) [
      | inl q ↦ ground (arith, o, q)
      | inr (ms, q) ↦
          let same : clus'.members ≡ ms = ground (arith, o, q) in
          rw same (stop_from-stopped p now 0 clus.size i clus.members ms m g s q)
    ]

stop_at-stopped :
    (p : Platform) (now i : ℕ) (clus : Cluster) (m : Member)
    → get_elem? clus.members i ≡ some m
    → HasServer m
    → is_stopped m.status.state ≡ true
    → (clus' : Cluster) × (stop_at p now i clus ≡ ret clus') × (get_elem? clus'.members i ≡ some m)
unfolding stop_at Member.stop
stop_at-stopped p now i clus m g (srv, has) s = (
  put_member clus i m,
  ground (arith, g, has, s),
  get_elem?-set_self clus.members i m (get_elem?-some_lt clus.members i m g),
)

-- A fetch whose `Status` fails.
refreshed-unreachable :
    (p : Platform) (ev : FetchEvent) (clus : Cluster) (m : Member) (e : Text) (url : Url)
    (cli : Member.Client × Option TlsConfig)
    → Member.client ev.client_error clus false [] m ≡ ret (good cli)
    → index m.cfg.lc_urls 0 ≡ ret url
    → ev.status ≡ fail e
    → (is_stopped (refreshed p ev clus m).status.state ≡ true)
      × ((refreshed p ev clus m).srv_open ≡ m.srv_open)
      × ((refreshed p ev clus m).srv ≡ m.srv)
unfolding refreshed fetch_member_status
refreshed-unreachable p ev clus m e url cli c u s = ground (arith, c, u, s)

-- Take an open cluster whose members all have servers, and a member whose server is open but whose
-- `Status` call fails in a round of `UpdateMemberStatus`, as it does behind its timeout of a second. The
-- member counts as stopped from then on; a `Stop` of it returns without closing the server, and so does
-- a `Shutdown` of the cluster.
pub unreachable_stays_open :
    (p : Platform) (evs : ℕ → FetchEvent) (clus : Cluster) (i : ℕ) (m : Member) (e : Text)
    (url : Url) (cli : Member.Client × Option TlsConfig)
    → clus.stopc_closed ≡ false
    → clus.size ≡ length clus.members
    → All HasServer clus.members
    → get_elem? clus.members i ≡ some m
    → m.srv_open ≡ true
    → Member.client (evs i).client_error clus false [] m ≡ ret (good cli)
    → index m.cfg.lc_urls 0 ≡ ret url
    → (evs i).status ≡ fail e
    → (is_stopped_at (update_member_status p evs clus) i ≡ ret true)
      × ((now : ℕ)
          → (clus' : Cluster) × (stop_at p now i (update_member_status p evs clus) ≡ ret clus')
            × (is_open_at clus' i ≡ ret true))
      × ((now : ℕ → ℕ)
          → (clus' : Cluster) × (shutdown p now (update_member_status p evs clus) ≡ ret clus')
            × (is_open_at clus' i ≡ ret true))
unfolding update_member_status is_stopped_at
unreachable_stays_open p evs clus i m e url cli o sized servers g on c u s =
    let clus₁ = update_member_status p evs clus in
    let n = refreshed p (evs i) clus m in
    let (down, open_, same) = refreshed-unreachable p (evs i) clus m e url cli c u s in
    let index : 0 + i ≡ i = omega arith in
    let there : get_elem? clus₁.members i ≡ some n = rw index at (
      refresh_from-get p evs clus 0 clus.size i clus.members m
        (omega (arith, sized, get_elem?-some_lt clus.members i m g)) g) in
    let all = refresh_from-HasServer p evs clus 0 clus.size clus.members servers in
    (
      rw there (rw down refl),
      λ now.
          let (clus', r, still) =
            stop_at-stopped p now i clus₁ n there (All-get HasServer clus₁.members i n all there)
              down in
          (clus', r, rw still (ap ret (open_ ∙ on))),
      λ now.
          let (clus', r, none_up, l, closed, done, removed, again) =
            shutdown_lem p now clus₁ o
              (sized ∙ sym (length-refresh_from p evs clus 0 clus.size clus.members)) all in
          (
            clus',
            r,
            rw (shutdown-stopped p now i clus₁ clus' n there down o r) (ap ret (open_ ∙ on)),
          ),
    )

fetch-running :
    (p : Platform) (ev : FetchEvent) (clus : Cluster) (m m' : Member)
    → fetch_member_status p ev clus m ≡ ret (m', none)
    → is_stopped m'.status.state ≡ false
unfolding fetch_member_status
fetch-running p ev clus m m' e = ground arith

stop-srv : (p : Platform) (now : ℕ) (m m' : Member) → Member.stop p now m ≡ ret m' → HasServer m'
unfolding Member.stop
stop-srv p now m m' e = elim (Option-cases m.srv) [
  | inl q ↦ ground (arith, q)
  | inr (srv, q) ↦ (srv, ground (arith, q))
]

restart-running :
    (p : Platform) (start : StartEvent) (m : Member)
    → HasServer m
    → is_stopped m.status.state ≡ false
    → Member.restart p start m ≡ ret (m, none)
unfolding Member.restart
restart-running p start m (srv, has) up = ground (arith, has, up)

not_injective : {b : Bool} → not b ≡ false → b ≡ true
not_injective {b} h = elim (Bool-cases b) [ inl e ↦ e | inr e ↦ ground (arith, e) ]

-- A status fetch that succeeds on a running member, but writes its status only behind a `Stop`: the
-- server is closed, but the member counts as running, and `Restart` leaves it so without an error. The
-- next fetch whose answer is the truth, behind a client that can be made, marks it stopped.
pub late_status :
    (p : Platform) (ev next : FetchEvent) (clus : Cluster) (m fetched down after : Member) (now : ℕ)
    (start : StartEvent) (cli : Member.Client × Option TlsConfig) (err : Option Text)
    → is_stopped m.status.state ≡ false
    → fetch_member_status p ev clus m ≡ ret (fetched, none)
    → Member.stop p now m ≡ ret down
    → IsTruthful next (write_status fetched.status down)
    → Member.client next.client_error clus false [] (write_status fetched.status down)
      ≡ ret (good cli)
    → fetch_member_status p next clus (write_status fetched.status down) ≡ ret (after, err)
    → let late = write_status fetched.status down in
      (late.srv_open ≡ false)
      × (is_stopped late.status.state ≡ false)
      × (Member.restart p start late ≡ ret (late, none))
      × (is_stopped after.status.state ≡ true)
unfolding Member.stop
late_status p ev next clus m fetched down after now start cli err up f d t c n =
    let off : down.srv_open ≡ false = ground (arith, d) in
    let running : is_stopped fetched.status.state ≡ false = fetch-running p ev clus m fetched f in
    (
      off,
      running,
      restart-running p start (write_status fetched.status down) (stop-srv p now m down d) running,
      not_injective (
          sym (fetch_repairs p next clus (write_status fetched.status down) after err cli t c n)
          ∙ fetch-open p next clus (write_status fetched.status down) after err n
          ∙ off),
    )
