-- ===== src/Cluster/Ops.antt =====
-- `Stop`, `Restart`, `Add`, `Remove`, `Shutdown` and `Client` of cluster.go. Each call holds the
-- cluster's locks, so it is one step from a cluster to a cluster.
use etcdlabs.Prelude.{
  ℕ, zero, suc, ◌+◌, ◌-◌, ◌%◌, true, false, Option, none, some, List, [], ◌∷◌, ◌++◌, Exec, ret,
  panics, ◌>>=◌, deref, index, Text, codes, contains, length, set, erase_idx, ◌==◌, if◌then◌else◌,
}
use etcdlabs.Cluster.Types.{
  Outcome, good, fail, Platform, TlsConfig, existing, EmbedConfig, Member, Cluster, insert, lookup,
}
use etcdlabs.Cluster.Member
use etcdlabs.Cluster.Member.{StartEvent, Client}
use etcdlabs.Cluster.Build.{member_config, add_member, set_initial_cluster, host_or_localhost}

-- `clus.Members[i]` after a call on the member that it points to.
abbrev pub put_member : Cluster → ℕ → Member → Cluster
put_member clus i m = record clus { members = set clus.members i m }

-- `(clus *Cluster) Stop(i)`
unfoldable pub stop_at : Platform → ℕ → ℕ → Cluster → Exec Cluster
stop_at p now i clus = do
  m ← index clus.members i
  m' ← Member.stop p now m
  ret (put_member clus i m')

-- `(clus *Cluster) Restart(i)`
unfoldable pub restart_at : Platform → StartEvent → ℕ → Cluster → Exec (Cluster × Option Text)
restart_at p ev i clus = do
  m ← index clus.members i
  (m', e) ← Member.restart p ev m
  ret (put_member clus i m', e)

-- What the world answers to one `Add`.
pub record AddEvent : Type 0 where
  pub default_host : Outcome Text
  pub base : EmbedConfig
  pub client_error : Option Text
  pub member_add : Option Text
  pub start : StartEvent

-- `Add` up to the call of the client: the member is configured and appended.
unfoldable pub grow : Platform → AddEvent → Cluster → Exec Cluster
grow p ev clus =
    let cfg =
      member_config p clus.ccfg ev.base existing clus.root_dir (host_or_localhost ev.default_host)
        (clus.size + 1) clus.base_port in
    let grown = add_member clus.ccfg cfg clus.base_port clus in
    let counted = record grown { size = clus.size + 1; base_port = clus.base_port + 2 } in
    (set_initial_cluster counted.members counted.size counted.members >>= λ ms.
    ret (record counted { members = ms }))

-- The first member's client asks for the new member; the error of either step.
unfoldable pub ask_first : AddEvent → ℕ → Cluster → Exec (Option Text)
ask_first ev idx clus = do
  first ← index clus.members 0
  answer ← Member.client ev.client_error clus false [] first
  elim answer [
    | fail e ↦ ret (some e)
    | good cli ↦ do m ← index clus.members idx; url ← index m.cfg.ap_urls 0; ret ev.member_add
  ]

-- The new member is started if it was asked for.
unfoldable pub announce : Platform → AddEvent → ℕ → Cluster → Exec (Cluster × Option Text)
announce p ev idx clus = do
  refused ← ask_first ev idx clus
  elim refused [
    | some e ↦ ret (clus, some e)
    | none ↦ do
      m ← index clus.members idx
      (m', e) ← Member.start p ev.start m
      ret (put_member clus idx m', e)
  ]

-- `(clus *Cluster) Add()`
unfoldable pub add : Platform → AddEvent → Cluster → Exec (Cluster × Option Text)
add p ev clus = do grown ← grow p ev clus; announce p ev (length clus.members) grown

-- What the world answers to one `Remove`.
pub record RemoveEvent : Type 0 where
  pub client_error : Option Text
  pub member_remove : Option Text
  pub now : ℕ

-- `clientHostToIndex[m.cfg.LCUrls[0].Host] = j` for the members from the index `j` on.
unfoldable pub reindex : ℕ → List Member → List (Text × ℕ) → Exec (List (Text × ℕ))
reindex j [] hosts = ret hosts
reindex j (m ∷ ms) hosts = do
  url ← index m.cfg.lc_urls 0
  reindex (j + 1) ms (insert url.host j hosts)

-- `Remove` behind a successful `MemberRemove`: the member leaves the list, then `Members[i]` of the
-- new list is stopped, and its directories are removed.
unfoldable pub take_out : Platform → ℕ → ℕ → Cluster → Exec Cluster
take_out p now i clus = do
  let rest = erase_idx clus.members i
  hosts ← reindex 0 rest clus.client_host_to_index
  let smaller = record clus { size = clus.size - 1; members = rest; client_host_to_index = hosts }
  m ← index rest i
  m' ← Member.stop p now m
  ret (record (put_member smaller i m') {
    removed_dirs = clus.removed_dirs ++ m.cfg.dir ∷ m.cfg.wal_dir ∷ [];
  })

-- `(clus *Cluster) Remove(i)`. A remainder by zero panics.
unfoldable pub remove : Platform → RemoveEvent → ℕ → Cluster → Exec (Cluster × Option Text)
remove p ev i clus =
    if clus.size == 0
    then panics
    else (index clus.members i >>= λ gone. index clus.members ((i + 1) % clus.size) >>= λ neighbour.
        Member.client ev.client_error clus false [] neighbour >>= λ answer. elim answer [
          | fail e ↦ ret (clus, some e)
          | good cli ↦ deref gone.srv >>= λ srv. elim ev.member_remove [
            | some e ↦ ret (clus, some e)
            | none ↦ take_out p ev.now i clus >>= λ clus'. ret (clus', none)
          ]
        ])

-- The goroutines that stop the members from the index `i` on.
unfoldable pub stop_from : Platform → (ℕ → ℕ) → ℕ → ℕ → List Member → Exec (List Member)
stop_from p now i zero ms = ret ms
stop_from p now i (suc n) [] = panics
stop_from p now i (suc n) (m ∷ ms) = do
  m' ← Member.stop p (now i) m
  ms' ← stop_from p now (i + 1) n ms
  ret (m' ∷ ms')

-- `(clus *Cluster) Shutdown()`; a second `close(stopc)` panics.
unfoldable pub shutdown : Platform → (ℕ → ℕ) → Cluster → Exec Cluster
shutdown p now clus =
    if clus.stopc_closed
    then panics
    else (stop_from p now 0 clus.size clus.members >>= λ ms. ret (record clus {
      members = ms;
      root_done = true;
      stopc_closed = true;
      removed_dirs = clus.removed_dirs ++ clus.root_dir ∷ [];
    }))

-- `getHost` of utils.go.
unfoldable pub get_host : Platform → Text → Text
get_host p ep = elim (p.url_host ep) [
  | none ↦ ep
  | some host ↦ if contains ep (codes "://") then host else ep
]

-- `(clus *Cluster) Client(eps...)`
unfoldable pub client_for :
    Platform → Option Text → List Text → Cluster → Exec (Outcome (Client × Option TlsConfig))
unfolding get_host
client_for p dial_error [] clus = ret (fail (codes "no endpoint is given"))
client_for p dial_error (ep ∷ eps) clus = elim (lookup (get_host p ep) clus.client_host_to_index) [
  | none ↦ ret (fail (codes "cannot find node with endpoint " ++ ep))
  | some idx ↦ index clus.members idx >>= λ m. Member.client dial_error clus false (ep ∷ eps) m
]
