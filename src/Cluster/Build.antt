-- ===== src/Cluster/Build.antt =====
-- `Start` of cluster.go and `initialCluster` of cluster_other.go.
use etcdlabs.Prelude.{
  ℕ, zero, suc, ◌+◌, Bool, false, not, ◌&&◌, Option, none, some, List, [], ◌∷◌, ◌++◌, Exec, ret,
  panics, ◌>>=◌, index, Text, codes, text_eq, decimal, join, length, ltb, if◌then◌else◌,
}
use etcdlabs.Prelude.Int.{ℤ, pos, negsuc, pos_part}
use etcdlabs.Cluster.Types.{
  Outcome, good, fail, Url, url_string, Platform, ClusterState, new_cluster, EmbedConfig, Member,
  Config, Cluster, insert, client_scheme, peer_scheme, new_member,
}
use etcdlabs.Cluster.Member.{StartEvent, start}
use etcdlabs.Cluster.Leader.{WaitEvent, wait_for_leader, group_error}

-- `Sprintf("node%d", n)` and `Sprintf("localhost:%d", port)`.
unfoldable pub node_name : ℕ → Text
node_name n = codes "node" ++ decimal n

unfoldable pub host_port : Text → ℕ → Text
host_port host port = host ++ (codes ":" ++ decimal port)

abbrev pub localhost : Text
localhost = codes "localhost"

-- The configuration of one member, as the loop of `Start` and `Add` both write it over what
-- `embed.NewConfig` gives: the number of the member, its client port, and the default host.
unfoldable pub member_config :
    Platform → Config → EmbedConfig → ClusterState → Text → Text → ℕ → ℕ → EmbedConfig
unfolding node_name host_port
member_config p ccfg base state root dhost n port =
    let name = node_name n in
    let dir = p.join_path root (name ++ codes ".data-dir-etcd") in
    let curl : Url = record { scheme = client_scheme ccfg; host = host_port localhost port } in
    let curl₂ : Url = record { scheme = client_scheme ccfg; host = host_port dhost port } in
    let purl : Url = record { scheme = peer_scheme ccfg; host = host_port localhost (port + 1) } in
    record base {
      cluster_state = state;
      name = name;
      dir = dir;
      wal_dir = p.join_path dir (codes "wal");
      ac_urls = curl ∷ [];
      lc_urls = if text_eq dhost localhost then curl ∷ [] else curl ∷ curl₂ ∷ [];
      ap_urls = purl ∷ [];
      lp_urls = purl ∷ [];
      client_auto_tls = ccfg.client_auto_tls;
      client_tls_info = ccfg.client_tls_info;
      peer_auto_tls = ccfg.peer_auto_tls;
      peer_tls_info = ccfg.peer_tls_info;
      auto_compaction_mode = codes "periodic";
      auto_compaction_retention = codes "1h";
      logger = codes "zap";
      log_outputs = codes "stderr" ∷ [];
    }

-- The host of the member's client URL, which is its key in `clientHostToIndex`.
unfoldable pub client_host : ℕ → Text
client_host port = host_port localhost port

unfoldable pub client_endpoint : Config → ℕ → Text
client_endpoint ccfg port =
    url_string (record { scheme = client_scheme ccfg; host = client_host port })

-- One round of the loop of `Start`. `Members` is made at full length and filled in order; here it
-- grows. The two `RemoveAll` of the round are added to `removed_dirs`.
unfoldable pub add_member : Config → EmbedConfig → ℕ → Cluster → Cluster
add_member ccfg cfg port clus = record clus {
  members = clus.members ++ new_member cfg (client_endpoint ccfg port) ∷ [];
  client_host_to_index = insert (client_host port) (length clus.members) clus.client_host_to_index;
  removed_dirs = clus.removed_dirs ++ cfg.dir ∷ cfg.wal_dir ∷ [];
}

-- The rounds `i` to `i + n - 1`, with `startPort` at `port`; the last port goes to `basePort`.
unfoldable pub add_members : Platform → Config → EmbedConfig → Text → ℕ → ℕ → ℕ → Cluster → Cluster
add_members p ccfg base dhost zero i port clus = record clus { base_port = port }
add_members p ccfg base dhost (suc n) i port clus =
    let cfg = member_config p ccfg base new_cluster ccfg.root_dir dhost (i + 1) port in
    add_members p ccfg base dhost n (i + 1) (port + 2) (add_member ccfg cfg port clus)

unfoldable pub initials : List Member → Exec (List Text)
initials [] = ret []
initials (m ∷ ms) = do
  url ← index m.cfg.ap_urls 0
  rest ← initials ms
  ret ((m.cfg.name ++ (codes "=" ++ url_string url)) ∷ rest)

unfoldable pub initial_cluster : List Member → Exec Text
initial_cluster ms = initials ms >>= λ inits. ret (join (codes ",") inits)

-- `clus.Members[i].cfg.InitialCluster = clus.initialCluster()` for the next `n` members. The text
-- depends on names and peer URLs only, which the loop does not change.
unfoldable pub set_initial_cluster : List Member → ℕ → List Member → Exec (List Member)
set_initial_cluster whole zero ms = ret ms
set_initial_cluster whole (suc n) [] = panics
set_initial_cluster whole (suc n) (m ∷ ms) = do
  text ← initial_cluster whole
  rest ← set_initial_cluster whole n ms
  ret (record m { cfg = record (m.cfg) { initial_cluster = text } } ∷ rest)

-- The goroutines that start the members from the index `i` on, and their errors.
unfoldable pub start_from :
    Platform → (ℕ → StartEvent) → ℕ → ℕ → List Member → Exec (List Member × List Text)
start_from p evs i zero ms = ret (ms, [])
start_from p evs i (suc n) [] = panics
start_from p evs i (suc n) (m ∷ ms) = do
  (m', e) ← start p (evs i) m
  (ms', es) ← start_from p evs (i + 1) n ms
  ret (m' ∷ ms', elim e [ none ↦ es | some t ↦ t ∷ es ])

-- What the world answers to one `Start`.
pub record BuildEvent : Type 0 where
  pub now : ℕ
  pub root_exists : Bool
  pub mkdir_error : Option Text
  pub default_host : Outcome Text
  pub base : EmbedConfig
  pub starts : ℕ → StartEvent
  pub first_start_error : ℕ
  pub waits : ℕ → WaitEvent
  pub first_wait_error : ℕ

unfoldable pub max_size_message : ℕ → Text
max_size_message n = codes "max cluster size is 7, got " ++ decimal n

abbrev pub peer_tls_message : Text
peer_tls_message = codes "choose either auto peer TLS or manual peer TLS"

abbrev pub client_tls_message : Text
client_tls_message = codes "choose either auto client TLS or manual client TLS"

abbrev pub host_or_localhost : Outcome Text → Text
host_or_localhost (good h) = h
host_or_localhost (fail e) = localhost

-- A second.
abbrev pub default_dial_timeout : ℤ
default_dial_timeout = pos 1_000_000_000

-- `make([]*Member, ccfg.Size)`, seen as the length of the slice: a negative length panics.
unfoldable pub make_members : ℤ → Exec ℕ
make_members (pos n) = ret n
make_members (negsuc n) = panics

-- The composite literal of `Start`, for a slice of `size` members.
unfoldable pub empty_cluster : Config → ℕ → ℕ → Cluster
empty_cluster ccfg size now = record {
  embedded_client = ccfg.embedded_client;
  started = now;
  size = size;
  lead_idx = 0;
  members = [];
  client_host_to_index = [];
  client_dial_timeout = elim ccfg.dial_timeout [ pos zero ↦ default_dial_timeout | d ↦ d ];
  stopc_closed = false;
  root_done = false;
  base_port = ccfg.root_port;
  root_dir = ccfg.root_dir;
  ccfg = ccfg;
  removed_dirs = [];
}

-- The root directory is made, or emptied if it is there.
unfoldable pub prepare_root : BuildEvent → Cluster → Outcome Cluster
prepare_root ev clus =
    if ev.root_exists
    then good (record clus { removed_dirs = clus.root_dir ∷ clus.removed_dirs })
    else elim ev.mkdir_error [ none ↦ good clus | some e ↦ fail e ]

-- Behind the slice of the members: the early returns, the loop, `InitialCluster`.
unfoldable pub configure_members : Platform → BuildEvent → Config → ℕ → Exec (Outcome Cluster)
configure_members p ev ccfg size = elim (prepare_root ev (empty_cluster ccfg size ev.now)) [
  | fail e ↦ ret (fail e)
  | good clus ↦
      if not ccfg.peer_tls_info.is_empty && ccfg.peer_auto_tls
      then ret (fail peer_tls_message)
      else if not ccfg.client_tls_info.is_empty && ccfg.client_auto_tls
      then ret (fail client_tls_message)
      else let built =
          add_members p ccfg ev.base (host_or_localhost ev.default_host) size 0 ccfg.root_port
            clus in
        (set_initial_cluster built.members built.size built.members >>= λ ms.
        ret (good (record built { members = ms })))
]

-- `Start` up to the launch of the members.
unfoldable pub configure : Platform → BuildEvent → Config → Exec (Outcome Cluster)
unfolding configure_members make_members
configure p ev ccfg =
    if ltb 7 (pos_part ccfg.size)
    then ret (fail (max_size_message (pos_part ccfg.size)))
    else (make_members ccfg.size >>= λ size. configure_members p ev ccfg size)

-- `Start`: `none` inside `ret` means that a member still waits for a leader when the events end;
-- the first component of an answer is the cluster or nil.
unfoldable pub start_cluster :
    Platform → BuildEvent → Config → Exec (Option (Option Cluster × Option Text))
unfolding configure start_from
start_cluster p ev ccfg = do
  made ← configure p ev ccfg
  elim made [
    | fail e ↦ ret (some (none, some e))
    | good clus ↦ do
      (ms, errors) ← start_from p ev.starts 0 clus.size clus.members
      elim (group_error ev.first_start_error errors) [
        | some e ↦ ret (some (none, some e))
        | none ↦ do
          led ← wait_for_leader p ev.waits ev.first_wait_error (record clus { members = ms })
          elim led [ none ↦ ret none | some (clus', e) ↦ ret (some (some clus', e)) ]
      ]
  ]
