-- ===== src/Cluster/Types.antt =====
-- The state of the package cluster (cluster.go, member.go): a member, a cluster, and what they take
-- from packages that are not this repository's.
pub use etcdlabs.Prelude.Dict.{lookup-insert}
unfoldable pub use etcdlabs.Prelude.Dict.{lookup, insert}
use etcdlabs.Prelude.{
  ◌⊎◌, inl, inr, ℕ, ◌≡◌, refl, Bool, false, not, ◌&&◌, Option, none, List, [], ◌++◌, Text, codes,
  if◌then◌else◌,
}
use etcdlabs.Prelude.Int.{ℤ}
use etcdlabs.Clusterpb.{MemberStatus, stopped}

-- A Go pair (value, error).
pub data Outcome {ℓ} (A : Type ℓ) : Type ℓ where
  good : A → Outcome A
  fail : Text → Outcome A

pub Outcome-cases {ℓ} :
    {A : Type ℓ} (o : Outcome A) → ((a : A) × (o ≡ good a)) ⊎ ((e : Text) × (o ≡ fail e))
Outcome-cases (good a) = inl (a, refl)
Outcome-cases (fail e) = inr (e, refl)

-- `url.URL` with the two fields that the program sets, and its `String`.
pub record Url : Type 0 where
  pub scheme : Text
  pub host : Text

unfoldable pub url_string : Url → Text
url_string u = u.scheme ++ (codes "://" ++ u.host)

-- Functions of other packages: `filepath.Join` of two paths, the host that `url.Parse` finds (`none`
-- if it fails), `humanize.Time` of an instant at another, `humanize.Bytes`, `types.ID.String` and
-- `template.HTMLEscapeString`.
pub record Platform : Type 0 where
  pub join_path : Text → Text → Text
  pub url_host : Text → Option Text
  pub humanize_time : ℕ → ℕ → Text
  pub humanize_bytes : ℕ → Text
  pub id_string : ℕ → Text
  pub html_escape : Text → Text

-- `*tls.Config`, which the program only hands on and compares with nil.
pub record TlsConfig : Type 0 where
  pub handle : ℕ

-- `transport.TLSInfo`, seen through the methods `Empty` and `ClientConfig`.
pub record TlsInfo : Type 0 where
  pub is_empty : Bool
  pub client_config : Outcome TlsConfig

pub data ClusterState : Type 0 where
  new_cluster existing : ClusterState

-- The fields of `embed.Config` that the program writes or reads.
pub record EmbedConfig : Type 0 where
  pub name : Text
  pub dir : Text
  pub wal_dir : Text
  pub cluster_state : ClusterState
  pub ac_urls : List Url
  pub lc_urls : List Url
  pub ap_urls : List Url
  pub lp_urls : List Url
  pub initial_cluster : Text
  pub client_auto_tls : Bool
  pub client_tls_info : TlsInfo
  pub peer_auto_tls : Bool
  pub peer_tls_info : TlsInfo
  pub auto_compaction_mode : Text
  pub auto_compaction_retention : Text
  pub logger : Text
  pub log_outputs : List Text

-- `*embed.Etcd`: the server's id, and the configuration that its `Config` returns.
pub record Server : Type 0 where
  pub id : ℕ
  pub config : EmbedConfig

-- `srv` is nil until the first start. `srv_open` is no field of the source: it says whether the server
-- that `srv` points to has been started and not closed.
pub record Member : Type 0 where
  pub cfg : EmbedConfig
  pub srv : Option Server
  pub srv_open : Bool
  pub stopped_started_at : ℕ
  pub status : MemberStatus

-- `Config`. The root context is the flag `root_done` of the cluster, and `RootPort` is not negative.
pub record Config : Type 0 where
  pub size : ℤ
  pub root_dir : Text
  pub root_port : ℕ
  pub embedded_client : Bool
  pub peer_tls_info : TlsInfo
  pub peer_auto_tls : Bool
  pub client_tls_info : TlsInfo
  pub client_auto_tls : Bool
  pub dial_timeout : ℤ

-- `root_done` and `stopc_closed` stand for the root context and for the channel `stopc`.
-- `removed_dirs` is no field of the source: it lists the directories given to `os.RemoveAll`.
pub record Cluster : Type 0 where
  pub embedded_client : Bool
  pub started : ℕ
  pub size : ℕ
  pub lead_idx : ℕ
  pub members : List Member
  pub client_host_to_index : List (Text × ℕ)
  pub client_dial_timeout : ℤ
  pub stopc_closed : Bool
  pub root_done : Bool
  pub base_port : ℕ
  pub root_dir : Text
  pub ccfg : Config
  pub removed_dirs : List Text

unfoldable pub peer_scheme : Config → Text
peer_scheme c =
    if c.peer_tls_info.is_empty && not c.peer_auto_tls then codes "http" else codes "https"

unfoldable pub client_scheme : Config → Text
client_scheme c =
    if c.client_tls_info.is_empty && not c.client_auto_tls then codes "http" else codes "https"

-- A freshly made `Member`.
unfoldable pub new_member : EmbedConfig → Text → Member
new_member cfg endpoint = record {
  cfg = cfg;
  srv = none;
  srv_open = false;
  stopped_started_at = 0;
  status = record {
    name = cfg.name;
    id = [];
    endpoint = endpoint;
    is_leader = false;
    state = stopped;
    state_txt = [];
    db_size = 0;
    db_size_txt = [];
    hash = 0;
  };
}
