-- ===== src/Cluster/View.antt =====
-- The methods of cluster_other.go that read the cluster, and `SetClientDialTimeout`.
use etcdlabs.Prelude.{
  ℕ, zero, suc, ◌+◌, ◌/◌, Bool, Option, List, [], ◌∷◌, map, Exec, ret, panics, ◌>>=◌, index, Text,
  length, if◌then◌else◌,
}
use etcdlabs.Prelude.Int.{ℤ}
use etcdlabs.Clusterpb.{MemberStatus, is_stopped}
use etcdlabs.Cluster.Types.{Url, url_string, Platform, EmbedConfig, Member, Cluster, lookup}
use etcdlabs.Cluster.Build.{initial_cluster}
use etcdlabs.Cluster.Ops.{get_host}
use mathlib.Core.List.{map}

-- `InitialCluster`
unfoldable pub initial_cluster_of : Cluster → Exec Text
unfolding initial_cluster
initial_cluster_of clus = initial_cluster clus.members

-- `StopNotify`: whether the channel that it returns has been closed.
unfoldable pub stop_notify_of : Cluster → Bool
stop_notify_of clus = clus.stopc_closed

unfoldable pub set_client_dial_timeout : ℤ → Cluster → Cluster
set_client_dial_timeout d clus = record clus { client_dial_timeout = d }

unfoldable pub stopped_started_at : Cluster → ℕ → Exec ℕ
stopped_started_at clus i = index clus.members i >>= λ m. ret m.stopped_started_at

unfoldable pub config_of : Cluster → ℕ → Exec EmbedConfig
config_of clus i = index clus.members i >>= λ m. ret m.cfg

-- `cs := make([]T, clus.size); for i := range clus.Members { cs[i] = f(Members[i]) }`: the slots that
-- no member fills keep the zero value, and a member without a slot panics.
pub filled {ℓ} : {A : Type ℓ} → A → (Member → A) → ℕ → List Member → Exec (List A)
filled z f zero [] = ret []
filled z f zero (m ∷ ms) = panics
filled z f (suc n) [] = filled z f n [] >>= λ rest. ret (z ∷ rest)
filled z f (suc n) (m ∷ ms) = filled z f n ms >>= λ rest. ret (f m ∷ rest)

unfoldable pub all_configs : EmbedConfig → Cluster → Exec (List EmbedConfig)
unfolding filled
all_configs z clus = filled z (λ m. m.cfg) clus.size clus.members

unfoldable pub all_member_status : MemberStatus → Cluster → Exec (List MemberStatus)
unfolding filled
all_member_status z clus = filled z (λ m. m.status) clus.size clus.members

abbrev endpoint_text : Bool → Url → Text
endpoint_text scheme u = if scheme then url_string u else u.host

unfoldable pub endpoints : Cluster → ℕ → Bool → Exec (List Text)
unfolding url_string
endpoints clus i scheme =
    index clus.members i >>= λ m. ret (map (endpoint_text scheme) m.cfg.lc_urls)

-- The first client URL of the next `n` members.
first_endpoints : Bool → ℕ → List Member → Exec (List Text)
first_endpoints scheme zero ms = ret []
first_endpoints scheme (suc n) [] = panics
first_endpoints scheme (suc n) (m ∷ ms) = do
  url ← index m.cfg.lc_urls 0
  rest ← first_endpoints scheme n ms
  ret (endpoint_text scheme url ∷ rest)

unfoldable pub all_endpoints : Cluster → Bool → Exec (List Text)
unfolding first_endpoints url_string
all_endpoints clus scheme = first_endpoints scheme clus.size clus.members

unfoldable pub is_stopped_at : Cluster → ℕ → Exec Bool
is_stopped_at clus i = index clus.members i >>= λ m. ret (is_stopped m.status.state)

unfoldable pub size_of : Cluster → ℕ
size_of clus = length clus.members

unfoldable pub quorum : Cluster → ℕ
quorum clus = length clus.members / 2 + 1

-- The members whose state is not "Stopped".
unfoldable pub active : List Member → ℕ
active [] = 0
active (m ∷ ms) = if is_stopped m.status.state then active ms else suc (active ms)

unfoldable pub active_node_n : Cluster → ℕ
unfolding active
active_node_n clus = active clus.members

unfoldable pub member_status : Cluster → ℕ → Exec MemberStatus
member_status clus i = index clus.members i >>= λ m. ret m.status

-- `none` is the source's -1.
unfoldable pub find_index : Platform → Text → Cluster → Option ℕ
unfolding get_host
find_index p ep clus = lookup (get_host p ep) clus.client_host_to_index
