-- ===== src/Cluster/Hosts/Loop.antt =====
-- The loop of `Start` over its members, and the loop that sets `InitialCluster`.
use etcdlabs.Prelude.{
  ℕ, zero, suc, ◌+◌, ◌*◌, ◌≤◌, ◌≡◌, refl, sym, ◌∙◌, inl, inr, some, List, [], ◌∷◌, ◌++◌, arith, ret,
  Exec-cases, Text, codes, text_eq_refl, join, length, get_elem?, All, length-append, All-append,
}
use mathlib.Core.List.{append-nil, append_assoc}
use etcdlabs.Cluster.Types.{
  url_string, Url, Platform, ClusterState, new_cluster, EmbedConfig, Member, Config, Cluster,
  lookup-insert, new_member, client_scheme,
}
use etcdlabs.Cluster.Build.{
  client_host, client_endpoint, member_config, add_member, add_members, set_initial_cluster,
  initial_cluster, node_name, initials,
}
use etcdlabs.Cluster.Hosts.{
  urls_of, AllHosted, AllHosted-insert, AllHosted-snoc, urls_of-append, length-urls_of,
}

-- The name and the endpoint of each member.
abbrev pub described : List Member → List (Text × Text)
described [] = []
described (m ∷ ms) = (m.cfg.name, m.status.endpoint) ∷ described ms

described-append : (ms ns : List Member) → described (ms ++ ns) ≡ described ms ++ described ns
described-append [] ns = refl
described-append (m ∷ ms) ns = rw (described-append ms ns)

-- What they should be: the nodes from the number `i + 1` on, two ports apart.
abbrev pub planned : Config → ℕ → ℕ → ℕ → List (Text × Text)
planned ccfg zero i port = []
planned ccfg (suc n) i port =
    (node_name (i + 1), client_endpoint ccfg port) ∷ planned ccfg n (i + 1) (port + 2)

module _ (p : Platform) (ccfg : Config) (base : EmbedConfig) (dhost : Text) where
  member_config-first :
      (state : ClusterState) (root : Text) (n port : ℕ)
      → get_elem? (member_config p ccfg base state root dhost n port).lc_urls 0
        ≡ some (record { scheme = client_scheme ccfg; host = client_host port })
  unfolding member_config client_host
  member_config-first state root n port = ground arith

  -- Adding a member on a port that is not below any in use.
  pub add_member-hosted :
      (state : ClusterState) (root : Text) (n port : ℕ) (clus : Cluster)
      → AllHosted port clus.client_host_to_index 0 (urls_of clus.members)
      → let grown = add_member ccfg (member_config p ccfg base state root dhost n port) port clus in
        AllHosted (port + 2) grown.client_host_to_index 0 (urls_of grown.members)
  unfolding add_member new_member
  add_member-hosted state root n port clus v = rw urls_of-append (
      AllHosted-snoc (port + 2) _ 0 (length clus.members) (urls_of clus.members) _
        (AllHosted-insert port port (length clus.members) clus.client_host_to_index 0
          (urls_of clus.members) (omega arith) v)
        (omega (arith, length-urls_of clus.members))
        (record {
          port = port;
          url = record { scheme = client_scheme ccfg; host = client_host port };
          below = omega arith;
          first = member_config-first state root n port;
          host_eq = refl;
          found = rw lookup-insert (ground (arith, text_eq_refl (client_host port)));
        }))

  pub add_members-hosted :
      (n i port : ℕ) (clus : Cluster)
      → AllHosted port clus.client_host_to_index 0 (urls_of clus.members)
      → let built = add_members p ccfg base dhost n i port clus in
        AllHosted built.base_port built.client_host_to_index 0 (urls_of built.members)
        × (built.base_port ≡ port + 2 * n)
        × (length built.members ≡ length clus.members + n)
        × (built.size ≡ clus.size)
        × (built.stopc_closed ≡ clus.stopc_closed)
  unfolding add_members add_member
  add_members-hosted zero i port clus v = (v, omega arith, omega arith, refl, refl)
  add_members-hosted (suc n) i port clus v =
      let (h, b, l, s, o) =
        add_members-hosted n (i + 1) (port + 2) _
          (add_member-hosted new_cluster ccfg.root_dir (i + 1) port clus v) in
      (h, omega arith, omega (arith, length-append clus.members (_ ∷ [])), s, o)

  pub add_members-described :
      (n i port : ℕ) (clus : Cluster)
      → described (add_members p ccfg base dhost n i port clus).members
        ≡ described clus.members ++ planned ccfg n i port
  unfolding add_members add_member member_config new_member
  add_members-described zero i port clus = sym (append-nil _)
  add_members-described (suc n) i port clus =
      add_members-described n (i + 1) (port + 2) _
      ∙ rw (described-append clus.members _, append_assoc)

-- Writing `InitialCluster` changes nothing of what the invariant reads.
pub set_initial_cluster-keeps :
    (whole : List Member) (n : ℕ) (ms ms' : List Member)
    → set_initial_cluster whole n ms ≡ ret ms'
    → (urls_of ms' ≡ urls_of ms) × (described ms' ≡ described ms) × (length ms' ≡ length ms)
unfolding set_initial_cluster
set_initial_cluster-keeps whole zero ms ms' e = ground arith
set_initial_cluster-keeps whole (suc n) [] ms' e = cc
set_initial_cluster-keeps whole (suc n) (m ∷ ms) ms' e = elim (Exec-cases (initial_cluster whole)) [
  | inl p ↦ ground (arith, p)
  | inr (t, p) ↦ elim (Exec-cases (set_initial_cluster whole n ms)) [
    | inl q ↦ ground (arith, p, q)
    | inr (rest, q) ↦
        let (u, d, l) = set_initial_cluster-keeps whole n ms rest q in ground (arith, p, q)
  ]
]

-- It succeeds if there is a member for each round, and every member has a peer URL.
abbrev pub HasPeer : Member → Type 0
HasPeer m = (u : Url) × (get_elem? m.cfg.ap_urls 0 ≡ some u)

initials_total : (ms : List Member) → All HasPeer ms → (l : List Text) × (initials ms ≡ ret l)
unfolding initials
initials_total [] h = ([], refl)
initials_total (m ∷ ms) ((u, e), h) =
    let (l, e') = initials_total ms h in
    ((m.cfg.name ++ (codes "=" ++ url_string u)) ∷ l, rw (e, e') refl)

initial_cluster_total :
    (ms : List Member) → All HasPeer ms → (t : Text) × (initial_cluster ms ≡ ret t)
unfolding initial_cluster
initial_cluster_total ms h = let (l, e) = initials_total ms h in (join (codes ",") l, rw e)

pub set_initial_cluster_total :
    (whole : List Member) (n : ℕ) (ms : List Member)
    → All HasPeer whole
    → n ≤ length ms
    → (ms' : List Member) × (set_initial_cluster whole n ms ≡ ret ms')
unfolding set_initial_cluster
set_initial_cluster_total whole zero ms h k = (ms, refl)
set_initial_cluster_total whole (suc n) [] h k = absurd (omega arith)
set_initial_cluster_total whole (suc n) (m ∷ ms) h k =
    let (t, e) = initial_cluster_total whole h in
    let (rest, e') = set_initial_cluster_total whole n ms h (omega arith) in
    (record m { cfg = record (m.cfg) { initial_cluster = t } } ∷ rest, rw (e, e') refl)

module _ (p : Platform) (ccfg : Config) (base : EmbedConfig) (dhost : Text) where
  pub add_members-HasPeer :
      (n i port : ℕ) (clus : Cluster)
      → All HasPeer clus.members
      → All HasPeer (add_members p ccfg base dhost n i port clus).members
  unfolding add_members add_member member_config new_member
  add_members-HasPeer zero i port clus h = h
  add_members-HasPeer (suc n) i port clus h =
      add_members-HasPeer n (i + 1) (port + 2) _
        (All-append HasPeer clus.members _ h ((_, refl), tt))
