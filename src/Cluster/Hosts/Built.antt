-- ===== src/Cluster/Hosts/Built.antt =====
-- The cluster that `Start` configures, before its members are launched.
use etcdlabs.Prelude.Int.{pos, negsuc, pos_part, neg_part, ℤ-cases}
use etcdlabs.Prelude.{
  ℕ, panics, ◌+◌, ◌*◌, ◌≤◌, ◌≡◌, refl, sym, ap, subst, ◌∙◌, ◌⊎◌, inl, inr, true, false, not, ◌&&◌,
  none, List, [], ◌∷◌, ◌++◌, arith, ret, Text, length, All, ltb, Bool-cases, Option-cases,
}
use etcdlabs.Cluster.Types.{good, fail, Platform, EmbedConfig, Member, Config, Cluster}
use etcdlabs.Cluster.Build.{
  configure, configure_members, make_members, BuildEvent, empty_cluster, prepare_root,
  host_or_localhost, max_size_message, peer_tls_message, client_tls_message, add_members,
  set_initial_cluster,
}
use etcdlabs.Cluster.Hosts.{WellFormed, urls_of, AllHosted}
use etcdlabs.Cluster.Hosts.Loop.{
  described, planned, add_members-hosted, add_members-described, set_initial_cluster-keeps, HasPeer,
  set_initial_cluster_total, add_members-HasPeer,
}

-- What `Start` asks of its configuration and of the file system.
pub record IsAcceptable (ev : BuildEvent) (ccfg : Config) : Type 0 where
  pub small : pos_part ccfg.size ≤ 7
  pub not_negative : neg_part ccfg.size ≡ 0
  pub root_made : (ev.root_exists ≡ true) ⊎ (ev.mkdir_error ≡ none)
  pub one_peer_tls : (ccfg.peer_tls_info.is_empty ≡ true) ⊎ (ccfg.peer_auto_tls ≡ false)
  pub one_client_tls : (ccfg.client_tls_info.is_empty ≡ true) ⊎ (ccfg.client_auto_tls ≡ false)

-- `prepare_root` only records the directory.
prepare_root-same :
    (ev : BuildEvent) (clus clus' : Cluster)
    → prepare_root ev clus ≡ good clus'
    → (clus'.members ≡ clus.members)
      × (clus'.client_host_to_index ≡ clus.client_host_to_index)
      × (clus'.size ≡ clus.size)
      × (clus'.stopc_closed ≡ clus.stopc_closed)
unfolding prepare_root
prepare_root-same ev clus clus' e = ground arith

-- What `Start` has configured: the invariant, an open channel `stopc`, the size and the ports used
-- up, and the nodes "node1", "node2", … with client ports two apart.
pub record Configured (ccfg : Config) (clus : Cluster) : Type 0 where
  pub valid : WellFormed clus
  pub opened : clus.stopc_closed ≡ false
  pub size_eq : pos clus.size ≡ ccfg.size
  pub ports : clus.base_port ≡ ccfg.root_port + 2 * clus.size
  pub nodes : described clus.members ≡ planned ccfg clus.size 0 ccfg.root_port

module _ (p : Platform) (ccfg : Config) (base : EmbedConfig) (dhost : Text) where
  -- The loop and `InitialCluster` on a cluster that has no member yet.
  fill :
      (size : ℕ) (clus : Cluster)
      → ccfg.size ≡ pos size
      → clus.members ≡ []
      → clus.size ≡ size
      → clus.stopc_closed ≡ false
      → let built = add_members p ccfg base dhost size 0 ccfg.root_port clus in
        (ms : List Member) × (set_initial_cluster built.members built.size built.members ≡ ret ms)
        × Configured ccfg (record built { members = ms })
  fill size clus asked none_yet sized open_yet =
      let built = add_members p ccfg base dhost size 0 ccfg.root_port clus in
      let (h, b, l, s, o) = add_members-hosted p ccfg base dhost size 0 ccfg.root_port clus (
        subst (λ ms. AllHosted ccfg.root_port clus.client_host_to_index 0 (urls_of ms))
          (sym none_yet) tt) in
      let peers : All HasPeer built.members =
        add_members-HasPeer p ccfg base dhost size 0 ccfg.root_port clus
          (subst (All HasPeer) (sym none_yet) tt) in
      let count : length built.members ≡ size = omega (arith, ap length none_yet) in
      let (ms, e) =
        set_initial_cluster_total built.members built.size built.members peers (omega arith) in
      let (u, d, k) = set_initial_cluster-keeps built.members built.size built.members ms e in
      let same : built.size ≡ size = omega arith in
      (
        ms,
        e,
        record {
          valid = record { sized = omega arith; hosted = rw u h };
          opened = o ∙ open_yet;
          size_eq = ap pos same ∙ sym asked;
          ports = omega arith;
          nodes =
              d
              ∙ add_members-described p ccfg base dhost size 0 ccfg.root_port clus
              ∙ ap (λ ms. described ms ++ planned ccfg size 0 ccfg.root_port) none_yet
              ∙ ap (λ n. planned ccfg n 0 ccfg.root_port) (sym same);
        },
      )

-- `prepare_root` fails exactly when the directory is not there and cannot be made.
prepare_root-cases :
    (ev : BuildEvent) (clus : Cluster)
    → ((e : Text) × (prepare_root ev clus ≡ fail e)
        × ¬ ((ev.root_exists ≡ true) ⊎ (ev.mkdir_error ≡ none)))
      ⊎ ((clus' : Cluster) × (prepare_root ev clus ≡ good clus')
          × ((ev.root_exists ≡ true) ⊎ (ev.mkdir_error ≡ none)))
unfolding prepare_root
prepare_root-cases ev clus = elim (Bool-cases ev.root_exists) [
  | inl there ↦
      inr
        (record clus { removed_dirs = clus.root_dir ∷ clus.removed_dirs }, rw there refl, inl there)
  | inr missing ↦ elim (Option-cases ev.mkdir_error) [
    | inl made ↦ inr (clus, rw (missing, made) refl, inr made)
    | inr (e, failed) ↦ inl (e, rw (missing, failed) refl, λ h. ground arith)
  ]
]

-- Behind the test of the size and the slice of the members.
configure_members_lem :
    (p : Platform) (ev : BuildEvent) (ccfg : Config) (size : ℕ)
    → ccfg.size ≡ pos size
    → size ≤ 7
    → (¬ IsAcceptable ev ccfg × ((e : Text) × (configure_members p ev ccfg size ≡ ret (fail e))))
      ⊎ (IsAcceptable ev ccfg
          × ((clus : Cluster) × (configure_members p ev ccfg size ≡ ret (good clus))
              × Configured ccfg clus))
unfolding configure_members
configure_members_lem p ev ccfg size asked small =
    elim (prepare_root-cases ev (empty_cluster ccfg size ev.now)) [
      | inl (e, failed, missing) ↦
          inl ((λ a. missing a.root_made), (e, rw (failed, configure_members) refl))
      | inr (clus, made, there) ↦
          elim (Bool-cases (not ccfg.peer_tls_info.is_empty && ccfg.peer_auto_tls)) [
            | inl both ↦ inl (
              (λ a. ground (arith, a.one_peer_tls)),
              (peer_tls_message, rw (made, both, configure_members) refl),
            )
            | inr peer ↦
                elim (Bool-cases (not ccfg.client_tls_info.is_empty && ccfg.client_auto_tls)) [
                  | inl both ↦ inl (
                    (λ a. ground (arith, a.one_client_tls)),
                    (client_tls_message, rw (made, peer, both, configure_members) refl),
                  )
                  | inr client ↦
                      let (members_eq, hosts_eq, size_eq, stopc_eq) =
                        prepare_root-same ev (empty_cluster ccfg size ev.now) clus made in
                      let (ms, set_eq, ok) =
                        fill p ccfg ev.base (host_or_localhost ev.default_host) size clus asked
                          (unfold empty_cluster in members_eq) (unfold empty_cluster in size_eq)
                          (unfold empty_cluster in stopc_eq) in
                      inr (
                        record {
                          small = rw asked small;
                          not_negative = rw asked refl;
                          root_made = there;
                          one_peer_tls = ground (arith, peer);
                          one_client_tls = ground (arith, client);
                        },
                        (
                          record (add_members p ccfg ev.base (host_or_localhost ev.default_host)
                              size 0 ccfg.root_port clus) { members = ms },
                          rw (made, peer, client, set_eq, configure_members) refl,
                          ok,
                        ),
                      )
                ]
          ]
    ]

-- `Start` panics before the launch exactly when the size that it is asked for is negative. Otherwise it
-- configures a cluster exactly when its configuration is acceptable: at most 7 members, a root
-- directory, and not both kinds of TLS for peers or for clients, and it returns an error if it is not.
-- A cluster that it configures is well formed and open, has as many members as asked for, and its nodes
-- are numbered from 1, with client ports two apart from the root port on, which is not negative.
pub configure_lem :
    (p : Platform) (ev : BuildEvent) (ccfg : Config)
    → (((n : ℕ) × (ccfg.size ≡ negsuc n)) × (configure p ev ccfg ≡ panics))
      ⊎ ((neg_part ccfg.size ≡ 0)
          × ¬ IsAcceptable ev ccfg
          × ((e : Text) × (configure p ev ccfg ≡ ret (fail e))))
      ⊎ (IsAcceptable ev ccfg
          × ((clus : Cluster) × (configure p ev ccfg ≡ ret (good clus)) × Configured ccfg clus))
unfolding configure
configure_lem p ev ccfg = elim (ℤ-cases ccfg.size) [
  | inr (n, below) ↦ inl ((n, below), rw below refl)
  | inl (n, asked) ↦ elim (Bool-cases (ltb 7 n)) [
    | inl big ↦ inr (
        inl (
          rw asked refl,
          (λ a. ground (arith, a.small, asked, big)),
          (max_size_message n, rw (asked, big) refl),
        ))
    | inr fits ↦
        let sized : configure p ev ccfg ≡ configure_members p ev ccfg n =
          rw (asked, fits, make_members) refl in
        elim (configure_members_lem p ev ccfg n asked (ground (arith, fits))) [
          | inl (refused, (e, q)) ↦ inr (inl (rw asked refl, refused, (e, sized ∙ q)))
          | inr (accepted, (clus, q, ok)) ↦ inr (inr (accepted, (clus, sized ∙ q, ok)))
        ]
  ]
]
