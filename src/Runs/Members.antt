-- ===== src/Runs/Members.antt =====
-- The theorems of the cluster at two members on localhost, from port 2379 on.
use etcdlabs.Prelude.Int.{negsuc, neg_part}
use etcdlabs.Prelude.{
  ℕ, ◌+◌, ◌-◌, ◌*◌, ◌≤◌, ◌<◌, ◌≡◌, refl, sym, subst, ◌⊎◌, true, false, Option, none, some, List, [],
  ◌∷◌, arith, Exec, ret, panics, ◌>>=◌, Text, codes, text_eq, decimal, get_elem?,
}
use etcdlabs.Cluster.Types
use etcdlabs.Cluster.Types.{good, fail, Url, url_string, Member, Cluster, new_member, lookup}
use etcdlabs.Cluster.Member
use etcdlabs.Cluster.Build
use etcdlabs.Cluster.Build.{start_from}
use etcdlabs.Cluster.Member.{StartEvent}
use etcdlabs.Cluster.Hosts.Kept.{KeepsUrls}
use etcdlabs.Cluster.Build.{configure}
use etcdlabs.Cluster.Ops.{stop_at, restart_at}
use etcdlabs.Cluster.View.{find_index, is_stopped_at, size_of, active_node_n, quorum}
use etcdlabs.Cluster.Hosts.{WellFormed, Hosted}
use etcdlabs.Cluster.Hosts.Built.{configure_lem, IsAcceptable, Configured}
use etcdlabs.Cluster.Hosts.Lookup.{find_index-endpoint}
use etcdlabs.Cluster.Hosts.Reach.{launches, Reaches, here, next, updates, Reaches-WellFormed}
use etcdlabs.Cluster.Quorum.{stop_at-active, restart_at-active}
use etcdlabs.Cluster.Status.{update_member_status}
use etcdlabs.Cluster.Build.{client_host}
use etcdlabs.Cluster.View
use etcdlabs.Runs.{
  platform, config, build, two, booting, fetch, client_url, second_node, pair, or_pair,
}

configure_lem_example :
    (((n : ℕ) × (config.size ≡ negsuc n)) × (configure platform build config ≡ panics))
    ⊎ ((neg_part config.size ≡ 0)
        × ¬ IsAcceptable build config
        × ((e : Text) × (configure platform build config ≡ ret (fail e))))
    ⊎ (IsAcceptable build config
        × ((clus : Cluster) × (configure platform build config ≡ ret (good clus))
            × Configured config clus))
configure_lem_example = configure_lem platform build config

negative_size : configure platform build (record config { size = negsuc 0 }) ≡ panics
unfolding configure Build.make_members
negative_size = refl

configured : configure platform build config ≡ ret (good two)
unfolding configure Build.prepare_root Build.configure_members Build.make_members
    Build.empty_cluster Build.add_members Build.add_member Build.set_initial_cluster
    Build.initial_cluster Build.initials Build.member_config new_member
configured = refl

-- etcd starts every server as asked.
abbrev Boots : StartEvent → Type 0
Boots ev = ev ≡ booting

Boots-KeepsUrls : (ev : StartEvent) → Boots ev → KeepsUrls ev
Boots-KeepsUrls ev q = subst KeepsUrls (sym q) (λ cfg srv e. ground arith)

abbrev or_none : Exec (List Member × List Text) → List Member
or_none (ret r) = r.0
or_none panics = []

abbrev launched_two : Cluster
launched_two = record two { members = or_none (start_from platform (λ i. booting) 0 2 two.members) }

launch : start_from platform (λ i. booting) 0 2 two.members ≡ ret (launched_two.members, [])
unfolding start_from Member.start configure Build.prepare_root Build.configure_members
    Build.make_members Build.empty_cluster Build.add_members Build.add_member
    Build.set_initial_cluster Build.initial_cluster Build.initials Build.member_config new_member
    etcdlabs.Prelude.Bytes.text_eq
launch = refl

two_sized : two.size ≡ 2
unfolding configure Build.prepare_root Build.configure_members Build.make_members
    Build.empty_cluster Build.add_members Build.add_member Build.set_initial_cluster
    Build.initial_cluster Build.initials new_member Build.member_config
two_sized = refl

reached : Reaches platform Boots two (update_member_status platform (λ i. fetch) launched_two)
reached =
    next
      (next here (
        launches (λ i. booting) launched_two.members [] (λ j. refl)
          (subst
            (λ n.
              start_from platform (λ i. booting) 0 n two.members ≡ ret (launched_two.members, []))
            (sym two_sized) launch)
          refl))
      (updates (λ i. fetch) refl)

Reaches-WellFormed_example : WellFormed (update_member_status platform (λ i. fetch) launched_two)
Reaches-WellFormed_example =
    Reaches-WellFormed platform Boots build config two
      (update_member_status platform (λ i. fetch) launched_two) Boots-KeepsUrls configured reached

pair-Hosted_first : Hosted 2383 pair.client_host_to_index 0 (client_url (codes "2379") ∷ [])
unfolding client_host Build.host_port etcdlabs.Prelude.Bytes.decimal Types.lookup
    etcdlabs.Prelude.Bytes.text_eq
pair-Hosted_first = record {
  port = 2379;
  url = client_url (codes "2379");
  below = omega arith;
  first = refl;
  host_eq = refl;
  found = refl;
}

pair-Hosted_second : Hosted 2383 pair.client_host_to_index 1 (client_url (codes "2381") ∷ [])
unfolding client_host Build.host_port etcdlabs.Prelude.Bytes.decimal Types.lookup
    etcdlabs.Prelude.Bytes.text_eq
pair-Hosted_second = record {
  port = 2381;
  url = client_url (codes "2381");
  below = omega arith;
  first = refl;
  host_eq = refl;
  found = refl;
}

pub pair-WellFormed : WellFormed pair
pair-WellFormed = record { sized = refl; hosted = (pair-Hosted_first, (pair-Hosted_second, tt)) }

parsed :
    (u : Url)
    → get_elem? second_node.cfg.lc_urls 0 ≡ some u
    → platform.url_host (url_string u) ≡ some u.host
unfolding url_string
parsed u e =
    let same : client_url (codes "2381") ≡ u = ground arith in
    subst (λ v. platform.url_host (url_string v) ≡ some v.host) same refl

find_index-endpoint_example :
    (u : Url) × (get_elem? second_node.cfg.lc_urls 0 ≡ some u)
    × (find_index platform u.host pair ≡ some 1)
    × (find_index platform (url_string u) pair ≡ some 1)
find_index-endpoint_example =
    find_index-endpoint platform pair 1 second_node pair-WellFormed refl parsed

pair_active : active_node_n pair ≡ 2
unfolding active_node_n View.active
pair_active = refl

abbrev halted : Cluster
halted = or_pair (stop_at platform 9 0 pair)

halt : stop_at platform 9 0 pair ≡ ret halted
unfolding stop_at Member.stop
halt = refl

running_first : is_stopped_at pair 0 ≡ ret false
unfolding is_stopped_at
running_first = refl

stop_at-active_example :
    (is_stopped_at halted 0 ≡ ret true)
    × (size_of halted ≡ size_of pair)
    × (active_node_n halted + 1 ≡ active_node_n pair)
stop_at-active_example = stop_at-active platform 9 0 pair halted false running_first halt

halted_first : is_stopped_at halted 0 ≡ ret true
unfolding is_stopped_at stop_at Member.stop
halted_first = refl

abbrev revived : Cluster
revived = or_pair (restart_at platform booting 0 halted >>= λ r. ret r.0)

revive : restart_at platform booting 0 halted ≡ ret (revived, none)
unfolding restart_at stop_at Member.restart Member.stop
revive = refl

abbrev no_error : Option Text
no_error = none

restart_at-active_example :
    ((no_error ≡ none)
      × (is_stopped_at revived 0 ≡ ret false)
      × (active_node_n revived ≡ active_node_n halted + 1))
    ⊎ ((t : Text) × (no_error ≡ some t)
        × (true ≡ true)
        × (is_stopped_at revived 0 ≡ ret true)
        × (active_node_n revived ≡ active_node_n halted))
restart_at-active_example =
    restart_at-active platform booting 0 halted revived true none halted_first revive
