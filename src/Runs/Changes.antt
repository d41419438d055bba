-- ===== src/Runs/Changes.antt =====
-- The theorems of the election, of the life of a member, and of `Add` and `Remove`, at two members on
-- localhost.
use etcdlabs.Prelude.{
  ℕ, ◌+◌, ◌≡◌, refl, ◌≢◌, ◌↔◌, true, false, Option, none, some, [], ◌∷◌, ◌++◌, Exec, ret, panics,
  ◌>>=◌, Text, codes, length, get_elem?,
}
use etcdlabs.Clusterpb.{is_stopped, leader}
use etcdlabs.Cluster.Types.{Member, Cluster, new_member, fail}
use etcdlabs.Cluster.Member
use etcdlabs.Cluster.Build
use etcdlabs.Cluster.Ops
use etcdlabs.Cluster.Ops.{add, AddEvent, remove, RemoveEvent, shutdown}
use etcdlabs.Cluster.Leader.{elect}
use etcdlabs.Cluster.Election.{claimants, elect_lem, first_or, has_two}
use etcdlabs.Cluster.Coherence.{IsCoherent, Life, born, then_, starts, Life-IsCoherent}
use etcdlabs.Cluster.Hosts.{WellFormed}
use etcdlabs.Cluster.Types.{Url}
use etcdlabs.Cluster.View.{find_index}
use etcdlabs.Cluster.Hosts.Shrunk.{remove-WellFormed, find_index-remove}
use etcdlabs.Cluster.Removal.{remove_last, remove_stops_next, add_refused}
use etcdlabs.Runs.{platform, pair, first_node, second_node, or_pair, booting, base}
use etcdlabs.Runs.Members.{pair-WellFormed}

abbrev split : Cluster
split = record pair {
  members =
      first_node
      ∷ record second_node {
        status = record (second_node.status) { is_leader = true; state = leader };
      }
      ∷ [];
}

elect_lem_example :
    (err : Option Text) × (elect platform split
      ≡ ret (record split { lead_idx = first_or split.lead_idx (claimants 0 split.members) }, err))
    × ((err ≡ none) ↔ (has_two (claimants 0 split.members) ≡ false))
elect_lem_example = elect_lem platform split ((_, refl), ((_, refl), tt))

abbrev fresh : Member
fresh = new_member first_node.cfg []

abbrev or_fresh : Exec (Member × Option Text) → Member
or_fresh (ret r) = r.0
or_fresh panics = first_node

abbrev alive : Member
alive = or_fresh (Member.start platform booting fresh)

life : Life platform fresh alive
unfolding Member.start new_member
life = then_ pair born (starts booting none refl)

Life-IsCoherent_example : IsCoherent alive.status
Life-IsCoherent_example = Life-IsCoherent platform first_node.cfg [] alive life

-- The cluster refuses the new member.
abbrev refusal : AddEvent
refusal = record {
  default_host = fail [];
  base = base;
  client_error = none;
  member_add = some (codes "unhealthy");
  start = booting;
}

abbrev haunted : Cluster
haunted = or_pair (add platform refusal pair >>= λ r. ret r.0)

refused : add platform refusal pair ≡ ret (haunted, some (codes "unhealthy"))
unfolding add Ops.grow Ops.ask_first Ops.announce Build.add_member Build.set_initial_cluster
    Build.initial_cluster Build.initials Build.member_config new_member Member.client
refused = refl

add_refused_example :
    (some (codes "unhealthy") ≢ none)
    × (haunted.size ≡ pair.size + 1)
    × (length haunted.members ≡ length pair.members + 1)
    × ((now : ℕ → ℕ) (down : Cluster) → shutdown platform now haunted ≢ ret down)
add_refused_example =
    add_refused platform refusal pair haunted (some (codes "unhealthy")) (codes "unhealthy")
      pair-WellFormed refl refused

abbrev removal : RemoveEvent
removal = record { client_error = none; member_remove = none; now = 9 }

remove_last_example : remove platform removal 1 pair ≡ panics
unfolding Member.client
remove_last_example =
    remove_last platform removal 1 pair second_node first_node _ _ pair-WellFormed refl refl refl
      refl refl

abbrev smaller : Cluster
smaller = or_pair (remove platform removal 0 pair >>= λ r. ret r.0)

removed : remove platform removal 0 pair ≡ ret (smaller, none)
unfolding remove Ops.take_out Ops.reindex Member.client Member.stop
removed = refl

remove_stops_next_example :
    (m : Member) × (m' : Member) × (get_elem? pair.members 1 ≡ some m)
    × (get_elem? smaller.members 0 ≡ some m')
    × (m'.cfg ≡ m.cfg)
    × (is_stopped m'.status.state ≡ true)
    × (smaller.removed_dirs ≡ pair.removed_dirs ++ m.cfg.dir ∷ m.cfg.wal_dir ∷ [])
remove_stops_next_example = remove_stops_next platform removal 0 pair smaller removed

remove-WellFormed_example : WellFormed smaller
remove-WellFormed_example =
    remove-WellFormed platform removal 0 pair smaller none pair-WellFormed removed

find_index-remove_example :
    (u : Url) × (get_elem? first_node.cfg.lc_urls 0 ≡ some u)
    × (find_index platform u.host pair ≡ some 0)
    × (find_index platform u.host smaller ≡ some 0)
find_index-remove_example =
    find_index-remove platform removal 0 pair smaller first_node pair-WellFormed refl removed
