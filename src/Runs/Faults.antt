-- ===== src/Runs/Faults.antt =====
-- The theorems about open servers, at the two members on localhost.
use etcdlabs.Prelude.{
  ◌≢◌, some, ℕ, ◌≡◌, refl, true, false, Option, none, [], ◌∷◌, Exec, ret, panics, Text, codes, All,
}
use etcdlabs.Prelude.Int.{pos}
use etcdlabs.Clusterpb.{is_stopped}
use etcdlabs.Cluster.Types.{good, fail, EmbedConfig, Member, Cluster, new_member}
use etcdlabs.Cluster.Member
use etcdlabs.Cluster.Member.{StartEvent}
use etcdlabs.Cluster.Ops.{stop_at, shutdown}
use etcdlabs.Cluster.Status
use etcdlabs.Cluster.Status.{FetchEvent, fetch_member_status, update_member_status, write_status}
use etcdlabs.Cluster.View.{is_stopped_at}
use etcdlabs.Cluster.Calm.{IsTruthful, born, then_, starts}
use etcdlabs.Cluster.Servers.{HasCalmLife, IsClosed, shutdown-IsClosed}
use etcdlabs.Cluster.Servers.Faults.{is_open_at, unreachable_stays_open, late_status}
use etcdlabs.Runs
use etcdlabs.Runs.{platform, pair, first_node, second_node, booting, fetch}

abbrev or_first : Exec (Member × Option Text) → Member
or_first (ret r) = r.0
or_first panics = first_node

-- A member with the given configuration, behind its first start.
abbrev launched : EmbedConfig → Member
launched cfg = or_first (Member.start platform booting (new_member cfg []))

abbrev launched_pair : Cluster
launched_pair = record pair { members = launched first_node.cfg ∷ launched second_node.cfg ∷ [] }

first_life : HasCalmLife platform (launched first_node.cfg)
unfolding Member.start new_member
first_life = (first_node.cfg, [], then_ pair born (starts booting none refl (λ srv e. refl)))

second_life : HasCalmLife platform (launched second_node.cfg)
unfolding Member.start new_member
second_life = (second_node.cfg, [], then_ pair born (starts booting none refl (λ srv e. refl)))

shutdown-IsClosed_example :
    (clus' : Cluster) × (shutdown platform (λ i. 9) launched_pair ≡ ret clus')
    × All IsClosed clus'.members
unfolding Member.start new_member
shutdown-IsClosed_example =
    shutdown-IsClosed platform (λ i. 9) launched_pair refl refl ((_, refl), ((_, refl), tt))
      (first_life, (second_life, tt))

-- The client is made, but `Status` runs into its timeout.
abbrev timed_out : FetchEvent
timed_out = record fetch { client_error = none; status = fail (codes "deadline exceeded") }

unreachable_stays_open_example :
    (is_stopped_at (update_member_status platform (λ i. timed_out) pair) 1 ≡ ret true)
    × ((now : ℕ)
        → (clus' : Cluster) × (stop_at platform now 1
              (update_member_status platform (λ i. timed_out) pair)
            ≡ ret clus')
          × (is_open_at clus' 1 ≡ ret true))
    × ((now : ℕ → ℕ)
        → (clus' : Cluster) × (shutdown platform now
              (update_member_status platform (λ i. timed_out) pair)
            ≡ ret clus')
          × (is_open_at clus' 1 ≡ ret true))
unfolding Member.client
unreachable_stays_open_example =
    unreachable_stays_open platform (λ i. timed_out) pair 1 second_node (codes "deadline exceeded")
      (Runs.client_url (codes "2381")) _ refl refl ((_, refl), ((_, refl), tt)) refl refl refl refl
      refl

abbrev answering : FetchEvent
answering = record fetch {
  client_error = none;
  status = good (record { member_id = 1; leader_id = 1; db_size = pos 20 });
  hash = good 7;
}

abbrev shown : Member
shown = or_first (fetch_member_status platform answering pair first_node)

abbrev or_self : Exec Member → Member
or_self (ret m) = m
or_self panics = first_node

abbrev put_down : Member
put_down = or_self (Member.stop platform 6 first_node)

fetched : fetch_member_status platform answering pair first_node ≡ ret (shown, none)
unfolding fetch_member_status Status.healthy Member.client
fetched = refl

abbrev late : Member
late = write_status shown.status put_down

abbrev noticed : Member
noticed = or_first (fetch_member_status platform timed_out pair late)

late-IsTruthful : IsTruthful timed_out late
unfolding Member.stop
late-IsTruthful = record {
  up = λ e. absurd (false≢true e);
  down = λ e. (codes "deadline exceeded", refl);
}
  where
    false≢true : false ≢ true
    false≢true e = cc

late_status_example :
    (late.srv_open ≡ false)
    × (is_stopped late.status.state ≡ false)
    × (Member.restart platform booting late ≡ ret (late, none))
    × (is_stopped noticed.status.state ≡ true)
unfolding Member.stop Member.client fetch_member_status
late_status_example =
    late_status platform answering timed_out pair first_node shown put_down noticed 6 booting _
      (some (codes "deadline exceeded")) refl fetched refl late-IsTruthful refl refl
