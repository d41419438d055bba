-- ===== src/Runs/Servers.antt =====
-- The theorems of the server: a request for its status at a small cluster, and a playground of five
-- members that is started, asked for its status and stopped.
use etcdlabs.Prelude.{
  Bool, true, false, ℕ, ◌+◌, ◌≡◌, refl, true, false, Option, none, some, List, [], ◌∷◌, ◌++◌, arith,
  Exec, ret, panics, Text, codes, text_eq, contains, length, All,
}
use etcdlabs.Prelude.Int.{pos}
use etcdlabs.Ratelimit.{Buckets}
use etcdlabs.Cluster.Types
use etcdlabs.Cluster.Types.{Outcome, fail, good, Cluster}
use etcdlabs.Cluster.Member
use etcdlabs.Cluster.Leader
use etcdlabs.Cluster.Leader.{lead_read}
use etcdlabs.Cluster.Build
use etcdlabs.Cluster.Build.{BuildEvent}
use etcdlabs.Cluster.Ops.{shutdown}
use etcdlabs.Cluster.View
use etcdlabs.Cluster.View.{active_node_n}
use etcdlabs.Cluster.Election.{HasServer}
use etcdlabs.Cluster.Hosts.Kept.{KeepsUrls}
use etcdlabs.Cluster.Shutdown.{shutdown_lem}
use etcdlabs.Web.Identity
use etcdlabs.Web.Identity.{hash_sha512}
use etcdlabs.Web.Sessions
use etcdlabs.Web.Sessions.{Sessions}
use etcdlabs.Web.Server
use etcdlabs.Web.Server.{World, Server, Counter, start_server}
use etcdlabs.Web.Server.Routes
use etcdlabs.Web.Server.Routes.{Arrival, Response, unrouted, serve_http}
use etcdlabs.Web.Server.Sound.{IsServing, serve_http-IsServing}
use etcdlabs.Cluster.Member.{StartEvent}
use etcdlabs.Web.Server.Routes.{healthy, update_cluster_status, clean_cache}
use etcdlabs.Web.Server.Lifecycle.{
  Serves, started, requested, updated, cleaned_up, start_server-IsServing, stop_server_lem,
}
use etcdlabs.Cluster.View.{quorum, size_of}
use etcdlabs.Prelude.{sym, subst}
use etcdlabs.Web.Server.{stop_server}
use etcdlabs.Runs.{fetch, platform, pair, limiter, show, booting, build, library, request}
use etcdlabs.Runs.Members.{pair-WellFormed}
use etcdlabs.Runs.Requests.{stopping}

abbrev pub counter : Counter
counter = record { Sketch = ℕ; new16 = 0; insert_visit = λ t n. n + 1; estimate = λ n. n }

abbrev pub buckets : Buckets
buckets = record { Limiter = ℕ; new_limiter = λ i b. b; set_limit = λ l i. l }

abbrev keys : Sessions → List Text
keys [] = []
keys ((id, t) ∷ m) = id ∷ keys m

abbrev asking : Arrival
asking = record {
  method = codes "GET";
  path = codes "/server-status";
  from = request;
  visited_at = 7;
  time_text = codes "2018-06-01 12:00:00";
  touched_at = 8;
  shown_at = 9;
  range_order = keys;
  event = stopping;
}

abbrev small : World ℕ ℕ
small = record {
  web_port = 2200;
  backend = record {
    client_limiter = limiter;
    node_limiter = record limiter { interval = pos 5_000_000_000 };
    cluster = pair;
  };
  users = [];
  visits = 0;
}

pub hashed : (s : Text) → length (hash_sha512 library s) ≡ 88
hashed s = refl

booting-KeepsUrls : KeepsUrls booting
booting-KeepsUrls cfg srv e = ground arith

pair-HasServer : All HasServer pair.members
pair-HasServer = ((_, refl), ((_, refl), tt))

small-IsServing : IsServing small
small-IsServing = record {
  cluster_ok = pair-WellFormed;
  has_servers = pair-HasServer;
  still_open = refl;
  users_ok = record { keyed = tt; long = tt };
  client_ok = record { interval_eq = refl; scale_eq = refl; fits = omega arith };
  node_ok = record { interval_eq = refl; scale_eq = refl; fits = omega arith };
}

abbrev or_small : Exec (World ℕ ℕ × Response) → World ℕ ℕ × Response
or_small (ret r) = r
or_small panics = (small, unrouted)

abbrev shown : World ℕ ℕ × Response
shown = or_small (serve_http show counter platform library asking small)

show_status : serve_http show counter platform library asking small ≡ ret shown
unfolding serve_http Routes.with_cache Routes.server_status_handler Identity.generate_user_id
    Identity.user_ip Identity.slice Identity.classify_ua Identity.os_part Identity.browser_part
    Identity.mask_user_id etcdlabs.Prelude.Bytes.contains etcdlabs.Prelude.Bytes.text_eq
    Sessions.visit Sessions.touch Sessions.get_user_ids Types.lookup Types.insert
    View.all_member_status
show_status = refl

serve_http-IsServing_example : IsServing shown.0
serve_http-IsServing_example =
    serve_http-IsServing show counter platform library asking small shown.0 shown.1 hashed
      booting-KeepsUrls small-IsServing show_status

shutdown_lem_example :
    (clus' : Cluster) × (shutdown platform (λ i. 9) pair ≡ ret clus')
    × (active_node_n clus' ≡ 0)
    × (length clus'.members ≡ length pair.members)
    × (clus'.stopc_closed ≡ true)
    × (clus'.root_done ≡ true)
    × (clus'.removed_dirs ≡ pair.removed_dirs ++ pair.root_dir ∷ [])
    × ((later : ℕ → ℕ) → shutdown platform later clus' ≡ panics)
shutdown_lem_example = shutdown_lem platform (λ i. 9) pair refl refl pair-HasServer

-- Every member waits for the leader with the id 1, and the first one has that id.
abbrev pub playing : BuildEvent
playing = record build {
  waits = λ i. record {
    client_error = none;
    gets = none ∷ [];
    rounds =
        record {
          polls = lead_read 1 ∷ [];
          answer = good (record { member_id = i + 1; leader_id = 1; db_size = pos 0 });
        }
        ∷ [];
  };
}

abbrev pub answer : Exec (Option (Outcome (Server × World ℕ ℕ)))
answer = start_server buckets platform playing (good (codes "/tmp/c")) 2389 2200 [] 0

abbrev pub server_of : Exec (Option (Outcome (Server × World ℕ ℕ))) → Server
server_of (ret (some (good r))) = r.0
server_of _ = record {
  addr = [];
  has_http_server = false;
  root_cancelled = false;
  stopc_closed = false;
  donec_closed = false;
}

abbrev world_of : Exec (Option (Outcome (Server × World ℕ ℕ))) → World ℕ ℕ
world_of (ret (some (good r))) = r.1
world_of _ = small

abbrev pub playground : World ℕ ℕ
playground = world_of answer

abbrev is_up : Exec (Option (Outcome (Server × World ℕ ℕ))) → Bool
is_up (ret (some (good r))) = true
is_up _ = false

is_up-eq :
    (a : Exec (Option (Outcome (Server × World ℕ ℕ))))
    → is_up a ≡ true
    → a ≡ ret (some (good (server_of a, world_of a)))
is_up-eq (ret (some (good r))) h = refl
is_up-eq (ret (some (fail t))) h = cc
is_up-eq (ret none) h = cc
is_up-eq panics h = cc

comes_up : is_up answer ≡ true
unfolding start_server Build.start_cluster Build.prepare_root Build.set_initial_cluster
    Build.add_members Build.add_member Build.configure_members Build.make_members
    Build.empty_cluster Build.initial_cluster Build.initials Types.new_member Build.member_config
    Member.start etcdlabs.Prelude.Bytes.text_eq Leader.group_error Leader.wait_for_leader
    Leader.wait_from Leader.member_wait_for_leader Leader.all_member_ids Build.configure
    Build.start_from Leader.duplicate_message Leader.elect Leader.gets_ok Leader.is_member_id
    Leader.lead_rounds Leader.poll_lead Leader.scan_leaders Member.client Server.cluster_config
    Server.start_playground
comes_up = refl

pub start_up : answer ≡ ret (some (good (server_of answer, playground)))
start_up = is_up-eq answer comes_up

abbrev pub Boots : StartEvent → Type 0
Boots ev = ev ≡ booting

pub boots : (ev : StartEvent) → Boots ev → KeepsUrls ev
boots ev q = subst KeepsUrls (sym q) booting-KeepsUrls

start_server-IsServing_example :
    IsServing playground
    × ((server_of answer).has_http_server ≡ true)
    × ((server_of answer).stopc_closed ≡ false)
    × (size_of playground.backend.cluster ≡ 5)
    × (quorum playground.backend.cluster ≡ 3)
start_server-IsServing_example =
    start_server-IsServing buckets platform playing (good (codes "/tmp/c")) 2389 2200 [] 0
      (server_of answer) playground (λ j. booting-KeepsUrls) (record { keyed = tt; long = tt })
      start_up

abbrev probing : Arrival
probing = record asking { path = codes "/health" }

probed : serve_http show counter platform library probing playground ≡ ret (playground, healthy)
unfolding serve_http etcdlabs.Prelude.Bytes.text_eq
probed = refl

-- A health check, a round of updates and a round of the cleaner.
abbrev pub later_on : World ℕ ℕ
later_on = clean_cache 20 (update_cluster_status platform (λ i. fetch) playground)

pub served_all : Serves show counter platform library Boots playground later_on
served_all = cleaned_up 20 (updated (λ i. fetch) (requested probing healthy started refl probed))

stop_server_lem_example :
    (srv' : Server) × (down : World ℕ ℕ) × (stop_server platform
        (λ i. 30)
        (server_of answer)
        later_on
      ≡ ret (srv', down))
    × (active_node_n down.backend.cluster ≡ 0)
    × (srv'.donec_closed ≡ true)
    × ((later : ℕ → ℕ) → stop_server platform later srv' down ≡ panics)
stop_server_lem_example =
    stop_server_lem show buckets counter platform library Boots playing (good (codes "/tmp/c")) 2389
      2200 [] 0 (server_of answer) playground later_on (λ i. 30) hashed boots (λ j. refl)
      (record { keyed = tt; long = tt }) start_up served_all
