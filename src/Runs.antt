-- ===== src/Runs.antt =====
-- Concrete values for the tests: two members on localhost from port 2379 on, an in-memory rate
-- limiter, and a library for user ids.
pub mod Commands
pub mod Faults
pub mod Limits
pub mod Messages
pub mod Changes
pub mod Members
pub mod Requests
pub mod Servers
pub mod Users
use etcdlabs.Prelude.{
  if◌then◌else◌, ◌||◌, ◌==◌, ℕ, true, false, none, some, [], ◌∷◌, ◌++◌, Exec, ret, panics, Text,
  codes, decimal, length, drop,
}
use etcdlabs.Prelude.Int.{ℤ, pos}
use etcdlabs.Ratelimit.{RequestLimiter}
use etcdlabs.Cluster.Types.{
  Outcome, good, fail, existing, Url, Platform, TlsInfo, EmbedConfig, Member, Config, Cluster,
}
use etcdlabs.Cluster.Member.{StartEvent, ready_notify}
use etcdlabs.Cluster.Build.{BuildEvent, configure, empty_cluster}
use etcdlabs.Web.Identity
use etcdlabs.Clusterpb.{follower}
use etcdlabs.Cluster.Status.{FetchEvent}
use etcdlabs.Web.Identity.{Library}

-- A stand-in for the escape that drops the bytes it would replace.
abbrev pub strip : Text → Text
strip [] = []
strip (c ∷ s) = if c == 60 || c == 62 || c == 34 || c == 39 then strip s else c ∷ strip s

abbrev pub platform : Platform
platform = record {
  join_path = λ a b. a ++ (codes "/" ++ b);
  url_host = λ s. some (drop 7 s);
  humanize_time = λ t now. codes "now";
  humanize_bytes = λ n. decimal n ++ codes "B";
  id_string = λ n. decimal n;
  html_escape = strip;
}

abbrev pub no_tls : TlsInfo
no_tls = record { is_empty = true; client_config = fail [] }

abbrev pub base : EmbedConfig
base = record {
  name = [];
  dir = [];
  wal_dir = [];
  cluster_state = existing;
  ac_urls = [];
  lc_urls = [];
  ap_urls = [];
  lp_urls = [];
  initial_cluster = [];
  client_auto_tls = false;
  client_tls_info = no_tls;
  peer_auto_tls = false;
  peer_tls_info = no_tls;
  auto_compaction_mode = [];
  auto_compaction_retention = [];
  logger = [];
  log_outputs = [];
}

abbrev pub config : Config
config = record {
  size = pos 2;
  root_dir = codes "r";
  root_port = 2379;
  embedded_client = true;
  peer_tls_info = no_tls;
  peer_auto_tls = false;
  client_tls_info = no_tls;
  client_auto_tls = false;
  dial_timeout = pos 0;
}

-- A start that reuses the configuration that it is given.
abbrev pub booting : StartEvent
booting = record {
  server = λ cfg. good (record { id = 1; config = cfg });
  ready = ready_notify;
  now = 5;
}

abbrev pub build : BuildEvent
build = record {
  now = 1;
  root_exists = true;
  mkdir_error = none;
  default_host = fail [];
  base = base;
  starts = λ i. booting;
  first_start_error = 0;
  waits = λ i. record { client_error = none; gets = []; rounds = [] };
  first_wait_error = 0;
}

abbrev from_good : Exec (Outcome Cluster) → Cluster
from_good (ret (good c)) = c
from_good (ret (fail e)) = empty_cluster config 2 0
from_good panics = empty_cluster config 2 0

abbrev pub two : Cluster
two = from_good (configure platform build config)

-- Every dial fails.
abbrev pub fetch : FetchEvent
fetch = record {
  client_error = some (codes "down");
  status = fail [];
  dial_error = none;
  hash = fail [];
  asked_at = 0;
  dialled_at = 0;
  hashed_at = 0;
  read_at = 0;
}

abbrev pub client_url : Text → Url
client_url port = record { scheme = codes "http"; host = codes "localhost:" ++ port }

-- A member that runs, with its client on the first port and its peers on the second.
abbrev pub node : Text → Text → Member
node port peer =
    let cfg = record base {
      name = codes "node" ++ port;
      lc_urls = client_url port ∷ [];
      ap_urls = client_url peer ∷ [];
      lp_urls = client_url peer ∷ [];
    } in
    record {
      cfg = cfg;
      srv = some (record { id = length port; config = cfg });
      srv_open = true;
      stopped_started_at = 0;
      status = record {
        name = cfg.name;
        id = [];
        endpoint = [];
        is_leader = false;
        state = follower;
        state_txt = [];
        db_size = 0;
        db_size_txt = [];
        hash = 0;
      };
    }

abbrev pub first_node : Member
first_node = node (codes "2379") (codes "2380")

abbrev pub second_node : Member
second_node = node (codes "2381") (codes "2382")

abbrev pub pair : Cluster
pair = record {
  embedded_client = true;
  started = 0;
  size = 2;
  lead_idx = 0;
  members = first_node ∷ second_node ∷ [];
  client_host_to_index = (codes "localhost:2379", 0) ∷ (codes "localhost:2381", 1) ∷ [];
  client_dial_timeout = pos 1_000_000_000;
  stopc_closed = false;
  root_done = false;
  base_port = 2383;
  root_dir = codes "r";
  ccfg = config;
  removed_dirs = [];
}

abbrev pub or_pair : Exec Cluster → Cluster
or_pair (ret c) = c
or_pair panics = pair

abbrev pub limiter : RequestLimiter ℕ
limiter = record {
  interval = pos 3_000_000_000;
  min_scale = pos 1_000_000;
  limiter = 0;
  last_request = 0;
}

abbrev pub show : ℤ → Text
show d = codes "soon"

abbrev pub library : Library
library = record {
  trim_space = λ s. s;
  to_lower = λ s. s;
  sum512 = λ s. s;
  encode_base64 = λ s.
      codes
        "0123456789012345678901234567890123456789012345678901234567890123456789012345678901234567";
}

abbrev pub request : Identity.Request
request = record {
  header = λ k. [];
  remote_addr = codes "10.0.0.1:80";
  user_agent = codes "linux firefox/";
}
