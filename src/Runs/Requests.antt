-- ===== src/Runs/Requests.antt =====
-- The theorems of the client requests at a request that stops the first of two members, and those of
-- the random strings.
use etcdlabs.Prelude.{
  ℕ, ◌+◌, ◌≤◌, ◌≡◌, refl, true, false, none, some, List, [], ◌∷◌, arith, Exec, ret, panics, Text,
  codes, text_eq, contains, length, All,
}
use etcdlabs.Ratelimit.{wait_closed, permitted, check, advance}
use etcdlabs.Cluster.Types
use etcdlabs.Cluster.Types.{good}
use etcdlabs.Cluster.Member
use etcdlabs.Cluster.Ops
use etcdlabs.Cluster.View
use etcdlabs.Cluster.View.{quorum, active_node_n}
use etcdlabs.Cluster.Hosts.{WellFormed}
use etcdlabs.Web.Requests
use etcdlabs.Web.Requests.{KeyValue, Backend, Reply, not_allowed, RequestEvent}
use etcdlabs.Web.Requests.Handler
use etcdlabs.Web.Requests.Handler.{client_request_handler}
use etcdlabs.Web.Requests.Change.{Change}
use etcdlabs.Web.Requests.Effects.{client_request_handler-Change, client_request_handler-keeps}
use etcdlabs.Web.Requests.Machine.{
  Conversation, nothing, request, Turns, ups, Conversation-Turns, Conversation-active,
}
use etcdlabs.Web.Requests.Escaping.{IsInert, IsInertReply, client_request_handler-IsInertReply}
use etcdlabs.Web.Random.{multi_rand_strings, indices, rand_bytes}
use etcdlabs.Web.Random
use etcdlabs.Web.Random.{multi_rand_key_values}
use etcdlabs.Web.Random.Pairs.{keys_of, values_of, multi_rand_key_values_lem}
use etcdlabs.Web.Random.Letters.{usable, rand_bytes_lem}
use etcdlabs.Web.Random.Distinct.{IsDistinct, multi_rand_strings_lem}
use etcdlabs.Runs.{strip, platform, pair, limiter, show, booting}
use etcdlabs.Runs.Members.{pair-WellFormed}

strip-IsInert : (s : Text) → All IsInert (strip s)
strip-IsInert [] = tt
strip-IsInert (c ∷ s) = ground (arith, strip-IsInert s)

abbrev backend : Backend ℕ
backend = record { client_limiter = limiter; node_limiter = limiter; cluster = pair }

abbrev pub stopping : RequestEvent
stopping = record {
  body = good (record {
    action = codes "stop-node";
    range_prefix = false;
    endpoints = codes "localhost:2379" ∷ [];
    key_value = record { key = []; value = [] };
  });
  client_select = wait_closed permitted;
  client_at = 10;
  client_advanced = 11;
  node_select = wait_closed permitted;
  node_at = 12;
  node_advanced = 13;
  client_error = none;
  puts = λ i. none;
  generated = [];
  deleted = record { kvs = none; error = none };
  got = record { kvs = none; error = none };
  stop_at_time = 14;
  restarted = booting;
  took = codes "1ms";
}

abbrev or_backend : Exec (Backend ℕ × Reply) → Backend ℕ × Reply
or_backend (ret r) = r
or_backend panics = (backend, not_allowed)

abbrev served_stop : Backend ℕ × Reply
served_stop = or_backend (client_request_handler show platform true stopping backend)

answered_stop : client_request_handler show platform true stopping backend ≡ ret served_stop
unfolding client_request_handler Handler.serve_body Handler.dispatch Handler.limited Handler.escaped
    check View.find_index Ops.get_host Types.lookup etcdlabs.Prelude.Bytes.text_eq
    etcdlabs.Prelude.Bytes.contains Requests.stop_node quorum active_node_n View.active
    View.member_status View.is_stopped_at Ops.stop_at Member.stop advance
answered_stop = refl

client_request_handler-Change_example : Change platform stopping pair served_stop.0.cluster
client_request_handler-Change_example =
    client_request_handler-Change show platform true stopping backend served_stop.0 served_stop.1
      answered_stop

enough : quorum pair ≤ active_node_n pair + 1
unfolding quorum active_node_n View.active
enough = omega arith

client_request_handler-keeps_example :
    WellFormed served_stop.0.cluster
    × (quorum served_stop.0.cluster ≤ active_node_n served_stop.0.cluster + 1)
client_request_handler-keeps_example =
    client_request_handler-keeps show platform true stopping backend served_stop.0 served_stop.1
      (λ cfg srv e. ground arith) pair-WellFormed enough answered_stop

-- A write whose key and value are tags.
abbrev tagging : RequestEvent
tagging = record stopping {
  body = good (record {
    action = codes "write";
    range_prefix = false;
    endpoints = codes "localhost:2379" ∷ [];
    key_value = record { key = codes "<b>"; value = codes "<i>" };
  });
}

abbrev served_tags : Backend ℕ × Reply
served_tags = or_backend (client_request_handler show platform true tagging backend)

answered_tags : client_request_handler show platform true tagging backend ≡ ret served_tags
unfolding client_request_handler Handler.serve_body Handler.dispatch Handler.reading Handler.escaped
    check View.find_index Ops.get_host Types.lookup etcdlabs.Prelude.Bytes.text_eq
    etcdlabs.Prelude.Bytes.contains Requests.write Ops.client_for Member.client advance
answered_tags = refl

client_request_handler-IsInertReply_example : IsInertReply served_tags.1
client_request_handler-IsInertReply_example =
    client_request_handler-IsInertReply platform strip-IsInert show tagging true backend
      served_tags.0 served_tags.1 answered_tags

multi_rand_strings_lem_example :
    (out : List Text) × (multi_rand_strings 2 (codes "foo") (codes "ab" ∷ codes "ab" ∷ [])
      ≡ some out)
    × (length out ≡ 2)
    × IsDistinct out
multi_rand_strings_lem_example =
    multi_rand_strings_lem (codes "foo") 2 (codes "ab" ∷ codes "ab" ∷ []) (refl, (refl, tt))

enough_letters : 2 ≤ usable (indices (4095 ∷ []))
unfolding indices Random.chunks
enough_letters = omega arith

rand_bytes_lem_example : (b : Text) × (rand_bytes 2 (4095 ∷ []) ≡ some b) × (length b ≡ 2)
rand_bytes_lem_example = rand_bytes_lem 2 (4095 ∷ []) enough_letters

served_once : Conversation show platform backend served_stop.0
served_once = request true stopping served_stop.1 nothing answered_stop

Conversation-Turns_example : Turns (ups pair.members) (ups served_stop.0.cluster.members)
Conversation-Turns_example = Conversation-Turns show platform served_once

Conversation-active_example :
    (length served_stop.0.cluster.members ≡ 2)
    × (quorum pair ≤ active_node_n pair + 1
        → quorum served_stop.0.cluster ≤ active_node_n served_stop.0.cluster + 1)
Conversation-active_example = Conversation-active show platform served_once

multi_rand_key_values_lem_example :
    (kvs : List KeyValue) × (multi_rand_key_values
        (codes "foo")
        (codes "bar")
        1
        (codes "ab" ∷ [])
        (codes "ab" ∷ [])
      ≡ some (ret kvs))
    × (length kvs ≡ 1)
    × IsDistinct (keys_of kvs)
    × IsDistinct (values_of kvs)
multi_rand_key_values_lem_example =
    multi_rand_key_values_lem (codes "foo") (codes "bar") 2 (codes "ab" ∷ []) (codes "ab" ∷ []) refl
      (refl, tt) (refl, tt)
