-- ===== src/Clusterpb.antt =====
-- cluster/clusterpb: the status of a member; `Encode` and `Decode` are the protobuf code of
-- clusterpb.pb.go, and the other children are theorems about it.
pub mod Encode
pub mod Varint
pub mod Writing
pub mod Written
pub mod Decode
pub mod Reading
pub mod Fields
pub mod RoundTrip
pub mod Skipping
pub mod Ending
pub mod Overflow
use etcdlabs.Prelude.{ℕ, Bool, true, false, Text, codes}

-- The three constants of member_status.go, which are all that the program stores in `State`.
pub data MemberState : Type 0 where
  stopped follower leader : MemberState

abbrev pub is_stopped : MemberState → Bool
is_stopped stopped = true
is_stopped follower = false
is_stopped leader = false

pub record MemberStatus : Type 0 where
  pub name : Text
  pub id : Text
  pub endpoint : Text
  pub is_leader : Bool
  pub state : MemberState
  pub state_txt : Text
  pub db_size : ℕ
  pub db_size_txt : Text
  pub hash : ℕ

-- The struct as the protobuf code sees it, where `State` is any string.
pub record Message : Type 0 where
  pub name : Text
  pub id : Text
  pub endpoint : Text
  pub is_leader : Bool
  pub state : Text
  pub state_txt : Text
  pub db_size : ℕ
  pub db_size_txt : Text
  pub hash : ℕ

abbrev pub state_name : MemberState → Text
state_name stopped = codes "Stopped"
state_name follower = codes "Follower"
state_name leader = codes "Leader"

-- A status of the program as a message.
abbrev pub to_message : MemberStatus → Message
to_message s = record {
  name = s.name;
  id = s.id;
  endpoint = s.endpoint;
  is_leader = s.is_leader;
  state = state_name s.state;
  state_txt = s.state_txt;
  db_size = s.db_size;
  db_size_txt = s.db_size_txt;
  hash = s.hash;
}
