-- ===== src/Cluster/Status.antt =====
-- `FetchMemberStatus` of member.go and `UpdateMemberStatus` of cluster.go.
use etcdlabs.Prelude.{
  ℕ, zero, suc, ◌+◌, ◌-◌, ◌%◌, ◌^◌, false, Option, none, some, List, [], ◌∷◌, ◌++◌, Exec, ret,
  panics, ◌>>=◌, index, Text, codes, ◌==◌, if◌then◌else◌,
}
use etcdlabs.Prelude.Int.{ℤ, pos, negsuc}
use etcdlabs.Clusterpb.{MemberStatus, stopped, follower, leader}
use etcdlabs.Cluster.Types.{Outcome, good, fail, Url, url_string, Platform, Member, Cluster}
use etcdlabs.Cluster.Member.{client}

-- `clientv3.StatusResponse`, with the member's id of its header.
pub record StatusResponse : Type 0 where
  pub member_id : ℕ
  pub leader_id : ℕ
  pub db_size : ℤ

-- What the world answers to one `FetchMemberStatus`: the errors of `clientv3.New` and `grpc.Dial`,
-- the results of `Status` and `Hash`, and the four times that are read.
pub record FetchEvent : Type 0 where
  pub client_error : Option Text
  pub status : Outcome StatusResponse
  pub dial_error : Option Text
  pub hash : Outcome ℕ
  pub asked_at : ℕ
  pub dialled_at : ℕ
  pub hashed_at : ℕ
  pub read_at : ℕ

-- `uint64(v)` of an `int64`.
unfoldable pub to_uint64 : ℤ → ℕ
to_uint64 (pos n) = n % 2 ^ 64
to_uint64 (negsuc n) = 2 ^ 64 - 1 - n % 2 ^ 64

-- The status that each of the three error branches leaves.
unfoldable pub unreachable : Platform → Text → ℕ → ℕ → Text → MemberStatus → MemberStatus
unreachable p what now then_ e s = record s {
  state = stopped;
  state_txt = s.name ++ (what ++ (p.humanize_time now then_ ++ (codes " - " ++ (e ++ codes ")"))));
  is_leader = false;
  db_size = 0;
  db_size_txt = [];
  hash = 0;
}

-- The status that a healthy member gets; `hash` comes with the last answer.
unfoldable pub healthy : Platform → FetchEvent → StatusResponse → Url → Member → ℕ → MemberStatus
unfolding url_string to_uint64
healthy p ev resp url m hash =
    let leads = resp.member_id == resp.leader_id in
    record {
      name = m.cfg.name;
      id = p.id_string resp.member_id;
      endpoint = url_string url;
      is_leader = leads;
      state = if leads then leader else follower;
      state_txt =
          m.status.name
          ++ (codes " has been healthy (since "
              ++ (p.humanize_time ev.read_at m.stopped_started_at ++ codes ")"));
      db_size = to_uint64 resp.db_size;
      db_size_txt = p.humanize_bytes (to_uint64 resp.db_size);
      hash = hash;
    }

-- `m.status = status` under the lock.
abbrev pub write_status : MemberStatus → Member → Member
write_status s m = record m { status = s }

-- The two steps behind a good `Status` answer: the connection, and the hash.
unfoldable pub fetch_hash :
    Platform → FetchEvent → StatusResponse → Url → Member → Member × Option Text
unfolding unreachable healthy
fetch_hash p ev resp url m = elim ev.dial_error [
  | some e ↦ (
    record m {
      status = unreachable p (codes " is not reachable (") ev.read_at ev.dialled_at e m.status;
    },
    some e,
  )
  | none ↦ elim ev.hash [
    | fail e ↦ (
      record m {
        status =
            unreachable p (codes " was not reachable while getting hash (") ev.read_at ev.hashed_at
              e m.status;
      },
      some e,
    )
    | good h ↦ (write_status (healthy p ev resp url m h) m, none)
  ]
]

unfoldable pub fetch_member_status :
    Platform → FetchEvent → Cluster → Member → Exec (Member × Option Text)
unfolding fetch_hash
fetch_member_status p ev clus m = do
  answer ← client ev.client_error clus false [] m
  elim answer [
    | fail e ↦ ret (m, some e)
    | good cli ↦ do
      url ← index m.cfg.lc_urls 0
      elim ev.status [
        | fail e ↦ ret (
          record m {
            status = unreachable p (codes " is not reachable (") ev.read_at ev.asked_at e m.status;
          },
          some e,
        )
        | good resp ↦ ret (fetch_hash p ev resp url m)
      ]
  ]

-- One goroutine of `UpdateMemberStatus`: a panic is recovered, an error is logged.
unfoldable pub refreshed : Platform → FetchEvent → Cluster → Member → Member
refreshed p ev clus m = elim (fetch_member_status p ev clus m) [ panics ↦ m | ret (m', e) ↦ m' ]

-- The goroutines for the indices `i` up to `i + n - 1`. Each touches its own member, so their order
-- does not matter; an index out of range is a recovered panic.
unfoldable pub refresh_from :
    Platform → (ℕ → FetchEvent) → Cluster → ℕ → ℕ → List Member → List Member
refresh_from p evs clus i zero ms = ms
refresh_from p evs clus i (suc n) [] = []
refresh_from p evs clus i (suc n) (m ∷ ms) =
    refreshed p (evs i) clus m ∷ refresh_from p evs clus (i + 1) n ms

-- Both cases of the last `select` wait for all goroutines first, since `wf()` is evaluated.
unfoldable pub update_member_status : Platform → (ℕ → FetchEvent) → Cluster → Cluster
update_member_status p evs clus = record clus {
  members = refresh_from p evs clus 0 clus.size clus.members;
}
