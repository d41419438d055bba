-- ===== src/Cluster/Leader.antt =====
-- `WaitForLeader` of member.go and of cluster.go, and `allMemberIDs`.
use etcdlabs.Prelude.{
  ℕ, zero, suc, ◌+◌, ◌%◌, Bool, true, false, not, ◌||◌, Option, none, some, List, [], ◌∷◌, ◌++◌,
  Exec, ret, panics, ◌>>=◌, deref, index, Text, codes, length, get_elem?, ◌==◌, if◌then◌else◌,
}
use mathlib.Core.Option
use etcdlabs.Clusterpb.{follower, leader, is_stopped}
use etcdlabs.Cluster.Types.{Outcome, good, fail, Platform, Member, Cluster}
use etcdlabs.Cluster.Member.{client}
use etcdlabs.Cluster.Status.{StatusResponse}

-- One turn of the innermost loop: the server has stopped, or `Server.Lead()` is read.
pub data Poll : Type 0 where
  server_stopped : Poll
  lead_read : ℕ → Poll

-- One turn of the outer loop: the polls up to a leader, and the answer of `Status`.
pub record Round : Type 0 where
  pub polls : List Poll
  pub answer : Outcome StatusResponse

-- What the world answers to one `WaitForLeader`: the error of `clientv3.New`, the errors of the
-- linearizable reads (`none` is success), and the rounds.
pub record WaitEvent : Type 0 where
  pub client_error : Option Text
  pub gets : List (Option Text)
  pub rounds : List Round

-- The ids as a list; the source's map has them as keys with the value true.
unfoldable pub all_member_ids : List Member → Exec (List ℕ)
all_member_ids [] = ret []
all_member_ids (m ∷ ms) = do srv ← deref m.srv; ids ← all_member_ids ms; ret (srv.id ∷ ids)

unfoldable pub is_member_id : ℕ → List ℕ → Bool
is_member_id x [] = false
is_member_id x (y ∷ ys) = x == y || is_member_id x ys

-- `for lead == 0 || !possibleLead[lead]`; `none` if the polls run out first.
unfoldable pub poll_lead : List ℕ → List Poll → Option ℕ
poll_lead ids [] = none
poll_lead ids (server_stopped ∷ ps) = poll_lead ids ps
poll_lead ids (lead_read l ∷ ps) =
    if l == 0 || not (is_member_id l ids) then poll_lead ids ps else some l

-- The loop of reads ends with the first that succeeds.
unfoldable pub gets_ok : List (Option Text) → Bool
gets_ok [] = false
gets_ok (none ∷ gs) = true
gets_ok (some e ∷ gs) = gets_ok gs

-- The member after an answer that names no leader yet, and after one that does.
abbrev pub pending : Platform → StatusResponse → Member → Member
pending p resp m = record m {
  status = record (m.status) {
    id = p.id_string resp.member_id;
    is_leader = false;
    state = follower;
  };
}

abbrev pub settled : Platform → StatusResponse → Member → Member
settled p resp m = record m {
  status = record (m.status) {
    id = p.id_string resp.member_id;
    is_leader = resp.leader_id == resp.member_id;
    state = if resp.leader_id == resp.member_id then leader else follower;
  };
}

-- The outer loop. `none` means that the rounds run out while the code is still waiting.
unfoldable pub lead_rounds : Platform → List ℕ → List Round → Member → Option Member
lead_rounds p ids [] m = none
lead_rounds p ids (r ∷ rs) m = elim (poll_lead ids r.polls) [
  | none ↦ none
  | some lead ↦ elim r.answer [
    | fail e ↦ lead_rounds p ids rs m
    | good resp ↦
        let again = lead_rounds p ids rs (pending p resp m) in
        let retry = lead_rounds p ids rs (settled p resp m) in
        if resp.leader_id == 0
        then again
        else if lead == resp.leader_id
        then some (settled p resp m)
        else retry
  ]
]

-- `none` inside `ret` means that the member is still waiting when the events end.
unfoldable pub member_wait_for_leader :
    Platform → WaitEvent → Cluster → Member → Exec (Option (Member × Option Text))
unfolding gets_ok
member_wait_for_leader p ev clus m = if is_stopped m.status.state then ret (some (m, none)) else do
  ids ← all_member_ids clus.members
  answer ← client ev.client_error clus false [] m
  elim answer [
    | fail e ↦ ret (some (m, some e))
    | good cli ↦ do
      url ← index m.cfg.lc_urls 0
      ret (
          if gets_ok ev.gets
          then Option.map (λ m'. (m', none)) (lead_rounds p ids ev.rounds m)
          else none)
  ]

-- `for i, m := range clus.Members`, from the index `i` on: the new `LeadIdx`, and whether a second
-- leader was met. The log line of the first leader follows its server.
unfoldable pub scan_leaders : ℕ → Bool → ℕ → List Member → Exec (ℕ × Bool)
scan_leaders i found lead_idx [] = ret (lead_idx, false)
scan_leaders i found lead_idx (m ∷ ms) =
    let others = scan_leaders (i + 1) found lead_idx ms in
    let later = deref m.srv >>= λ srv. scan_leaders (i + 1) true i ms in
    if m.status.is_leader then (if found then ret (lead_idx, true) else later) else others

unfoldable pub duplicate_message : Platform → List Member → ℕ → Exec Text
duplicate_message p ms lead_idx = do
  m ← index ms lead_idx
  srv ← deref m.srv
  ret (
      codes "duplicate leader? "
      ++ (34
          ∷ (m.cfg.name
              ++ (34 ∷ (codes "(" ++ (p.id_string srv.id ++ codes ") claims to be the leader"))))))

-- The scan of `(clus *Cluster) WaitForLeader`, after all members have returned without an error.
unfoldable pub elect : Platform → Cluster → Exec (Cluster × Option Text)
elect p clus = do
  (lead_idx, duplicate) ← scan_leaders 0 false clus.lead_idx clus.members
  if duplicate
      then (duplicate_message p clus.members lead_idx >>= λ msg.
          ret (record clus { lead_idx = lead_idx }, some msg))
      else ret (record clus { lead_idx = lead_idx }, none)

abbrev joined :
    Option (Member × Option Text)
    → Option (List Member × List Text)
    → Option (List Member × List Text)
joined none others = none
joined (some one) none = none
joined (some (m, none)) (some (ms, es)) = some (m ∷ ms, es)
joined (some (m, some e)) (some (ms, es)) = some (m ∷ ms, e ∷ es)

-- The goroutines of the members from the index `i` on, each on its own member: the members behind
-- them, and the errors. `none` if one is still waiting.
unfoldable pub wait_from :
    Platform
    → (ℕ → WaitEvent)
    → Cluster
    → ℕ
    → ℕ
    → List Member
    → Exec (Option (List Member × List Text))
wait_from p evs clus i zero ms = ret (some (ms, []))
wait_from p evs clus i (suc n) [] = panics
wait_from p evs clus i (suc n) (m ∷ ms) = do
  one ← member_wait_for_leader p (evs i) clus m
  others ← wait_from p evs clus (i + 1) n ms
  ret (joined one others)

-- `g.Wait()` returns the error of the goroutine that fails first, the `k`-th of them here.
unfoldable pub group_error : ℕ → List Text → Option Text
group_error k [] = none
group_error k (e ∷ es) = get_elem? (e ∷ es) (k % suc (length es))

-- `(clus *Cluster) WaitForLeader()`
unfoldable pub wait_for_leader :
    Platform → (ℕ → WaitEvent) → ℕ → Cluster → Exec (Option (Cluster × Option Text))
wait_for_leader p evs k clus = do
  waited ← wait_from p evs clus 0 clus.size clus.members
  elim waited [
    | none ↦ ret none
    | some (ms, errors) ↦
        let clus' = record clus { members = ms } in
        elim (group_error k errors) [
          | some e ↦ ret (some (clus', some e))
          | none ↦ elect p clus' >>= λ r. ret (some r)
        ]
  ]
