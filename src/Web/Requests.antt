-- ===== src/Web/Requests.antt =====
-- `clientRequestHandler` of backend/web/handler.go: the types of a request, and one function for each
-- action. A reply's JSON, and an error of its writer, are left out.
pub mod Handler
pub mod Change
pub mod Effects
pub mod Machine
pub mod Escaping
use etcdlabs.Prelude.{
  ℕ, ◌+◌, Bool, true, false, not, Option, none, some, List, [], ◌∷◌, ◌++◌, Exec, ret, ◌>>=◌, deref,
  Text, codes, text_eq, length, take, ltb, if◌then◌else◌,
}
use etcdlabs.Ratelimit.{RequestLimiter, Select}
use etcdlabs.Cluster.Types.{Outcome, good, fail, Platform, Cluster}
use etcdlabs.Cluster.Member.{StartEvent}
use etcdlabs.Cluster.Ops.{client_for, stop_at, restart_at}
use etcdlabs.Cluster.View.{active_node_n, quorum, member_status, is_stopped_at}

pub record KeyValue : Type 0 where
  pub key : Text
  pub value : Text

pub record ClientRequest : Type 0 where
  pub action : Text
  pub range_prefix : Bool
  pub endpoints : List Text
  pub key_value : KeyValue

pub record ClientResponse : Type 0 where
  pub client_request : ClientRequest
  pub success : Bool
  pub result : Text
  pub result_lines : List Text
  pub key_values : List KeyValue

-- The reply to a POST, the 405 of any other method, and the error that only names the unknown action.
pub data Reply : Type 0 where
  answered : ClientResponse → Reply
  not_allowed : Reply
  failed : Text → Reply

-- The globals that the handler reads and writes.
pub record Backend (L : Type 0) : Type 0 where
  pub client_limiter : RequestLimiter L
  pub node_limiter : RequestLimiter L
  pub cluster : Cluster

-- The (response, error) pair of `Get` and `Delete`; a nil response is `none`.
pub record KvAnswer : Type 0 where
  pub kvs : Option (List KeyValue)
  pub error : Option Text

-- What the world answers to one request: the body, the `select`s and times of the two limiters, the
-- errors of `clientv3.New` and of the puts, the generated pairs of "stress", the answers of etcd, the
-- stop and the restart, and the text of the time taken.
pub record RequestEvent : Type 0 where
  pub body : Outcome ClientRequest
  pub client_select : Select
  pub client_at : ℕ
  pub client_advanced : ℕ
  pub node_select : Select
  pub node_at : ℕ
  pub node_advanced : ℕ
  pub client_error : Option Text
  pub puts : ℕ → Option Text
  pub generated : List KeyValue
  pub deleted : KvAnswer
  pub got : KvAnswer
  pub stop_at_time : ℕ
  pub restarted : StartEvent
  pub took : Text

-- `cresp.Success = false` with a message that is also the only line.
abbrev pub refuse : ClientResponse → Text → ClientResponse
refuse r msg = record r { success = false; result = msg; result_lines = msg ∷ [] }

took : RequestEvent → Text
took ev = codes " (took " ++ (ev.took ++ codes ")")

-- `if len(ks) > 7 { ks = ks[:7] + "..." }`
unfoldable pub shorten : Text → Text
shorten s = if ltb 7 (length s) then take 7 s ++ codes "..." else s

success_line : Text → Text → Text → Text
success_line action k v =
    action ++ (codes " success (key: " ++ (k ++ (codes ", value: " ++ (v ++ codes ")"))))

short_lines : Text → List KeyValue → List Text
short_lines action [] = []
short_lines action (kv ∷ kvs) =
    success_line action (shorten kv.key) (shorten kv.value) ∷ short_lines action kvs

full_lines : Text → List KeyValue → List Text
full_lines action [] = []
full_lines action (kv ∷ kvs) = success_line action kv.key kv.value ∷ full_lines action kvs

-- `globalCluster.Client(creq.Endpoints...)` with the error branch that all four actions share.
with_client :
    Platform → RequestEvent → Cluster → ClientResponse → Exec ClientResponse → Exec ClientResponse
unfolding took
with_client p ev clus r act = do
  answer ← client_for p ev.client_error r.client_request.endpoints clus
  elim answer [ fail e ↦ ret (refuse r (codes "client error " ++ (e ++ took ev))) | good cli ↦ act ]

unfoldable pub write : Platform → RequestEvent → Cluster → ClientResponse → Exec ClientResponse
unfolding with_client short_lines success_line shorten took
write p ev clus r =
    let kv = r.client_request.key_value in
    let sent = record r { key_values = kv ∷ [] } in
    if text_eq kv.key []
    then ret (refuse r (codes "'write' request got empty key"))
    else with_client p ev clus r (elim (ev.puts 0) [
      | some e ↦ ret (refuse sent e)
      | none ↦ ret (record sent {
        success = true;
        result = codes "'write' success" ++ took ev;
        result_lines = short_lines (codes "'write'") (kv ∷ []);
      })
    ])

-- The loop of puts stops at the first error.
unfoldable pub put_all : (ℕ → Option Text) → ℕ → List KeyValue → Option Text
put_all puts i [] = none
put_all puts i (kv ∷ kvs) =
    let rest = put_all puts (i + 1) kvs in elim (puts i) [ some e ↦ some e | none ↦ rest ]

unfoldable pub stress : Platform → RequestEvent → Cluster → ClientResponse → Exec ClientResponse
unfolding with_client short_lines success_line shorten took put_all
stress p ev clus r =
    let sent = record r { key_values = ev.generated } in
    with_client p ev clus r (elim (put_all ev.puts 0 ev.generated) [
      | some e ↦ ret (refuse sent (codes "client error " ++ (e ++ took ev)))
      | none ↦ ret (record sent {
        result = codes "'stress' success" ++ took ev;
        result_lines = short_lines (codes "'stress'") ev.generated;
      })
    ])

-- `dresp.PrevKvs` follows the response, also behind an error.
unfoldable pub delete : Platform → RequestEvent → Cluster → ClientResponse → Exec ClientResponse
unfolding with_client full_lines success_line took
delete p ev clus r =
    let failing = λ (e : Text). record r { success = false; result = e } in
    if text_eq r.client_request.key_value.key []
    then ret (refuse r (codes "'delete' request got empty key"))
    else with_client p ev clus r (
        deref ev.deleted.kvs >>= λ kvs. elim ev.deleted.error [
          | some e ↦ ret (record (failing e) { key_values = kvs })
          | none ↦ ret (record r {
            key_values = kvs;
            result = codes "'delete' success" ++ took ev;
            result_lines = full_lines (codes "'delete'") kvs;
          })
        ])

unfoldable pub get : Platform → RequestEvent → Cluster → ClientResponse → Exec ClientResponse
unfolding with_client full_lines success_line took
get p ev clus r =
    let key = r.client_request.key_value.key in
    if text_eq key []
    then ret (refuse r (codes "'get' request got empty key"))
    else with_client p ev clus r (
        deref ev.got.kvs >>= λ kvs. elim ev.got.error [
          | some e ↦
              ret (record (refuse r (codes "client error " ++ (e ++ took ev))) { key_values = kvs })
          | none ↦ ret (record r {
            key_values = kvs;
            result = codes "'get' success" ++ took ev;
            result_lines = elim kvs [
              | [] ↦ (codes "key " ++ (34 ∷ (key ++ (34 ∷ codes " does not exist")))) ∷ []
              | kv ∷ more ↦ full_lines (codes "'get'") (kv ∷ more)
            ];
          })
        ])

-- "stop-node" behind the limiter: nothing is stopped once the quorum is lost.
unfoldable pub stop_node :
    Platform → RequestEvent → ℕ → Cluster → ClientResponse → Exec (Cluster × ClientResponse)
unfolding took
stop_node p ev idx clus r =
    if ltb (active_node_n clus) (quorum clus)
    then ret (clus, refuse r (codes "'stop-node' request rejected (already quorum lost!)"))
    else (member_status clus idx >>= λ st. is_stopped_at clus idx >>= λ down.
        if down
        then ret (clus, refuse r (st.name ++ (codes " is already stopped" ++ took ev)))
        else (stop_at p ev.stop_at_time idx clus >>= λ clus'. member_status clus' idx >>= λ st'.
            let msg = codes "stopped " ++ (st'.name ++ took ev) in
            ret (clus', record r { result = msg; result_lines = msg ∷ [] })))

unfoldable pub restart_node :
    Platform → RequestEvent → ℕ → Cluster → ClientResponse → Exec (Cluster × ClientResponse)
unfolding took
restart_node p ev idx clus r = member_status clus idx >>= λ st. is_stopped_at clus idx >>= λ down.
    if not down
    then ret (clus, refuse r (st.name ++ (codes " is already started" ++ took ev)))
    else (restart_at p ev.restarted idx clus >>= λ restarted.
        member_status restarted.0 idx >>= λ st'.
        let msg = codes "restarted " ++ (st'.name ++ took ev) in
        ret (
          restarted.0,
          elim restarted.1 [
            | some e ↦ refuse r e
            | none ↦ record r { success = true; result = msg; result_lines = msg ∷ [] }
          ],
        ))
