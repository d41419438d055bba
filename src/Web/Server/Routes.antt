-- ===== src/Web/Server/Routes.antt =====
-- The handlers of backend/web/handler.go that the server's paths lead to, behind `withCache`, and
-- `ContextAdapter` of backend/web/context.go; and one round of `updateClusterStatus`. A handler that
-- panics is aborted by net/http; what it had changed by then is left out.
use etcdlabs.Prelude.{
  ℕ, Bool, true, false, List, [], ◌++◌, Exec, ret, ◌>>=◌, Text, codes, text_eq, length, ◌==◌,
  if◌then◌else◌,
}
use etcdlabs.Prelude.Int.{ℤ}
use etcdlabs.Clusterpb.{MemberStatus, stopped}
use etcdlabs.Cluster.Types.{Platform}
use etcdlabs.Cluster.Status.{FetchEvent, update_member_status}
use etcdlabs.Cluster.View.{all_member_status}
use etcdlabs.Web.Identity
use etcdlabs.Web.Identity.{Library, generate_user_id, slice}
use etcdlabs.Web.Sessions.{Sessions, visit, leave, touch, clean, get_user_ids, get_user_ids_n}
use etcdlabs.Web.Requests.{RequestEvent, Reply}
use etcdlabs.Web.Requests.Handler.{client_request_handler}
use etcdlabs.Web.Server.{World, Counter}

pub record Connect : Type 0 where
  pub web_port : ℕ
  pub user : Text
  pub deleted : Bool

pub record ServerStatus : Type 0 where
  pub playground_active : Bool
  pub server_uptime : Text
  pub server_visits : ℕ
  pub user_n : ℕ
  pub users : List Text
  pub member_statuses : List MemberStatus

-- What is written to the client: "OK", a JSON body, the 405, the reply of `clientRequestHandler`,
-- and the mux's own answer to any other path.
pub data Response : Type 0 where
  healthy : Response
  connected : Connect → Response
  status_page : ServerStatus → Response
  method_not_allowed : Response
  client_reply : Reply → Response
  unrouted : Response

-- A request, and what the world answers while it is served: the times of the visit, of the activity
-- and of the page, `time.Now().String()`, and the order in which Go ranges over the user cache.
pub record Arrival : Type 0 where
  pub method : Text
  pub path : Text
  pub from : Identity.Request
  pub visited_at : ℕ
  pub time_text : Text
  pub touched_at : ℕ
  pub shown_at : ℕ
  pub range_order : Sessions → List Text
  pub event : RequestEvent

-- `clusterpb.MemberStatus{}`; its empty `State` counts as stopped.
abbrev pub zero_status : MemberStatus
zero_status = record {
  name = [];
  id = [];
  endpoint = [];
  is_leader = false;
  state = stopped;
  state_txt = [];
  db_size = 0;
  db_size_txt = [];
  hash = 0;
}

-- `ContextHandler`: what a handler does with the user id that `withCache` puts into its context.
abbrev pub ContextHandler : Type 0 → Type 0 → Type 0
ContextHandler W A = Text → W → Exec A

unfoldable pub connect_handler : {L V : Type 0} → Arrival → Text → World L V → World L V × Response
connect_handler q id w =
    if text_eq q.method (codes "GET")
    then (w, connected (record { web_port = w.web_port; user = id; deleted = false }))
    else if text_eq q.method (codes "DELETE")
    then (
      record w { users = leave id w.users },
      connected (record { web_port = w.web_port; user = id; deleted = true }),
    )
    else (w, method_not_allowed)

module _ (show_duration : ℤ → Text) (counter : Counter) where
  open counter use {Sketch, insert_visit, estimate}

  unfoldable pub server_status_handler :
      {L : Type 0} → Platform → Arrival → Text → World L Sketch → Exec (World L Sketch × Response)
  server_status_handler p q id w =
      if text_eq q.method (codes "GET")
      then (let touched = touch q.touched_at id w.users in
          let clus = w.backend.cluster in
          get_user_ids (q.range_order touched.0) >>= λ masks.
          all_member_status zero_status clus >>= λ statuses. ret (
            record w { users = touched.0 },
            status_page (record {
              playground_active = touched.1;
              server_uptime = p.humanize_time clus.started q.shown_at;
              server_visits = estimate w.visits;
              user_n = get_user_ids_n touched.0;
              users = masks;
              member_statuses = statuses;
            }),
          ))
      else ret (w, method_not_allowed)

  -- `withCache`: the visit is counted, and a new user enters the cache.
  unfoldable pub with_cache :
      {L : Type 0} {A : Type 0}
      → Library
      → Arrival
      → ContextHandler (World L Sketch) A
      → World L Sketch
      → Exec A
  with_cache lib q handler w = do
    id ← generate_user_id lib q.from
    hour ← slice q.time_text 0 13
    handler id (record w {
      visits = insert_visit (id ++ hour) w.visits;
      users = visit q.visited_at id w.users;
    })

  -- `clientRequestHandler` on the globals.
  unfoldable pub client_request :
      {L : Type 0} → Platform → Arrival → World L Sketch → Exec (World L Sketch × Response)
  client_request p q w =
      client_request_handler show_duration p (text_eq q.method (codes "POST")) q.event w.backend
      >>= λ done. ret (record w { backend = done.0 }, client_reply done.1)

  -- The mux and `ServeHTTP`, which only logs a handler's error.
  unfoldable pub serve_http :
      {L : Type 0}
      → Platform
      → Library
      → Arrival
      → World L Sketch
      → Exec (World L Sketch × Response)
  unfolding with_cache connect_handler server_status_handler client_request
  serve_http p lib q w =
      if text_eq q.path (codes "/health")
      then ret (w, healthy)
      else if text_eq q.path (codes "/conn")
      then with_cache lib q (λ id w'. ret (connect_handler q id w')) w
      else if text_eq q.path (codes "/server-status")
      then with_cache lib q (server_status_handler p q) w
      else if text_eq q.path (codes "/client-request")
      then with_cache lib q (λ id w'. client_request p q w') w
      else ret (w, unrouted)

-- A round of `updateClusterStatus`, which does nothing while the cache is empty.
unfoldable pub update_cluster_status :
    {L V : Type 0} → Platform → (ℕ → FetchEvent) → World L V → World L V
update_cluster_status p evs w =
    let clus = update_member_status p evs w.backend.cluster in
    if length w.users == 0 then w else record w { backend = record (w.backend) { cluster = clus } }

-- A round of `cleanCache` on the globals.
unfoldable pub clean_cache : {L V : Type 0} → ℕ → World L V → World L V
clean_cache now w = record w { users = clean now w.users }
