-- ===== src/Web/Requests/Handler.antt =====
-- `clientRequestHandler` of backend/web/handler.go up to its actions: the first limiter, the body,
-- the escape of the key and the value, the endpoint, the action, and the second limiter.
use etcdlabs.Prelude.{
  ℕ, Bool, true, false, not, none, some, [], ◌∷◌, ◌++◌, Exec, ret, ◌>>=◌, Text, codes, text_eq,
  join, if◌then◌else◌,
}
use etcdlabs.Prelude.Int.{ℤ}
use etcdlabs.Ratelimit.{check, advance}
use etcdlabs.Cluster.Types.{good, fail, Platform, Cluster}
use etcdlabs.Cluster.View.{find_index}
use etcdlabs.Web.Requests.{
  ClientRequest, ClientResponse, Reply, answered, not_allowed, failed, Backend, RequestEvent,
  refuse, write, stress, delete, get, stop_node, restart_node,
}

-- The key and the value, if they are not empty, are escaped.
unfoldable pub escaped : Platform → ClientRequest → ClientRequest
escaped p q =
    let key = q.key_value.key in
    let value = q.key_value.value in
    record q {
      key_value = record {
        key = if text_eq key [] then key else p.html_escape key;
        value = if text_eq value [] then value else p.html_escape value;
      };
    }

-- `ErrNoEndpoint`
abbrev pub err_no_endpoint : Text
err_no_endpoint = codes "no endpoint is given"

-- `ClientResponse{Success: true}`
abbrev pub blank : ClientResponse
blank = record {
  client_request = record {
    action = [];
    range_prefix = false;
    endpoints = [];
    key_value = record { key = []; value = [] };
  };
  success = true;
  result = [];
  result_lines = [];
  key_values = [];
}

-- An action that leaves the globals as they are.
unfoldable pub reading : {L : Type 0} → Backend L → Exec ClientResponse → Exec (Backend L × Reply)
reading b act = act >>= λ r. ret (b, answered r)

module _ (show_duration : ℤ → Text) where
  -- An action behind the second limiter.
  unfoldable pub limited :
      {L : Type 0}
      → Text
      → (Cluster → ClientResponse → Exec (Cluster × ClientResponse))
      → RequestEvent
      → Backend L
      → ClientResponse
      → Exec (Backend L × Reply)
  limited name act ev b r =
      check show_duration ev.node_select ev.node_at b.node_limiter >>= λ answer.
      if answer.1
      then (act b.cluster r >>= λ done. ret (
        record b { node_limiter = advance ev.node_advanced b.node_limiter; cluster = done.0 },
        answered done.1,
      ))
      else ret (b, answered (refuse r (name ++ (codes " request " ++ answer.0))))

  unfoldable pub dispatch :
      {L : Type 0}
      → Platform
      → RequestEvent
      → ℕ
      → Backend L
      → ClientResponse
      → Exec (Backend L × Reply)
  unfolding limited reading
  dispatch p ev idx b r =
      let action = r.client_request.action in
      if text_eq action (codes "write")
      then reading b (write p ev b.cluster r)
      else if text_eq action (codes "stress")
      then reading b (stress p ev b.cluster r)
      else if text_eq action (codes "delete")
      then reading b (delete p ev b.cluster r)
      else if text_eq action (codes "get")
      then reading b (get p ev b.cluster r)
      else if text_eq action (codes "stop-node")
      then limited (codes "'stop-node'") (stop_node p ev idx) ev b r
      else if text_eq action (codes "restart-node")
      then limited (codes "'restart-node'") (restart_node p ev idx) ev b r
      else ret (b, failed action)

  -- Behind the first limiter.
  unfoldable pub serve_body :
      {L : Type 0} → Platform → RequestEvent → Backend L → Exec (Backend L × Reply)
  unfolding dispatch escaped
  serve_body p ev b = elim ev.body [
    | fail e ↦ ret (b, answered (refuse blank e))
    | good q ↦
        let r = record blank { client_request = escaped p q } in
        elim q.endpoints [
          | [] ↦ ret (b, answered (refuse r err_no_endpoint))
          | ep ∷ eps ↦ elim (find_index p ep b.cluster) [
            | none ↦ ret (
              b,
              answered (
                  refuse r (
                    codes "wrong endpoints are given (["
                    ++ (join (codes " ") q.endpoints ++ codes "])"))),
            )
            | some idx ↦ dispatch p ev idx b r
          ]
        ]
  ]

  unfoldable pub client_request_handler :
      {L : Type 0} → Platform → Bool → RequestEvent → Backend L → Exec (Backend L × Reply)
  unfolding serve_body
  client_request_handler p is_post ev b =
      if not is_post
      then ret (b, not_allowed)
      else (check show_duration ev.client_select ev.client_at b.client_limiter >>= λ answer.
          if answer.1
          then serve_body p ev
              (record b { client_limiter = advance ev.client_advanced b.client_limiter })
          else ret (b, answered (refuse blank (codes "client request " ++ answer.0))))
