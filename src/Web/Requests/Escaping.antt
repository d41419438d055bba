-- ===== src/Web/Requests/Escaping.antt =====
-- What a reply of `clientRequestHandler` says of the request: its key and value are escaped.
use etcdlabs.Prelude.{
  ◌++◌, if◌then◌else◌, ℕ, ◌≡◌, ◌≢◌, refl, sym, subst, ◌∙◌, inl, inr, Bool, true, false, not, none,
  some, [], ◌∷◌, arith, Exec, ret, Exec-cases, Text, text_eq, text_eq_iff, codes, All, Bool-cases,
  Option-cases, List-cases,
}
use etcdlabs.Prelude.Int.{ℤ}
use etcdlabs.Ratelimit.{check, advance}
use etcdlabs.Cluster.Types.{Outcome-cases, Platform, Cluster}
use etcdlabs.Cluster.View.{find_index}
use etcdlabs.Web.Requests.{
  ClientRequest, ClientResponse, Reply, answered, not_allowed, failed, Backend, RequestEvent,
  refuse, write, stress, delete, get, stop_node, restart_node,
}
use etcdlabs.Web.Requests.Handler.{
  reading, limited, dispatch, serve_body, client_request_handler, blank, escaped,
}

-- No tag or attribute starts or ends at the byte.
abbrev pub IsInert : ℕ → Type 0
IsInert c = (c ≢ 60) × (c ≢ 62) × (c ≢ 34) × (c ≢ 39)

-- The key and the value that a reply gives back.
abbrev pub IsInertReply : Reply → Type 0
IsInertReply (answered r) =
    All IsInert r.client_request.key_value.key × All IsInert r.client_request.key_value.value
IsInertReply not_allowed = Unit {0}
IsInertReply (failed action) = Unit {0}

-- The reply gives the request back.
abbrev Echoes : ClientRequest → Reply → Type 0
Echoes q (answered r) = r.client_request ≡ q
Echoes q not_allowed = Unit {0}
Echoes q (failed action) = Unit {0}

write-echo :
    (p : Platform) (ev : RequestEvent) (clus : Cluster) (r r' : ClientResponse)
    → write p ev clus r ≡ ret r'
    → r'.client_request ≡ r.client_request
unfolding write
write-echo p ev clus r r' e = ground arith

stress-echo :
    (p : Platform) (ev : RequestEvent) (clus : Cluster) (r r' : ClientResponse)
    → stress p ev clus r ≡ ret r'
    → r'.client_request ≡ r.client_request
unfolding stress
stress-echo p ev clus r r' e = ground arith

delete-echo :
    (p : Platform) (ev : RequestEvent) (clus : Cluster) (r r' : ClientResponse)
    → delete p ev clus r ≡ ret r'
    → r'.client_request ≡ r.client_request
unfolding delete
delete-echo p ev clus r r' e = ground arith

get-echo :
    (p : Platform) (ev : RequestEvent) (clus : Cluster) (r r' : ClientResponse)
    → get p ev clus r ≡ ret r'
    → r'.client_request ≡ r.client_request
unfolding get
get-echo p ev clus r r' e = ground arith

stop_node-echo :
    (p : Platform) (ev : RequestEvent) (idx : ℕ) (clus d : Cluster) (r r' : ClientResponse)
    → stop_node p ev idx clus r ≡ ret (d, r')
    → r'.client_request ≡ r.client_request
unfolding stop_node
stop_node-echo p ev idx clus d r r' e = ground arith

restart_node-echo :
    (p : Platform) (ev : RequestEvent) (idx : ℕ) (clus d : Cluster) (r r' : ClientResponse)
    → restart_node p ev idx clus r ≡ ret (d, r')
    → r'.client_request ≡ r.client_request
unfolding restart_node
restart_node-echo p ev idx clus d r r' e = ground arith

reading-Echoes :
    {L : Type 0} (q : ClientRequest) (b b' : Backend L) (act : Exec ClientResponse) (reply : Reply)
    → ((r' : ClientResponse) → act ≡ ret r' → r'.client_request ≡ q)
    → reading b act ≡ ret (b', reply)
    → Echoes q reply
unfolding reading
reading-Echoes q b b' act reply same e = elim (Exec-cases act) [
  | inl x ↦ ground (arith, x)
  | inr (r', x) ↦
      let answer : answered r' ≡ reply = ground (arith, x) in subst (Echoes q) answer (same r' x)
]

module _ (show_duration : ℤ → Text) where
  limited-Echoes :
      {L : Type 0} (ev : RequestEvent) (name : Text)
      (act : Cluster → ClientResponse → Exec (Cluster × ClientResponse)) (b b' : Backend L)
      (r : ClientResponse) (reply : Reply)
      → ((d : Cluster) (r' : ClientResponse)
          → act b.cluster r ≡ ret (d, r')
          → r'.client_request ≡ r.client_request)
      → limited show_duration name act ev b r ≡ ret (b', reply)
      → Echoes r.client_request reply
  unfolding limited
  limited-Echoes ev name act b b' r reply same e =
      elim (Exec-cases (check show_duration ev.node_select ev.node_at b.node_limiter)) [
        | inl x ↦ ground (arith, x)
        | inr ((msg, false), x) ↦
            let answer : answered (refuse r (name ++ (codes " request " ++ msg))) ≡ reply =
              ground (arith, x) in
            subst (Echoes r.client_request) answer refl
        | inr ((msg, true), x) ↦ elim (Exec-cases (act b.cluster r)) [
          | inl y ↦ ground (arith, x, y)
          | inr ((d, r'), y) ↦
              let answer : answered r' ≡ reply = ground (arith, x, y) in
              subst (Echoes r.client_request) answer (same d r' y)
        ]
      ]

  dispatch-Echoes :
      {L : Type 0} (p : Platform) (ev : RequestEvent) (idx : ℕ) (b b' : Backend L)
      (r : ClientResponse) (reply : Reply)
      → dispatch show_duration p ev idx b r ≡ ret (b', reply)
      → Echoes r.client_request reply
  unfolding dispatch
  dispatch-Echoes p ev idx b b' r reply e =
      let action = r.client_request.action in
      let q = r.client_request in
      let c = b.cluster in
      elim (Bool-cases (text_eq action (codes "write"))) [
        | inl y ↦ reading-Echoes q b b' (write p ev c r) reply (write-echo p ev c r) (rw y at e)
        | inr n₁ ↦ elim (Bool-cases (text_eq action (codes "stress"))) [
          | inl y ↦
              reading-Echoes q b b' (stress p ev c r) reply (stress-echo p ev c r) (rw (n₁, y) at e)
          | inr n₂ ↦ elim (Bool-cases (text_eq action (codes "delete"))) [
            | inl y ↦
                reading-Echoes q b b' (delete p ev c r) reply (delete-echo p ev c r)
                  (rw (n₁, n₂, y) at e)
            | inr n₃ ↦ elim (Bool-cases (text_eq action (codes "get"))) [
              | inl y ↦
                  reading-Echoes q b b' (get p ev c r) reply (get-echo p ev c r)
                    (rw (n₁, n₂, n₃, y) at e)
              | inr n₄ ↦ elim (Bool-cases (text_eq action (codes "stop-node"))) [
                | inl y ↦
                    limited-Echoes ev (codes "'stop-node'") (stop_node p ev idx) b b' r reply
                      (λ d r' x. stop_node-echo p ev idx c d r r' x) (rw (n₁, n₂, n₃, n₄, y) at e)
                | inr n₅ ↦ elim (Bool-cases (text_eq action (codes "restart-node"))) [
                  | inl y ↦
                      limited-Echoes ev (codes "'restart-node'") (restart_node p ev idx) b b' r
                        reply (λ d r' x. restart_node-echo p ev idx c d r r' x)
                        (rw (n₁, n₂, n₃, n₄, n₅, y) at e)
                  | inr n₆ ↦
                      let answer : failed action ≡ reply = ground (arith, n₁, n₂, n₃, n₄, n₅, n₆) in
                      subst (Echoes q) answer tt
                ]
              ]
            ]
          ]
        ]
      ]

-- An echo of an inert request is inert.
Echoes-IsInertReply :
    (q : ClientRequest) (reply : Reply)
    → All IsInert q.key_value.key × All IsInert q.key_value.value
    → Echoes q reply
    → IsInertReply reply
Echoes-IsInertReply q (answered r) h e =
    subst (λ x. All IsInert x.key_value.key × All IsInert x.key_value.value) (sym e) h
Echoes-IsInertReply q not_allowed h e = tt
Echoes-IsInertReply q (failed action) h e = tt

refused-IsInertReply :
    (msg : Text) (reply : Reply) → answered (refuse blank msg) ≡ reply → IsInertReply reply
refused-IsInertReply msg reply e = subst IsInertReply e (tt, tt)

module _ (p : Platform) (inert : (s : Text) → All IsInert (p.html_escape s)) where
  escape-IsInert : (s : Text) → All IsInert (if text_eq s [] then s else p.html_escape s)
  unfolding etcdlabs.Prelude.Bytes.text_eq
  escape-IsInert [] = tt
  escape-IsInert (c ∷ s) = inert (c ∷ s)

  escaped-IsInert :
      (q : ClientRequest)
      → All IsInert (escaped p q).key_value.key × All IsInert (escaped p q).key_value.value
  unfolding escaped
  escaped-IsInert q = (escape-IsInert q.key_value.key, escape-IsInert q.key_value.value)

  module _ (show_duration : ℤ → Text) {L : Type 0} (ev : RequestEvent) where
    serve_body-IsInertReply :
        (b b' : Backend L) (reply : Reply)
        → serve_body show_duration p ev b ≡ ret (b', reply)
        → IsInertReply reply
    unfolding serve_body
    serve_body-IsInertReply b b' reply e = elim (Outcome-cases ev.body) [
      | inr (t, x) ↦ refused-IsInertReply t reply (ground (arith, x))
      | inl (q, x) ↦
          let echo = λ (r : Reply). Echoes-IsInertReply (escaped p q) r (escaped-IsInert q) in
          elim (List-cases q.endpoints) [
            | inl none_ ↦ echo reply (ground (arith, x, none_))
            | inr (ep, eps, some_) ↦ elim (Option-cases (find_index p ep b.cluster)) [
              | inl lost ↦ echo reply (ground (arith, x, some_, lost))
              | inr (idx, found) ↦ echo reply (
                  dispatch-Echoes show_duration p ev idx b b'
                    (record blank { client_request = escaped p q }) reply
                    (ground (arith, x, some_, found)))
            ]
          ]
    ]

    -- No reply of the handler, whatever the method, the limiters, the body and the action of the
    -- request, has in its copy of the request a key or a value with one of the bytes `<`, `>`, `"` and
    -- `'`, if `template.HTMLEscapeString` leaves none of them.
    pub client_request_handler-IsInertReply :
        (is_post : Bool) (b b' : Backend L) (reply : Reply)
        → client_request_handler show_duration p is_post ev b ≡ ret (b', reply)
        → IsInertReply reply
    unfolding client_request_handler
    client_request_handler-IsInertReply false b b' reply e =
        let answer : not_allowed ≡ reply = ground arith in subst IsInertReply answer tt
    client_request_handler-IsInertReply true b b' reply e =
        elim (Exec-cases (check show_duration ev.client_select ev.client_at b.client_limiter)) [
          | inl x ↦ ground (arith, x)
          | inr ((msg, false), x) ↦
              refused-IsInertReply (codes "client request " ++ msg) reply (ground (arith, x))
          | inr ((msg, true), x) ↦
              serve_body-IsInertReply
                (record b { client_limiter = advance ev.client_advanced b.client_limiter }) b' reply
                (rw x at e)
        ]
