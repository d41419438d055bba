-- ===== src/Cluster/Member.antt =====
-- member.go: `Start`, `Restart`, `Stop` and `Client`. Logging is left out, except that a log line
-- panics where it follows a nil server or reads the first entry of an empty list.
use etcdlabs.Cluster.Types.{
  EmbedConfig, Outcome, good, fail, url_string, Platform, TlsConfig, existing, Server, Member,
  Cluster,
}
use etcdlabs.Prelude.{
  ℕ, Bool, true, false, not, ◌||◌, Option, none, some, List, [], ◌∷◌, ◌++◌, Exec, ret, ◌>>=◌, deref,
  index, Text, codes, if◌then◌else◌,
}
use etcdlabs.Prelude.Int.{ℤ}
use etcdlabs.Clusterpb.{stopped, follower, is_stopped}

-- The case that the `select` of `Start` takes; the error channel may carry nil.
pub data Ready : Type 0 where
  ready_notify : Ready
  err_received : Option Text → Ready
  stop_notify : Ready

-- What the world answers to one start: the results of `embed.StartEtcd`, the `select`, and the time.
pub record StartEvent : Type 0 where
  pub server : EmbedConfig → Outcome Server
  pub ready : Ready
  pub now : ℕ

abbrev ready_error : Ready → Option Text
ready_error ready_notify = none
ready_error (err_received e) = e
ready_error stop_notify = some (codes "received from etcdserver.Server.StopNotify")

-- `Sprintf("%s VERB (%s)", name, humanize.Time(now))`
just : Platform → Text → Text → ℕ → Text
just p name verb now = name ++ (verb ++ (codes " (" ++ (p.humanize_time now now ++ codes ")")))

unfoldable pub start : Platform → StartEvent → Member → Exec (Member × Option Text)
unfolding just
start p ev m = elim (ev.server m.cfg) [
  | fail e ↦ ret (m, some e)
  | good srv ↦
      let booted = record m { srv = some srv; srv_open = true; cfg = srv.config } in
      elim (ready_error ev.ready) [
        | some e ↦ ret (booted, some e)
        | none ↦ do
          client ← index srv.config.lc_urls 0
          peer ← index srv.config.lp_urls 0
          ret (
            record booted {
              stopped_started_at = ev.now;
              status = record (m.status) {
                state = follower;
                state_txt = just p m.status.name (codes " just started") ev.now;
                is_leader = false;
              };
            },
            none,
          )
      ]
]

unfoldable pub restart : Platform → StartEvent → Member → Exec (Member × Option Text)
unfolding just
restart p ev m = do
  running ← deref m.srv
  let cfg = record (m.cfg) { cluster_state = existing }
  if not (is_stopped m.status.state) then ret (m, none) else elim (ev.server cfg) [
    | fail e ↦ ret (record m { cfg = cfg }, some e)
    | good srv ↦ ret (
      record m {
        srv = some srv;
        srv_open = true;
        cfg = srv.config;
        stopped_started_at = ev.now;
        status = record (m.status) {
          is_leader = false;
          state = follower;
          state_txt = just p m.status.name (codes " just restarted") ev.now;
        };
      },
      none,
    )
  ]

-- `Close` closes the server; it and the wait for the server's last message leave the fields as they are.
unfoldable pub stop : Platform → ℕ → Member → Exec Member
unfolding just
stop p now m = do
  running ← deref m.srv
  if is_stopped m.status.state
      then ret m
      else ret (record m {
        srv_open = false;
        stopped_started_at = now;
        status = record (m.status) {
          is_leader = false;
          state = stopped;
          state_txt = just p m.status.name (codes " just stopped") now;
          db_size = 0;
          db_size_txt = [];
          hash = 0;
        };
      })

-- `*clientv3.Client`: the embedded server it talks to, or the endpoints and the dial timeout.
pub data Client : Type 0 where
  embedded : Server → Client
  dialled : List Text → ℤ → Client

abbrev non_empty {ℓ} : {A : Type ℓ} → List A → Option (List A)
non_empty [] = none
non_empty (a ∷ more) = some (a ∷ more)

abbrev or_else {ℓ} : {A : Type ℓ} → Option A → A → A
or_else none d = d
or_else (some a) d = a

-- `clientv3.New`, which gives the client or the error that the world answers with.
abbrev dial : Option Text → Client → Option TlsConfig → Outcome (Client × Option TlsConfig)
dial none cli tls = good (cli, tls)
dial (some e) cli tls = fail e

-- `(m *Member) Client(scheme, eps...)`; `dial_error` is what `clientv3.New` answers.
unfoldable pub client :
    Option Text → Cluster → Bool → List Text → Member → Exec (Outcome (Client × Option TlsConfig))
unfolding url_string
client dial_error clus scheme eps m =
    if clus.embedded_client
    then (deref m.srv >>= λ srv. ret (
        if not clus.ccfg.client_tls_info.is_empty || clus.ccfg.client_auto_tls
        then elim m.cfg.client_tls_info.client_config [
          | good tls ↦ good (embedded srv, some tls)
          | fail e ↦ fail e
        ]
        else good (embedded srv, none)))
    else (index m.cfg.lc_urls 0 >>= λ url.
        let ep = if scheme then url_string url else url.host in
        let cli = dialled (or_else (non_empty eps) (ep ∷ [])) clus.client_dial_timeout in
        ret (
          if m.cfg.client_tls_info.is_empty
          then dial dial_error cli none
          else elim m.cfg.client_tls_info.client_config [
            | good tls ↦ dial dial_error cli (some tls)
            | fail e ↦ fail e
          ]))
