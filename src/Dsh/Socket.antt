-- ===== src/Dsh/Socket.antt =====
-- dsh-plugin/src/client.ts: dialling, the events of the sockets, the timers, and `start`, `stop` and
-- `retarget`. A socket that is not the current one any more may still have events.
use dap.Common.{
  ℕ, suc, ◌*◌, min, Bool, true, false, not, ◌&&◌, Option, none, some, String, List, [], ◌∷◌,
  nat_beq, filterb, string_eq, nat_eq, if◌then◌else◌,
}
use dap.JsMap.{get, set, delete, is_some}
use dap.Json.{undefined, str, num}
use dap.Config.{env_str, no_update, purge}
use dap.Crypto.{sign_frame, ◌+s+◌}
use dap.Client.State.{Frame, env, config, master, ReadyState, connecting, closing, closed}
use dap.Client.Socket.{is_config}
use dap.Dsh.State.{Host, Client, DialAuth, Identity, Stack, Waiter, throws}
use dap.Dsh.Wire.{settle, ws_send, surface_error, persist_config}
use dap.Client.Wire.{is_opened}
use dap.Dsh.Calls.{waiting_at}
use dap.Dsh.Handlers.{fail_whois_waiters}

abbrev pub auth_required : String
auth_required =
    "hub rejected connection (HTTP 401): set DAP_MASTER_SECRET to enroll, or DAP_CLIENT_SECRET / config clientSecret to connect"

abbrev pub auth_of : Option String → Option String → Option String → DialAuth
auth_of (some s) persisted secret = record { token = s; enroll = false; source = some env }
auth_of none (some s) secret = record { token = s; enroll = false; source = some config }
auth_of none none (some s) = record { token = s; enroll = true; source = some master }
auth_of none none none = record { token = ""; enroll = false; source = none }

abbrev pub is_current : ℕ → Client → Bool
is_current n c = elim c.ws [ none ↦ false | some m ↦ nat_beq m n ]

-- The state of a socket changes.
abbrev pub turn : ℕ → ReadyState → Client → Client
turn n s c = record c { sockets = set c.sockets n s }

-- `this.ws?.close(); this.ws = null`
unfoldable pub let_go : Client → Client
unfolding get set
let_go c = elim c.ws [
  | none ↦ c
  | some n ↦ elim (get c.sockets n) [
    | some closed ↦ record c { ws = none }
    | _ ↦ record (turn n closing c) { ws = none }
  ]
]

-- The stack that waits under a timer.
abbrev pub stack_at : ℕ → List Waiter → Stack
stack_at t [] = []
stack_at t (w ∷ ws) = if nat_beq w.timer t then w.stack else stack_at t ws

abbrev pub without : ℕ → List Waiter → List Waiter
without t ws = filterb (λ w. not (nat_beq w.timer t)) ws

module _ (h : Host) where
  unfoldable pub dial_auth : Client → DialAuth
  dial_auth c =
      auth_of (env_str h.environment.client_secret) (env_str c.client_secret)
        (env_str h.environment.master_secret)

  unfoldable pub connect : Client → Client
  unfolding dial_auth set
  connect c =
      let auth = dial_auth c in
      if c.stopped then c else record c {
        enroll_mode = auth.enroll;
        dial_source = auth.source;
        ws = some c.next_socket;
        sockets = set c.sockets c.next_socket connecting;
        next_socket = suc c.next_socket;
        dials = auth.token ∷ c.dials;
      }

  abbrev pub hello_frame : Client → Frame
  hello_frame c =
      ("op", str "hello")
      ∷ ("v", num 1)
      ∷ ("pubkey", str (h.crypto.b64e c.identity.ed_pub))
      ∷ ("x25519", str (h.crypto.b64e c.identity.x_pub))
      ∷ ("name", elim c.name [ none ↦ undefined | some n ↦ str n ])
      ∷ ("nonce", str (h.crypto.hex (h.nonce c.draws)))
      ∷ ("ts", num c.clock)
      ∷ []

  unfoldable pub send_hello : Client → Client
  unfolding ws_send
  send_hello c =
      let frame = hello_frame c in
      (ws_send (set frame "sig" (str (sign_frame h.crypto frame c.identity.ed_priv)))
        (record c { hellos = suc c.hellos; draws = suc c.draws })).0

  unfoldable pub on_disconnect : Client → Client
  unfolding fail_whois_waiters
  on_disconnect c =
      let failed =
        fail_whois_waiters "whois: hub connection closed"
          (record c { watched = none; welcomed = false }) in
      if failed.stopped then failed else record failed {
        retry_in = some failed.delay;
        delay = min (failed.delay * 2) failed.max_ms;
      }

  -- The listeners of the socket `n`, for a socket whose state has changed already.
  unfoldable pub on_open : ℕ → Client → Client
  unfolding send_hello
  on_open n c = if is_current n c then send_hello (record c { watched = some n }) else c

  unfoldable pub on_close : ℕ → Client → Client
  unfolding on_disconnect
  on_close n c = if is_current n c then on_disconnect c else c

  unfoldable pub on_error : ℕ → String → Client → Client
  unfolding get
  on_error n err c =
      if is_current n c && is_opened (get c.sockets n) then record c { last_error = err } else c

  -- The recovery under a 401.
  unfoldable pub recover_stale_secret : Client → Client
  unfolding persist_config
  recover_stale_secret c =
      if is_config c.dial_source
        && not c.re_enrolled
        && is_some (env_str h.environment.master_secret)
      then persist_config h (record no_update { client_secret = purge })
          (record c { re_enrolled = true; client_secret = none })
      else c

  unfoldable pub on_unexpected_response : ℕ → ℕ → Client → Client
  unfolding surface_error recover_stale_secret set
  on_unexpected_response n code c =
      if is_current n c && nat_beq code 401
      then turn n closing (
          recover_stale_secret
            (surface_error "unauthorized" auth_required (record c { last_error = auth_required })))
      else c

  unfoldable pub start : Client → Client
  unfolding connect
  start c = connect (record c { stopped = false })

  unfoldable pub stop : Client → Client
  unfolding fail_whois_waiters let_go
  stop c =
      let failed = fail_whois_waiters "whois: client stopped" (record c { stopped = true }) in
      let_go (record failed { watched = none; retry_in = none })

  -- What `retarget` does before it takes over what it is given.
  unfoldable pub set_free : Client → Client
  unfolding fail_whois_waiters let_go
  set_free c =
      let gone = let_go (record c { retry_in = none; watched = none }) in
      fail_whois_waiters "whois: retargeted — the retired socket can never answer"
        (record gone { welcomed = false; stopped = false })

  -- And what it does after that, with the identity.
  unfoldable pub dial_as : Identity → Option String → Client → Client
  unfolding connect
  dial_as id name c = connect (record c {
    identity = id;
    known = [];
    name = elim name [ none ↦ c.name | some n ↦ some n ];
    delay = c.initial_ms;
  })

  -- `retarget`, and whether it returned: where the key file cannot be read it throws before it dials.
  unfoldable pub retarget : Option String → Option String → Option String → Client → Client × Bool
  unfolding set_free dial_as
  retarget url key_path name c =
      let free = set_free c in
      let aimed : Client = record free {
        url = elim (env_str url) [ none ↦ free.url | some u ↦ u ];
      } in
      elim (env_str key_path) [
        | none ↦ (dial_as aimed.identity name aimed, true)
        | some path ↦ elim (h.identity path) [
          | none ↦ (aimed, false)
          | some id ↦ (dial_as id name aimed, true)
        ]
      ]

-- The timers of `whenReady`, of `queryPresence` and of `agentInfo`.
unfoldable pub ready_times_out : ℕ → Client → Client
unfolding settle
ready_times_out t c =
    settle (stack_at t c.ready_waiters) (throws "hub not ready")
      (record c { ready_waiters = without t c.ready_waiters })

unfoldable pub presence_times_out : String → Client → Client
unfolding settle
presence_times_out id c = elim (get c.presence_waiters id) [
  | none ↦ c
  | some w ↦
      settle w.stack (throws "presence: hub did not reply")
        (record c { presence_waiters = delete c.presence_waiters id })
]

unfoldable pub whois_times_out : String → ℕ → Client → Client
unfolding settle
whois_times_out agent_id t c =
    settle (stack_at t (waiting_at c.whois_waiters agent_id))
      (throws ("whois " +s+ agent_id +s+ ": hub did not reply"))
      (record c {
        whois_waiters =
            set c.whois_waiters agent_id (without t (waiting_at c.whois_waiters agent_id));
      })
