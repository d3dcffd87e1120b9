-- ===== src/Client/Socket.antt =====
-- client.ts: dialling, the events of the socket, the timers, and `start`, `stop` and `retarget`.
use dap.Common.{
  ℕ, suc, ◌*◌, min, Bool, true, false, not, ◌&&◌, Option, none, some, String, List, [], ◌∷◌, map,
  nat_beq, filterb, ◌==◌, string_eq, if◌then◌else◌,
}
use dap.JsMap.{set, is_some}
use dap.Json.{undefined, str, num, prop, decimal}
use dap.Config.{opt_str, env_str, no_update, purge, read_dap_config}
use dap.Crypto.{sign_frame, ◌+s+◌}
use dap.Client.State.{
  Frame, throws, env, config, master, AuthSource, Auth, Identity, Stack, Waiter, PresenceWaiter,
  connecting, opened, closing, Host, Client,
}
use dap.Client.Wire.{settle, settle_all, ws_send, ring_error, persist_config, is_opened}
use dap.Client.Calls.{waiting_at}
use dap.Client.Invites.{error_event}
use dap.Client.Handlers.{settle_map, complete_all, visits, presence_done}

abbrev pub dial_401_help : String
dial_401_help =
    "hub rejected connection (HTTP 401): set DAP_MASTER_SECRET to enroll, or DAP_CLIENT_SECRET / config clientSecret to connect"

abbrev pub token_of : Option Auth → Option String
token_of none = none
token_of (some a) = some a.token

abbrev pub source_of : Option Auth → Option AuthSource
source_of none = none
source_of (some a) = some a.source

abbrev pub enrolls : Option Auth → Bool
enrolls none = false
enrolls (some a) = a.enroll

abbrev pub is_config : Option AuthSource → Bool
is_config (some config) = true
is_config _ = false

-- Who waits no longer: the promise of the waiter with this timer is settled, the entry stays.
abbrev pub expire_waiter : ℕ → Waiter → Waiter
expire_waiter t w = if nat_beq w.timer t then record w { stack = [] } else w

abbrev pub has_timer : ℕ → Waiter → Bool
has_timer t w = nat_beq w.timer t

-- The stack that waits under a timer.
abbrev pub stack_at : ℕ → List Waiter → Stack
stack_at t [] = []
stack_at t (w ∷ ws) = if has_timer t w then w.stack else stack_at t ws

module _ (h : Host) where
  -- `optStr(readDapConfig().clientSecret)`
  unfoldable pub persisted_secret : Client → Option String
  unfolding opt_str read_dap_config
  persisted_secret c = opt_str (prop (read_dap_config h.parse c.config_file) "clientSecret")

  abbrev pub auth_of : Option String → Option String → Option String → Option Auth
  auth_of (some s) persisted secret = some (record { token = s; enroll = false; source = env })
  auth_of none (some s) secret = some (record { token = s; enroll = false; source = config })
  auth_of none none (some s) = some (record { token = s; enroll = true; source = master })
  auth_of none none none = none

  unfoldable pub resolve_auth_token : Client → Option Auth
  unfolding persisted_secret
  resolve_auth_token c =
      auth_of (env_str h.environment.client_secret) (persisted_secret c)
        (env_str h.environment.master_secret)

  unfoldable pub connect : Client → Client
  unfolding resolve_auth_token
  connect c =
      let auth = resolve_auth_token c in
      if c.stopped then c else record c {
        enroll_pending = enrolls auth;
        dial_source = source_of auth;
        socket = some connecting;
        dials = token_of auth ∷ c.dials;
      }

  -- The recovery under a 401.
  unfoldable pub recover_stale_secret : Client → Client
  unfolding persist_config
  recover_stale_secret c =
      if is_config c.dial_source
        && not c.re_enrolled
        && is_some (env_str h.environment.master_secret)
      then persist_config h (record no_update { client_secret = purge })
          (record c { re_enrolled = true })
      else c

  unfoldable pub on_unexpected_response : ℕ → Client → Client
  unfolding ring_error recover_stale_secret decimal
  on_unexpected_response code c =
      let rejected =
        if nat_beq code 401
        then recover_stale_secret (
            ring_error (error_event "unauthorized" dial_401_help c)
              (record c { last_error = dial_401_help }))
        else record c { last_error = "Unexpected server response: " +s+ decimal code } in
      record rejected { socket = some closing }

  abbrev pub hello_frame : Client → Frame
  hello_frame c =
      ("op", str "hello")
      ∷ ("v", num 1)
      ∷ ("pubkey", str (h.crypto.b64e c.identity.pub_key))
      ∷ ("x25519", str (h.crypto.b64e c.identity.x_pub))
      ∷ ("name", elim c.name [ none ↦ undefined | some n ↦ str n ])
      ∷ ("nonce", str (h.crypto.hex (h.nonce c.draws)))
      ∷ ("ts", num c.clock)
      ∷ []

  unfoldable pub send_hello : Client → Client
  unfolding ws_send
  send_hello c =
      let frame = hello_frame c in
      ws_send (set frame "sig" (str (sign_frame h.crypto frame c.identity.priv)))
        (record c { hellos = suc c.hellos; draws = suc c.draws })

  unfoldable pub on_open : Client → Client
  unfolding send_hello
  on_open c = send_hello (record c { socket = some opened; watched = true })

  unfoldable pub on_socket_error : String → Client → Client
  on_socket_error err c = if is_opened c.socket then record c { last_error = err } else c

  -- `failWaiters`: whois, presence and ready waiters, in this order.
  unfoldable pub fail_waiters : String → Client → Client
  unfolding settle_map complete_all settle_all
  fail_waiters err c =
      let whois_failed = record (settle_map (λ _. throws err) c.whois_waiters c) {
        whois_waiters = [];
      } in
      let presence_failed =
        complete_all h (visits h whois_failed.presence_waiters) (throws err) whois_failed in
      settle_all presence_failed.ready_waiters (throws err)
        (record presence_failed { ready_waiters = [] })

  unfoldable pub on_disconnect : Client → Client
  unfolding fail_waiters
  on_disconnect c =
      if c.stopped
      then fail_waiters "connection closed — client stopped"
          (record c { watched = false; welcomed = false })
      else record c {
        watched = false;
        welcomed = false;
        retry_in = some c.delay;
        delay = min (c.delay * 2) c.max_ms;
      }

  unfoldable pub start : Client → Client
  unfolding connect
  start c = connect (record c { stopped = false })

  unfoldable pub stop : Client → Client
  stop c = record c {
    stopped = true;
    watched = false;
    retry_in = none;
    polling = false;
    socket = none;
    retired = elim c.socket [ none ↦ c.retired | some s ↦ suc c.retired ];
  }

  abbrev pub or_kept : Option String → String → String
  or_kept none old = old
  or_kept (some s) old = if s == "" then old else s

  unfoldable pub retarget : Option String → Option Identity → Option String → Client → Client
  unfolding fail_waiters connect
  retarget url keys name c =
      let failed =
        fail_waiters "retargeted — in-flight hub call dropped, retry on the new connection"
          (record c { retry_in = none; watched = false; socket = none }) in
      connect (record failed {
        welcomed = false;
        stopped = false;
        url = or_kept url failed.url;
        identity = elim keys [ none ↦ failed.identity | some id ↦ id ];
        name = elim name [ none ↦ failed.name | some n ↦ some n ];
        known = [];
        joined = [];
        delay = failed.initial_ms;
      })

  -- The timers of `ready`, of a presence query, of a whois and of a join.
  unfoldable pub ready_times_out : ℕ → Client → Client
  unfolding settle
  ready_times_out t c =
      settle (stack_at t c.ready_waiters) (throws "hub not ready")
        (record c { ready_waiters = filterb (λ w. not (has_timer t w)) c.ready_waiters })

  unfoldable pub presence_times_out : String → PresenceWaiter → Client → Client
  unfolding presence_done
  presence_times_out id w c = presence_done h id w (throws "timeout waiting for presence") c

  unfoldable pub whois_times_out : String → ℕ → Client → Client
  unfolding settle
  whois_times_out agent_id t c =
      settle (stack_at t (waiting_at c.whois_waiters agent_id))
        (throws ("timeout whois " +s+ agent_id))
        (record c {
          whois_waiters =
              set c.whois_waiters agent_id
                (map (expire_waiter t) (waiting_at c.whois_waiters agent_id));
        })

  unfoldable pub join_times_out : String → ℕ → Client → Client
  unfolding settle
  join_times_out name t c =
      settle (stack_at t (waiting_at c.join_waiters name)) (throws ("timeout joining " +s+ name))
        (record c {
          join_waiters =
              set c.join_waiters name (map (expire_waiter t) (waiting_at c.join_waiters name));
        })
