-- ===== src/Client/Handlers.antt =====
-- client.ts: the handlers of hub frames. A handler that throws, and so ends the process, is `none`.
use dap.Common.{
  ℕ, zero, suc, ◌+◌, ◌-◌, Bool, true, false, not, ◌&&◌, ◌||◌, Option, none, some, String, List, [],
  ◌∷◌, ltb, ◌==◌, string_eq, if◌then◌else◌,
}
use dap.JsMap.{JsMap, get, set, delete}
use dap.Json.{
  Value, undefined, null, str, arr, obj, items, entries, prop, property, to_string, or_undefined,
}
use dap.Config.{no_update, issue}
use dap.Crypto.{◌+s+◌}
use dap.Client.State.{
  Frame, ChannelKey, PeerInfo, PresenceAgent, Outcome, returns, throws, done, peer, roster, ignored,
  Waiter, PresenceWaiter, query, warm_up, Host, Client,
}
use dap.Client.Wire.{settle, settle_all, ws_send, ring_error, persist_config, agent_id}
use dap.Client.Calls.{join, waiting_at, warm_up_presence}
use dap.Client.Invites.{error_event, poll_pending_invites}
use dap.Client.Resume.{on_msg}

-- `Promise` outcomes for every waiter of a map, key by key.
unfoldable pub settle_map : (String → Outcome) → JsMap String (List Waiter) → Client → Client
unfolding settle_all
settle_map o [] c = c
settle_map o ((k, ws) ∷ m) c = settle_map o m (settle_all ws (o k) c)

unfoldable pub on_joined : String → Client → Client
unfolding settle_all
on_joined channel c =
    let woken =
      settle_all (waiting_at c.join_waiters channel) (returns done)
        (record c { joined = set c.joined channel tt }) in
    record woken { join_waiters = delete c.join_waiters channel }

unfoldable pub fail_joins : Value → String → Client → Client
unfolding settle_all settle_map
fail_joins (str channel) err c =
    if channel == ""
    then record (settle_map (λ _. throws err) c.join_waiters c) { join_waiters = [] }
    else record (settle_all (waiting_at c.join_waiters channel) (throws err) c) {
      join_waiters = delete c.join_waiters channel;
    }
fail_joins _ err c = record (settle_map (λ _. throws err) c.join_waiters c) { join_waiters = [] }

unfoldable pub fail_whois : Client → Client
unfolding settle_map
fail_whois c = record (settle_map (λ id. throws ("unknown_agent: " +s+ id)) c.whois_waiters c) {
  whois_waiters = [];
}

abbrev pub is_text : String → Value → Bool
is_text s (str t) = t == s
is_text s _ = false

unfoldable pub on_error : Frame → Client → Client
unfolding ring_error fail_joins fail_whois
on_error frame c =
    let code = prop frame "code" in
    let msg = prop frame "msg" in
    let err = "hub error " +s+ to_string code +s+ ": " +s+ to_string msg in
    let rung =
      ring_error (error_event (to_string code) (to_string msg) c) (record c { last_error = err }) in
    let joins_failed =
      if is_text "unknown_channel" code || is_text "access_denied" code
      then fail_joins (prop frame "channel") err rung
      else rung in
    if is_text "unknown_agent" code then fail_whois joins_failed else joins_failed

module _ (h : Host) where
  abbrev pub x25519_of : Value → String
  x25519_of (str s) = s
  x25519_of _ = ""

  abbrev pub peer_info : Frame → PeerInfo
  peer_info frame = record {
    agent_id = to_string (prop frame "agentId");
    pubkey = to_string (prop frame "pubkey");
    x25519 = x25519_of (prop frame "x25519");
    name = prop frame "name";
    online = prop frame "online";
    x_pub =
        if x25519_of (prop frame "x25519") == ""
        then []
        else h.crypto.b64d (x25519_of (prop frame "x25519"));
  }

  unfoldable pub on_agent_info : Frame → Client → Client
  unfolding settle_all
  on_agent_info frame c =
      let info = peer_info frame in
      let id = info.agent_id in
      let woken =
        settle_all (waiting_at c.whois_waiters id) (returns (peer info))
          (record c { known = set c.known id info }) in
      record woken { whois_waiters = delete c.whois_waiters id }

  abbrev pub unpark : String → Client → Client
  unpark id c = record c { presence_waiters = delete c.presence_waiters id }

  -- The `done` of a presence waiter.
  unfoldable pub presence_done : String → PresenceWaiter → Outcome → Client → Client
  unfolding settle warm_up_presence
  presence_done id (query w) o c = settle w.stack o (unpark id c)
  presence_done id (warm_up attempt) (throws e) c = unpark id c
  presence_done id (warm_up attempt) (returns r) c =
      if not c.echo_seen && ltb attempt 2
      then warm_up_presence h (suc attempt) (unpark id c)
      else unpark id c

  -- How often the loop over the parked waiters calls a `done`: a warm-up parks its next attempt
  -- behind the entries that are left, and the loop meets it there.
  abbrev pub visits : List (String × PresenceWaiter) → ℕ
  visits [] = 0
  visits ((id, query w) ∷ m) = suc (visits m)
  visits ((id, warm_up attempt) ∷ m) = suc (2 - attempt + visits m)

  -- `for (const waiters of this.presenceWaiters.values()) for (const done of waiters) done(…)`:
  -- each `done` removes its own entry, so the next one is always the first that is there.
  unfoldable pub complete_all : ℕ → Outcome → Client → Client
  unfolding presence_done
  complete_all zero o c = c
  complete_all (suc fuel) o c = elim c.presence_waiters [
    | [] ↦ c
    | (id, w) ∷ m ↦ complete_all fuel o (presence_done id w o c)
  ]

  abbrev pub presence_agent : Value → Client → Option PresenceAgent
  presence_agent v c = elim (property v "agentId") [
    | none ↦ none
    | some id ↦ some (record {
      agent_id = to_string id;
      name = or_undefined (property v "name");
      online = or_undefined (property v "online");
      last_seen = or_undefined (property v "lastSeen");
      self = to_string id == agent_id h c;
    })
  ]

  abbrev pub presence_agents : List Value → Client → Option (List PresenceAgent)
  presence_agents [] c = some []
  presence_agents (v ∷ vs) c = elim (presence_agent v c) [
    | none ↦ none
    | some a ↦ elim (presence_agents vs c) [ none ↦ none | some as' ↦ some (a ∷ as') ]
  ]

  abbrev pub listed : Value → List Value
  listed (arr xs) = items xs
  listed _ = []

  -- The rest of `onPresence`.
  unfoldable pub route_presence : Value → List PresenceAgent → Client → Client
  unfolding complete_all
  route_presence undefined agents c =
      if c.echo_seen
      then c
      else complete_all (visits c.presence_waiters) (returns (roster agents)) c
  route_presence reply_to agents c = elim (get c.presence_waiters (to_string reply_to)) [
    | none ↦ record c { echo_seen = true }
    | some w ↦
        presence_done (to_string reply_to) w (returns (roster agents))
          (record c { echo_seen = true })
  ]

  unfoldable pub on_presence : Frame → Client → Option Client
  unfolding route_presence
  on_presence frame c = elim (presence_agents (listed (prop frame "agents")) c) [
    | none ↦ none
    | some agents ↦ some (route_presence (prop frame "replyTo") agents c)
  ]

  -- `String(frame.secret ?? '')`
  abbrev pub secret_of : Value → String
  secret_of undefined = ""
  secret_of null = ""
  secret_of v = to_string v

  unfoldable pub on_enrolled : String → Client → Client
  unfolding persist_config
  on_enrolled secret c =
      if not c.enroll_pending || secret == ""
      then c
      else persist_config h (record no_update { client_secret = issue secret })
          (record c { enroll_pending = false })

  -- `for (const [name, ch] of this.channels) void this.join(name, ch.pub).catch(() => {})`
  unfoldable pub join_all : JsMap String ChannelKey → Client → Client
  unfolding join
  join_all [] c = c
  join_all ((name, ch) ∷ m) c = join_all m (join name ch.pub_key (ignored ∷ []) c)

  abbrev pub start_invite_poller : Client → Client
  start_invite_poller c = poll_pending_invites h (record c { polling = true })

  abbrev pub flush_frame : Frame
  flush_frame = ("op", str "flush") ∷ []

  abbrev pub enroll_frame : Frame
  enroll_frame = ("t", str "enroll") ∷ []

  unfoldable pub on_welcome : Client → Client
  unfolding warm_up_presence ws_send settle_all join_all poll_pending_invites
  on_welcome c =
      let fresh : Client = record c {
        welcomed = true;
        welcomes = suc c.welcomes;
        delay = c.initial_ms;
        joined = [];
      } in
      let flushed = ws_send flush_frame (warm_up_presence h 0 fresh) in
      let enrolling = if c.enroll_pending then ws_send enroll_frame flushed else flushed in
      let woken =
        settle_all enrolling.ready_waiters (returns done)
          (record enrolling { ready_waiters = [] }) in
      let joining = join_all c.channels woken in
      if c.invites then start_invite_poller joining else joining

  abbrev pub frame_kind : Frame → Value
  frame_kind frame = elim (prop frame "op") [
    | undefined ↦ prop frame "t"
    | null ↦ prop frame "t"
    | v ↦ v
  ]

  unfoldable pub handle_frame : String → Frame → Client → Option Client
  unfolding on_welcome on_joined on_agent_info on_presence on_msg on_error on_enrolled
  handle_frame kind frame c =
      if kind == "welcome"
      then some (on_welcome c)
      else if kind == "joined"
      then some (on_joined (to_string (prop frame "channel")) c)
      else if kind == "agent_info"
      then some (on_agent_info frame c)
      else if kind == "presence"
      then on_presence frame c
      else if kind == "msg"
      then some (on_msg h frame c)
      else if kind == "error"
      then some (on_error frame c)
      else if kind == "enrolled"
      then some (on_enrolled (secret_of (prop frame "secret")) c)
      else some c

  abbrev pub dispatch : Value → Frame → Client → Option Client
  dispatch (str kind) frame c = handle_frame kind frame c
  dispatch _ frame c = some c

  abbrev pub handle_value : Value → Client → Option Client
  handle_value undefined c = none
  handle_value null c = none
  handle_value (obj fs) c = dispatch (frame_kind (entries fs)) (entries fs) c
  handle_value _ c = some c

  unfoldable pub handle_raw : String → Client → Option Client
  unfolding handle_frame
  handle_raw raw c = elim (h.parse raw) [
    | none ↦ some (record c { last_error = "bad frame (not JSON)" })
    | some v ↦ handle_value v c
  ]
