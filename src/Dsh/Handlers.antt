-- ===== src/Dsh/Handlers.antt =====
-- dsh-plugin/src/client.ts: the handlers of hub frames that settle what waits.
use dap.Common.{
  suc, Bool, true, false, Option, none, some, String, List, [], ◌∷◌, ◌==◌, string_eq, if◌then◌else◌,
}
use dap.JsMap.{JsMap, get, set, delete}
use dap.Json.{Value, str, prop, to_string}
use dap.Config.{no_update, issue}
use dap.Crypto.{◌+s+◌}
use dap.Client.State.{Frame, ChannelKey}
use dap.Dsh.State.{
  Host, Client, Waiter, Outcome, returns, throws, done, nobody, info, answer, AgentInfo, MsgEvent,
  on_ready, on_enrolled,
}
use dap.Dsh.Wire.{settle_all, settle, ws_send, surface_error, persist_config, agent_id}
use dap.Dsh.Calls.{waiting_at, join, warm_up_echo}

unfoldable pub settle_map : Outcome → JsMap String (List Waiter) → Client → Client
unfolding settle_all
settle_map o [] c = c
settle_map o ((k, ws) ∷ m) c = settle_map o m (settle_all ws o c)

-- `failWhoisWaiters`
unfoldable pub fail_whois_waiters : String → Client → Client
unfolding settle_map
fail_whois_waiters reason c = record (settle_map (throws reason) c.whois_waiters c) {
  whois_waiters = [];
}

abbrev pub is_text : String → Value → Bool
is_text s (str t) = t == s
is_text s _ = false

unfoldable pub on_hub_error_frame : Frame → Client → Client
unfolding surface_error settle_map
on_hub_error_frame frame c =
    let code = prop frame "code" in
    let msg = prop frame "msg" in
    let surfaced =
      surface_error (to_string code) (to_string msg)
        (record c { last_error = "hub error " +s+ to_string code +s+ ": " +s+ to_string msg }) in
    if is_text "unknown_agent" code
    then record (settle_map (returns nobody) surfaced.whois_waiters surfaced) { whois_waiters = [] }
    else surfaced

unfoldable pub settle_presence : Outcome → JsMap String Waiter → Client → Client
unfolding settle
settle_presence o [] c = c
settle_presence o ((id, w) ∷ m) c = settle_presence o m (settle w.stack o c)

-- `typeof frame.replyTo === 'string' ? frame.replyTo : ''`
abbrev pub reply_id : Frame → String
reply_id frame = elim (prop frame "replyTo") [ str s ↦ s | _ ↦ "" ]

unfoldable pub resolve_presence : Frame → Client → Client
unfolding settle settle_presence
resolve_presence frame c =
    if reply_id frame == ""
    then if c.echo_seen
      then c
      else record (settle_presence (returns (answer frame)) c.presence_waiters c) {
        presence_waiters = [];
      }
    else elim (get c.presence_waiters (reply_id frame)) [
      | none ↦ record c { echo_seen = true }
      | some w ↦ settle w.stack (returns (answer frame)) (record c {
        echo_seen = true;
        presence_waiters = delete c.presence_waiters (reply_id frame);
      })
    ]

-- What `catch` of `onMsg` does with an error.
unfoldable pub undecryptable : String → Client → Client
unfolding surface_error
undecryptable err c =
    surface_error "undecryptable" ("Error: " +s+ err)
      (record c { last_error = "undecryptable msg: Error: " +s+ err })

pub data Decrypted : Type 0 where
  plain : MsgEvent → Decrypted
  failed : String → Decrypted

abbrev pub or_failed : Option String → String → (String → MsgEvent) → Decrypted
or_failed none e ev = failed e
or_failed (some text) e ev = plain (ev text)

module _ (h : Host) where
  abbrev pub x25519_of : Value → String
  x25519_of (str s) = s
  x25519_of _ = ""

  abbrev pub info_of : Frame → AgentInfo
  info_of frame = record {
    ed_pub = h.crypto.b64d (to_string (prop frame "pubkey"));
    x_pub =
        if x25519_of (prop frame "x25519") == ""
        then []
        else h.crypto.b64d (x25519_of (prop frame "x25519"));
    name = prop frame "name";
    online = prop frame "online";
  }

  unfoldable pub on_agent_info : Frame → Client → Client
  unfolding settle_all
  on_agent_info frame c =
      let id = to_string (prop frame "agentId") in
      let woken =
        settle_all (waiting_at c.whois_waiters id) (returns (info (info_of frame)))
          (record c { known = set c.known id (info_of frame) }) in
      record woken { whois_waiters = delete c.whois_waiters id }

  -- `for (const ch of this.channels.values()) this.join(ch.name, ch.pub)`, on an open socket.
  unfoldable pub join_all : JsMap String ChannelKey → Client → Client
  unfolding join
  join_all [] c = c
  join_all ((name, ch) ∷ m) c = join_all m (join ch.name ch.pub_key c).0

  abbrev pub flush_frame : Frame
  flush_frame = ("op", str "flush") ∷ []

  abbrev pub enroll_frame : Frame
  enroll_frame = ("t", str "enroll") ∷ []

  -- A welcome comes in on an open socket, so no send throws.
  unfoldable pub on_welcome : Client → Client
  unfolding ws_send join_all warm_up_echo settle_all
  on_welcome c =
      let fresh : Client = record c {
        welcomed = true;
        welcomes = suc c.welcomes;
        delay = c.initial_ms;
      } in
      let enrolling = if c.enroll_mode then (ws_send enroll_frame fresh).0 else fresh in
      let flushed = (ws_send flush_frame enrolling).0 in
      let joined = join_all flushed.channels flushed in
      let warming = warm_up_echo h 0 joined in
      let woken =
        settle_all warming.ready_waiters (returns done) (record warming { ready_waiters = [] }) in
      record woken { hooks = on_ready (agent_id h woken) ∷ woken.hooks }

  -- `onEnrolled`
  unfoldable pub adopt_secret : String → Client → Client
  unfolding persist_config
  adopt_secret secret c =
      if secret == ""
      then c
      else let saved : Client =
          persist_config h (record no_update { client_secret = issue secret })
            (record c { client_secret = some secret; enroll_mode = false }) in
        record saved { hooks = on_enrolled ∷ saved.hooks }
