-- ===== src/Dsh/Inbound.antt =====
-- dsh-plugin/src/client.ts: messages, and the dispatch of a raw frame.
use dap.Common.{
  true, false, Option, none, some, String, [], ◌∷◌, length, nat_beq, string_eq, if◌then◌else◌,
}
use dap.JsMap.{get}
use dap.Json.{Value, undefined, null, obj, entries, prop, to_string}
use dap.Crypto.{open_payload}
use dap.Channels.{ChannelKeys, ChankeyInvite, parse_chankey_invite}
use dap.Client.State.{Frame}
use dap.Client.Wire.{push_bounded}
use dap.Client.Invites.{private_key}
use dap.Client.Resume.{number_of}
use dap.Dsh.State.{Host, Client, AgentInfo, MsgEvent, msg_whois, on_message, on_invite}
use dap.Dsh.Wire.{inbox_cap, still_connecting}
use dap.Dsh.Calls.{agent_info, join, keep_channel}
use dap.Dsh.Handlers.{
  Decrypted, adopt_secret, failed, is_text, on_agent_info, on_hub_error_frame, on_welcome,
  or_failed, plain, resolve_presence, undecryptable,
}

module _ (h : Host) where
  abbrev pub channel_event : Frame → String → String → MsgEvent
  channel_event frame channel text = record {
    dm = false;
    channel = some channel;
    from = to_string (prop frame "from");
    text = text;
    ts = number_of h.number (prop frame "ts");
  }

  abbrev pub dm_event : Frame → String → MsgEvent
  dm_event frame text = record {
    dm = true;
    channel = none;
    from = to_string (prop frame "from");
    text = text;
    ts = number_of h.number (prop frame "ts");
  }

  abbrev pub channel_priv : Client → String → Option String
  channel_priv c name = elim (get c.channels name) [ none ↦ none | some ch ↦ private_key ch ]

  unfoldable pub decrypt_channel : Frame → String → AgentInfo → Client → Decrypted
  unfolding open_payload
  decrypt_channel frame channel sender c = elim (channel_priv c channel) [
    | none ↦ failed "no channel private key"
    | some priv ↦
        or_failed
          (open_payload h.crypto (to_string (prop frame "ciphertext")) (to_string (prop frame "id"))
            channel (h.crypto.b64d priv) sender.x_pub)
          h.open_error (channel_event frame channel)
  ]

  unfoldable pub decrypt_dm : Frame → AgentInfo → Client → Decrypted
  unfolding open_payload
  decrypt_dm frame sender c =
      if nat_beq (length sender.x_pub) 0
      then failed "sender has no x25519 key"
      else or_failed
          (open_payload h.crypto (to_string (prop frame "ciphertext")) (to_string (prop frame "id"))
            (to_string (prop frame "to")) c.identity.x_priv sender.x_pub)
          h.open_error (dm_event frame)

  -- `decryptMsg` after `await this.agentInfo(from)`.
  unfoldable pub decrypt_msg : Frame → AgentInfo → Client → Decrypted
  unfolding decrypt_channel decrypt_dm
  decrypt_msg frame sender c = elim (prop frame "channel") [
    | undefined ↦ decrypt_dm frame sender c
    | v ↦ decrypt_channel frame (to_string v) sender c
  ]

  -- `acceptInvite` and the hook after it; where the join throws, what came before it stays.
  unfoldable pub accept_invite : ChankeyInvite → String → Client → Client
  unfolding join undecryptable
  accept_invite i from c =
      let keys : ChannelKeys = record { pub_key = i.pub_key; priv = i.priv } in
      let (c', returned) = join i.channel i.pub_key (keep_channel h i.channel keys c) in
      if returned
      then record c' { hooks = on_invite i from ∷ c'.hooks }
      else undecryptable still_connecting c'

  unfoldable pub deliver : MsgEvent → Client → Client
  unfolding push_bounded
  deliver ev c = record c {
    inbox = push_bounded inbox_cap c.inbox ev;
    hooks = on_message ev ∷ c.hooks;
  }

  -- The rest of `onMsg`.
  unfoldable pub receive : Decrypted → Client → Client
  unfolding undecryptable accept_invite deliver parse_chankey_invite
  receive (failed e) c = undecryptable e c
  receive (plain ev) c =
      if ev.dm
      then elim (parse_chankey_invite h.parse h.crypto.b64d ev.text) [
        | none ↦ deliver ev c
        | some i ↦ accept_invite i ev.from c
      ]
      else deliver ev c

  unfoldable pub on_msg : Frame → Client → Client
  unfolding agent_info
  on_msg frame c = agent_info (to_string (prop frame "from")) (msg_whois frame ∷ []) c

  unfoldable pub handle_frame : Frame → Client → Client
  unfolding on_welcome on_agent_info on_msg on_hub_error_frame resolve_presence adopt_secret
  handle_frame frame c =
      let op = prop frame "op" in
      if is_text "enrolled" (prop frame "t")
      then adopt_secret h (to_string (prop frame "secret")) c
      else if is_text "welcome" op
      then on_welcome h c
      else if is_text "agent_info" op
      then on_agent_info h frame c
      else if is_text "msg" op
      then on_msg frame c
      else if is_text "error" op
      then on_hub_error_frame frame c
      else if is_text "presence" op
      then resolve_presence frame c
      else c

  abbrev pub handle_value : Value → Client → Option Client
  handle_value undefined c = none
  handle_value null c = none
  handle_value (obj fs) c = some (handle_frame (entries fs) c)
  handle_value _ c = some c

  -- `handleRaw`: `none` where it throws.
  unfoldable pub handle_raw : String → Client → Option Client
  unfolding handle_frame
  handle_raw raw c = elim (h.parse raw) [
    | none ↦ some (record c { last_error = "bad frame (not JSON)" })
    | some v ↦ handle_value v c
  ]
