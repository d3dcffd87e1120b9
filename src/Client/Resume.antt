-- ===== src/Client/Resume.antt =====
-- client.ts: inbound messages, and what each async function does after an await.
use dap.Common.{
  Bool, true, false, Option, none, some, String, [], ◌∷◌, string_eq, if◌then◌else◌, nat_beq, length,
  filterb,
}
use dap.JsMap.{get}
use dap.Json.{Value, undefined, null, bool, num, object, prop, to_string}
use dap.Crypto.{open_payload, ◌+s+◌}
use dap.Channels.{ChannelKeys, ChankeyInvite, chankey_payload, parse_chankey_invite}
use dap.Client.State.{
  whois_found, info, Frame, ChannelKey, MsgEvent, PeerInfo, SendResult, Outcome, returns, throws,
  peer, roster, key, sent, Await, join_ready, ensure_joined, send_ensured, send_ready, dm_whois,
  dm_ready, invite_ensured, invite_sent, by_name_presence, arm_ensured, presence_answered,
  deliver_presence, deliver_invited, msg_whois, ignored, surfaced, caller, Stack, Host, Client,
}
use dap.Client.Wire.{settle, ring_error, deliver, agent_id}
use dap.Client.Calls.{
  public_info, ready, join, join_when_ready, agent_info, keep_channel, send_sealed, dm,
}
use dap.Client.Invites.{
  is_online, private_key, chankey_of, text_of, surface_invite_failure, deliver_from,
  remove_delivered, arm_when_ensured, invite_matching,
}

-- `Number(v)`, over that of a text; `undefined` stands for NaN.
abbrev pub number_of : (String → Value) → Value → Value
number_of number undefined = undefined
number_of number null = num 0
number_of number (num n) = num n
number_of number (bool b) = if b then num 1 else num 0
number_of number v = number (to_string v)

pub data Decrypted : Type 0 where
  plain : MsgEvent → Decrypted
  failed : String → Decrypted

abbrev pub or_failed : Option String → String → (String → MsgEvent) → Decrypted
or_failed none e ev = failed e
or_failed (some text) e ev = plain (ev text)

-- `catch` of `onMsg`
unfoldable pub undecryptable : Frame → String → Client → Client
unfolding ring_error
undecryptable frame err c =
    let msg = "undecryptable msg: " +s+ err in
    ring_error
      (record {
        code = "undecryptable";
        msg = msg;
        ts = c.clock;
        from = text_of (prop frame "from");
        id = text_of (prop frame "id");
      })
      (record c { last_error = msg })

module _ (h : Host) where
  abbrev pub channel_priv : Client → String → Option String
  channel_priv c name = elim (get c.channels name) [ none ↦ none | some ch ↦ private_key ch ]

  abbrev pub channel_event : Frame → String → String → MsgEvent
  channel_event frame channel text = record {
    dm = false;
    channel = some channel;
    from = to_string (prop frame "from");
    text = text;
    ts = number_of h.number (prop frame "ts");
    invite = none;
  }

  abbrev pub dm_event : Frame → String → MsgEvent
  dm_event frame text = record {
    dm = true;
    channel = none;
    from = to_string (prop frame "from");
    text = text;
    ts = number_of h.number (prop frame "ts");
    invite = none;
  }

  unfoldable pub decrypt_channel : Frame → String → PeerInfo → Client → Decrypted
  unfolding open_payload
  decrypt_channel frame channel sender c = elim (channel_priv c channel) [
    | none ↦ failed "no channel private key"
    | some priv ↦
        or_failed
          (open_payload h.crypto (to_string (prop frame "ciphertext")) (to_string (prop frame "id"))
            channel (h.crypto.b64d priv) sender.x_pub)
          h.open_error (channel_event frame channel)
  ]

  unfoldable pub decrypt_dm : Frame → PeerInfo → Client → Decrypted
  unfolding open_payload
  decrypt_dm frame sender c =
      if nat_beq (length sender.x_pub) 0
      then failed "sender has no x25519 key"
      else or_failed
          (open_payload h.crypto (to_string (prop frame "ciphertext")) (to_string (prop frame "id"))
            (to_string (prop frame "to")) c.identity.x_priv sender.x_pub)
          h.open_error (dm_event frame)

  -- `decryptMsg` after `await this.agentInfo(from)`.
  unfoldable pub decrypt_msg : Frame → PeerInfo → Client → Decrypted
  unfolding decrypt_channel decrypt_dm
  decrypt_msg frame sender c = elim (prop frame "channel") [
    | undefined ↦ decrypt_dm frame sender c
    | v ↦ decrypt_channel frame (to_string v) sender c
  ]

  abbrev pub invite_notice : ChankeyInvite → MsgEvent → MsgEvent
  invite_notice i ev = record ev {
    text = "[dap] invited to #" +s+ i.channel +s+ " by " +s+ ev.from;
    invite = some i.channel;
  }

  unfoldable pub accept_invite : ChankeyInvite → MsgEvent → Client → Client
  unfolding join deliver
  accept_invite i ev c =
      let ch : ChannelKey = record { name = i.channel; pub_key = i.pub_key; priv = some i.priv } in
      let keys : ChannelKeys = record { pub_key = i.pub_key; priv = i.priv } in
      deliver (invite_notice i ev)
        (join i.channel i.pub_key (ignored ∷ []) (keep_channel h ch keys c))

  -- The rest of `onMsg`.
  unfoldable pub receive : Frame → Decrypted → Client → Client
  unfolding undecryptable accept_invite deliver parse_chankey_invite
  receive frame (failed e) c = undecryptable frame e c
  receive frame (plain ev) c =
      if ev.dm
      then elim (parse_chankey_invite h.parse h.crypto.b64d ev.text) [
        | none ↦ deliver ev c
        | some i ↦ accept_invite i ev c
      ]
      else deliver ev c

  unfoldable pub on_msg : Frame → Client → Client
  unfolding agent_info
  on_msg frame c = agent_info (to_string (prop frame "from")) (msg_whois frame ∷ []) c

  abbrev pub send_result : String → String → Client → SendResult
  send_result id channel c = record {
    id = id;
    from = agent_id h c;
    channel = some channel;
    to = none;
    created = false;
    chan_pubkey = none;
  }

  -- `dm` after the whois.
  unfoldable pub dm_to_peer : String → String → PeerInfo → Stack → Client → Client
  unfolding ready settle
  dm_to_peer to text p k c =
      if nat_beq (length p.x_pub) 0
      then settle k (throws ("agent " +s+ to +s+ " has no x25519 key")) c
      else ready (dm_ready to text p ∷ k) c

  -- `invite` after `await this.ensureChannel(channel)`.
  unfoldable pub invite_with_keys : String → String → ChannelKey → Bool → Stack → Client → Client
  unfolding dm settle
  invite_with_keys channel to ch created k c = elim (private_key ch) [
    | none ↦
        settle k
          (throws ("no private key for channel " +s+ channel +s+ " — ask a member to invite you")) c
    | some priv ↦
        dm h to (h.stringify (object (chankey_payload (chankey_of channel ch priv))))
          (invite_sent channel ch created ∷ k) c
  ]

  -- One await point: `k` is who awaits the function that stands there.
  unfoldable pub resume : Await → Stack → Outcome → Client → Client
  unfolding settle join_when_ready ready send_sealed dm_to_peer invite_with_keys invite_matching
      arm_when_ensured deliver_from remove_delivered receive decrypt_msg undecryptable
      surface_invite_failure
  resume (join_ready name chan_pubkey) k (returns r) c = join_when_ready name chan_pubkey k c
  resume (ensure_joined ch created) k (returns r) c = settle k (returns (key ch created)) c
  resume (send_ensured channel text) k (returns (key ch created)) c =
      ready (send_ready channel text ch created ∷ k) c
  resume (send_ready channel text ch created) k (returns r) c =
      send_sealed h "channel" channel text (h.crypto.b64d ch.pub_key)
        (λ id. record (send_result id channel c) {
          created = created;
          chan_pubkey = some ch.pub_key;
        })
        k c
  resume whois_found k (returns (peer p)) c = settle k (returns (info (public_info p))) c
  resume (dm_whois to text) k (returns (peer p)) c = dm_to_peer to text p k c
  resume (dm_ready to text p) k (returns r) c =
      send_sealed h "to" to text p.x_pub
        (λ id. record (send_result id to c) { channel = none; to = some to }) k c
  resume (invite_ensured channel to) k (returns (key ch created)) c =
      invite_with_keys channel to ch created k c
  resume (invite_sent channel ch created) k (returns (sent r)) c =
      settle k
        (returns (
          sent (record r {
            channel = some channel;
            chan_pubkey = some ch.pub_key;
            created = created;
          })))
        c
  resume (by_name_presence channel who) k (returns (roster agents)) c =
      invite_matching h channel who agents k c
  resume (arm_ensured name channel) k (returns r) c = arm_when_ensured h name channel k c
  resume presence_answered k (returns (roster agents)) c =
      settle k (returns (roster (filterb (λ a. is_online a.online) agents))) c
  resume deliver_presence k (returns (roster agents)) c =
      deliver_from h (length c.pending_invites) agents k c
  resume deliver_presence k (throws e) c = settle k (throws e) (record c { delivering = false })
  resume (deliver_invited i pending agents) k (returns r) c =
      deliver_from h i agents k (remove_delivered h i pending c)
  resume (deliver_invited i pending agents) k (throws e) c = deliver_from h i agents k c
  resume (msg_whois frame) k (returns (peer p)) c = receive frame (decrypt_msg frame p c) c
  resume (msg_whois frame) k (throws e) c = undecryptable frame e c
  resume ignored k o c = c
  resume surfaced k (throws e) c = surface_invite_failure e c
  resume (caller n) k o c = record c { results = (n, o) ∷ c.results }
  resume a k (throws e) c = settle k (throws e) c
  resume a k (returns r) c = c

  -- The first job that is due.
  unfoldable pub run_job : Client → Client
  unfolding resume
  run_job c = elim c.jobs [
    | [] ↦ c
    | j ∷ js ↦ elim j.stack [
      | [] ↦ record c { jobs = js }
      | a ∷ k ↦ resume a k j.outcome (record c { jobs = js })
    ]
  ]
