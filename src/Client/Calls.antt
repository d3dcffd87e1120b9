-- ===== src/Client/Calls.antt =====
-- client.ts: the operations up to the point where they first wait. The last argument but one is who
-- awaits the call. A call whose promise is already settled is a job.
use dap.Common.{
  map, ℕ, suc, not, ◌||◌, none, some, String, List, [], ◌∷◌, ◌++◌, if◌then◌else◌, string_eq,
}
use dap.JsMap.{JsMap, get, set, has}
use dap.Json.{str, num}
use dap.Crypto.{Bytes, seal}
use dap.Channels.{ChannelKeys, new_channel_keypair, persist_channel_keys}
use dap.Client.State.{
  WhoisInfo, StatusInfo, PeerInfo, whois_found, Frame, ChannelKey, SendResult, returns, throws,
  done, peer, sent, join_ready, ensure_joined, send_ensured, dm_whois, invite_ensured,
  presence_answered, Stack, Waiter, PresenceWaiter, query, warm_up, Host, Client,
}
use dap.Client.Wire.{
  not_connected, connected, is_connecting, settle, ws_send, send_frame, sign_and_send, agent_id,
}

-- `list.push(done)` under `map.get(key) ?? []`
abbrev pub waiting_at : JsMap String (List Waiter) → String → List Waiter
waiting_at m k = elim (get m k) [ none ↦ [] | some ws ↦ ws ]

abbrev pub park : JsMap String (List Waiter) → String → Waiter → JsMap String (List Waiter)
park m k w = set m k (waiting_at m k ++ w ∷ [])

-- `ready()`
unfoldable pub ready : Stack → Client → Client
unfolding settle
ready k c = if connected c then settle k (returns done) c else record c {
  ready_waiters = c.ready_waiters ++ record { timer = c.timers; stack = k } ∷ [];
  timers = suc c.timers;
}

abbrev pub join_frame : String → String → Frame
join_frame name chan_pubkey =
    ("op", str "join") ∷ ("channel", str name) ∷ ("chanPubkey", str chan_pubkey) ∷ []

unfoldable pub join : String → String → Stack → Client → Client
unfolding ready
join name chan_pubkey k c = ready (join_ready name chan_pubkey ∷ k) c

-- `join` after `await this.ready()`: where the frame cannot be sent, the promise is rejected and the
-- waiter stays.
unfoldable pub join_when_ready : String → String → Stack → Client → Client
unfolding settle send_frame
join_when_ready name chan_pubkey k c =
    if has c.joined name
    then settle k (returns done) c
    else elim (send_frame (join_frame name chan_pubkey) c) [
      | some c' ↦ record c' {
        join_waiters = park c.join_waiters name (record { timer = c.timers; stack = k });
        timers = suc c.timers;
      }
      | none ↦ settle k (throws "not connected") (record c {
        join_waiters = park c.join_waiters name (record { timer = c.timers; stack = [] });
        timers = suc c.timers;
      })
    ]

-- `agentInfo`. On a socket that is still connecting `send` throws, with the waiter parked.
unfoldable pub agent_info : String → Stack → Client → Client
unfolding settle ws_send
agent_info agent_id k c = elim (get c.known agent_id) [
  | some info ↦ settle k (returns (peer info)) c
  | none ↦
      let parked = λ (stack : Stack). record c {
        whois_waiters = park c.whois_waiters agent_id (record { timer = c.timers; stack = stack });
        timers = suc c.timers;
        whois_calls = suc c.whois_calls;
      } in
      if is_connecting c.socket
      then settle k (throws "WebSocket is not open: readyState 0 (CONNECTING)") (parked [])
      else ws_send (("op", str "whois") ∷ ("agentId", str agent_id) ∷ []) (parked k)
]

-- `whois`: who asks gets the entry without the decoded key.
unfoldable pub whois : String → Stack → Client → Client
unfolding agent_info
whois agent_id k c = agent_info agent_id (whois_found ∷ k) c

abbrev pub public_info : PeerInfo → WhoisInfo
public_info p = record {
  agent_id = p.agent_id;
  pubkey = p.pubkey;
  x25519 = p.x25519;
  name = p.name;
  online = p.online;
}

abbrev pub presence_query : String → Frame
presence_query id = ("op", str "presence_query") ∷ ("id", str id) ∷ []

-- `addChannel`
unfoldable pub add_channel : ChannelKey → Client → Client
unfolding set
add_channel ch c = record c { channels = set c.channels ch.name ch }

module _ (h : Host) where
  -- `status`
  unfoldable pub status : Client → StatusInfo
  status c = record {
    connected = connected c;
    agent_id = agent_id h c;
    name = c.name;
    url = c.url;
    channels = map (λ e. e.0) c.channels;
    welcomes = c.welcomes;
    hellos = c.hellos;
  }

  abbrev pub keep_channel : ChannelKey → ChannelKeys → Client → Client
  keep_channel ch keys c = record c {
    channels = set c.channels ch.name ch;
    channels_file =
        if c.has_channels_file
        then some (persist_channel_keys h.parse h.print_channels c.channels_file ch.name keys)
        else c.channels_file;
  }

  -- `ensureChannelKeys`
  unfoldable pub ensure_channel_keys : String → Client → ChannelKey × Client
  unfolding new_channel_keypair
  ensure_channel_keys name c = elim (get c.channels name) [
    | some known ↦ (known, c)
    | none ↦
        let keys = new_channel_keypair h.crypto.b64e (h.keypair c.draws) in
        let ch : ChannelKey = record {
          name = name;
          pub_key = keys.pub_key;
          priv = some keys.priv;
        } in
        (ch, keep_channel ch keys (record c { draws = suc c.draws }))
  ]

  unfoldable pub ensure_channel : String → Stack → Client → Client
  unfolding ensure_channel_keys join
  ensure_channel name k c =
      let (ch, c') = ensure_channel_keys name c in
      join name ch.pub_key (ensure_joined ch (not (has c.channels name)) ∷ k) c'

  unfoldable pub send : String → String → Stack → Client → Client
  unfolding ensure_channel
  send channel text k c =
      if connected c
      then ensure_channel channel (send_ensured channel text ∷ k) c
      else settle k (throws not_connected) c

  abbrev pub send_frame_of : String → String → String → String → Bytes → Client → Frame
  send_frame_of field to id text x_pub c =
      ("op", str "send")
      ∷ (field, str to)
      ∷ ("id", str id)
      ∷ ("ts", num c.clock)
      ∷ (
        "ciphertext",
        str (seal h.crypto (h.nonce (suc c.draws)) text id to c.identity.x_priv x_pub),
      )
      ∷ []

  -- The end of `send` and of `dm`: a fresh id, then the sealed and signed frame. Two draws: the id
  -- and the nonce.
  unfoldable pub send_sealed :
      String → String → String → Bytes → (String → SendResult) → Stack → Client → Client
  unfolding sign_and_send settle
  send_sealed field to text x_pub result k c =
      let id = h.uuid c.draws in
      let drawn : Client = record c { draws = suc (suc c.draws) } in
      elim (sign_and_send h (send_frame_of field to id text x_pub c) drawn) [
        | none ↦ settle k (throws "not connected") drawn
        | some c' ↦ settle k (returns (sent (result id))) c'
      ]

  unfoldable pub dm : String → String → Stack → Client → Client
  unfolding agent_info
  dm to text k c =
      if connected c
      then agent_info to (dm_whois to text ∷ k) c
      else settle k (throws not_connected) c

  unfoldable pub invite : String → String → Stack → Client → Client
  unfolding ensure_channel
  invite channel to k c = ensure_channel channel (invite_ensured channel to ∷ k) c

  unfoldable pub park_presence : String → PresenceWaiter → Client → Client
  park_presence id w c = record c { presence_waiters = c.presence_waiters ++ (id, w) ∷ [] }

  unfoldable pub ask_presence : Stack → Client → Client
  unfolding park_presence ws_send
  ask_presence k c =
      let id = h.uuid c.draws in
      let waiter : Waiter = record { timer = c.timers; stack = presence_answered ∷ k } in
      let parked = park_presence id (query waiter) c in
      ws_send (presence_query id) (record parked { draws = suc c.draws; timers = suc c.timers })

  unfoldable pub presence : Stack → Client → Client
  unfolding ask_presence settle
  presence k c = if connected c then ask_presence k c else settle k (throws not_connected) c

  unfoldable pub warm_up_presence : ℕ → Client → Client
  unfolding park_presence ws_send
  warm_up_presence attempt c =
      if c.echo_seen || not (connected c)
      then c
      else ws_send (presence_query (h.uuid c.draws))
          (park_presence (h.uuid c.draws) (warm_up attempt) (record c { draws = suc c.draws }))
