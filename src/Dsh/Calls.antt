-- ===== src/Dsh/Calls.antt =====
-- dsh-plugin/src/client.ts: the public operations, up to their first await.
use dap.Common.{
  map, ℕ, suc, Bool, true, not, ◌&&◌, none, some, String, List, [], ◌∷◌, ◌++◌, ltb, if◌then◌else◌,
  string_eq, nat_eq,
}
use dap.JsMap.{JsMap, get, set}
use dap.Json.{str, num, object}
use dap.Crypto.{Bytes, seal}
use dap.Channels.{ChannelKeys, new_channel_keypair, persist_channel_keys, chankey_payload}
use dap.Client.State.{Frame, ChannelKey}
use dap.Client.Wire.{is_connecting}
use dap.Client.Invites.{private_key}
use dap.Dsh.State.{
  StatusInfo, Host, Client, Stack, Waiter, returns, throws, done, info, directory, whois_info,
  send_ready, dm_whois, presence_answer, warm_up,
}
use dap.Dsh.Wire.{
  connected, ready_state, settle, ws_send, sign_and_send, not_connected, still_connecting, agent_id,
}

abbrev pub waiting_at : JsMap String (List Waiter) → String → List Waiter
waiting_at m k = elim (get m k) [ none ↦ [] | some ws ↦ ws ]

-- `whenReady()`
unfoldable pub when_ready : Stack → Client → Client
unfolding settle
when_ready k c = if connected c then settle k (returns done) c else record c {
  ready_waiters = c.ready_waiters ++ record { timer = c.timers; stack = k } ∷ [];
  timers = suc c.timers;
}

-- `agentInfo`: where the frame cannot be sent the call throws, and its waiter stays.
unfoldable pub agent_info : String → Stack → Client → Client
unfolding settle ws_send
agent_info agent_id k c = elim (get c.known agent_id) [
  | some i ↦ settle k (returns (info i)) c
  | none ↦
      let parked = λ (stack : Stack). record c {
        whois_waiters = set c.whois_waiters agent_id (
            waiting_at c.whois_waiters agent_id ++ record { timer = c.timers; stack = stack } ∷ []);
        timers = suc c.timers;
      } in
      if is_connecting (ready_state c)
      then settle k (throws still_connecting) (parked [])
      else (ws_send (("op", str "whois") ∷ ("agentId", str agent_id) ∷ [])
          (parked (directory agent_id ∷ k))).0
]

unfoldable pub whois : String → Stack → Client → Client
unfolding agent_info
whois agent_id k c = agent_info agent_id (whois_info agent_id ∷ k) c

abbrev pub join_frame : String → String → Frame
join_frame channel chan_pubkey =
    ("op", str "join") ∷ ("channel", str channel) ∷ ("chanPubkey", str chan_pubkey) ∷ []

-- `join`, and whether it returned.
unfoldable pub join : String → String → Client → Client × Bool
unfolding ws_send
join channel chan_pubkey c = ws_send (join_frame channel chan_pubkey) c

abbrev pub presence_query : String → Frame
presence_query id = ("op", str "presence_query") ∷ ("id", str id) ∷ []

-- `queryPresence`; its callers have checked that the socket is open.
unfoldable pub query_presence : String → Stack → Client → Client
unfolding ws_send
query_presence id k c =
    (ws_send (presence_query id) (record c {
      presence_waiters = set c.presence_waiters id (record { timer = c.timers; stack = k });
      timers = suc c.timers;
      draws = suc c.draws;
    })).0

module _ (h : Host) where
  -- `status`
  unfoldable pub status : Client → StatusInfo
  status c = record {
    connected = connected c;
    agent_id = agent_id h c;
    name = elim c.name [ none ↦ "" | some n ↦ n ];
    url = c.url;
    channels = map (λ e. e.0) c.channels;
    welcomes = c.welcomes;
    hellos = c.hellos;
  }

  unfoldable pub presence : Stack → Client → Client
  unfolding query_presence settle
  presence k c =
      if connected c
      then query_presence (h.uuid c.draws) (presence_answer ∷ k) c
      else settle k (throws not_connected) c

  -- The loop of `warmUpEcho` from an attempt on, up to its await.
  unfoldable pub warm_up_echo : ℕ → Client → Client
  unfolding query_presence
  warm_up_echo attempt c =
      if ltb attempt 3 && not c.echo_seen && connected c
      then query_presence (h.uuid c.draws) (warm_up attempt ∷ []) c
      else c

  abbrev pub keep_channel : String → ChannelKeys → Client → Client
  keep_channel name keys c = record c {
    channels =
        set c.channels name (record { name = name; pub_key = keys.pub_key; priv = some keys.priv });
    channels_file =
        if c.use_channel_file
        then some (persist_channel_keys h.parse h.print_channels c.channels_file name keys)
        else c.channels_file;
  }

  -- `createChannel`: the key that it returns, the client, and whether the join returned.
  unfoldable pub create_channel : String → Client → ChannelKey × Client × Bool
  unfolding new_channel_keypair join
  create_channel channel c =
      let keys = new_channel_keypair h.crypto.b64e (h.keypair c.draws) in
      let kept = keep_channel channel keys (record c { draws = suc c.draws }) in
      let (c', returned) = join channel keys.pub_key kept in
      (record { name = channel; pub_key = keys.pub_key; priv = some keys.priv }, c', returned)

  unfoldable pub ensure_channel : String → Client → ChannelKey × Client × Bool
  unfolding create_channel
  ensure_channel channel c = elim (get c.channels channel) [
    | some ch ↦ (ch, c, true)
    | none ↦ create_channel channel c
  ]

  unfoldable pub send : String → String → Stack → Client → Client
  unfolding ensure_channel when_ready settle
  send channel text k c =
      if connected c
      then (let (ch, c', returned) = ensure_channel channel c in
          if returned
          then when_ready (send_ready channel text ch ∷ k) c'
          else settle k (throws still_connecting) c')
      else settle k (throws not_connected) c

  abbrev pub send_frame_of : String → String → String → String → Bytes → Client → Frame
  send_frame_of field to id text x_pub c =
      ("op", str "send")
      ∷ (field, str to)
      ∷ ("id", str id)
      ∷ ("ts", num c.clock)
      ∷ (
        "ciphertext",
        str (seal h.crypto (h.nonce (suc c.draws)) text id to c.identity.x_priv x_pub),
      )
      ∷ []

  -- The end of `send` and of `dm`. Two draws: the id and the nonce.
  unfoldable pub send_sealed : String → String → String → Bytes → Stack → Client → Client
  unfolding sign_and_send settle
  send_sealed field to text x_pub k c =
      let drawn : Client = record c { draws = suc (suc c.draws) } in
      elim (sign_and_send h (send_frame_of field to (h.uuid c.draws) text x_pub c) drawn) [
        | none ↦ settle k (throws "not connected") drawn
        | some c' ↦ settle k (returns done) c'
      ]

  unfoldable pub dm : String → String → Stack → Client → Client
  unfolding agent_info settle
  dm to text k c =
      if connected c
      then agent_info to (dm_whois to text ∷ k) c
      else settle k (throws not_connected) c

  -- The keypair that `invite` sends: the one at hand if it has a private key, else a new one.
  unfoldable pub invite_keys : String → Client → ChannelKey × Client × Bool
  unfolding create_channel
  invite_keys channel c = elim (get c.channels channel) [
    | none ↦ create_channel channel c
    | some ch ↦ elim (private_key ch) [
      | none ↦ create_channel channel c
      | some priv ↦ (ch, c, true)
    ]
  ]

  abbrev pub chankey_text : String → ChannelKey → String
  chankey_text channel ch = h.stringify (
      object (
        chankey_payload (record {
          channel = channel;
          pub_key = ch.pub_key;
          priv = elim ch.priv [ none ↦ "" | some s ↦ s ];
        })))

  unfoldable pub invite : String → String → Stack → Client → Client
  unfolding invite_keys dm settle
  invite to channel k c =
      if connected c
      then (let (ch, c', returned) = invite_keys channel c in
          if returned
          then dm to (chankey_text channel ch) k c'
          else settle k (throws still_connecting) c')
      else settle k (throws not_connected) c
