-- ===== src/Client/Laws/Runs/Calls.antt =====
-- The calls of client.ts leave the inbox, the errors and the delays alone.
use dap.Common.{
  ℕ, suc, ◌≡◌, refl, ◌∙◌, subst, Bool, Option, none, some, String, ◌∷◌, Bool-cases, Option-cases,
  inl, inr, string_eq, nat_beq, length,
}
use dap.JsMap.{set, get, has}
use dap.Json.{str}
use dap.Crypto.{Bytes, sign_frame}
use dap.Channels.{ChannelKeys}
use dap.Config.{ConfigUpdate, persist_dap_config}
use dap.Client.State.{
  whois_found, Client, ChannelKey, Frame, Host, Outcome, PeerInfo, Stack, SendResult, throws,
  returns, done, send_ensured, dm_whois, invite_ensured, peer, dm_ready, invite_sent,
}
use dap.Client.Wire.{
  on_message, off_message, settle, ws_send, is_opened, is_connecting, connected, send_frame,
  sign_and_send, persist_config, not_connected,
}
use dap.Client.Calls.{
  add_channel, whois, ready, join, join_when_ready, agent_info, keep_channel, ensure_channel_keys,
  ensure_channel, send, send_sealed, dm, invite, presence, send_frame_of,
}
use dap.Client.Invites.{private_key, poll_pending_invites}
use dap.Client.Resume.{dm_to_peer, invite_with_keys}
use dap.Client.Laws.Frames.{kept-settle, kept-ws_send, kept-ready, kept-join, kept-presence}
use dap.Client.Laws.Backoff.{kept-poll_pending_invites}
use dap.Client.Laws.Runs.Noted.{noted, noted_same}

pub noted-settle : (k : Stack) (o : Outcome) (c : Client) → noted (settle k o c) ≡ noted c
noted-settle k o c = noted_same (settle k o c) c (kept-settle k o c)

pub noted-ws_send : (f : Frame) (c : Client) → noted (ws_send f c) ≡ noted c
noted-ws_send f c = noted_same (ws_send f c) c (kept-ws_send f c)

pub noted-ready : (k : Stack) (c : Client) → noted (ready k c) ≡ noted c
noted-ready k c = noted_same (ready k c) c (kept-ready k c)

pub noted-join :
    (name chan_pubkey : String) (k : Stack) (c : Client)
    → noted (join name chan_pubkey k c) ≡ noted c
noted-join name chan_pubkey k c =
    noted_same (join name chan_pubkey k c) c (kept-join name chan_pubkey k c)

pub noted-join_when_ready :
    (name chan_pubkey : String) (k : Stack) (c : Client)
    → noted (join_when_ready name chan_pubkey k c) ≡ noted c
unfolding join_when_ready send_frame noted
noted-join_when_ready name chan_pubkey k c = elim (Bool-cases (has c.joined name)) [
  | inl known ↦ rw known (noted-settle k (returns done) c)
  | inr new ↦ elim (Bool-cases (is_opened c.socket)) [
    | inl up ↦ rw (new, up) refl
    | inr down ↦ rw (new, down) (noted-settle k (throws "not connected") _)
  ]
]

pub noted-agent_info : (id : String) (k : Stack) (c : Client) → noted (agent_info id k c) ≡ noted c
unfolding agent_info noted
noted-agent_info id k c = elim (Option-cases (get c.known id)) [
  | inr (info, e) ↦ rw (e, agent_info) (noted-settle k (returns (peer info)) c)
  | inl e ↦ elim (Bool-cases (is_connecting c.socket)) [
    | inl dialling ↦ rw (e, dialling, agent_info) (noted-settle k _ _)
    | inr other ↦ rw (e, other, agent_info) (noted-ws_send _ _)
  ]
]

-- A send that does not throw leaves them alone.
abbrev SameNoted : Client → Option Client → Type 0
SameNoted c none = Unit
SameNoted c (some d) = noted d ≡ noted c

SameNoted-send_frame : (f : Frame) (c : Client) → SameNoted c (send_frame f c)
unfolding send_frame noted
SameNoted-send_frame f c = elim (Bool-cases (is_opened c.socket)) [
  | inl up ↦ rw up refl
  | inr down ↦ rw down tt
]

pub noted-whois : (id : String) (k : Stack) (c : Client) → noted (whois id k c) ≡ noted c
unfolding whois
noted-whois id k c = noted-agent_info id (whois_found ∷ k) c

pub noted-on_message : (cb : ℕ) (c : Client) → noted (on_message cb c) ≡ noted c
unfolding on_message noted
noted-on_message cb c = refl

pub noted-off_message : (cb : ℕ) (c : Client) → noted (off_message cb c) ≡ noted c
unfolding off_message noted
noted-off_message cb c = refl

pub noted-add_channel : (ch : ChannelKey) (c : Client) → noted (add_channel ch c) ≡ noted c
unfolding add_channel noted
noted-add_channel ch c = refl

module _ (h : Host) where
  pub noted-keep_channel :
      (ch : ChannelKey) (keys : ChannelKeys) (c : Client)
      → noted (keep_channel h ch keys c) ≡ noted c
  unfolding noted
  noted-keep_channel ch keys c = refl

  pub noted-ensure_channel_keys :
      (name : String) (c : Client) → noted (ensure_channel_keys h name c).1 ≡ noted c
  unfolding ensure_channel_keys noted
  noted-ensure_channel_keys name c = elim (Option-cases (get c.channels name)) [
    | inr (ch, e) ↦ rw (e, ensure_channel_keys) refl
    | inl e ↦ rw (e, ensure_channel_keys) refl
  ]

  pub noted-ensure_channel :
      (name : String) (k : Stack) (c : Client) → noted (ensure_channel h name k c) ≡ noted c
  unfolding ensure_channel
  noted-ensure_channel name k c =
      noted-join name _ _ (ensure_channel_keys h name c).1 ∙ noted-ensure_channel_keys name c

  pub noted-send :
      (channel text : String) (k : Stack) (c : Client) → noted (send h channel text k c) ≡ noted c
  unfolding send
  noted-send channel text k c = elim (Bool-cases (connected c)) [
    | inl up ↦ rw up (noted-ensure_channel channel (send_ensured channel text ∷ k) c)
    | inr down ↦ rw down (noted-settle k (throws not_connected) c)
  ]

  noted-sign_and_send :
      (f : Frame) (c d : Client) → sign_and_send h f c ≡ some d → noted d ≡ noted c
  unfolding sign_and_send send_frame noted
  noted-sign_and_send f c d e =
      let signed = set f "sig" (str (sign_frame h.crypto f c.identity.priv)) in
      subst (SameNoted c) e (SameNoted-send_frame signed c)

  pub noted-send_sealed :
      (field to text : String) (x_pub : Bytes) (result : String → SendResult) (k : Stack)
      (c : Client)
      → noted (send_sealed h field to text x_pub result k c) ≡ noted c
  unfolding send_sealed noted
  noted-send_sealed field to text x_pub result k c =
      let drawn : Client = record c { draws = suc (suc c.draws) } in
      let f : Frame = send_frame_of h field to (h.uuid c.draws) text x_pub c in
      elim (Option-cases (sign_and_send h f drawn)) [
        | inl e ↦ rw (e, send_sealed) (noted-settle k (throws "not connected") drawn)
        | inr (d, e) ↦ rw (e, send_sealed) (noted-settle k _ d ∙ noted-sign_and_send f drawn d e)
      ]

  pub noted-dm : (to text : String) (k : Stack) (c : Client) → noted (dm h to text k c) ≡ noted c
  unfolding dm
  noted-dm to text k c = elim (Bool-cases (connected c)) [
    | inl up ↦ rw up (noted-agent_info to (dm_whois to text ∷ k) c)
    | inr down ↦ rw down (noted-settle k (throws not_connected) c)
  ]

  pub noted-invite :
      (channel to : String) (k : Stack) (c : Client) → noted (invite h channel to k c) ≡ noted c
  unfolding invite
  noted-invite channel to k c = noted-ensure_channel channel (invite_ensured channel to ∷ k) c

  pub noted-presence : (k : Stack) (c : Client) → noted (presence h k c) ≡ noted c
  noted-presence k c = noted_same (presence h k c) c (kept-presence h k c)

  pub noted-poll_pending_invites : (c : Client) → noted (poll_pending_invites h c) ≡ noted c
  noted-poll_pending_invites c =
      noted_same (poll_pending_invites h c) c (kept-poll_pending_invites h c)

  pub noted-persist_config :
      (u : ConfigUpdate) (c : Client) → noted (persist_config h u c) ≡ noted c
  unfolding persist_config noted
  noted-persist_config u c =
      elim (Option-cases (persist_dap_config h.parse h.print_config u c.config_file)) [
        | inl e ↦ rw (e, persist_config) refl
        | inr (text, e) ↦ rw (e, persist_config) refl
      ]

  pub noted-dm_to_peer :
      (to text : String) (info : PeerInfo) (k : Stack) (c : Client)
      → noted (dm_to_peer h to text info k c) ≡ noted c
  unfolding dm_to_peer
  noted-dm_to_peer to text info k c = elim (Bool-cases (nat_beq (length info.x_pub) 0)) [
    | inl no_key ↦ rw no_key (noted-settle k _ c)
    | inr has_key ↦ rw has_key (noted-ready (dm_ready to text info ∷ k) c)
  ]

  pub noted-invite_with_keys :
      (channel to : String) (ch : ChannelKey) (created : Bool) (k : Stack) (c : Client)
      → noted (invite_with_keys h channel to ch created k c) ≡ noted c
  unfolding invite_with_keys
  noted-invite_with_keys channel to ch created k c = elim (Option-cases (private_key ch)) [
    | inl e ↦ rw (e, invite_with_keys) (noted-settle k _ c)
    | inr (priv, e) ↦
        rw (e, invite_with_keys) (noted-dm to _ (invite_sent channel ch created ∷ k) c)
  ]
