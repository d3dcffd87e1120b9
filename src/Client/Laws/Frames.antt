-- ===== src/Client/Laws/Frames.antt =====
-- What the helpers of client.ts leave alone.
use dap.Common.{
  ℕ, ◌≡◌, refl, ◌∙◌, Bool, not, ◌||◌, Option, String, List, [], ◌∷◌, Bool-cases, inl, inr,
}
use dap.JsMap.{JsMap}
use dap.Client.State.{
  Client, ChannelKey, HubErrorEvent, MsgEvent, Stack, Outcome, Waiter, PeerInfo, Frame, Host,
  ignored, join_ready,
}
use dap.Config.{PendingInvite}
use dap.Client.Wire.{settle, settle_all, ws_send, is_opened, connected}
use dap.Client.Calls.{ready, join, presence, ask_presence, warm_up_presence, park_presence}
use dap.Client.Handlers.{join_all}

-- What parking, waking and sending do not change.
pub record Kept : Type 0 where
  pub delay : ℕ
  pub initial_ms : ℕ
  pub max_ms : ℕ
  pub retry_in : Option ℕ
  pub stopped : Bool
  pub inbox : List MsgEvent
  pub error_ring : List HubErrorEvent
  pub observed : List MsgEvent
  pub reported : List HubErrorEvent
  pub channels : JsMap String ChannelKey
  pub known : JsMap String PeerInfo
  pub pending_invites : List PendingInvite
  pub config_file : Option String
  pub re_enrolled : Bool

unfoldable pub kept : Client → Kept
kept c = record {
  delay = c.delay;
  initial_ms = c.initial_ms;
  max_ms = c.max_ms;
  retry_in = c.retry_in;
  stopped = c.stopped;
  inbox = c.inbox;
  error_ring = c.error_ring;
  observed = c.observed;
  reported = c.reported;
  channels = c.channels;
  known = c.known;
  pending_invites = c.pending_invites;
  config_file = c.config_file;
  re_enrolled = c.re_enrolled;
}

pub kept-settle : (k : Stack) (o : Outcome) (c : Client) → kept (settle k o c) ≡ kept c
unfolding settle kept
kept-settle [] o c = refl
kept-settle (a ∷ k) o c = refl

pub kept-settle_all :
    (ws : List Waiter) (o : Outcome) (c : Client) → kept (settle_all ws o c) ≡ kept c
unfolding settle_all
kept-settle_all [] o c = refl
kept-settle_all (w ∷ ws) o c = kept-settle_all ws o (settle w.stack o c) ∙ kept-settle w.stack o c

pub kept-ws_send : (f : Frame) (c : Client) → kept (ws_send f c) ≡ kept c
unfolding ws_send kept
kept-ws_send f c = elim (Bool-cases (is_opened c.socket)) [
  | inl is_open ↦ rw is_open refl
  | inr shut ↦ rw shut refl
]

pub kept-ready : (k : Stack) (c : Client) → kept (ready k c) ≡ kept c
unfolding ready kept
kept-ready k c = elim (Bool-cases (connected c)) [
  | inl up ↦ rw up (kept-settle k _ c)
  | inr down ↦ rw down refl
]

pub kept-join :
    (name chan_pubkey : String) (k : Stack) (c : Client) → kept (join name chan_pubkey k c) ≡ kept c
unfolding join
kept-join name chan_pubkey k c = kept-ready (join_ready name chan_pubkey ∷ k) c

module _ (h : Host) where
  pub kept-join_all : (m : JsMap String ChannelKey) (c : Client) → kept (join_all h m c) ≡ kept c
  unfolding join_all
  kept-join_all [] c = refl
  kept-join_all ((name, ch) ∷ m) c =
      kept-join_all m (join name ch.pub_key (ignored ∷ []) c)
      ∙ kept-join name ch.pub_key (ignored ∷ []) c

  pub kept-presence : (k : Stack) (c : Client) → kept (presence h k c) ≡ kept c
  unfolding presence ask_presence park_presence kept
  kept-presence k c = elim (Bool-cases (connected c)) [
    | inl up ↦ rw up (kept-ws_send _ _)
    | inr down ↦ rw down (kept-settle k _ c)
  ]

  pub kept-warm_up_presence : (n : ℕ) (c : Client) → kept (warm_up_presence h n c) ≡ kept c
  unfolding warm_up_presence park_presence kept
  kept-warm_up_presence n c = elim (Bool-cases (c.echo_seen || not (connected c))) [
    | inl skip ↦ rw skip refl
    | inr ask ↦ rw ask (kept-ws_send _ _)
  ]
