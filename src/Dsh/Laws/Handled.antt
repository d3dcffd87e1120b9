-- ===== src/Dsh/Laws/Handled.antt =====
-- What the frame handlers, the await points and the timers of dsh-plugin/src/client.ts leave alone:
-- the connection.
use dap.Common.{
  ℕ, suc, ◌≡◌, refl, ◌∙◌, true, subst, Option, none, some, String, List, [], ◌∷◌, ◌==◌,
  if◌then◌else◌, Bool-cases, Option-cases, inl, inr, string_eq, nat_beq, length,
}
use dap.JsMap.{JsMap, get}
use dap.Json.{Value, undefined, null, bool, num, str, arr, obj, entries, prop, to_string}
use dap.Crypto.{◌+s+◌}
use dap.Channels.{ChankeyInvite, parse_chankey_invite}
use dap.Config.{no_update, issue}
use dap.Client.State.{Frame, ChannelKey}
use dap.Dsh.State.{
  Host, Client, Stack, Outcome, Waiter, Await, returns, throws, done, nobody, info, answer,
  looked_up, AgentInfo, directory, whois_info, send_ready, dm_whois, dm_ready, presence_answer,
  warm_up, msg_whois,
}
use dap.Dsh.Wire.{settle, settle_all, ws_send, surface_error, still_connecting}
use dap.Dsh.Calls.{waiting_at, join, keep_channel, warm_up_echo}
use dap.Dsh.Handlers.{
  settle_map, fail_whois_waiters, is_text, on_hub_error_frame, settle_presence, reply_id,
  resolve_presence, undecryptable, Decrypted, plain, failed, on_agent_info, join_all, on_welcome,
  adopt_secret, enroll_frame, flush_frame,
}
use dap.Dsh.Inbound.{
  accept_invite, deliver, receive, on_msg, handle_frame, handle_value, handle_raw, decrypt_msg,
}
use dap.Dsh.Resume.{online_agents, listed, roster_of, dm_to_peer, resume, whois_answer}
use dap.Dsh.Socket.{ready_times_out, presence_times_out, whois_times_out, stack_at}
use dap.Dsh.Laws.Links.{
  link, link-if, link-settle, link-settle_all, link-ws_send, link-when_ready, link-agent_info,
  link-join, link-persist_config, link-warm_up_echo, link-send_sealed,
}

pub link-settle_map :
    (o : Outcome) (m : JsMap String (List Waiter)) (c : Client) → link (settle_map o m c) ≡ link c
unfolding settle_map
link-settle_map o [] c = refl
link-settle_map o ((k, ws) ∷ m) c = link-settle_map o m (settle_all ws o c) ∙ link-settle_all ws o c

pub link-fail_whois_waiters :
    (reason : String) (c : Client) → link (fail_whois_waiters reason c) ≡ link c
unfolding fail_whois_waiters link
link-fail_whois_waiters reason c = link-settle_map (throws reason) c.whois_waiters c

link-settle_presence :
    (o : Outcome) (m : JsMap String Waiter) (c : Client) → link (settle_presence o m c) ≡ link c
unfolding settle_presence
link-settle_presence o [] c = refl
link-settle_presence o ((id, w) ∷ m) c =
    link-settle_presence o m (settle w.stack o c) ∙ link-settle w.stack o c

link-on_hub_error_frame : (f : Frame) (c : Client) → link (on_hub_error_frame f c) ≡ link c
unfolding on_hub_error_frame link surface_error
link-on_hub_error_frame f c = elim (Bool-cases (is_text "unknown_agent" (prop f "code"))) [
  | inl unknown ↦ rw unknown (link-settle_map (returns nobody) c.whois_waiters _)
  | inr other ↦ rw other refl
]

link-resolve_presence : (f : Frame) (c : Client) → link (resolve_presence f c) ≡ link c
unfolding resolve_presence link
link-resolve_presence f c = elim (Bool-cases (reply_id f == "")) [
  | inl anonymous ↦ rw anonymous (
      link-if c.echo_seen c _ refl (link-settle_presence (returns (answer f)) c.presence_waiters c))
  | inr named ↦ rw named (elim (Option-cases (get c.presence_waiters (reply_id f))) [
    | inl nobody_waits ↦ rw nobody_waits refl
    | inr (w, waits) ↦ rw waits (link-settle w.stack (returns (answer f)) _)
  ])
]

link-undecryptable : (err : String) (c : Client) → link (undecryptable err c) ≡ link c
unfolding undecryptable link surface_error
link-undecryptable err c = refl

module _ (h : Host) where
  link-on_agent_info : (f : Frame) (c : Client) → link (on_agent_info h f c) ≡ link c
  unfolding on_agent_info link
  link-on_agent_info f c =
      link-settle_all (waiting_at c.whois_waiters (to_string (prop f "agentId"))) _ _

  link-join_all : (m : JsMap String ChannelKey) (c : Client) → link (join_all h m c) ≡ link c
  unfolding join_all
  link-join_all [] c = refl
  link-join_all ((name, ch) ∷ m) c =
      link-join_all m (join ch.name ch.pub_key c).0 ∙ link-join ch.name ch.pub_key c

  link-on_welcome : (c : Client) → link (on_welcome h c) ≡ link c
  unfolding on_welcome link
  link-on_welcome c =
      let fresh : Client = record c {
        welcomed = true;
        welcomes = suc c.welcomes;
        delay = c.initial_ms;
      } in
      let enrolling = if c.enroll_mode then (ws_send (enroll_frame h) fresh).0 else fresh in
      let flushed = (ws_send (flush_frame h) enrolling).0 in
      let joined = join_all h flushed.channels flushed in
      let warming = warm_up_echo h 0 joined in
      link-settle_all warming.ready_waiters (returns done) (record warming { ready_waiters = [] })
      ∙ link-warm_up_echo h 0 joined
      ∙ link-join_all flushed.channels flushed
      ∙ link-ws_send (flush_frame h) enrolling
      ∙ link-if c.enroll_mode (ws_send (enroll_frame h) fresh).0 fresh
          (link-ws_send (enroll_frame h) fresh) refl

  link-adopt_secret : (s : String) (c : Client) → link (adopt_secret h s c) ≡ link c
  unfolding adopt_secret link
  link-adopt_secret s c = elim (Bool-cases (s == "")) [
    | inl empty ↦ rw empty refl
    | inr full ↦ rw full (link-persist_config h (record no_update { client_secret = issue s }) _)
  ]

  link-accept_invite :
      (i : ChankeyInvite) (from : String) (c : Client) → link (accept_invite h i from c) ≡ link c
  unfolding accept_invite link
  link-accept_invite i from c =
      let kept = keep_channel h i.channel (record { pub_key = i.pub_key; priv = i.priv }) c in
      elim (Bool-cases (join i.channel i.pub_key kept).1) [
        | inl joined ↦ rw (joined, accept_invite) (link-join i.channel i.pub_key kept)
        | inr threw ↦
            rw (threw, accept_invite)
              (link-undecryptable still_connecting (join i.channel i.pub_key kept).0
                ∙ link-join i.channel i.pub_key kept)
      ]

  link-receive : (d : Decrypted) (c : Client) → link (receive h d c) ≡ link c
  unfolding receive deliver link
  link-receive (failed e) c = link-undecryptable e c
  link-receive (plain ev) c =
      link-if ev.dm _ (deliver h ev c)
        (elim (Option-cases (parse_chankey_invite h.parse h.crypto.b64d ev.text)) [
          | inl chat ↦ rw (chat, receive) refl
          | inr (i, invites) ↦ rw (invites, receive) (link-accept_invite i ev.from c)
        ])
        refl

  link-on_msg : (f : Frame) (c : Client) → link (on_msg h f c) ≡ link c
  unfolding on_msg
  link-on_msg f c = link-agent_info (to_string (prop f "from")) (msg_whois f ∷ []) c

  link-handle_frame : (f : Frame) (c : Client) → link (handle_frame h f c) ≡ link c
  unfolding handle_frame
  link-handle_frame f c =
      let op = prop f "op" in
      link-if (is_text "enrolled" (prop f "t")) _ _
        (link-adopt_secret (to_string (prop f "secret")) c)
        (link-if (is_text "welcome" op) _ _ (link-on_welcome c) (
          link-if (is_text "agent_info" op) _ _ (link-on_agent_info f c) (
            link-if (is_text "msg" op) _ _ (link-on_msg f c) (
              link-if (is_text "error" op) _ _ (link-on_hub_error_frame f c)
                (link-if (is_text "presence" op) _ _ (link-resolve_presence f c) refl)))))

  -- The client that is there, if there is one, has the link of `c`.
  abbrev SameLink : Client → Option Client → Type 0
  SameLink c none = Unit
  SameLink c (some d) = link d ≡ link c

  handle_value-SameLink : (v : Value) (c : Client) → SameLink c (handle_value h v c)
  unfolding link
  handle_value-SameLink undefined c = tt
  handle_value-SameLink null c = tt
  handle_value-SameLink (obj fs) c = link-handle_frame (entries fs) c
  handle_value-SameLink (bool b) c = refl
  handle_value-SameLink (num n) c = refl
  handle_value-SameLink (str s) c = refl
  handle_value-SameLink (arr xs) c = refl

  handle_raw-SameLink : (raw : String) (c : Client) → SameLink c (handle_raw h raw c)
  unfolding handle_raw link
  handle_raw-SameLink raw c = elim (Option-cases (h.parse raw)) [
    | inl garbled ↦ rw (garbled, SameLink, handle_raw) refl
    | inr (v, parsed) ↦ rw (parsed, SameLink, handle_raw) (handle_value-SameLink v c)
  ]

  -- A message, unless its handler throws.
  pub link-handle_raw :
      (raw : String) (c c' : Client) → handle_raw h raw c ≡ some c' → link c' ≡ link c
  link-handle_raw raw c c' handled = subst (SameLink c) handled (handle_raw-SameLink raw c)

  link-roster_of : (f : Frame) (k : Stack) (c : Client) → link (roster_of h f k c) ≡ link c
  unfolding roster_of
  link-roster_of f k c = elim (Option-cases (online_agents h (listed h (prop f "agents")) c)) [
    | inl broken ↦ rw (broken, roster_of) (link-settle k _ c)
    | inr (agents, read) ↦ rw (read, roster_of) (link-settle k _ c)
  ]

  link-dm_to_peer :
      (to text : String) (i : AgentInfo) (k : Stack) (c : Client)
      → link (dm_to_peer h to text i k c) ≡ link c
  unfolding dm_to_peer
  link-dm_to_peer to text i k c = elim (Bool-cases (nat_beq (length i.x_pub) 0)) [
    | inl keyless ↦ rw keyless (link-settle k _ c)
    | inr keyed ↦ rw keyed (link-when_ready (dm_ready to text i ∷ k) c)
  ]

  pub link-resume :
      (a : Await) (k : Stack) (o : Outcome) (c : Client) → link (resume h a k o c) ≡ link c
  unfolding resume
  link-resume (directory id) k (returns nobody) c =
      link-settle k (throws ("unknown_agent: " +s+ id)) c
  link-resume (directory id) k (returns r) c = link-settle k (returns r) c
  link-resume (whois_info id) k (returns (info i)) c =
      link-settle k (returns (looked_up (whois_answer h id i))) c
  link-resume (send_ready channel text ch) k (returns r) c =
      link-send_sealed h "channel" channel text (h.crypto.b64d ch.pub_key) k c
  link-resume (dm_whois to text) k (returns (info i)) c = link-dm_to_peer to text i k c
  link-resume (dm_ready to text i) k (returns r) c = link-send_sealed h "to" to text i.x_pub k c
  link-resume presence_answer k (returns (answer frame)) c = link-roster_of frame k c
  link-resume (warm_up attempt) k o c = link-warm_up_echo h (suc attempt) c
  link-resume (msg_whois frame) k (returns (info i)) c = link-receive (decrypt_msg h frame i c) c
  link-resume (msg_whois frame) k (throws e) c = link-undecryptable e c
  link-resume a k (throws e) c = link-settle k (throws e) c
  link-resume a k (returns r) c = refl

pub link-ready_times_out : (t : ℕ) (c : Client) → link (ready_times_out t c) ≡ link c
unfolding ready_times_out link
link-ready_times_out t c = link-settle (stack_at t c.ready_waiters) _ _

pub link-presence_times_out : (id : String) (c : Client) → link (presence_times_out id c) ≡ link c
unfolding presence_times_out link
link-presence_times_out id c = elim (Option-cases (get c.presence_waiters id)) [
  | inl gone ↦ rw (gone, presence_times_out) refl
  | inr (w, waits) ↦ rw (waits, presence_times_out) (link-settle w.stack _ _)
]

pub link-whois_times_out :
    (id : String) (t : ℕ) (c : Client) → link (whois_times_out id t c) ≡ link c
unfolding whois_times_out link
link-whois_times_out id t c = link-settle (stack_at t (waiting_at c.whois_waiters id)) _ _
