-- ===== src/Dsh/Laws/Links.antt =====
-- What the sends and lookups of dsh-plugin/src/client.ts leave alone: the connection.
use dap.Common.{
  ℕ, ◌≡◌, refl, ◌∙◌, Bool, true, false, ◌&&◌, not, Option, String, List, [], ◌∷◌, if◌then◌else◌,
  ltb, Bool-cases, Option-cases, inl, inr, string_eq,
}
use dap.JsMap.{JsMap, get}
use dap.Crypto.{Bytes}
use dap.Config.{ConfigUpdate, persist_dap_config}
use dap.Client.State.{Frame, ReadyState}
use dap.Client.Wire.{is_opened, is_connecting}
use dap.Client.Invites.{private_key}
use dap.Dsh.State.{Host, Client, Stack, Outcome, Waiter, throws, send_ready, dm_whois}
use dap.Dsh.Wire.{
  settle, settle_all, ws_send, surface_error, sign_and_send, persist_config, ready_state, connected,
  not_connected, still_connecting,
}
use dap.Dsh.Calls.{
  when_ready, agent_info, join, join_frame, query_presence, presence_query, presence, warm_up_echo,
  create_channel, ensure_channel, send, send_sealed, dm, invite_keys, invite, chankey_text,
}

-- The connection of a client.
pub record Link : Type 0 where
  pub ws : Option ℕ
  pub retry_in : Option ℕ
  pub stopped : Bool
  pub sockets : JsMap ℕ ReadyState
  pub next_socket : ℕ

unfoldable pub link : Client → Link
link c = record {
  ws = c.ws;
  retry_in = c.retry_in;
  stopped = c.stopped;
  sockets = c.sockets;
  next_socket = c.next_socket;
}

-- Both branches of a test have the link `l`.
pub link-if :
    {l : Link} (b : Bool) (x y : Client) → link x ≡ l → link y ≡ l → link (if b then x else y) ≡ l
link-if true x y p q = p
link-if false x y p q = q

pub link-settle : (k : Stack) (o : Outcome) (c : Client) → link (settle k o c) ≡ link c
unfolding settle link
link-settle [] o c = refl
link-settle (a ∷ k) o c = refl

pub link-settle_all :
    (ws : List Waiter) (o : Outcome) (c : Client) → link (settle_all ws o c) ≡ link c
unfolding settle_all
link-settle_all [] o c = refl
link-settle_all (w ∷ ws) o c = link-settle_all ws o (settle w.stack o c) ∙ link-settle w.stack o c

pub link-ws_send : (f : Frame) (c : Client) → link (ws_send f c).0 ≡ link c
unfolding ws_send link
link-ws_send f c = elim (Bool-cases (is_connecting (ready_state c))) [
  | inl early ↦ rw early refl
  | inr on ↦ rw on (link-if (is_opened (ready_state c)) _ _ refl refl)
]

pub link-surface_error : (code msg : String) (c : Client) → link (surface_error code msg c) ≡ link c
unfolding surface_error link
link-surface_error code msg c = refl

pub link-when_ready : (k : Stack) (c : Client) → link (when_ready k c) ≡ link c
unfolding when_ready link
link-when_ready k c = link-if (connected c) _ _ (link-settle k _ c) refl

pub link-agent_info : (id : String) (k : Stack) (c : Client) → link (agent_info id k c) ≡ link c
unfolding agent_info link
link-agent_info id k c = elim (Option-cases (get c.known id)) [
  | inr (i, hit) ↦ rw (hit, agent_info) (link-settle k _ c)
  | inl miss ↦
      rw (miss, agent_info)
        (link-if (is_connecting (ready_state c)) _ _ (link-settle k _ _) (link-ws_send _ _))
]

pub link-join : (channel p : String) (c : Client) → link (join channel p c).0 ≡ link c
unfolding join
link-join channel p c = link-ws_send (join_frame channel p) c

pub link-query_presence :
    (id : String) (k : Stack) (c : Client) → link (query_presence id k c) ≡ link c
unfolding query_presence link
link-query_presence id k c = link-ws_send (presence_query id) _

module _ (h : Host) where
  pub link-persist_config : (u : ConfigUpdate) (c : Client) → link (persist_config h u c) ≡ link c
  unfolding persist_config link
  link-persist_config u c =
      elim (Option-cases (persist_dap_config h.parse h.print_config u c.config_file)) [
        | inl fails ↦ rw (fails, persist_config) refl
        | inr (text, written) ↦ rw (written, persist_config) refl
      ]

  pub link-presence : (k : Stack) (c : Client) → link (presence h k c) ≡ link c
  unfolding presence
  link-presence k c = link-if (connected c) _ _ (link-query_presence _ _ c) (link-settle k _ c)

  pub link-warm_up_echo : (n : ℕ) (c : Client) → link (warm_up_echo h n c) ≡ link c
  unfolding warm_up_echo
  link-warm_up_echo n c =
      link-if (ltb n 3 && not c.echo_seen && connected c) _ _ (link-query_presence _ _ c) refl

  pub link-create_channel : (s : String) (c : Client) → link (create_channel h s c).1 ≡ link c
  unfolding create_channel link
  link-create_channel s c = link-join s _ _

  pub link-ensure_channel : (s : String) (c : Client) → link (ensure_channel h s c).1 ≡ link c
  unfolding ensure_channel
  link-ensure_channel s c = elim (Option-cases (get c.channels s)) [
    | inr (ch, hit) ↦ rw (hit, ensure_channel) refl
    | inl miss ↦ rw (miss, ensure_channel) (link-create_channel s c)
  ]

  pub link-send :
      (channel text : String) (k : Stack) (c : Client) → link (send h channel text k c) ≡ link c
  unfolding send
  link-send channel text k c = elim (Bool-cases (connected c)) [
    | inr down ↦ rw (down, send) (link-settle k (throws not_connected) c)
    | inl up ↦
        let (ch, c', returned) = ensure_channel h channel c in
        rw (up, send)
          (elim (Bool-cases returned) [
            | inl joined ↦ rw joined (
                link-when_ready (send_ready channel text ch ∷ k) c' ∙ link-ensure_channel channel c)
            | inr threw ↦
                rw threw
                  (link-settle k (throws still_connecting) c' ∙ link-ensure_channel channel c)
          ])
  ]

  pub link-send_sealed :
      (field to text : String) (x : Bytes) (k : Stack) (c : Client)
      → link (send_sealed h field to text x k c) ≡ link c
  unfolding send_sealed sign_and_send link ready_state
  link-send_sealed field to text x k c = elim (Bool-cases (is_opened (ready_state c))) [
    | inl up ↦ rw (up, send_sealed, sign_and_send) (link-settle k _ _)
    | inr down ↦ rw (down, send_sealed, sign_and_send) (link-settle k _ _)
  ]

  pub link-dm : (to text : String) (k : Stack) (c : Client) → link (dm h to text k c) ≡ link c
  unfolding dm
  link-dm to text k c = elim (Bool-cases (connected c)) [
    | inl up ↦ rw (up, dm) (link-agent_info to (dm_whois to text ∷ k) c)
    | inr down ↦ rw (down, dm) (link-settle k (throws not_connected) c)
  ]

  pub link-invite_keys : (s : String) (c : Client) → link (invite_keys h s c).1 ≡ link c
  unfolding invite_keys
  link-invite_keys s c = elim (Option-cases (get c.channels s)) [
    | inl miss ↦ rw (miss, invite_keys) (link-create_channel s c)
    | inr (ch, hit) ↦ elim (Option-cases (private_key ch)) [
      | inl blank ↦ rw (hit, blank, invite_keys) (link-create_channel s c)
      | inr (priv, full) ↦ rw (hit, full, invite_keys) refl
    ]
  ]

  pub link-invite :
      (to channel : String) (k : Stack) (c : Client) → link (invite h to channel k c) ≡ link c
  unfolding invite
  link-invite to channel k c = elim (Bool-cases (connected c)) [
    | inr down ↦ rw (down, invite) (link-settle k (throws not_connected) c)
    | inl up ↦
        let (ch, c', returned) = invite_keys h channel c in
        rw (up, invite)
          (elim (Bool-cases returned) [
            | inl joined ↦
                rw joined (link-dm to (chankey_text h channel ch) k c' ∙ link-invite_keys channel c)
            | inr threw ↦
                rw threw (link-settle k (throws still_connecting) c' ∙ link-invite_keys channel c)
          ])
  ]
