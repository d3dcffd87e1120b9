-- ===== src/Dsh/Laws/Errors.antt =====
-- What `dap_connect` of dsh-plugin/src/index.ts leaves behind where it throws.
use dap.Common.{
  ℕ, suc, ◌≡◌, refl, ap, ◌∙◌, Bool, true, false, Option, none, some, String, ◌∷◌, string_eq, nat_eq,
  arith,
}
use dap.JsMap.{JsMap, get, set, get-set, is_some}
use dap.Config.{ConfigUpdate, persist_dap_config}
use dap.Channels.{ChannelKeys, new_channel_keypair}
use dap.Client.State.{connecting, Frame, ChannelKey}
use dap.Dsh.State.{Host, Client}
use dap.Dsh.Wire.{ready_state, ws_send, still_connecting}
use dap.Dsh.Calls.{ensure_channel, create_channel, join, join_frame, keep_channel}
use dap.Dsh.Plugin.{Plugin, threw, reply, with_client}
use dap.Dsh.Tools.{connect_to, go_to, save_target, take_over, target_update, url_of, given_url}
use dap.Dsh.Laws.Tools.{plugin_link}
use dap.Dsh.Laws.Links.{link}

ws_send-dialling :
    (f : Frame) (c : Client) → ready_state c ≡ some connecting → ws_send f c ≡ (c, false)
unfolding ws_send
ws_send-dialling f c dialling = rw (dialling, ws_send) refl

has-set :
    (m : JsMap String ChannelKey) (s : String) (ch : ChannelKey)
    → is_some (get (set m s ch) s) ≡ true
has-set m s ch = ground (arith, get-set m s s ch, string_eq.same_iff s s)

saved_if :
    (file : Option String) (p saved : Plugin)
    → elim file as (λ _. Option Plugin) [
      | none ↦ none
      | some text ↦ some (with_client (record p.client { config_file = some text }) p)
    ]
      ≡ some saved
    → (file : Option String) × (saved ≡ with_client (record p.client { config_file = file }) p)
saved_if none p saved e = absurd (ground (arith, e))
saved_if (some text) p saved e = (some text, ground (arith, e))

module _ (h : Host) where
  abbrev new_keys : Client → ChannelKeys
  new_keys c = new_channel_keypair h.crypto.b64e (h.keypair c.draws)

  -- The client with a new channel's keypair.
  abbrev with_channel : String → Client → Client
  with_channel s c = keep_channel h s (new_keys c) (record c { draws = suc c.draws })

  abbrev new_channel : String → Client → ChannelKey
  new_channel s c = record {
    name = s;
    pub_key = (new_keys c).pub_key;
    priv = some (new_keys c).priv;
  }

  -- A new channel on a socket that is still connecting: its keypair is kept, and the join throws.
  ensure_channel-dialling :
      (s : String) (c : Client)
      → ready_state c ≡ some connecting
      → get c.channels s ≡ none
      → ensure_channel h s c ≡ (new_channel s c, with_channel s c, false)
  unfolding ensure_channel create_channel join ready_state
  ensure_channel-dialling s c dialling new =
      rw (new, ensure_channel)
        (ap (λ (r : Client × Bool). (new_channel s c, r.0, r.1))
          (ws_send-dialling (join_frame s (new_keys c).pub_key) (with_channel s c) dialling))

  save_target-some :
      (u : ConfigUpdate) (p saved : Plugin)
      → save_target h u p ≡ some saved
      → (file : Option String) × (saved ≡ with_client (record p.client { config_file = file }) p)
  unfolding save_target
  save_target-some u p saved e =
      saved_if (persist_dap_config h.parse h.print_config u p.client.config_file) p saved e

  go_to-dialling :
      (host name : Option String) (s url : String) (n : ℕ) (p : Plugin)
      → ready_state p.client ≡ some connecting
      → get p.client.channels s ≡ none
      → go_to h host name (some s) url n p
        ≡ reply n (threw still_connecting) (with_client (with_channel s p.client) p)
  unfolding go_to
  go_to-dialling host name s url n p dialling new =
      rw (ensure_channel-dialling s p.client dialling new, go_to) refl

  -- While the client is dialling, `dap_connect` with a channel that it does not know throws, once the
  -- url is good and the config file was written: the plugin has taken over the new url and
  -- registered the channel's new keypair, but the client keeps its connection as it is.
  pub connect_to-dialling :
      (host name : Option String) (s url : String) (n : ℕ) (p saved : Plugin)
      → url_of h host p ≡ some url
      → save_target h
          (target_update h (given_url h host url) name (some s))
          (take_over h name url p)
        ≡ some saved
      → ready_state p.client ≡ some connecting
      → get p.client.channels s ≡ none
      → let q = connect_to h host name (some s) n p in
        (q.answers ≡ (n, threw still_connecting) ∷ p.answers)
        × (q.settings_url ≡ url)
        × (is_some (get q.client.channels s) ≡ true)
        × (plugin_link q ≡ plugin_link p)
  unfolding connect_to reply ready_state link
  connect_to-dialling host name s url n p saved good written dialling new =
      let named = take_over h name url p in
      let (file, is_saved) =
        save_target-some (target_update h (given_url h host url) name (some s)) named saved
          written in
      let before : Plugin = with_client (record p.client { config_file = file }) named in
      let failed : Plugin = with_client (with_channel s before.client) before in
      let ends : connect_to h host name (some s) n p ≡ reply n (threw still_connecting) failed =
        rw (good, written, connect_to)
          (ap (go_to h host name (some s) url n) is_saved
            ∙ go_to-dialling host name s url n before dialling new) in
      (
        ap (λ q. q.answers) ends,
        ap (λ q. q.settings_url) ends,
        ap (λ q. is_some (get q.client.channels s)) ends ∙ has-set p.client.channels s _,
        ap plugin_link ends,
      )
