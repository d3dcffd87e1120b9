-- ===== src/Dsh/Tools.antt =====
-- adapters/dsh-plugin/src/index.ts: connectTo and the tools.
use dap.Common.{ℕ, Bool, true, not, Option, none, some, String, [], ◌∷◌, string_eq, if◌then◌else◌}
use dap.Config.{env_str, no_update, ConfigUpdate, persist_dap_config}
use dap.Client.Invites.{is_agent_id}
use dap.Dsh.State.{Host, Client, by_name_presence, invite_caught, caller}
use dap.Dsh.Wire.{connected, agent_id, not_connected, still_connecting, drain_errors}
use dap.Dsh.Calls
use dap.Dsh.Calls.{presence, send, dm, invite, whois, ensure_channel}
use dap.Dsh.Socket.{retarget}
use dap.Dsh.Plugin.{
  Plugin, Tool, connecting_to, dap_connect, dap_dm, dap_inbox, dap_invite, dap_peers, dap_send,
  dap_status, dap_whois, disabled_error, mailbox, refused, reply, run_hooks, status, threw,
  with_client,
}

module _ (h : Host) where
  abbrev pub url_of : Option String → Plugin → Option String
  url_of none p = some p.settings_url
  url_of (some s) p = h.normalize_host s

  abbrev pub ensure_given : Option String → Client → Client × Bool
  ensure_given none c = (c, true)
  ensure_given (some channel) c =
      let (ch, c', returned) = ensure_channel h channel c in (c', returned)

  abbrev pub given_url : Option String → String → Option String
  given_url none url = none
  given_url (some host) url = some url

  -- The settings that `connectTo` takes over.
  abbrev pub take_over : Option String → String → Plugin → Plugin
  take_over name url p = record p {
    settings_name = elim name [ none ↦ p.settings_name | some s ↦ some s ];
    settings_url = url;
  }

  abbrev pub target_update : Option String → Option String → Option String → ConfigUpdate
  target_update url name channel = record no_update {
    url = url;
    name = name;
    channels = elim channel [ none ↦ none | some s ↦ some (s ∷ []) ];
  }

  -- And persists: `none` where that throws, since the file's channels are no list.
  unfoldable pub save_target : ConfigUpdate → Plugin → Option Plugin
  unfolding persist_dap_config
  save_target update p =
      elim (persist_dap_config h.parse h.print_config update p.client.config_file) [
        | none ↦ none
        | some text ↦ some (with_client (record p.client { config_file = some text }) p)
      ]

  abbrev pub key_of : Option String → Option String
  key_of none = none
  key_of (some name) = some (h.key_path name)

  -- The rest of `connectTo`.
  unfoldable pub go_to :
      Option String → Option String → Option String → String → ℕ → Plugin → Plugin
  unfolding ensure_channel retarget reply
  go_to host name channel url n p =
      let (ensured, returned) = ensure_given channel p.client in
      let (aimed, dialled) = retarget h (given_url host url) (key_of name) name ensured in
      if not returned
      then reply n (threw still_connecting) (with_client ensured p)
      else if not dialled
      then reply n (threw "bad key file") (with_client aimed p)
      else reply n (connecting_to url (agent_id h aimed)) (with_client aimed p)

  unfoldable pub connect_to : Option String → Option String → Option String → ℕ → Plugin → Plugin
  unfolding save_target go_to reply
  connect_to host name channel n p = elim (url_of host p) [
    | none ↦ reply n (threw "Invalid URL") p
    | some url ↦
        let named = take_over name url p in
        elim (save_target (target_update (given_url host url) name channel) named) [
          | none ↦ reply n (threw "channels is not iterable") named
          | some saved ↦ go_to host name channel url n saved
        ]
  ]

  abbrev pub down : ℕ → Plugin → Plugin
  down n p = reply n (refused not_connected) p

  -- The tools of an active plugin, up to their first await.
  unfoldable pub execute : Tool → ℕ → Plugin → Plugin
  unfolding send dm invite presence whois drain_errors connect_to reply
  execute (dap_send channel text) n p =
      if connected p.client
      then with_client (send h channel text (caller n ∷ []) p.client) p
      else down n p
  execute (dap_dm to text) n p =
      if connected p.client then with_client (dm h to text (caller n ∷ []) p.client) p else down n p
  execute (dap_invite who given) n p =
      let channel : String = elim (env_str given) [ none ↦ "general" | some s ↦ s ] in
      if connected p.client
      then if is_agent_id who
        then with_client (invite h who channel (invite_caught n ∷ caller n ∷ []) p.client) p
        else with_client
            (presence h (by_name_presence who channel ∷ invite_caught n ∷ caller n ∷ []) p.client) p
      else down n p
  execute dap_inbox n p =
      reply n (mailbox p.client.inbox p.client.error_ring) (with_client (drain_errors p.client).1 p)
  execute (dap_whois id) n p = with_client (whois id (caller n ∷ []) p.client) p
  execute dap_status n p = reply n (status (Calls.status h p.client)) p
  execute dap_peers n p =
      if connected p.client then with_client (presence h (caller n ∷ []) p.client) p else down n p
  execute (dap_connect host name channel) n p = elim (env_str host) [
    | some s ↦ connect_to (some s) (env_str name) (env_str channel) n p
    | none ↦ elim (env_str name) [
      | some s ↦ connect_to none (some s) (env_str channel) n p
      | none ↦ reply n (refused "host or name required") p
    ]
  ]

  -- A call of a registered tool: without a master secret the plugin registers shells that answer
  -- the one error.
  unfoldable pub call_tool : Tool → ℕ → Plugin → Plugin
  unfolding execute reply
  call_tool tool n p = elim (env_str h.environment.master_secret) [
    | none ↦ reply n (refused disabled_error) p
    | some secret ↦ run_hooks h (execute tool n p)
  ]
