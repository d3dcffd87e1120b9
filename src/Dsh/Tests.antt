-- ===== src/Dsh/Tests.antt =====
-- Plugins of dsh-plugin/src in concrete states, over toy surroundings.
use dap.Common.{◌≡◌, ◌⊎◌, refl, true, false, none, some, [], ◌∷◌, nat_eq, string_eq, arith}
use dap.JsMap.{get, set, is_some}
use dap.Crypto.{KeyPair}
use dap.Crypto.Tests.{toy, twelve_ones}
use dap.Client.State.{connecting, closed}
use dap.Dsh.State.{Host, Client, Identity}
use dap.Dsh.Handlers.{fail_whois_waiters, settle_map}
use dap.Dsh.Wire.{ready_state, still_connecting}
use dap.Dsh.Socket.{start, connect, on_close, on_disconnect, turn}
use dap.Config.{
  default_url, persist_dap_config, merge_config, read_dap_config, set_channels, merged_channels,
  set_if_given, set_invites, set_secret,
}
use dap.Channels.{load_channel_keys}
use dap.Dsh.Laws.Errors.{connect_to-dialling}
use dap.Dsh.Plugin.{Plugin, with_client, threw, run_hooks, run_hook_list}
use dap.Dsh.Tools.{take_over, target_update, save_target, connect_to}
use dap.Json.{str, undefined}
use dap.Client.Identity.{KeyCodec}
use dap.Dsh.Settings.{resolve_dap_settings, load_identity}
use dap.Dsh.Launch.{Options, Disk, new_client, first_channels, apply}
use dap.Dsh.Steps.{Step, happens, Reach, here, next, closes, acts}
use dap.Dsh.Laws.Tools.{plugin_link}
use dap.Dsh.Laws.Connection.{Move, is_live}
use dap.Dsh.Laws.Moves.{Unreadable}
use dap.Dsh.Laws.Awake.{in_progress}
use dap.Dsh.Laws.Refinement.{step-Move}
use dap.Dsh.Laws.Reachable.{one_connection, never_adrift}

abbrev pair : KeyPair
pair = record { priv = 1 ∷ 1 ∷ []; pub_key = 1 ∷ 1 ∷ [] }

abbrev ada : Identity
ada = record { ed_priv = 1 ∷ []; ed_pub = 1 ∷ []; x_priv = 1 ∷ 1 ∷ []; x_pub = 1 ∷ 1 ∷ [] }

abbrev host : Host
host = record {
  crypto = toy;
  parse = λ s. none;
  stringify = λ v. "{";
  print_config = λ m. "config";
  print_channels = λ v. "channels";
  lower = λ s. s;
  host_of = λ s. s;
  normalize_host = λ s. some s;
  key_path = λ s. s;
  number = λ s. undefined;
  open_error = "invalid tag";
  uuid = λ n. "id";
  nonce = λ n. twelve_ones;
  keypair = λ n. pair;
  identity = λ s. some ada;
  environment = record {
    client_secret = none;
    master_secret = some "m";
    agent_name = none;
    hub_url = none;
    key_path = none;
    channels_file = none;
  };
}

abbrev options : Options
options = record {
  url = "ws://hub/ws";
  key_path = "key";
  name = some "ada";
  channels = none;
  channels_path = some "channels.json";
  initial_ms = none;
  max_ms = none;
  client_secret = none;
}

abbrev disk : Disk
disk = record { config_file = none; channels_file = none; clock = 5 }

-- The plugin that has just started: its socket 0 is connecting.
abbrev started : Plugin
started = record {
  client = start host (new_client host options disk ada);
  settings_url = "ws://hub/ws";
  settings_name = some "ada";
  pending_invites = [];
  delivering = false;
  told = [];
  answers = [];
}

apply-started : apply host options disk [] ≡ some started
unfolding apply
apply-started = refl

-- The dial fails.
abbrev lost : Client
lost = on_close host 0 (turn 0 closed started.client)

first_event : Step host started (acts host lost started)
unfolding start connect new_client set get
first_event = happens refl (closes 0 connecting refl (λ e. absurd (ground (arith, e))))

abbrev run : Reach host started (acts host lost started)
run = next here first_event

readable : ¬ Unreadable host
readable (path, e) = absurd (ground (arith, e))

lost-active : (acts host lost started).client.stopped ≡ false
unfolding acts run_hooks on_close on_disconnect fail_whois_waiters settle_map start connect
    new_client run_hook_list
lost-active = refl

step-Move_example :
    Move (Unreadable host) (plugin_link started) (plugin_link (acts host lost started))
step-Move_example = step-Move host first_event

one_connection_example :
    let q : Plugin = acts host lost started in
    ((is_live (get q.client.sockets 0) ≡ false) ⊎ (q.client.ws ≡ some 0))
    × ((q.client.retry_in ≡ none) ⊎ (ready_state q.client ≡ some closed))
    × ((q.client.stopped ≡ false) ⊎ ((q.client.ws ≡ none) × (q.client.retry_in ≡ none)))
one_connection_example =
    one_connection host options disk [] started (acts host lost started) 0 apply-started run

never_adrift_example :
    let q : Plugin = acts host lost started in
    (is_some q.client.retry_in ≡ true) ⊎ (in_progress (ready_state q.client) ≡ true)
never_adrift_example =
    never_adrift host options disk [] started (acts host lost started) readable apply-started run
      lost-active

-- `dap_connect` with a channel, before the socket has opened.
abbrev saved : Plugin
saved =
    with_client (record started.client { config_file = some "config" })
      (take_over host none "ws://hub/ws" started)

saved-started :
    save_target host
      (target_update host (some "ws://hub/ws") none (some "lobby"))
      (take_over host none "ws://hub/ws" started)
    ≡ some saved
unfolding save_target persist_dap_config start connect new_client merge_config read_dap_config
    set_channels merged_channels set_if_given set_invites set_secret get set
saved-started = refl

dialling : ready_state started.client ≡ some connecting
unfolding ready_state get set start connect new_client
dialling = refl

no_lobby : get started.client.channels "lobby" ≡ none
unfolding get start connect new_client first_channels load_channel_keys
no_lobby = refl

connect_to-dialling_example :
    let q = connect_to host (some "ws://hub/ws") none (some "lobby") 1 started in
    (q.answers ≡ (1, threw still_connecting) ∷ started.answers)
    × (q.settings_url ≡ "ws://hub/ws")
    × (is_some (get q.client.channels "lobby") ≡ true)
    × (plugin_link q ≡ plugin_link started)
connect_to-dialling_example =
    connect_to-dialling host (some "ws://hub/ws") none "lobby" "ws://hub/ws" 1 started saved refl
      saved-started dialling no_lobby

-- A launch with nothing given, on a machine called "box".
default_settings :
    resolve_dap_settings
      (λ parts. "key")
      "/"
      "box"
      (record { url = none; key_path = none; name = none; channels_file = none })
      host.environment
      (("clientSecret", str "s") ∷ [])
    ≡ some (record {
      url = str default_url;
      key_path = str "key";
      name = undefined;
      channels_file = str "key";
      client_secret = str "s";
    })
unfolding resolve_dap_settings get
default_settings = refl

abbrev codec : KeyCodec
codec = record {
  b64e = toy.b64e;
  b64d = toy.b64d;
  odd_bytes = λ v. none;
  parse = λ s. none;
  print = λ m. "keys";
}

-- A key file that is no JSON is not replaced: the load throws.
garbled_key_file : load_identity codec (some "keys") pair pair ≡ none
unfolding load_identity
garbled_key_file = refl

new_key_file :
    load_identity codec none pair pair
    ≡ some (
      record {
        ed_priv = pair.priv;
        ed_pub = pair.pub_key;
        x_priv = pair.priv;
        x_pub = pair.pub_key;
      },
      "keys",
    )
unfolding load_identity
new_key_file = refl
