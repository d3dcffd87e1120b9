-- ===== src/Server/Tests.antt =====
-- Servers in concrete states, over toy surroundings.
use dap.Common.{
  ◌≡◌, refl, true, Option, none, some, String, [], ◌∷◌, ◌==◌, string_eq, if◌then◌else◌,
}
use dap.JsMap.{JsMap, get, set}
use dap.Json.{undefined, Value, str, object, arr, of_items}
use dap.Client.Socket.{retarget, connect, fail_waiters}
use dap.Config.{
  merge_config, set_channels, set_if_given, set_invites, set_secret, normalize_config,
  default_key_path, Env, Overrides, DapSettings, read_dap_config, resolve_dap_settings,
}
use dap.Crypto.{KeyPair}
use dap.Crypto.Tests.{toy, twelve_ones, ones}
use dap.Client.State.{Client, Host, Identity}
use dap.Client.Launch.{Options, Disk, new_client}
use dap.Server.Launch.{main}
use dap.Client.Identity.{KeyCodec, load_identity}
use dap.Client.Laws.Identity.{IsDrawn, load_identity_stable}
use dap.Server.Tools.{
  World, Server, dap_status, dap_peers, call_tools, connect_client, load_keys, target_update,
  key_path,
}
use dap.Server.Laws.Gate.{refuse_all, call_tools-disabled}
use dap.Server.Laws.Relaunch.{relaunch_keeps}

abbrev keys : KeyPair
keys = record { priv = ones 32; pub_key = ones 32 }

-- The key file, and what it parses to.
abbrev key_object : JsMap String Value
key_object =
    ("priv", str (toy.b64e (ones 32)))
    ∷ ("pub", str (toy.b64e (ones 32)))
    ∷ ("xpriv", str (toy.b64e (ones 32)))
    ∷ ("xpub", str (toy.b64e (ones 32)))
    ∷ []

abbrev target : JsMap String Value
target = ("invites", arr (of_items [])) ∷ ("url", str "ws://hub/ws") ∷ ("name", str "ada") ∷ []

abbrev codec : KeyCodec
codec = record {
  b64e = toy.b64e;
  b64d = toy.b64d;
  odd_bytes = λ v. none;
  parse = λ s. if s == "keys" then some (object key_object) else none;
  print = λ m. "keys";
}

abbrev environment : Option String → Env
environment secret = record {
  client_secret = none;
  master_secret = secret;
  agent_name = none;
  hub_url = none;
  key_path = none;
  channels_file = none;
}

abbrev host : Option String → Host
host secret = record {
  crypto = toy;
  parse = λ s. if s == "target" then some (object target) else none;
  stringify = λ v. "{";
  print_config = λ m. "target";
  print_channels = λ v. "channels";
  lower = λ s. s;
  host_of = λ s. s;
  number = λ s. undefined;
  lower_error = "a.name?.toLowerCase is not a function";
  open_error = "invalid tag";
  uuid = λ n. "id";
  nonce = λ n. twelve_ones;
  keypair = λ n. keys;
  environment = environment secret;
}

abbrev world : Option String → World
world secret = record {
  host = host secret;
  codec = codec;
  normalize_host = λ s. some s;
  join = λ parts. "key";
  homedir = "/";
  hostname = "box";
  ed_keypair = λ n. keys;
  x_keypair = λ n. keys;
}

abbrev options : Options
options = record {
  url = "ws://127.0.0.1:8787/ws";
  key_path = "key";
  name = none;
  channels_path = none;
  channels = [];
  invites = true;
  initial_ms = none;
  max_ms = none;
}

abbrev disk : Disk
disk = record { config_file = none; channels_file = none; listed_invites = []; clock = 5 }

abbrev idle : Server
idle = record { client = none; key_files = []; key_draws = 0; answers = [] }

main-disabled : main (world (some "")) options disk [] ≡ some idle
unfolding main
main-disabled = refl

call_tools-disabled_example :
    (idle.client ≡ none)
    × (call_tools (world (some "")) ((dap_status, 1) ∷ (dap_peers, 2) ∷ []) idle ≡ record {
      client = none;
      key_files = [];
      key_draws = 0;
      answers = refuse_all ((dap_status, 1) ∷ (dap_peers, 2) ∷ []) [];
    })
call_tools-disabled_example =
    call_tools-disabled (world (some "")) options disk [] ((dap_status, 1) ∷ (dap_peers, 2) ∷ [])
      idle refl main-disabled

drawn : IsDrawn codec keys keys
drawn = record {
  whole = refl;
  priv = refl;
  pub_key = refl;
  x_priv = refl;
  x_pub = refl;
  codec = refl;
}

abbrev ada : Identity
ada = record { priv = ones 32; pub_key = ones 32; x_priv = ones 32; x_pub = ones 32 }

first : load_identity codec none keys keys ≡ some (ada, some "keys")
unfolding load_identity
first = refl

load_identity_stable_example : load_identity codec (some "keys") keys keys ≡ some (ada, some "keys")
load_identity_stable_example =
    load_identity_stable codec none keys keys keys keys ada (some "keys") drawn first

abbrev w : World
w = world (some "m")

abbrev fresh : Client
fresh = new_client w.host options disk ada

abbrev saved : Server
saved = record idle { key_files = ("key", "keys") ∷ []; key_draws = 1 }

abbrev later : DapSettings
later = record {
  url = str "ws://hub/ws";
  key_path = str "key";
  name = str "ada";
  channels_file = str "key";
}

loads : load_keys w "ada" idle ≡ some (ada, saved)
unfolding load_keys
loads = refl

abbrev aimed : Client
aimed = (connect_client w (some "ws://hub/ws") (some ada) (some "ada") none fresh).0

connects : connect_client w (some "ws://hub/ws") (some ada) (some "ada") none fresh ≡ (aimed, true)
unfolding connect_client new_client set_channels
connects = refl

merged :
    merge_config
      (target_update w (some "ws://hub/ws") (some "ada") none)
      (read_dap_config w.host.parse fresh.config_file)
    ≡ some target
unfolding merge_config set_channels set_if_given new_client set_invites set_secret set
    read_dap_config
merged = refl

plain : get (read_dap_config w.host.parse fresh.config_file) "keyPath" ≡ none
unfolding get read_dap_config new_client
plain = refl

abbrev no_overrides : Overrides
no_overrides = record { url = none; key_path = none; name = none; channels_file = none }

relaunches :
    resolve_dap_settings w.join w.homedir w.hostname no_overrides
      (environment none)
      (read_dap_config w.host.parse aimed.config_file)
    ≡ some later
unfolding resolve_dap_settings read_dap_config normalize_config connect_client new_client
    set_channels set_if_given set_invites set_secret set get retarget connect fail_waiters
relaunches = refl

key_at : key_path w "ada" ≡ some "key"
unfolding default_key_path
key_at = refl

relaunch_keeps_example :
    (aimed.url ≡ "ws://hub/ws")
    × (aimed.name ≡ some "ada")
    × (aimed.identity ≡ ada)
    × (later.url ≡ str "ws://hub/ws")
    × (later.name ≡ str "ada")
    × (later.key_path ≡ str "key")
    × (load_identity codec (get saved.key_files "key") keys keys
        ≡ some (ada, get saved.key_files "key"))
relaunch_keeps_example =
    relaunch_keeps w "ws://hub/ws" "ada" "key" none ada fresh aimed idle saved target no_overrides
      (environment none) later keys keys refl refl key_at drawn loads connects merged refl plain
      refl refl refl refl refl refl relaunches
