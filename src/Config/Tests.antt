-- ===== src/Config/Tests.antt =====
-- The config file of config.ts, over a toy codec that knows the texts of these tests.
use dap.Common.{
  ◌≡◌, refl, Option, none, some, String, List, [], ◌∷◌, ◌==◌, string_eq, if◌then◌else◌,
}
use dap.JsMap.{JsMap, get, set}
use dap.Json.{Value, str, object, prop, arr, of_items}
use dap.Config.{
  opt_str, ConfigUpdate, no_update, issue, merge_config, read_dap_config, persist_dap_config, Env,
  Overrides, DapSettings, resolve_dap_settings, sanitize, default_key_path, set_if_given,
  set_channels, set_invites, set_secret, normalize_config,
}
use dap.Config.Persist.{persist-keeps_others, persist-client_secret, secret_after}
use dap.Config.Resolve.{AllPlain, key_path-sanitize, resolve-persist}

abbrev update : ConfigUpdate
update = record no_update {
  url = some "wss://hub/ws";
  name = some "ada";
  client_secret = issue "s";
}

abbrev old : JsMap String Value
old = ("theme", str "dark") ∷ ("invites", arr (of_items [])) ∷ []

abbrev merged : JsMap String Value
merged =
    ("theme", str "dark")
    ∷ ("invites", arr (of_items []))
    ∷ ("url", str "wss://hub/ws")
    ∷ ("name", str "ada")
    ∷ ("clientSecret", str "s")
    ∷ []

abbrev parse : String → Option Value
parse text =
    if text == "old"
    then some (object old)
    else if text == "new"
    then some (object merged)
    else none

abbrev print : JsMap String Value → String
print m = "new"

merges : merge_config update (read_dap_config parse (some "old")) ≡ some merged
unfolding merge_config read_dap_config set_if_given set_channels set_invites set_secret set
    normalize_config get
merges = refl

writes : persist_dap_config parse print update (some "old") ≡ some "new"
unfolding persist_dap_config merge_config read_dap_config set_if_given set_channels set_invites
    set_secret set normalize_config get
writes = refl

persist-keeps_others_example :
    get (read_dap_config parse (some "new")) "theme"
    ≡ get (read_dap_config parse (some "old")) "theme"
persist-keeps_others_example =
    persist-keeps_others parse print update (some "old") "new" merged writes merges refl "theme"
      refl

persist-client_secret_example :
    opt_str (prop (read_dap_config parse (some "new")) "clientSecret")
    ≡ secret_after (issue "s") (opt_str (prop (read_dap_config parse (some "old")) "clientSecret"))
persist-client_secret_example =
    persist-client_secret parse print update (some "old") "new" merged writes merges refl

abbrev last_of : List String → String
last_of [] = ""
last_of (s ∷ ss) = elim ss [ [] ↦ s | t ∷ ts ↦ last_of ss ]

abbrev no_overrides : Overrides
no_overrides = record { url = none; key_path = none; name = none; channels_file = none }

abbrev no_env : Env
no_env = record {
  client_secret = none;
  master_secret = none;
  agent_name = none;
  hub_url = none;
  key_path = none;
  channels_file = none;
}

abbrev settings : DapSettings
settings = record {
  url = str "wss://hub/ws";
  key_path = str "ada.key";
  name = str "ada";
  channels_file = str "channels.json";
}

resolves :
    resolve_dap_settings last_of "home" "host" no_overrides no_env
      (read_dap_config parse (some "new"))
    ≡ some settings
unfolding resolve_dap_settings read_dap_config normalize_config get set
resolves = refl

resolve-persist_example : (settings.url ≡ str "wss://hub/ws") × (settings.name ≡ str "ada")
resolve-persist_example =
    resolve-persist last_of "home" "host" parse print update (some "old") "new" merged
      "wss://hub/ws" "ada" no_overrides no_env settings writes merges refl refl refl refl refl refl
      refl refl refl resolves

key_path-sanitize_example :
    (default_key_path last_of "home" "host" (str "ada l")
      ≡ default_key_path last_of "home" "host" (str (sanitize "ada l")))
    × AllPlain (sanitize "ada l")
key_path-sanitize_example = key_path-sanitize last_of "home" "host" "ada l"
