-- ===== src/Config.antt =====
-- adapters/mcp-bridge/src/config.ts: settings resolution and the config file.
-- The JSON codec, the path functions and the environment are parameters; a file is its text, `none`
-- where it cannot be read.
pub mod Persist
pub mod Resolve
mod Tests
use Prim.Native.Char.{Char, code}
use Prim.Native.String as Native
use dap.Common.{
  ℕ, suc, ◌+◌, Bool, true, false, not, ◌&&◌, ◌||◌, Option, none, some, String, List, [], ◌∷◌, ◌++◌,
  map, leb, ltb, nat_beq, any, ◌==◌, string_eq, if◌then◌else◌,
}
use dap.JsMap.{JsMap, get, set, delete}
use dap.Json.{
  Value, undefined, null, bool, num, str, arr, obj, items, of_items, entries, object, prop, decimal,
}

unfoldable pub opt_str : Value → Option String
opt_str (str s) = if s == "" then none else some s
opt_str _ = none

-- An environment variable, `none` where it is not set.
abbrev pub env_str : Option String → Option String
env_str none = none
env_str (some s) = if s == "" then none else some s

pub record PendingInvite : Type 0 where
  pub name : String
  pub channel : String

abbrev pub invite_value : PendingInvite → Value
invite_value p = object (("name", str p.name) ∷ ("channel", str p.channel) ∷ [])

abbrev pub characters : String → List Value
characters Native.[] = []
characters (Native.◌∷◌ c s) = str (Native.◌∷◌ c Native.[]) ∷ characters s

abbrev pub indexed : ℕ → List Value → JsMap String Value
indexed i [] = []
indexed i (v ∷ vs) = (decimal i, v) ∷ indexed (suc i) vs

-- `{ ...v }`
abbrev pub spread : Value → JsMap String Value
spread (obj fs) = entries fs
spread (arr xs) = indexed 0 (items xs)
spread (str s) = indexed 0 (characters s)
spread _ = []

-- `Array.isArray(v) ? v : []`
abbrev pub array_or_empty : Value → Value
array_or_empty (arr xs) = arr xs
array_or_empty _ = arr (of_items [])

abbrev pub absent_config : JsMap String Value
absent_config = ("invites", arr (of_items [])) ∷ []

-- What `catch` leaves of the parsed file: `cfg.invites` throws on `null`.
unfoldable pub normalize_config : Value → JsMap String Value
normalize_config undefined = absent_config
normalize_config null = absent_config
normalize_config (obj fs) =
    set (entries fs) "invites" (array_or_empty (prop (entries fs) "invites"))
normalize_config v = set (spread v) "invites" (arr (of_items []))

-- `clientSecret?: string | null` of an update.
pub data SecretUpdate : Type 0 where
  keep purge : SecretUpdate
  issue : String → SecretUpdate

pub record ConfigUpdate : Type 0 where
  pub url : Option String
  pub name : Option String
  pub channels : Option (List String)
  pub invites : Option (List PendingInvite)
  pub client_secret : SecretUpdate

abbrev pub no_update : ConfigUpdate
no_update = record {
  url = none;
  name = none;
  channels = none;
  invites = none;
  client_secret = keep;
}

-- `if (update.url) next.url = update.url`
unfoldable pub set_if_given : String → Option String → JsMap String Value → JsMap String Value
set_if_given key none next = next
set_if_given key (some s) next = if s == "" then next else set next key (str s)

-- Two values that a `Set` holds to be one; an object or an array is itself only.
abbrev pub same_value : Value → Value → Bool
same_value undefined undefined = true
same_value null null = true
same_value (bool true) (bool true) = true
same_value (bool false) (bool false) = true
same_value (num m) (num n) = nat_beq m n
same_value (str s) (str t) = s == t
same_value _ _ = false

-- `[...new Set(vs)]`, behind what is in the set so far.
unfoldable pub add_all : List Value → List Value → List Value
add_all seen [] = seen
add_all seen (v ∷ vs) = add_all (if any (same_value v) seen then seen else seen ++ v ∷ []) vs

-- `[...(v or_else [])]`; what is not iterable throws.
abbrev pub iterate : Value → Option (List Value)
iterate undefined = some []
iterate null = some []
iterate (arr xs) = some (items xs)
iterate (str s) = some (characters s)
iterate _ = none

-- `[...new Set([...(cur.channels ?? []), ...update.channels])]`
unfoldable pub merged_channels : Value → List String → Option Value
unfolding add_all
merged_channels old new = elim (iterate old) [
  | none ↦ none
  | some olds ↦ some (arr (of_items (add_all (add_all [] olds) (map str new))))
]

unfoldable pub set_channels :
    Option (List String) → JsMap String Value → JsMap String Value → Option (JsMap String Value)
set_channels none cur next = some next
set_channels (some []) cur next = some next
set_channels (some (c ∷ cs)) cur next = elim (merged_channels (prop cur "channels") (c ∷ cs)) [
  | none ↦ none
  | some v ↦ some (set next "channels" v)
]

unfoldable pub set_invites : Option (List PendingInvite) → JsMap String Value → JsMap String Value
set_invites none next = next
set_invites (some ps) next = set next "invites" (arr (of_items (map invite_value ps)))

unfoldable pub set_secret : SecretUpdate → JsMap String Value → JsMap String Value
set_secret keep next = next
set_secret purge next = delete next "clientSecret"
set_secret (issue s) next = if s == "" then next else set next "clientSecret" (str s)

-- The body of `persistDapConfig` between its read and its write; `none` where it throws.
unfoldable pub merge_config : ConfigUpdate → JsMap String Value → Option (JsMap String Value)
merge_config update cur =
    let next = set_if_given "name" update.name (set_if_given "url" update.url cur) in
    elim (set_channels update.channels cur next) [
      | none ↦ none
      | some with_channels ↦
          some (set_secret update.client_secret (set_invites update.invites with_channels))
    ]

-- A character that the pattern of `defaultKeyPath` leaves alone.
abbrev pub is_plain : ℕ → Bool
is_plain c =
    (leb b'a' c && leb c b'z')
    || (leb b'A' c && leb c b'Z')
    || (leb b'0' c && leb c b'9')
    || nat_beq c b'.'
    || nat_beq c b'_'
    || nat_beq c b'-'

abbrev pub underscore : String → String
underscore s = Native.◌∷◌ "_" s

-- `who.replace(/[^a-zA-Z0-9._-]/g, '_')`: a character outside the BMP is two code units.
unfoldable pub sanitize : String → String
sanitize Native.[] = ""
sanitize (Native.◌∷◌ c s) =
    let rest = sanitize s in
    if is_plain (code c)
    then Native.◌∷◌ c rest
    else if ltb (code c) 65536
    then underscore rest
    else underscore (underscore rest)

-- The process environment, as far as the adapter reads it.
pub record Env : Type 0 where
  pub client_secret : Option String
  pub master_secret : Option String
  pub agent_name : Option String
  pub hub_url : Option String
  pub key_path : Option String
  pub channels_file : Option String

pub record Overrides : Type 0 where
  pub url : Option String
  pub key_path : Option String
  pub name : Option String
  pub channels_file : Option String

-- A setting that comes from the config file is what the file says, of whatever type.
pub record DapSettings : Type 0 where
  pub url : Value
  pub key_path : Value
  pub name : Value
  pub channels_file : Value

infixr 20 ◌or_else◌
abbrev pub ◌or_else◌ : Value → Value → Value
undefined or_else w = w
null or_else w = w
v or_else w = v

abbrev pub given : Option String → Value
given none = undefined
given (some s) = str s

abbrev pub default_url : String
default_url = "ws://127.0.0.1:8787/ws"

module _ (parse : String → Option Value) where
  unfoldable pub read_dap_config : Option String → JsMap String Value
  unfolding normalize_config
  read_dap_config none = absent_config
  read_dap_config (some text) = elim (parse text) [
    | none ↦ absent_config
    | some cfg ↦ normalize_config cfg
  ]

  -- The text that the file has afterwards; `none` where the call throws and the file is as before.
  unfoldable pub persist_dap_config :
      (JsMap String Value → String) → ConfigUpdate → Option String → Option String
  unfolding merge_config read_dap_config merged_channels
  persist_dap_config print update file = elim (merge_config update (read_dap_config file)) [
    | none ↦ none
    | some next ↦ some (print next)
  ]

abbrev pub settings_with : Value → Value → Value → Option Value → Option DapSettings
settings_with url name channels_file none = none
settings_with url name channels_file (some key_path) =
    some (record { url = url; key_path = key_path; name = name; channels_file = channels_file })

module _ (join : List String → String) (homedir hostname : String) where
  -- On a name that is neither a string nor absent, `replace` is no function: `none`.
  unfoldable pub default_key_path : Value → Option String
  unfolding sanitize
  default_key_path name = elim (name or_else str hostname) [
    | str who ↦
        some (join (homedir ∷ ".dap" ∷ "keys" ∷ "mcp" ∷ Native.◌++◌ (sanitize who) ".key" ∷ []))
    | _ ↦ none
  ]

  unfoldable pub key_path_of : Value → Value → Option Value
  unfolding default_key_path
  key_path_of name undefined = elim (default_key_path name) [ none ↦ none | some p ↦ some (str p) ]
  key_path_of name null = elim (default_key_path name) [ none ↦ none | some p ↦ some (str p) ]
  key_path_of name v = some v

  unfoldable pub resolve_dap_settings : Overrides → Env → JsMap String Value → Option DapSettings
  unfolding key_path_of
  resolve_dap_settings o env file =
      let name = given o.name or_else given (env_str env.agent_name) or_else prop file "name" in
      settings_with
        (given o.url
          or_else given (env_str env.hub_url)
          or_else prop file "url"
          or_else str default_url)
        name
        (given o.channels_file
          or_else given (env_str env.channels_file)
          or_else prop file "channelsFile"
          or_else str (join (homedir ∷ ".dap" ∷ "channels.json" ∷ [])))
        (key_path_of name
          (given o.key_path or_else given (env_str env.key_path) or_else prop file "keyPath"))
