-- ===== src/Dsh/Settings.antt =====
-- dsh-plugin/src/config.ts and client.ts: how settings resolve, and `loadIdentity`. It takes a key
-- file as it is, of whatever lengths its keys are.
use Prim.Native.String as Native
use dap.Common.{Option, none, some, String, List, [], ◌∷◌, string_eq}
use dap.JsMap.{JsMap}
use dap.Json.{Value, undefined, null, str, obj, entries, prop}
use dap.Config.{Env, Overrides, env_str, given, ◌or_else◌, default_url, sanitize}
use dap.Crypto.{Bytes, KeyPair}
use dap.Client.Identity.{KeyCodec, decoded}
use dap.Dsh.State.{Identity}

pub record DapSettings : Type 0 where
  pub url : Value
  pub key_path : Value
  pub name : Value
  pub channels_file : Value
  pub client_secret : Value

abbrev settings_with : Value → Value → Value → Value → Option Value → Option DapSettings
settings_with url name channels_file client_secret none = none
settings_with url name channels_file client_secret (some key_path) = some (record {
  url = url;
  key_path = key_path;
  name = name;
  channels_file = channels_file;
  client_secret = client_secret;
})

module _ (join : List String → String) (homedir hostname : String) where
  -- On a name that is neither a string nor absent, `replace` is no function: `none`.
  default_key_path : Value → Option String
  unfolding sanitize
  default_key_path name = elim (name or_else str hostname) [
    | str who ↦
        some (join (homedir ∷ ".dap" ∷ "keys" ∷ "dsh" ∷ Native.◌++◌ (sanitize who) ".key" ∷ []))
    | _ ↦ none
  ]

  key_path_of : Value → Value → Option Value
  unfolding default_key_path
  key_path_of name undefined = elim (default_key_path name) [ none ↦ none | some p ↦ some (str p) ]
  key_path_of name null = elim (default_key_path name) [ none ↦ none | some p ↦ some (str p) ]
  key_path_of name v = some v

  unfoldable pub resolve_dap_settings : Overrides → Env → JsMap String Value → Option DapSettings
  unfolding key_path_of
  resolve_dap_settings o env file =
      let name = given o.name or_else given (env_str env.agent_name) or_else prop file "name" in
      settings_with
        (given o.url
          or_else given (env_str env.hub_url)
          or_else prop file "url"
          or_else str default_url)
        name
        (given o.channels_file
          or_else given (env_str env.channels_file)
          or_else prop file "channelsFile"
          or_else str (join (homedir ∷ ".dap" ∷ "channels.json" ∷ [])))
        (prop file "clientSecret")
        (key_path_of name
          (given o.key_path or_else given (env_str env.key_path) or_else prop file "keyPath"))

abbrev assemble : Option Bytes → Option Bytes → Option Bytes → Option Bytes → Option Identity
assemble (some p) (some q) (some r) (some s) =
    some (record { ed_priv = p; ed_pub = q; x_priv = r; x_pub = s })
assemble _ _ _ _ = none

module _ (k : KeyCodec) where
  identity_of : JsMap String Value → Option Identity
  identity_of f =
      assemble (decoded k (prop f "edPriv")) (decoded k (prop f "edPub"))
        (decoded k (prop f "xPriv")) (decoded k (prop f "xPub"))

  -- The identity that a parsed file has: `none` where reading it throws.
  abbrev identity_in : Value → Option Identity
  identity_in undefined = none
  identity_in null = none
  identity_in (obj fs) = identity_of (entries fs)
  identity_in _ = identity_of []

  abbrev key_file : KeyPair → KeyPair → JsMap String Value
  key_file ed x =
      ("edPriv", str (k.b64e ed.priv))
      ∷ ("edPub", str (k.b64e ed.pub_key))
      ∷ ("xPriv", str (k.b64e x.priv))
      ∷ ("xPub", str (k.b64e x.pub_key))
      ∷ []

  -- The identity and the file afterwards, with the keys that are drawn if there is no file; `none`
  -- where it throws.
  unfoldable pub load_identity : Option String → KeyPair → KeyPair → Option (Identity × String)
  unfolding identity_of
  load_identity none ed x = some (
    record { ed_priv = ed.priv; ed_pub = ed.pub_key; x_priv = x.priv; x_pub = x.pub_key },
    k.print (key_file ed x),
  )
  load_identity (some text) ed x = elim (k.parse text) [
    | none ↦ none
    | some v ↦ elim (identity_in v) [ none ↦ none | some id ↦ some (id, text) ]
  ]
