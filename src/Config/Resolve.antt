-- ===== src/Config/Resolve.antt =====
-- How settings resolve in config.ts: after a `dap_connect`, and the identity file of a name.
use Prim.Native.Char.{code}
use Prim.Native.String as Native
use dap.Common.{
  ◌≡◌, refl, ap, ◌∙◌, sym, true, false, Option, none, some, String, List, [], ◌∷◌, arith, ◌==◌,
  string_eq, Bool-cases, inl, inr, ltb,
}
use dap.JsMap.{JsMap, get}
use dap.Json.{Value, str, object, prop}
use dap.Config.{
  ConfigUpdate, Env, Overrides, DapSettings, env_str, is_plain, sanitize, default_key_path,
  key_path_of, resolve_dap_settings, merge_config, default_url, settings_with, read_dap_config,
  persist_dap_config, ◌or_else◌, given,
}
use dap.Config.Persist.{read-persist_url, read-persist_name}

-- Every character of the file name is one of those that are left alone.
abbrev pub AllPlain : String → Type 0
AllPlain Native.[] = Unit
AllPlain (Native.◌∷◌ c s) = (is_plain (code c) ≡ true) × AllPlain s

sanitize-AllPlain : (s : String) → AllPlain (sanitize s)
unfolding sanitize
sanitize-AllPlain Native.[] = tt
sanitize-AllPlain (Native.◌∷◌ c s) = elim (Bool-cases (is_plain (code c))) [
  | inl p ↦ rw p (p, sanitize-AllPlain s)
  | inr p ↦ elim (Bool-cases (ltb (code c) 65536)) [
    | inl q ↦ rw (p, q) (refl, sanitize-AllPlain s)
    | inr q ↦ rw (p, q) (refl, (refl, sanitize-AllPlain s))
  ]
]

sanitize_id : (s : String) → AllPlain s → sanitize s ≡ s
unfolding sanitize
sanitize_id Native.[] h = refl
sanitize_id (Native.◌∷◌ c s) h = rw h.0 (ap (Native.◌∷◌ c) (sanitize_id s h.1))

settings_with-eq-some :
    (url name channels_file : Value) (key_path : Option Value) (s : DapSettings)
    → settings_with url name channels_file key_path ≡ some s
    → (s.url ≡ url) × (s.name ≡ name)
settings_with-eq-some url name channels_file none s e = cc
settings_with-eq-some url name channels_file (some key_path) s e = ground arith

module _ (join : List String → String) (homedir hostname : String) where
  -- A name and its sanitized form, which holds only letters, digits, `.`, `_` and `-`, have one
  -- identity file: so names with the same sanitized form are one identity.
  pub key_path-sanitize :
      (s : String)
      → (default_key_path join homedir hostname (str s)
          ≡ default_key_path join homedir hostname (str (sanitize s)))
        × AllPlain (sanitize s)
  unfolding default_key_path
  key_path-sanitize s = (
    ap (λ t. some (join (homedir ∷ ".dap" ∷ "keys" ∷ "mcp" ∷ Native.◌++◌ t ".key" ∷ [])))
        (sym (sanitize_id (sanitize s) (sanitize-AllPlain s))),
    sanitize-AllPlain s,
  )

  resolve_parts :
      (o : Overrides) (env : Env) (file : JsMap String Value) (s : DapSettings)
      → resolve_dap_settings join homedir hostname o env file ≡ some s
      → (s.url
          ≡ given o.url
            or_else given (env_str env.hub_url)
            or_else prop file "url"
            or_else str default_url)
        × (s.name ≡ given o.name or_else given (env_str env.agent_name) or_else prop file "name")
  unfolding resolve_dap_settings
  resolve_parts o env file s e = settings_with-eq-some _ _ _ _ s e

  settings_with-key_path :
      (url name channels_file : Value) (key_path : Option Value) (s : DapSettings) (v : Value)
      → key_path ≡ some v
      → settings_with url name channels_file key_path ≡ some s
      → s.key_path ≡ v
  settings_with-key_path url name channels_file none s v given_v e = cc
  settings_with-key_path url name channels_file (some w) s v given_v e = ground arith

  -- The key file of a launch that is told none, and whose config file names none: the default one of
  -- its name.
  pub resolve_key_path :
      (o : Overrides) (env : Env) (file : JsMap String Value) (s : DapSettings) (path : String)
      → o.key_path ≡ none
      → env_str env.key_path ≡ none
      → get file "keyPath" ≡ none
      → default_key_path join homedir hostname s.name ≡ some path
      → resolve_dap_settings join homedir hostname o env file ≡ some s
      → s.key_path ≡ str path
  unfolding resolve_dap_settings key_path_of
  resolve_key_path o env file s path oc vc fc named e =
      let name = given o.name or_else given (env_str env.agent_name) or_else prop file "name" in
      let from : default_key_path join homedir hostname name ≡ some path =
        ap (default_key_path join homedir hostname) (sym (resolve_parts o env file s e).1)
        ∙ named in
      settings_with-key_path _ _ _
        (key_path_of join homedir hostname name
          (given o.key_path or_else given (env_str env.key_path) or_else prop file "keyPath"))
        s (str path) (rw (oc, vc, fc) (rw (from, key_path_of) refl)) e

  -- If what is written is read back, a launch with no override and no variable set for the url and
  -- the name runs with the url and the name that the last update gave, where they are not empty,
  -- whatever the other settings are.
  pub resolve-persist :
      (parse : String → Option Value) (print : JsMap String Value → String) (u : ConfigUpdate)
      (file : Option String) (text : String) (next : JsMap String Value) (url name : String)
      (o : Overrides) (env : Env) (s : DapSettings)
      → persist_dap_config parse print u file ≡ some text
      → merge_config u (read_dap_config parse file) ≡ some next
      → parse (print next) ≡ some (object next)
      → u.url ≡ some url
      → u.name ≡ some name
      → (url == "") ≡ false
      → (name == "") ≡ false
      → o.url ≡ none
      → o.name ≡ none
      → env_str env.hub_url ≡ none
      → env_str env.agent_name ≡ none
      → resolve_dap_settings join homedir hostname o env (read_dap_config parse (some text))
        ≡ some s
      → (s.url ≡ str url) × (s.name ≡ str name)
  resolve-persist parse print u file text next url name o env s w m r eu en nu nn ou on vu vn e =
      let after : JsMap String Value = read_dap_config parse (some text) in
      let url_read = read-persist_url parse print u file text next w m r in
      let name_read = read-persist_name parse print u file text next w m r in
      let url_given : get after "url" ≡ some (str url) = ground arith in
      let name_given : get after "name" ≡ some (str name) = ground arith in
      let (url_from, name_from) = resolve_parts o env after s e in
      (url_from ∙ rw (ou, vu, url_given) refl, name_from ∙ rw (on, vn, name_given) refl)
