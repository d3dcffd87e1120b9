-- ===== src/Server/Laws/Relaunch.antt =====
-- What `dap_connect` of server.ts leaves for the next launch.
use dap.Common.{
  suc, ◌≡◌, refl, ap, sym, subst, ◌∙◌, Bool, true, false, Option, none, some, String, arith, ◌==◌,
  string_eq,
}
use dap.JsMap.{JsMap, get, set, get-set}
use dap.Json.{Value, str, object}
use dap.Config.{
  Env, Overrides, DapSettings, env_str, read_dap_config, persist_dap_config, merge_config,
  resolve_dap_settings, default_key_path,
}
use dap.Config.Resolve.{resolve-persist, resolve_key_path}
use dap.Config.Persist.{persist-keeps_others}
use dap.Crypto.{KeyPair}
use dap.Client.State.{Client, Identity}
use dap.Client.Socket.{retarget, connect, or_kept}
use dap.Client.Identity.{load_identity}
use dap.Client.Laws.Identity.{IsDrawn, load_identity_stable}
use dap.Client.Laws.Retarget.{retarget-config_file}
use dap.Server.Tools.{
  World, Server, key_path, load_at, load_keys, connect_client, target_update, with_channel,
}

written_or :
    (file : Option String) (go : String → Client) (old aimed : Client)
    → elim file as (λ _. Client × Bool) [ none ↦ (old, false) | some text ↦ (go text, true) ]
      ≡ (aimed, true)
    → (text : String) × (file ≡ some text) × (go text ≡ aimed)
written_or none go old aimed e = absurd (ground (arith, e))
written_or (some text) go old aimed e = (text, refl, ap (λ r. r.0) e)

at_some :
    {A B : Type 0} (o : Option A) (go : A → Option B) (a : A) (r : Option B)
    → o ≡ some a
    → elim o as (λ _. Option B) [ none ↦ none | some x ↦ go x ] ≡ r
    → go a ≡ r
at_some none go a r is_a e = absurd (ground (arith, is_a))
at_some {B = B} (some x) go a r is_a e =
    ap (λ o. elim o as (λ _. Option B) [ none ↦ none | some y ↦ go y ]) (sym is_a) ∙ e

loaded :
    (r : Option (Identity × Option String)) (path : String) (s s' : Server) (id : Identity)
    → elim r as (λ _. Option (Identity × Server)) [
      | none ↦ none
      | some (i, none) ↦ none
      | some (i, some text) ↦
          some (i, record s { key_files = set s.key_files path text; key_draws = suc s.key_draws })
    ]
      ≡ some (id, s')
    → r ≡ some (id, get s'.key_files path)
loaded none path s s' id e = absurd (ground (arith, e))
loaded (some (i, none)) path s s' id e = absurd (ground (arith, e))
loaded (some (i, some text)) path s s' id e =
    ground (arith, e, get-set s.key_files path path text, string_eq.same_iff path path)

module _ (w : World) where
  -- The config file's text, and the client as it is retargeted.
  connect_client-retarget :
      (url name : String) (id : Identity) (channel : Option String) (c aimed : Client)
      → connect_client w (some url) (some id) (some name) channel c ≡ (aimed, true)
      → (text : String) × (persist_dap_config w.host.parse w.host.print_config
            (target_update w (some url) (some name) channel)
            (with_channel w channel c).config_file
          ≡ some text)
        × (retarget w.host
              (some url)
              (some id)
              (some name)
              (record (with_channel w channel c) { config_file = some text })
            ≡ aimed)
  unfolding connect_client
  connect_client-retarget url name id channel c aimed e =
      written_or _ _ (with_channel w channel c) aimed e

  load_keys-some :
      (name path : String) (s s' : Server) (id : Identity)
      → key_path w name ≡ some path
      → load_keys w name s ≡ some (id, s')
      → load_identity w.codec
          (get s.key_files path)
          (w.ed_keypair s.key_draws)
          (w.x_keypair s.key_draws)
        ≡ some (id, get s'.key_files path)
  unfolding load_keys
  load_keys-some name path s s' id at e =
      loaded _ path s s' id
        (at_some (key_path w name) (λ p. load_at w p s) path (some (id, s')) at e)

  or_kept_full : (url old : String) → (url == "") ≡ false → or_kept w.host (some url) old ≡ url
  or_kept_full url old full = rw full refl

  -- After `dap_connect` to a host under a name, where nothing throws and the files that are written
  -- can be read back, the client has the url, the name and the identity of that name, and a later
  -- launch, which is told no url, name or key file by an argument, a variable or, for the key file,
  -- the config file, runs with the same url and name, and loads the same identity.
  pub relaunch_keeps :
      (url name path : String) (channel : Option String) (id : Identity) (c aimed : Client)
      (s s' : Server) (next : JsMap String Value) (o : Overrides) (env : Env) (later : DapSettings)
      (ed x : KeyPair)
      → (url == "") ≡ false
      → (name == "") ≡ false
      → key_path w name ≡ some path
      → IsDrawn w.codec (w.ed_keypair s.key_draws) (w.x_keypair s.key_draws)
      → load_keys w name s ≡ some (id, s')
      → connect_client w (some url) (some id) (some name) channel c ≡ (aimed, true)
      → merge_config
          (target_update w (some url) (some name) channel)
          (read_dap_config w.host.parse (with_channel w channel c).config_file)
        ≡ some next
      → w.host.parse (w.host.print_config next) ≡ some (object next)
      → get (read_dap_config w.host.parse (with_channel w channel c).config_file) "keyPath" ≡ none
      → o.url ≡ none
      → o.name ≡ none
      → o.key_path ≡ none
      → env_str env.hub_url ≡ none
      → env_str env.agent_name ≡ none
      → env_str env.key_path ≡ none
      → resolve_dap_settings w.join w.homedir w.hostname o env
          (read_dap_config w.host.parse aimed.config_file)
        ≡ some later
      → (aimed.url ≡ url)
        × (aimed.name ≡ some name)
        × (aimed.identity ≡ id)
        × (later.url ≡ str url)
        × (later.name ≡ str name)
        × (later.key_path ≡ str path)
        × (load_identity w.codec (get s'.key_files path) ed x ≡ some (id, get s'.key_files path))
  unfolding retarget connect
  relaunch_keeps url name path channel id c aimed s s' next o env later ed x full called at d loads
        connects merged codec plain ou on ok vu vn vk resolves =
      let update = target_update w (some url) (some name) channel in
      let ensured = with_channel w channel c in
      let (text, written, aims) = connect_client-retarget url name id channel c aimed connects in
      let ready : Client = record ensured { config_file = some text } in
      let file : aimed.config_file ≡ some text =
        ap (λ d. d.config_file) (sym aims)
        ∙ retarget-config_file w.host (some url) (some id) (some name) ready in
      let then_resolves =
        subst
          (λ f.
            resolve_dap_settings w.join w.homedir w.hostname o env (read_dap_config w.host.parse f)
            ≡ some later)
          file resolves in
      let (url_later, name_later) =
        resolve-persist w.join w.homedir w.hostname w.host.parse w.host.print_config update
          ensured.config_file text next url name o env later written merged codec refl refl full
          called ou on vu vn then_resolves in
      let unnamed =
        persist-keeps_others w.host.parse w.host.print_config update ensured.config_file text next
          written merged codec "keyPath" refl
        ∙ plain in
      (
        ap (λ d. d.url) (sym aims) ∙ or_kept_full url _ full,
        ap (λ d. d.name) (sym aims),
        ap (λ d. d.identity) (sym aims),
        url_later,
        name_later,
        resolve_key_path w.join w.homedir w.hostname o env
            (read_dap_config w.host.parse (some text)) later path ok vk unnamed
            (ap (default_key_path w.join w.homedir w.hostname) name_later ∙ at) then_resolves,
        load_identity_stable w.codec (get s.key_files path) _ _ ed x id (get s'.key_files path) d
            (load_keys-some name path s s' id at loads),
      )
