-- ===== src/Config/Persist.antt =====
-- What `persistDapConfig` leaves in the config file, read back by `readDapConfig`.
use text.Mathlib.TextEquality.{eq_iff}
use dap.Common.{
  ◌≡◌, refl, ap, ◌∙◌, Bool, false, ◌||◌, Option, none, some, String, List, [], ◌∷◌, arith, ◌==◌,
  string_eq, if◌then◌else◌, Option-cases, inl, inr,
}
use dap.JsMap.{JsMap, get, get-set, get-delete}
use dap.Json.{Value, str, object, or_undefined, prop, entries-of_entries}
use dap.Config.{
  merged_channels, PendingInvite, opt_str, ConfigUpdate, SecretUpdate, keep, purge, issue,
  set_if_given, set_channels, set_invites, set_secret, merge_config, read_dap_config,
  persist_dap_config, normalize_config,
}

get-set_if_given :
    (key : String) (o : Option String) (m : JsMap String Value) (k : String)
    → (key == k) ≡ false
    → get (set_if_given key o m) k ≡ get m k
unfolding set_if_given
get-set_if_given key none m k h = refl
get-set_if_given key (some s) m k h = ground (arith, get-set m key k (str s))

get-set_channels :
    (o : Option (List String)) (cur m n : JsMap String Value) (k : String)
    → set_channels o cur m ≡ some n
    → ("channels" == k) ≡ false
    → get n k ≡ get m k
unfolding set_channels
get-set_channels none cur m n k e h = ground arith
get-set_channels (some []) cur m n k e h = ground arith
get-set_channels (some (c ∷ cs)) cur m n k e h =
    elim (Option-cases (merged_channels (prop cur "channels") (c ∷ cs))) [
      | inl f ↦ ground arith
      | inr (v, f) ↦ ground (arith, get-set m "channels" k v)
    ]

get-set_invites :
    (o : Option (List PendingInvite)) (m : JsMap String Value) (k : String)
    → ("invites" == k) ≡ false
    → get (set_invites o m) k ≡ get m k
unfolding set_invites
get-set_invites none m k h = refl
get-set_invites (some ps) m k h = rw (get-set m "invites" k _, h)

get-set_secret :
    (u : SecretUpdate) (m : JsMap String Value) (k : String)
    → ("clientSecret" == k) ≡ false
    → get (set_secret u m) k ≡ get m k
unfolding set_secret
get-set_secret keep m k h = refl
get-set_secret purge m k h = rw (get-delete m "clientSecret" k, h)
get-set_secret (issue s) m k h = ground (arith, get-set m "clientSecret" k (str s))

-- The keys that an update may write.
abbrev pub is_updated : String → Bool
is_updated k = "url" == k || "name" == k || "channels" == k || "invites" == k || "clientSecret" == k

merge_config-cases :
    (u : ConfigUpdate) (cur next : JsMap String Value)
    → merge_config u cur ≡ some next
    → (m : JsMap String Value) × (set_channels u.channels cur
          (set_if_given "name" u.name (set_if_given "url" u.url cur))
        ≡ some m)
      × (next ≡ set_secret u.client_secret (set_invites u.invites m))
unfolding merge_config
merge_config-cases u cur next e = ground arith

not_updated :
    (k : String)
    → is_updated k ≡ false
    → (("url" == k) ≡ false)
      × (("name" == k) ≡ false)
      × (("channels" == k) ≡ false)
      × (("invites" == k) ≡ false)
      × (("clientSecret" == k) ≡ false)
not_updated k h = ground arith

get-merge_config :
    (u : ConfigUpdate) (cur next : JsMap String Value) (k : String)
    → merge_config u cur ≡ some next
    → is_updated k ≡ false
    → get next k ≡ get cur k
get-merge_config u cur next k e h =
    let (m, em, en) = merge_config-cases u cur next e in
    let (u1, u2, u3, u4, u5) = not_updated k h in
    rw en (
      get-set_secret u.client_secret (set_invites u.invites m) k u5
      ∙ get-set_invites u.invites m k u4
      ∙ get-set_channels u.channels cur _ m k em u3
      ∙ get-set_if_given "name" u.name (set_if_given "url" u.url cur) k u2
      ∙ get-set_if_given "url" u.url cur k u1)

-- The secret that a read finds after an update.
abbrev pub secret_after : SecretUpdate → Option String → Option String
secret_after keep old = old
secret_after purge old = none
secret_after (issue s) old = if s == "" then old else some s

opt_str-set_secret :
    (u : SecretUpdate) (m : JsMap String Value)
    → opt_str (prop (set_secret u m) "clientSecret")
      ≡ secret_after u (opt_str (prop m "clientSecret"))
unfolding set_secret opt_str
opt_str-set_secret keep m = refl
opt_str-set_secret purge m = rw (get-delete m "clientSecret" "clientSecret")
opt_str-set_secret (issue s) m = ground (arith, get-set m "clientSecret" "clientSecret" (str s))

secret-merge_config :
    (u : ConfigUpdate) (cur next : JsMap String Value)
    → merge_config u cur ≡ some next
    → opt_str (prop next "clientSecret")
      ≡ secret_after u.client_secret (opt_str (prop cur "clientSecret"))
secret-merge_config u cur next e =
    let (m, em, en) = merge_config-cases u cur next e in
    rw en (
      opt_str-set_secret u.client_secret (set_invites u.invites m)
      ∙ ap (λ v. secret_after u.client_secret (opt_str (or_undefined v)))
          (get-set_invites u.invites m "clientSecret" refl
            ∙ get-set_channels u.channels cur _ m "clientSecret" em refl
            ∙ get-set_if_given "name" u.name (set_if_given "url" u.url cur) "clientSecret" refl
            ∙ get-set_if_given "url" u.url cur "clientSecret" refl))

abbrev pub given_or : Option String → Option Value → Option Value
given_or none old = old
given_or (some s) old = if s == "" then old else some (str s)

get-set_if_given_self :
    (key : String) (o : Option String) (m : JsMap String Value)
    → get (set_if_given key o m) key ≡ given_or o (get m key)
unfolding set_if_given
get-set_if_given_self key none m = refl
get-set_if_given_self key (some s) m = ground (arith, get-set m key key (str s), eq_iff key key)

given-merge_config :
    (u : ConfigUpdate) (cur next : JsMap String Value)
    → merge_config u cur ≡ some next
    → (get next "url" ≡ given_or u.url (get cur "url"))
      × (get next "name" ≡ given_or u.name (get cur "name"))
given-merge_config u cur next e =
    let (m, em, en) = merge_config-cases u cur next e in
    let below : (k : String)
        → ("clientSecret" == k) ≡ false
        → ("invites" == k) ≡ false
        → ("channels" == k) ≡ false
        → get next k ≡ get (set_if_given "name" u.name (set_if_given "url" u.url cur)) k =
      λ k h5 h4 h3.
        ap (λ n. get n k) en
        ∙ get-set_secret u.client_secret (set_invites u.invites m) k h5
        ∙ get-set_invites u.invites m k h4
        ∙ get-set_channels u.channels cur _ m k em h3 in
    (
      below "url" refl refl refl
          ∙ get-set_if_given "name" u.name _ "url" refl
          ∙ get-set_if_given_self "url" u.url cur,
      below "name" refl refl refl
          ∙ get-set_if_given_self "name" u.name _
          ∙ ap (given_or u.name) (get-set_if_given "url" u.url cur "name" refl),
    )

get-normalize_config :
    (m : JsMap String Value) (k : String)
    → ("invites" == k) ≡ false
    → get (normalize_config (object m)) k ≡ get m k
unfolding normalize_config
get-normalize_config m k h = rw (entries-of_entries m) (rw (get-set m "invites" k _, h))

module _ (parse : String → Option Value) (print : JsMap String Value → String) (u : ConfigUpdate)
    (file : Option String) (text : String) (next : JsMap String Value)
    (written : persist_dap_config parse print u file ≡ some text)
    (merged : merge_config u (read_dap_config parse file) ≡ some next)
    (reads_back : parse (print next) ≡ some (object next)) where
  read-persist : read_dap_config parse (some text) ≡ normalize_config (object next)
  unfolding persist_dap_config
  read-persist = ground arith

  get-read_persist :
      (k : String)
      → ("invites" == k) ≡ false
      → get (read_dap_config parse (some text)) k ≡ get next k
  get-read_persist k h = ap (λ m. get m k) read-persist ∙ get-normalize_config next k h

  -- If what is written to the config file is read back as it was written, a key that no update
  -- writes (any but url, name, channels, invites and clientSecret) has the value that it had.
  pub persist-keeps_others :
      (k : String)
      → is_updated k ≡ false
      → get (read_dap_config parse (some text)) k ≡ get (read_dap_config parse file) k
  persist-keeps_others k h =
      get-read_persist k (not_updated k h).3 ∙ get-merge_config u _ next k merged h

  -- If what is written is read back, the next read finds the client secret that the update issued
  -- (unless it is empty), none after a purge, and the one that was there otherwise.
  pub persist-client_secret :
      opt_str (prop (read_dap_config parse (some text)) "clientSecret")
      ≡ secret_after u.client_secret (opt_str (prop (read_dap_config parse file) "clientSecret"))
  persist-client_secret =
      ap (λ v. opt_str (or_undefined v)) (get-read_persist "clientSecret" refl)
      ∙ secret-merge_config u _ next merged

  pub read-persist_url :
      get (read_dap_config parse (some text)) "url"
      ≡ given_or u.url (get (read_dap_config parse file) "url")
  read-persist_url = get-read_persist "url" refl ∙ (given-merge_config u _ next merged).0

  pub read-persist_name :
      get (read_dap_config parse (some text)) "name"
      ≡ given_or u.name (get (read_dap_config parse file) "name")
  read-persist_name = get-read_persist "name" refl ∙ (given-merge_config u _ next merged).1
