-- ===== src/Client/Laws/Enrolment.antt =====
-- The bearer token of a dial in client.ts, and the recovery from a rejected one.
use dap.Common.{
  ℕ, ◌≡◌, ◌⊎◌, refl, ap, ap₂, ◌∙◌, Bool, true, false, not, ◌&&◌, Option, none, some, String, arith,
  ◌==◌, string_eq, nat_beq, Bool-cases, Option-cases, inl, inr,
}
use dap.JsMap.{JsMap, set, delete, is_some}
use dap.Json.{Value, str, object, prop}
use dap.Config.{
  ConfigUpdate, opt_str, env_str, no_update, purge, issue, read_dap_config, persist_dap_config,
  merge_config, set_secret, set_channels, set_invites, set_if_given,
}
use dap.Config.Persist.{persist-client_secret}
use dap.Client.State.{Client, Host, config, master}
use dap.Client.Wire.{persist_config, ring_error}
use dap.Client.Invites.{error_event}
use dap.Client.Handlers.{on_enrolled}
use dap.Client.Socket.{
  is_config, recover_stale_secret, on_unexpected_response, dial_401_help, resolve_auth_token,
  persisted_secret, auth_of,
}
use dap.Client.Steps.{Reach}
use dap.Client.Laws.Runs.Noted.{Noted, noted}
use dap.Client.Laws.Runs.Stable.{IsStable}
use dap.Client.Laws.Runs.Invariant.{Reach-Holds}

-- A secret was dropped.
abbrev IsLatched : Noted → Type 0
IsLatched n = n.re_enrolled ≡ true

IsLatched-IsStable : IsStable IsLatched
IsLatched-IsStable = record {
  delivered = λ n ev s. s;
  rung = λ n ev s. s;
  inbox_drained = λ n s. s;
  errors_drained = λ n s. s;
  reset = λ n s. s;
  doubled = λ n s. s;
  no_retry = λ n s. s;
  recovered = λ n s. refl;
}

module _ (h : Host) where
  abbrev pub may_recover : Client → Bool
  may_recover c =
      is_config c.dial_source && not c.re_enrolled && is_some (env_str h.environment.master_secret)

  re_enrolled-persist_config :
      (u : ConfigUpdate) (c : Client) → (persist_config h u c).re_enrolled ≡ c.re_enrolled
  unfolding persist_config
  re_enrolled-persist_config u c =
      elim (Option-cases (persist_dap_config h.parse h.print_config u c.config_file)) [
        | inl fails ↦ rw (fails, persist_config) refl
        | inr (text, written) ↦ rw (written, persist_config) refl
      ]

  recover_cases :
      (c : Client)
      → ((may_recover c ≡ false) × (recover_stale_secret h c ≡ c))
        ⊎ ((may_recover c ≡ true) × ((recover_stale_secret h c).re_enrolled ≡ true))
  unfolding recover_stale_secret
  recover_cases c = elim (Bool-cases (may_recover c)) [
    | inl may ↦ inr (may, rw may (re_enrolled-persist_config _ _))
    | inr bars ↦ inl (bars, rw bars refl)
  ]

  -- The client when a dial got a 401, before the recovery.
  abbrev warned : Client → Client
  warned c =
      ring_error (error_event "unauthorized" dial_401_help c)
        (record c { last_error = dial_401_help })

  -- A client that has dropped a secret leaves the config file alone.
  latched-config_file :
      (code : ℕ) (c : Client)
      → c.re_enrolled ≡ true
      → (on_unexpected_response h code c).config_file ≡ c.config_file
  unfolding on_unexpected_response ring_error
  latched-config_file code c latch = elim (Bool-cases (nat_beq code 401)) [
    | inr other ↦ rw other refl
    | inl rejected ↦ elim (recover_cases (warned c)) [
      | inl (bars, same) ↦ rw rejected (ap (λ d. d.config_file) same)
      | inr (may, _) ↦ absurd (ground (arith, latch, may))
    ]
  ]

  -- What the rejected dial does to the file, and to the latch if it drops the secret.
  rejected_cases :
      (code : ℕ) (c : Client)
      → ((on_unexpected_response h code c).config_file ≡ c.config_file)
        ⊎ ((code ≡ 401)
            × (may_recover c ≡ true)
            × ((on_unexpected_response h code c).re_enrolled ≡ true))
  unfolding on_unexpected_response ring_error
  rejected_cases code c = elim (Bool-cases (nat_beq code 401)) [
    | inr other ↦ inl (rw other refl)
    | inl rejected ↦ elim (recover_cases (warned c)) [
      | inl (bars, same) ↦ inl (rw rejected (ap (λ d. d.config_file) same))
      | inr (may, latch) ↦ inr (ground arith, may, rw rejected latch)
    ]
  ]

  -- The latch stays set in every run.
  Reach-re_enrolled : (c d : Client) → c.re_enrolled ≡ true → Reach h c d → d.re_enrolled ≡ true
  unfolding noted
  Reach-re_enrolled c d latch run = Reach-Holds IsLatched-IsStable h c d latch run

  -- A rejected dial leaves the config file alone unless the status is 401, the secret came from that
  -- file, a master secret is there, and none was dropped before; then in no run after it does
  -- another rejected dial change the file, whatever its status.
  pub on_unexpected_response-config_file :
      (code later : ℕ) (c d : Client)
      → Reach h (on_unexpected_response h code c) d
      → ((on_unexpected_response h code c).config_file ≡ c.config_file)
        ⊎ ((code ≡ 401)
            × (may_recover c ≡ true)
            × ((on_unexpected_response h later d).config_file ≡ d.config_file))
  on_unexpected_response-config_file code later c d run = elim (rejected_cases code c) [
    | inl same ↦ inl same
    | inr (unauthorized, may, latch) ↦ inr (
      unauthorized,
      may,
      latched-config_file later d (Reach-re_enrolled (on_unexpected_response h code c) d latch run),
    )
  ]

  -- What a purge writes.
  abbrev pub purged : Option String → JsMap String Value
  purged file = delete (read_dap_config h.parse file) "clientSecret"

  persisted-recover :
      (c : Client)
      → may_recover c ≡ true
      → h.parse (h.print_config (purged c.config_file)) ≡ some (object (purged c.config_file))
      → persisted_secret h (recover_stale_secret h c) ≡ none
  unfolding recover_stale_secret persist_config persisted_secret persist_dap_config merge_config
      set_secret set_channels set_invites set_if_given
  persisted-recover c may back = rw may (
      persist-client_secret h.parse h.print_config (record no_update { client_secret = purge })
        c.config_file (h.print_config (purged c.config_file)) (purged c.config_file) refl refl back)

  -- After a 401 on a secret from the config file, where none was dropped before, the environment
  -- has a master secret and no client secret, and the file without the secret reads back as it
  -- is written, the next dial presents the master secret and asks to enroll.
  pub resolve-on_unexpected_response :
      (c : Client) (secret : String)
      → is_config c.dial_source ≡ true
      → c.re_enrolled ≡ false
      → env_str h.environment.client_secret ≡ none
      → env_str h.environment.master_secret ≡ some secret
      → h.parse (h.print_config (purged c.config_file)) ≡ some (object (purged c.config_file))
      → resolve_auth_token h (on_unexpected_response h 401 c)
        ≡ some (record { token = secret; enroll = true; source = master })
  unfolding on_unexpected_response ring_error resolve_auth_token persisted_secret
  resolve-on_unexpected_response c secret from_file first no_env has_master back =
      let may : may_recover (warned c) ≡ true = ground arith in
      let gone = persisted-recover (warned c) may back in
      ap₂ (λ a b. auth_of h a b (env_str h.environment.master_secret)) no_env gone
      ∙ ap (auth_of h none none) has_master

  -- The secret, not empty, that the hub issues to a client that is enrolling is what the next
  -- dial presents, without a new enrollment, if no client secret is in the environment and the
  -- config file reads back as it is written.
  pub resolve-on_enrolled :
      (c : Client) (secret : String)
      → c.enroll_pending ≡ true
      → (secret == "") ≡ false
      → env_str h.environment.client_secret ≡ none
      → let next = set (read_dap_config h.parse c.config_file) "clientSecret" (str secret) in
        h.parse (h.print_config next) ≡ some (object next)
        → resolve_auth_token h (on_enrolled h secret c)
          ≡ some (record { token = secret; enroll = false; source = config })
  unfolding on_enrolled resolve_auth_token persist_config persisted_secret persist_dap_config
      merge_config set_secret set_channels set_invites set_if_given
  resolve-on_enrolled c secret pending given no_env back =
      let update : ConfigUpdate = record no_update { client_secret = issue secret } in
      let next = set (read_dap_config h.parse c.config_file) "clientSecret" (str secret) in
      let merged : merge_config update (read_dap_config h.parse c.config_file) ≡ some next =
        rw given refl in
      let written : persist_dap_config h.parse h.print_config update c.config_file
          ≡ some (h.print_config next) =
        rw given refl in
      let kept_ : (on_enrolled h secret c).config_file ≡ some (h.print_config next) =
        rw pending (rw given refl) in
      let read_back =
        persist-client_secret h.parse h.print_config update c.config_file (h.print_config next) next
          written merged back in
      let found : persisted_secret h (on_enrolled h secret c) ≡ some secret =
        ap (λ f. opt_str (prop (read_dap_config h.parse f) "clientSecret")) kept_
        ∙ read_back
        ∙ rw given refl in
      ap₂ (λ a b. auth_of h a b (env_str h.environment.master_secret)) no_env found
