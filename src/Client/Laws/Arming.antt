-- ===== src/Client/Laws/Arming.antt =====
-- Arming a by-name invite in client.ts.
use dap.Common.{
  ◌≡◌, refl, ap, ◌∙◌, Bool, true, ◌&&◌, ◌||◌, some, String, List, [], ◌∷◌, ◌++◌, arith, any, ◌==◌,
  string_eq, ==_refl, Bool-cases, Option-cases, inl, inr, if◌then◌else◌,
}
use dap.Config.{PendingInvite, ConfigUpdate, no_update, persist_dap_config}
use dap.Client.State.{Client, Host, Stack, returns, armed}
use dap.Client.Wire.{persist_config}
use dap.Client.Invites.{is_armed, armed_invite, arm_when_ensured, poll_pending_invites}
use dap.Client.Laws.Frames.{kept, kept-settle}
use dap.Client.Laws.Backoff.{kept-poll_pending_invites}

any-append {ℓ} :
    {A : Type ℓ} (p : A → Bool) (xs ys : List A) → any p (xs ++ ys) ≡ (any p xs || any p ys)
any-append p [] ys = refl
any-append p (x ∷ xs) ys = ground (arith, any-append p xs ys)

module _ (h : Host) where
  pending-persist_config :
      (u : ConfigUpdate) (c : Client) → (persist_config h u c).pending_invites ≡ c.pending_invites
  unfolding persist_config
  pending-persist_config u c =
      elim (Option-cases (persist_dap_config h.parse h.print_config u c.config_file)) [
        | inl fails ↦ rw (fails, persist_config) refl
        | inr (text, written) ↦ rw (written, persist_config) refl
      ]

  -- Does the list have an invite under the name and the channel?
  abbrev lists : String → String → List PendingInvite → Bool
  lists name channel ps = any (λ p. h.lower p.name == h.lower name && p.channel == channel) ps

  abbrev listing : String → String → List PendingInvite → List PendingInvite
  listing name channel ps =
      if lists name channel ps then ps else ps ++ record { name = name; channel = channel } ∷ []

  pending-arm_when_ensured :
      (name channel : String) (k : Stack) (c : Client)
      → (arm_when_ensured h name channel k c).pending_invites
        ≡ listing name channel c.pending_invites
  unfolding arm_when_ensured kept
  pending-arm_when_ensured name channel k c = elim (Bool-cases (is_armed h name channel c)) [
    | inl before ↦ rw before (
        ap (λ s. s.pending_invites)
          (kept-settle k (returns (armed (armed_invite h name channel c)))
              (poll_pending_invites h c)
            ∙ kept-poll_pending_invites h c))
    | inr new ↦
        let pending = c.pending_invites ++ record { name = name; channel = channel } ∷ [] in
        let saved =
          persist_config h (record no_update { invites = some pending })
            (record c { pending_invites = pending }) in
        rw new (
          ap (λ s. s.pending_invites)
            (kept-settle k (returns (armed (armed_invite h name channel c)))
                (poll_pending_invites h saved)
              ∙ kept-poll_pending_invites h saved)
          ∙ pending-persist_config _ _)
  ]

  lists_self :
      (name channel : String) (ps : List PendingInvite)
      → lists name channel (ps ++ record { name = name; channel = channel } ∷ []) ≡ true
  lists_self name channel ps = ground (
    arith,
    any-append (λ p. h.lower p.name == h.lower name && p.channel == channel) ps
        (record { name = name; channel = channel } ∷ []),
    ==_refl (h.lower name),
    ==_refl channel,
  )

  lists-listing :
      (name channel : String) (ps : List PendingInvite)
      → lists name channel (listing name channel ps) ≡ true
  lists-listing name channel ps = elim (Bool-cases (lists name channel ps)) [
    | inl there ↦ rw there there
    | inr new ↦ rw new (lists_self name channel ps)
  ]

  -- An invite that is armed is not armed again under a name with the same lower case: the second
  -- call leaves the pending invites as they are, and the first one's is among them.
  pub arm_when_ensured_idempotent :
      (name other channel : String) (k l : Stack) (c : Client)
      → h.lower other ≡ h.lower name
      → let d = arm_when_ensured h name channel k c in
        ((arm_when_ensured h other channel l d).pending_invites ≡ d.pending_invites)
        × (is_armed h name channel d ≡ true)
  arm_when_ensured_idempotent name other channel k l c same =
      let d = arm_when_ensured h name channel k c in
      let pending = pending-arm_when_ensured name channel k c in
      let self : lists name channel d.pending_invites ≡ true =
        ap (lists name channel) pending ∙ lists-listing name channel c.pending_invites in
      let there : lists other channel d.pending_invites ≡ true = rw same self in
      (pending-arm_when_ensured other channel l d ∙ rw there refl, self)
