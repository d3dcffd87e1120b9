-- ===== src/Client/Laws/Runs/Invites.antt =====
-- The invites of client.ts leave the inbox, the errors and the delays alone.
use dap.Common.{
  ◌++◌, if◌then◌else◌, ℕ, zero, suc, ◌≡◌, refl, ◌∙◌, some, String, List, [], ◌∷◌, Bool-cases,
  Option-cases, List-cases, inl, inr, string_eq,
}
use dap.Config.{PendingInvite, no_update}
use dap.Client.State.{
  Client, Host, PresenceAgent, Stack, throws, returns, done, by_name_presence, arm_ensured,
}
use dap.Client.Wire.{settle, connected, persist_config, not_connected}
use dap.Client.Calls.{invite, presence}
use dap.Client.Invites.{
  is_agent_id, get_elem?, targets, deliver_from, is_armed, arm_when_ensured, invite_by_name,
  invite_matching, matches_name, filter_checked, poll_pending_invites,
}
use dap.Client.Laws.Runs.Noted.{noted, noted_if}
use dap.Client.Laws.Runs.Calls.{
  noted-settle, noted-invite, noted-presence, noted-poll_pending_invites, noted-persist_config,
  noted-ensure_channel,
}

kept_listed :
    (pending : List PendingInvite) (c : Client)
    → noted (record c { pending_invites = pending }) ≡ noted c
unfolding noted
kept_listed pending c = refl

module _ (h : Host) where
  pub noted-deliver_from :
      (i : ℕ) (agents : List PresenceAgent) (k : Stack) (c : Client)
      → noted (deliver_from h i agents k c) ≡ noted c
  unfolding deliver_from noted
  noted-deliver_from zero agents k c = noted-settle k (returns done) _
  noted-deliver_from (suc i) agents k c = elim (Option-cases (get_elem? c.pending_invites i)) [
    | inl e ↦ rw (e, deliver_from) (noted-deliver_from i agents k c)
    | inr (pending, e) ↦ elim (Option-cases (targets h c pending agents)) [
      | inl unreadable ↦ rw (e, unreadable, deliver_from) (noted-settle k _ _)
      | inr (found, f) ↦ elim (List-cases found) [
        | inl no_target ↦ rw (e, f, no_target, deliver_from) (noted-deliver_from i agents k c)
        | inr (a, rest, g) ↦ elim (List-cases rest) [
          | inl one ↦
              rw (e, f, g, one, deliver_from) (noted-invite h pending.channel a.agent_id _ c)
          | inr (b, more, two) ↦ rw (e, f, g, two, deliver_from) (noted-deliver_from i agents k c)
        ]
      ]
    ]
  ]

  pub noted-arm_when_ensured :
      (name channel : String) (k : Stack) (c : Client)
      → noted (arm_when_ensured h name channel k c) ≡ noted c
  unfolding arm_when_ensured
  noted-arm_when_ensured name channel k c =
      let pending : List PendingInvite =
        c.pending_invites ++ record { name = name; channel = channel } ∷ [] in
      let listed : Client = record c { pending_invites = pending } in
      let saved : Client = persist_config h (record no_update { invites = some pending }) listed in
      elim (Bool-cases (is_armed h name channel c)) [
        | inl already ↦
            rw already
              (noted-settle k _ (poll_pending_invites h c) ∙ noted-poll_pending_invites h c)
        | inr new ↦ rw new (
            noted-settle k _ (poll_pending_invites h saved)
            ∙ noted-poll_pending_invites h saved
            ∙ noted-persist_config h (record no_update { invites = some pending }) listed
            ∙ kept_listed pending c)
      ]

  pub noted-invite_by_name :
      (channel who : String) (k : Stack) (c : Client)
      → noted (invite_by_name h channel who k c) ≡ noted c
  unfolding invite_by_name
  noted-invite_by_name channel who k c =
      noted_if (connected c)
        (if is_agent_id who
          then invite h channel who k c
          else presence h (by_name_presence channel who ∷ k) c)
        (settle k (throws not_connected) c) c
        (noted_if (is_agent_id who) (invite h channel who k c)
          (presence h (by_name_presence channel who ∷ k) c) c (noted-invite h channel who k c)
          (noted-presence h (by_name_presence channel who ∷ k) c))
        (noted-settle k (throws not_connected) c)

  pub noted-invite_matching :
      (channel who : String) (agents : List PresenceAgent) (k : Stack) (c : Client)
      → noted (invite_matching h channel who agents k c) ≡ noted c
  unfolding invite_matching
  noted-invite_matching channel who agents k c =
      elim (Option-cases (filter_checked (λ a. matches_name h (h.lower who) a.name) agents)) [
        | inl unreadable ↦ rw (unreadable, invite_matching) (noted-settle k _ c)
        | inr (found, f) ↦ elim (List-cases found) [
          | inl e ↦
              rw (f, e, invite_matching)
                (noted-ensure_channel h channel (arm_ensured who channel ∷ k) c)
          | inr (a, rest, e) ↦ elim (List-cases rest) [
            | inl one ↦ rw (f, e, one, invite_matching) (noted-invite h channel a.agent_id k c)
            | inr (b, more, two) ↦ rw (f, e, two, invite_matching) (noted-settle k _ c)
          ]
        ]
      ]
