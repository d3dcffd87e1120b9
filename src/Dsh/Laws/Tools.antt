-- ===== src/Dsh/Laws/Tools.antt =====
-- What the hooks, the invite poller and the tools of dsh-plugin/src/index.ts leave alone: the
-- connection, which only `dap_connect` moves.
use dap.Common.{
  ℕ, zero, suc, ◌≡◌, refl, ◌∙◌, ◌||◌, not, some, String, List, [], ◌∷◌, ◌++◌, length, nat_beq,
  Bool-cases, Option-cases, List-cases, inl, inr, string_eq, filterb,
}
use dap.Config.{PendingInvite, no_update}
use dap.Client.Invites.{get_elem?, remove_at}
use dap.Dsh.State.{
  Host, Stack, Outcome, Await, returns, throws, done, roster, PresenceAgent, Hook, on_ready,
  on_message, on_invite, on_hub_error, on_enrolled, by_name_presence, deliver_presence,
  deliver_invited, poll_caught, invite_caught, caller,
}
use dap.Dsh.Wire.{connected}
use dap.Dsh.Calls.{ensure_channel}
use dap.Dsh.Plugin.{
  Plugin, poll_pending, run_hook, run_hook_list, run_hooks, persist_invites, tell, reply,
  with_client,
}
use dap.Dsh.Invites.{
  targets, deliver_from, remove_delivered, is_armed, arm, invite_matching, same_name, resume_plugin,
  run_job, caller_of,
}
use dap.Dsh.Laws.Links.{
  Link, link, link-settle, link-persist_config, link-presence, link-ensure_channel, link-invite,
}
use dap.Dsh.Laws.Handled.{link-resume}

-- The connection of the plugin's client.
abbrev pub plugin_link : Plugin → Link
plugin_link p = link p.client

module _ (h : Host) where
  pub plugin_link-poll_pending : (p : Plugin) → plugin_link (poll_pending h p) ≡ plugin_link p
  unfolding poll_pending
  plugin_link-poll_pending p =
      elim (Bool-cases
        (p.delivering || nat_beq (length p.pending_invites) 0 || not (connected p.client))) [
          | inl rests ↦ rw (rests, poll_pending) refl
          | inr asks ↦
              rw (asks, poll_pending)
                (link-presence h (deliver_presence ∷ poll_caught ∷ []) p.client)
        ]

  plugin_link-run_hook : (k : Hook) (p : Plugin) → plugin_link (run_hook h k p) ≡ plugin_link p
  unfolding run_hook tell
  plugin_link-run_hook (on_ready id) p = plugin_link-poll_pending p
  plugin_link-run_hook (on_message m) p = refl
  plugin_link-run_hook (on_invite i from) p = refl
  plugin_link-run_hook (on_hub_error e) p = refl
  plugin_link-run_hook on_enrolled p = refl

  plugin_link-run_hook_list :
      (ks : List Hook) (p : Plugin) → plugin_link (run_hook_list h ks p) ≡ plugin_link p
  unfolding run_hook_list
  plugin_link-run_hook_list [] p = refl
  plugin_link-run_hook_list (k ∷ ks) p =
      plugin_link-run_hook k (run_hook_list h ks p) ∙ plugin_link-run_hook_list ks p

  pub plugin_link-run_hooks : (p : Plugin) → plugin_link (run_hooks h p) ≡ plugin_link p
  unfolding run_hooks link
  plugin_link-run_hooks p = plugin_link-run_hook_list p.client.hooks _

  plugin_link-persist_invites : (p : Plugin) → plugin_link (persist_invites h p) ≡ plugin_link p
  plugin_link-persist_invites p =
      link-persist_config h (record no_update { invites = some p.pending_invites }) p.client

  plugin_link-remove_delivered :
      (i : ℕ) (a : PendingInvite) (p : Plugin)
      → plugin_link (remove_delivered h i a p) ≡ plugin_link p
  unfolding remove_delivered tell
  plugin_link-remove_delivered i a p =
      plugin_link-persist_invites (record p { pending_invites = remove_at i p.pending_invites })

  plugin_link-deliver_from :
      (i : ℕ) (agents : List PresenceAgent) (k : Stack) (p : Plugin)
      → plugin_link (deliver_from h i agents k p) ≡ plugin_link p
  unfolding deliver_from
  plugin_link-deliver_from zero agents k p = link-settle k (returns done) p.client
  plugin_link-deliver_from (suc i) agents k p =
      elim (Option-cases (get_elem? p.pending_invites i)) [
        | inl gone ↦ rw (gone, deliver_from) (plugin_link-deliver_from i agents k p)
        | inr (pending, there) ↦
            let next = plugin_link-deliver_from i agents k p in
            elim (List-cases (targets h p pending agents)) [
              | inl nobody_on ↦ rw (there, nobody_on, deliver_from) next
              | inr (a, more, on) ↦ elim (List-cases more) [
                | inl alone ↦
                    rw (there, on, alone, deliver_from)
                      (link-invite h a.agent_id pending.channel
                        (deliver_invited i pending agents ∷ k) p.client)
                | inr (b, others, several) ↦ rw (there, on, several, deliver_from) next
              ]
            ]
      ]

  plugin_link-arm :
      (who channel : String) (n : ℕ) (p : Plugin)
      → plugin_link (arm h who channel n p) ≡ plugin_link p
  unfolding arm reply
  plugin_link-arm who channel n p =
      let (ch, c', returned) = ensure_channel h channel p.client in
      let ensured = with_client c' p in
      let added = record ensured {
        pending_invites = ensured.pending_invites ++ record { name = who; channel = channel } ∷ [];
      } in
      let same : plugin_link ensured ≡ plugin_link p = link-ensure_channel h channel p.client in
      elim (Bool-cases returned) [
        | inr threw ↦ rw (threw, arm) same
        | inl joined ↦ elim (Bool-cases (is_armed h who channel ensured)) [
          | inl was ↦ rw (joined, was, arm) (plugin_link-poll_pending ensured ∙ same)
          | inr new ↦
              rw (joined, new, arm)
                (plugin_link-poll_pending (persist_invites h added)
                  ∙ plugin_link-persist_invites added
                  ∙ same)
        ]
      ]

  plugin_link-invite_matching :
      (who channel : String) (n : ℕ) (agents : List PresenceAgent) (p : Plugin)
      → plugin_link (invite_matching h who channel n agents p) ≡ plugin_link p
  unfolding invite_matching reply
  plugin_link-invite_matching who channel n agents p =
      elim (List-cases (filterb (λ a. same_name h who a.name) agents)) [
        | inl nobody_on ↦ rw (nobody_on, invite_matching) (plugin_link-arm who channel n p)
        | inr (a, more, on) ↦ elim (List-cases more) [
          | inl alone ↦
              rw (on, alone, invite_matching)
                (link-invite h a.agent_id channel (invite_caught n ∷ caller n ∷ []) p.client)
          | inr (b, others, several) ↦ rw (on, several, invite_matching) refl
        ]
      ]

  plugin_link-resume_plugin :
      (a : Await) (k : Stack) (o : Outcome) (p : Plugin)
      → plugin_link (resume_plugin h a k o p) ≡ plugin_link p
  unfolding resume_plugin tell reply
  plugin_link-resume_plugin (by_name_presence who channel) k (returns (roster agents)) p =
      plugin_link-invite_matching who channel (caller_of h k) agents p
  plugin_link-resume_plugin (invite_caught n) k (returns r) p = link-settle k (returns r) p.client
  plugin_link-resume_plugin (invite_caught n) k (throws e) p = refl
  plugin_link-resume_plugin deliver_presence k (returns (roster agents)) p =
      plugin_link-deliver_from (length p.pending_invites) agents k p
  plugin_link-resume_plugin deliver_presence k (throws e) p = link-settle k (throws e) p.client
  plugin_link-resume_plugin (deliver_invited i pending agents) k (returns r) p =
      plugin_link-deliver_from i agents k (remove_delivered h i pending p)
      ∙ plugin_link-remove_delivered i pending p
  plugin_link-resume_plugin (deliver_invited i pending agents) k (throws e) p =
      plugin_link-deliver_from i agents k p
  plugin_link-resume_plugin poll_caught k (throws e) p = refl
  plugin_link-resume_plugin (caller n) k o p = refl
  plugin_link-resume_plugin a k o p = link-resume h a k o p.client

  pub plugin_link-run_job : (p : Plugin) → plugin_link (run_job h p) ≡ plugin_link p
  unfolding run_job link
  plugin_link-run_job p = elim (List-cases p.client.jobs) [
    | inl idle ↦ rw (idle, run_job) refl
    | inr (j, js, due) ↦
        let rest = with_client (record p.client { jobs = js }) p in
        elim (List-cases j.stack) [
          | inl bare ↦ rw (due, bare, run_job) refl
          | inr (a, k, waits) ↦
              rw (due, waits, run_job)
                (plugin_link-run_hooks (resume_plugin h a k j.outcome rest)
                  ∙ plugin_link-resume_plugin a k j.outcome rest)
        ]
  ]
