-- ===== src/Dsh/Invites.antt =====
-- adapters/dsh-plugin/src/index.ts: dap_invite by a name and the delivery of pending invites, with
-- what follows their awaits.
use dap.Common.{
  ℕ, zero, suc, Bool, false, not, ◌&&◌, Option, none, some, String, List, [], ◌∷◌, ◌++◌, ◌==◌,
  string_eq, length, filterb, any, map, if◌then◌else◌,
}
use dap.Config.{PendingInvite}
use dap.Crypto.{join_comma, ◌+s+◌}
use dap.Client.Invites.{get_elem?, remove_at}
use dap.Dsh.State.{
  Host, Stack, Await, Outcome, returns, throws, done, roster, PresenceAgent, by_name_presence,
  deliver_presence, deliver_invited, poll_caught, invite_caught, caller,
}
use dap.Dsh.Wire.{settle, persist_config, agent_id, still_connecting}
use dap.Dsh.Calls.{invite, ensure_channel}
use dap.Dsh.Resume.{resume}
use dap.Dsh.Plugin.{
  Plugin, armed, persist_invites, poll_pending, refused, reply, run_hooks, settled, tell,
  with_client,
}

module _ (h : Host) where
  abbrev pub same_name : String → Option String → Bool
  same_name wanted none = false
  same_name wanted (some s) = h.lower s == h.lower wanted

  abbrev pub targets : Plugin → PendingInvite → List PresenceAgent → List PresenceAgent
  targets p pending agents =
      filterb (λ a. not (a.agent_id == agent_id h p.client) && same_name pending.name a.name) agents

  -- The loop of `deliverPending` over the indices below `i`, from the last.
  unfoldable pub deliver_from : ℕ → List PresenceAgent → Stack → Plugin → Plugin
  unfolding invite settle
  deliver_from zero agents k p = record p {
    delivering = false;
    client = settle k (returns done) p.client;
  }
  deliver_from (suc i) agents k p =
      let next = deliver_from i agents k p in
      elim (get_elem? p.pending_invites i) [
        | none ↦ next
        | some pending ↦ elim (targets p pending agents) [
          | a ∷ [] ↦
              with_client
                (invite h a.agent_id pending.channel (deliver_invited i pending agents ∷ k)
                  p.client)
                p
          | _ ↦ next
        ]
      ]

  unfoldable pub remove_delivered : ℕ → PendingInvite → Plugin → Plugin
  unfolding remove_at persist_config tell
  remove_delivered i pending p =
      tell ("[dap] invited " +s+ pending.name +s+ " to #" +s+ pending.channel)
        (persist_invites h (record p { pending_invites = remove_at i p.pending_invites }))

  abbrev pub is_armed : String → String → Plugin → Bool
  is_armed who channel p =
      any (λ i. h.lower i.name == h.lower who && i.channel == channel) p.pending_invites

  abbrev pub connect_line : String → Plugin → String
  connect_line who p =
      "send to " +s+ who +s+ ":  /dap " +s+ h.host_of p.settings_url +s+ " " +s+ who

  -- The end of `dap_invite`, for a name that nobody online has.
  unfoldable pub arm : String → String → ℕ → Plugin → Plugin
  unfolding ensure_channel persist_config poll_pending reply
  arm who channel n p =
      let (ch, c', returned) = ensure_channel h channel p.client in
      let ensured = with_client c' p in
      let kept =
        if is_armed who channel ensured
        then ensured
        else persist_invites h (record ensured {
          pending_invites =
              ensured.pending_invites ++ record { name = who; channel = channel } ∷ [];
        }) in
      if returned
      then reply n (armed who channel (connect_line who p)) (poll_pending h kept)
      else reply n (refused ("Error: " +s+ still_connecting)) ensured

  abbrev pub ambiguous : String → List PresenceAgent → String
  ambiguous who agents =
      "\"" +s+ who +s+ "\" is ambiguous — use an id: " +s+ join_comma (map (λ a. a.agent_id) agents)

  -- `dap_invite` after `await client.presence()`.
  unfoldable pub invite_matching : String → String → ℕ → List PresenceAgent → Plugin → Plugin
  unfolding arm invite reply
  invite_matching who channel n agents p = elim (filterb (λ a. same_name who a.name) agents) [
    | [] ↦ arm who channel n p
    | a ∷ [] ↦
        with_client (invite h a.agent_id channel (invite_caught n ∷ caller n ∷ []) p.client) p
    | a ∷ b ∷ more ↦ reply n (refused (ambiguous who (a ∷ b ∷ more))) p
  ]

  -- The number of the tool call at the end of a stack.
  abbrev pub caller_of : Stack → ℕ
  caller_of [] = 0
  caller_of (caller n ∷ k) = n
  caller_of (a ∷ k) = caller_of k

  -- One await point, the plugin's own or the client's.
  unfoldable pub resume_plugin : Await → Stack → Outcome → Plugin → Plugin
  unfolding invite_matching deliver_from remove_delivered tell reply resume settle
  resume_plugin (by_name_presence who channel) k (returns (roster agents)) p =
      invite_matching who channel (caller_of k) agents p
  resume_plugin (invite_caught n) k (returns r) p = with_client (settle k (returns r) p.client) p
  resume_plugin (invite_caught n) k (throws e) p = reply n (refused ("Error: " +s+ e)) p
  resume_plugin deliver_presence k (returns (roster agents)) p =
      deliver_from (length p.pending_invites) agents k p
  resume_plugin deliver_presence k (throws e) p = record p {
    delivering = false;
    client = settle k (throws e) p.client;
  }
  resume_plugin (deliver_invited i pending agents) k (returns r) p =
      deliver_from i agents k (remove_delivered i pending p)
  resume_plugin (deliver_invited i pending agents) k (throws e) p = deliver_from i agents k p
  resume_plugin poll_caught k (throws e) p =
      tell ("[dap] pending invite check failed: Error: " +s+ e) p
  resume_plugin (caller n) k o p = reply n (settled o) p
  resume_plugin a k o p = with_client (resume h a k o p.client) p

  -- The first job that is due.
  unfoldable pub run_job : Plugin → Plugin
  unfolding resume_plugin run_hooks
  run_job p = elim p.client.jobs [
    | [] ↦ p
    | j ∷ js ↦
        let rest = with_client (record p.client { jobs = js }) p in
        elim j.stack [ [] ↦ rest | a ∷ k ↦ run_hooks h (resume_plugin a k j.outcome rest) ]
  ]
