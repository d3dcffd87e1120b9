-- ===== src/Dsh/Laws/Refinement.antt =====
-- Every step of the plugin in dsh-plugin/src is a move of its connection's state machine.
use dap.Common.{
  ℕ, ◌≡◌, refl, subst, Bool, true, false, Option, none, some, String, [], ◌∷◌, if◌then◌else◌,
  Bool-cases, Option-cases, inl, inr,
}
use dap.Config.{env_str, ConfigUpdate, persist_dap_config}
use dap.Client.Invites.{is_agent_id}
use dap.Dsh.State.{Host, Client, invite_caught, by_name_presence, caller, whois_info}
use dap.Dsh.Wire.{connected, drain_errors}
use dap.Dsh.Socket.{retarget}
use dap.Dsh.Plugin.{
  Plugin, Tool, dap_send, dap_dm, dap_invite, dap_inbox, dap_status, dap_peers, dap_whois,
  dap_connect, reply,
}
use dap.Dsh.Tools.{
  connect_to, url_of, ensure_given, go_to, take_over, target_update, save_target, given_url, key_of,
  down, execute, call_tool,
}
use dap.Dsh.Steps.{Step, runs, happens, polls, calls, Reach, here, next, acts}
use dap.Dsh.Laws.Links.{
  Link, link, link-agent_info, link-send, link-dm, link-presence, link-invite, link-ensure_channel,
}
use dap.Dsh.Laws.Tools.{
  plugin_link, plugin_link-run_hooks, plugin_link-run_job, plugin_link-poll_pending,
}
use dap.Dsh.Laws.Connection.{Move, stays}
use dap.Dsh.Laws.Moves.{Unreadable, ends, retarget-Move, happens-Move}

-- Moves one after the other.
pub data Moves (U : Type 0) (l : Link) : Link → Type 0 where
  done : Moves U l l
  later : {m n : Link} → Moves U l m → Move U m n → Moves U l n

module _ (h : Host) where
  link-ensure_given : (o : Option String) (c : Client) → link (ensure_given h o c).0 ≡ link c
  link-ensure_given none c = refl
  link-ensure_given (some s) c = link-ensure_channel h s c

  go_to-Move :
      (host name channel : Option String) (url : String) (n : ℕ) (p : Plugin)
      → Move (Unreadable h) (plugin_link p) (plugin_link (go_to h host name channel url n p))
  unfolding go_to reply
  go_to-Move host name channel url n p =
      let (ensured, returned) = ensure_given h channel p.client in
      let same : link ensured ≡ plugin_link p = link-ensure_given channel p.client in
      let (aimed, dialled) = retarget h (given_url h host url) (key_of h name) name ensured in
      let moved : Move (Unreadable h) (plugin_link p) (link aimed) =
        subst (λ l. Move (Unreadable h) l (link aimed)) same
          (retarget-Move h (given_url h host url) (key_of h name) name ensured) in
      elim (Bool-cases returned) [
        | inr threw ↦ rw (threw, go_to) (ends h stays same)
        | inl joined ↦ elim (Bool-cases dialled) [
          | inr threw ↦ rw (joined, threw, go_to) moved
          | inl up ↦ rw (joined, up, go_to) moved
        ]
      ]

  abbrev SameLink : Plugin → Option Plugin → Type 0
  SameLink p none = Unit
  SameLink p (some q) = plugin_link q ≡ plugin_link p

  save_target-SameLink : (u : ConfigUpdate) (p : Plugin) → SameLink p (save_target h u p)
  unfolding save_target link
  save_target-SameLink u p =
      elim (Option-cases (persist_dap_config h.parse h.print_config u p.client.config_file)) [
        | inl broken ↦ rw (broken, SameLink, save_target) tt
        | inr (text, written) ↦ rw (written, SameLink, save_target) refl
      ]

  plugin_link-save_target :
      (u : ConfigUpdate) (p q : Plugin) → save_target h u p ≡ some q → plugin_link q ≡ plugin_link p
  plugin_link-save_target u p q saved = subst (SameLink p) saved (save_target-SameLink u p)

  connect_to-Move :
      (host name channel : Option String) (n : ℕ) (p : Plugin)
      → Move (Unreadable h) (plugin_link p) (plugin_link (connect_to h host name channel n p))
  unfolding connect_to reply
  connect_to-Move host name channel n p = elim (Option-cases (url_of h host p)) [
    | inl bad ↦ rw (bad, connect_to) stays
    | inr (url, good) ↦
        let named = take_over h name url p in
        let update = target_update h (given_url h host url) name channel in
        elim (Option-cases (save_target h update named)) [
          | inl broken ↦ rw (good, broken, connect_to) stays
          | inr (saved, written) ↦
              rw (good, written, connect_to)
                (subst
                  (λ l. Move (Unreadable h) l (plugin_link (go_to h host name channel url n saved)))
                  (plugin_link-save_target update named saved written)
                  (go_to-Move host name channel url n saved))
        ]
  ]

  plugin_link-if :
      (b : Bool) (p q r : Plugin)
      → plugin_link p ≡ plugin_link r
      → plugin_link q ≡ plugin_link r
      → plugin_link (if b then p else q) ≡ plugin_link r
  plugin_link-if true p q r e f = e
  plugin_link-if false p q r e f = f

  execute-Move :
      (tool : Tool) (n : ℕ) (p : Plugin)
      → Move (Unreadable h) (plugin_link p) (plugin_link (execute h tool n p))
  unfolding execute reply drain_errors link
  execute-Move (dap_send channel text) n p = ends h stays (
      plugin_link-if (connected p.client) _ (down h n p) p
        (link-send h channel text (caller n ∷ []) p.client) refl)
  execute-Move (dap_dm to text) n p = ends h stays (
      plugin_link-if (connected p.client) _ (down h n p) p
        (link-dm h to text (caller n ∷ []) p.client) refl)
  execute-Move (dap_invite who given) n p =
      let k = invite_caught n ∷ caller n ∷ [] in
      let channel : String = elim (env_str given) [ none ↦ "general" | some s ↦ s ] in
      ends h stays (
        plugin_link-if (connected p.client) _ (down h n p) p
          (plugin_link-if (is_agent_id who) _ _ p (link-invite h who channel k p.client)
            (link-presence h (by_name_presence who channel ∷ k) p.client))
          refl)
  execute-Move dap_inbox n p = stays
  execute-Move (dap_whois id) n p =
      ends h stays (link-agent_info id (whois_info id ∷ caller n ∷ []) p.client)
  execute-Move dap_status n p = stays
  execute-Move dap_peers n p = ends h stays (
      plugin_link-if (connected p.client) _ (down h n p) p
        (link-presence h (caller n ∷ []) p.client) refl)
  execute-Move (dap_connect host name channel) n p = elim (Option-cases (env_str host)) [
    | inr (s, given) ↦
        rw (given, execute) (connect_to-Move (some s) (env_str name) (env_str channel) n p)
    | inl bare ↦ elim (Option-cases (env_str name)) [
      | inr (s, named) ↦
          rw (bare, named, execute) (connect_to-Move none (some s) (env_str channel) n p)
      | inl unnamed ↦ rw (bare, unnamed, execute) stays
    ]
  ]

  call_tool-Move :
      (tool : Tool) (n : ℕ) (p : Plugin)
      → Move (Unreadable h) (plugin_link p) (plugin_link (call_tool h tool n p))
  unfolding call_tool reply
  call_tool-Move tool n p = elim (Option-cases (env_str h.environment.master_secret)) [
    | inl gated ↦ rw (gated, call_tool) stays
    | inr (secret, given) ↦
        rw (given, call_tool)
          (ends h (execute-Move tool n p) (plugin_link-run_hooks h (execute h tool n p)))
  ]

  -- A step of the plugin, whichever it is, is one move of the state machine of its connection: it
  -- leaves the connection alone, or opens, shuts, loses, redials, stops or retargets it as that
  -- machine may do then.
  pub step-Move : {p q : Plugin} → Step h p q → Move (Unreadable h) (plugin_link p) (plugin_link q)
  unfolding acts
  step-Move (runs j js due) = ends h stays (plugin_link-run_job h _)
  step-Move (happens idle event) = ends h (happens-Move h event) (plugin_link-run_hooks h _)
  step-Move {p} (polls idle) = ends h stays (plugin_link-poll_pending h p)
  step-Move (calls tool n idle) = call_tool-Move tool n _

  pub reach-Moves :
      {p q : Plugin} → Reach h p q → Moves (Unreadable h) (plugin_link p) (plugin_link q)
  reach-Moves here = done
  reach-Moves (next before step) = later (reach-Moves before) (step-Move step)
