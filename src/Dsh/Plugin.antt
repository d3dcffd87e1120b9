-- ===== src/Dsh/Plugin.antt =====
-- adapters/dsh-plugin/src/index.ts: the state of the plugin around the client, and its hooks. They run
-- as soon as the client's code that called them is done, which is where that code calls them.
use dap.Common.{
  ℕ, Bool, true, not, ◌||◌, Option, none, some, String, List, [], ◌∷◌, string_eq, length, nat_beq,
  if◌then◌else◌,
}
use dap.Config.{PendingInvite, no_update}
use dap.Crypto.{◌+s+◌}
use dap.Dsh.State.{
  StatusInfo, Host, Client, Outcome, Hook, on_ready, on_message, on_invite, on_hub_error,
  on_enrolled, HubErrorEvent, MsgEvent, deliver_presence, poll_caught,
}
use dap.Dsh.Wire.{connected, persist_config}
use dap.Dsh.Calls.{presence}

abbrev pub disabled_error : String
disabled_error = "DAP_MASTER_SECRET is not set — DAP disabled"

abbrev pub enroll_notice : String
enroll_notice = "enrolled: client secret persisted"

pub data Tool : Type 0 where
  dap_send dap_dm : String → String → Tool
  dap_invite : String → Option String → Tool
  dap_inbox dap_status dap_peers : Tool
  dap_whois : String → Tool
  dap_connect : Option String → Option String → Option String → Tool

-- What a tool answers: what it awaited, an honest failure, or a value.
pub data Answer : Type 0 where
  settled : Outcome → Answer
  refused : String → Answer
  threw : String → Answer
  armed : String → String → String → Answer
  mailbox : List MsgEvent → List HubErrorEvent → Answer
  status : StatusInfo → Answer
  connecting_to : String → String → Answer

-- The locals of `apply`, what the agent was told (the last first), and the answers of the tools.
pub record Plugin : Type 0 where
  pub client : Client
  pub settings_url : String
  pub settings_name : Option String
  pub pending_invites : List PendingInvite
  pub delivering : Bool
  pub told : List String
  pub answers : List (ℕ × Answer)

abbrev pub with_client : Client → Plugin → Plugin
with_client c p = record p { client = c }

unfoldable pub tell : String → Plugin → Plugin
tell text p = record p { told = text ∷ p.told }

unfoldable pub reply : ℕ → Answer → Plugin → Plugin
reply n a p = record p { answers = (n, a) ∷ p.answers }

module _ (h : Host) where
  -- `pollPending`, up to the await of `deliverPending`.
  unfoldable pub poll_pending : Plugin → Plugin
  unfolding presence
  poll_pending p =
      if p.delivering || nat_beq (length p.pending_invites) 0 || not (connected p.client)
      then p
      else record p {
        delivering = true;
        client = presence h (deliver_presence ∷ poll_caught ∷ []) p.client;
      }

  abbrev pub where_from : MsgEvent → String
  where_from m = if m.dm then "dm" else elim m.channel [ none ↦ "undefined" | some c ↦ c ]

  abbrev pub rejected_text : HubErrorEvent → String
  rejected_text e = "[dap] hub rejected a frame — " +s+ e.code +s+ ": " +s+ e.msg

  unfoldable pub run_hook : Hook → Plugin → Plugin
  unfolding poll_pending tell
  run_hook (on_ready id) p = poll_pending p
  run_hook (on_message m) p =
      tell ("[dap:" +s+ where_from m +s+ "] " +s+ m.from +s+ ": " +s+ m.text) p
  run_hook (on_invite i from) p = tell ("[dap] invited to #" +s+ i.channel +s+ " by " +s+ from) p
  run_hook (on_hub_error e) p = tell (rejected_text e) p
  run_hook on_enrolled p = tell enroll_notice p

  unfoldable pub run_hook_list : List Hook → Plugin → Plugin
  unfolding run_hook
  run_hook_list [] p = p
  run_hook_list (k ∷ ks) p = run_hook k (run_hook_list ks p)

  -- The hooks that the client has called, the first first.
  unfoldable pub run_hooks : Plugin → Plugin
  unfolding run_hook_list
  run_hooks p = run_hook_list p.client.hooks (with_client (record p.client { hooks = [] }) p)

  abbrev pub persist_invites : Plugin → Plugin
  persist_invites p =
      with_client
        (persist_config h (record no_update { invites = some p.pending_invites }) p.client) p
