-- ===== src/Client/Laws/Runs/Hub.antt =====
-- What the hub's frames do to the inbox, the errors and the delays of client.ts.
use dap.Common.{
  ℕ, zero, suc, ◌≡◌, refl, ◌∙◌, not, true, ◌&&◌, ◌||◌, if◌then◌else◌, Option, none, some, String,
  List, Bool-cases, Option-cases, List-cases, inl, inr, string_eq, ◌==◌, ltb,
}
use dap.JsMap.{JsMap}
use dap.Json.{Value, undefined, null, bool, num, str, arr, obj, prop, to_string}
use dap.Crypto.{◌+s+◌}
use dap.Config.{no_update, issue}
use dap.Client.State.{
  Client, Frame, Host, Outcome, PresenceAgent, PresenceWaiter, query, warm_up, Waiter, throws,
  returns, done, peer, roster,
}
use dap.Client.Wire.{settle_all, ring_error}
use dap.Client.Calls.{waiting_at, warm_up_presence}
use dap.Client.Invites.{error_event}
use dap.Client.Handlers.{
  settle_map, on_joined, fail_joins, fail_whois, is_text, on_error, on_agent_info, peer_info,
  unpark, presence_done, complete_all, visits, presence_agents, listed, route_presence, on_presence,
  on_enrolled,
}
use dap.Client.Laws.Frames.{kept-settle_all, kept-warm_up_presence}
use dap.Client.Laws.Retarget.{kept-settle_map}
use dap.Client.Laws.Runs.Noted.{Noted, noted, noted_same, noted_if}
use dap.Client.Laws.Runs.Stable.{IsStable, Holds, Holds-noted, Holds-ring_error}
use dap.Client.Laws.Runs.Calls.{noted-settle, noted-persist_config}

pub noted-settle_all :
    (ws : List Waiter) (o : Outcome) (c : Client) → noted (settle_all ws o c) ≡ noted c
noted-settle_all ws o c = noted_same (settle_all ws o c) c (kept-settle_all ws o c)

pub noted-settle_map :
    (o : String → Outcome) (m : JsMap String (List Waiter)) (c : Client)
    → noted (settle_map o m c) ≡ noted c
noted-settle_map o m c = noted_same (settle_map o m c) c (kept-settle_map o m c)

pub noted-on_joined : (channel : String) (c : Client) → noted (on_joined channel c) ≡ noted c
unfolding on_joined noted
noted-on_joined channel c = noted-settle_all (waiting_at c.join_waiters channel) (returns done) _

noted-fail_joins : (v : Value) (err : String) (c : Client) → noted (fail_joins v err c) ≡ noted c
unfolding fail_joins noted
noted-fail_joins (str channel) err c = elim (Bool-cases (channel == "")) [
  | inl all ↦ rw all (noted-settle_map (λ _. throws err) c.join_waiters c)
  | inr one ↦ rw one (noted-settle_all (waiting_at c.join_waiters channel) (throws err) c)
]
noted-fail_joins undefined err c = noted-settle_map (λ _. throws err) c.join_waiters c
noted-fail_joins null err c = noted-settle_map (λ _. throws err) c.join_waiters c
noted-fail_joins (bool b) err c = noted-settle_map (λ _. throws err) c.join_waiters c
noted-fail_joins (num n) err c = noted-settle_map (λ _. throws err) c.join_waiters c
noted-fail_joins (arr vs) err c = noted-settle_map (λ _. throws err) c.join_waiters c
noted-fail_joins (obj fs) err c = noted-settle_map (λ _. throws err) c.join_waiters c

noted-fail_whois : (c : Client) → noted (fail_whois c) ≡ noted c
unfolding fail_whois noted
noted-fail_whois c = noted-settle_map _ c.whois_waiters c

module _ {P : Noted → Type 0} (stable : IsStable P) where
  pub Holds-on_error : (f : Frame) (c : Client) → Holds P c → Holds P (on_error f c)
  unfolding on_error noted
  Holds-on_error f c s =
      let code = prop f "code" in
      let err = "hub error " +s+ to_string code +s+ ": " +s+ to_string (prop f "msg") in
      let told : Client = record c { last_error = err } in
      let event = error_event (to_string code) (to_string (prop f "msg")) c in
      let rung : Client = ring_error event told in
      let failed : Client =
        if is_text "unknown_channel" code || is_text "access_denied" code
        then fail_joins (prop f "channel") err rung
        else rung in
      let joins_kept : noted failed ≡ noted rung =
        noted_if (is_text "unknown_channel" code || is_text "access_denied" code)
          (fail_joins (prop f "channel") err rung) rung rung
          (noted-fail_joins (prop f "channel") err rung) refl in
      Holds-noted stable (on_error f c) rung
        (noted_if (is_text "unknown_agent" code) (fail_whois failed) failed rung
          (noted-fail_whois failed ∙ joins_kept) joins_kept)
        (Holds-ring_error stable event told s)

module _ (h : Host) where
  pub noted-on_agent_info : (f : Frame) (c : Client) → noted (on_agent_info h f c) ≡ noted c
  unfolding on_agent_info noted
  noted-on_agent_info f c =
      noted-settle_all (waiting_at c.whois_waiters (peer_info h f).agent_id)
        (returns (peer (peer_info h f))) _

  pub noted-warm_up_presence : (n : ℕ) (c : Client) → noted (warm_up_presence h n c) ≡ noted c
  noted-warm_up_presence n c = noted_same (warm_up_presence h n c) c (kept-warm_up_presence h n c)

  pub noted-presence_done :
      (id : String) (w : PresenceWaiter) (o : Outcome) (c : Client)
      → noted (presence_done h id w o c) ≡ noted c
  unfolding presence_done noted
  noted-presence_done id (query w) o c = noted-settle w.stack o _
  noted-presence_done id (warm_up n) (throws e) c = refl
  noted-presence_done id (warm_up n) (returns r) c =
      elim (Bool-cases (not c.echo_seen && ltb n 2)) [
        | inl again ↦ rw again (noted-warm_up_presence (suc n) (unpark h id c))
        | inr last ↦ rw last refl
      ]

  pub noted-complete_all :
      (fuel : ℕ) (o : Outcome) (c : Client) → noted (complete_all h fuel o c) ≡ noted c
  unfolding complete_all noted
  noted-complete_all zero o c = refl
  noted-complete_all (suc fuel) o c = elim (List-cases c.presence_waiters) [
    | inl none_left ↦ rw (none_left, complete_all) refl
    | inr ((id, w), m, first) ↦
        rw (first, complete_all)
          (noted-complete_all fuel o (presence_done h id w o c) ∙ noted-presence_done id w o c)
  ]

  noted_answer :
      (id : String) (agents : List PresenceAgent) (found : Option PresenceWaiter) (c : Client)
      → noted (elim found [
        | none ↦ record c { echo_seen = true }
        | some w ↦ presence_done h id w (returns (roster agents)) (record c { echo_seen = true })
      ])
        ≡ noted c
  unfolding noted
  noted_answer id agents none c = refl
  noted_answer id agents (some w) c = noted-presence_done id w (returns (roster agents)) _

  noted-route_presence :
      (v : Value) (agents : List PresenceAgent) (c : Client)
      → noted (route_presence h v agents c) ≡ noted c
  unfolding route_presence
  noted-route_presence undefined agents c =
      noted_if c.echo_seen c
        (complete_all h (visits h c.presence_waiters) (returns (roster agents)) c) c refl
        (noted-complete_all (visits h c.presence_waiters) (returns (roster agents)) c)
  noted-route_presence null agents c = noted_answer (to_string null) agents _ c
  noted-route_presence (str t) agents c = noted_answer (to_string (str t)) agents _ c
  noted-route_presence (bool b) agents c = noted_answer (to_string (bool b)) agents _ c
  noted-route_presence (num n) agents c = noted_answer (to_string (num n)) agents _ c
  noted-route_presence (arr vs) agents c = noted_answer (to_string (arr vs)) agents _ c
  noted-route_presence (obj fs) agents c = noted_answer (to_string (obj fs)) agents _ c

  pub noted-on_enrolled : (secret : String) (c : Client) → noted (on_enrolled h secret c) ≡ noted c
  unfolding on_enrolled noted
  noted-on_enrolled secret c = elim (Bool-cases (not c.enroll_pending || secret == "")) [
    | inl skip ↦ rw skip refl
    | inr saves ↦
        rw saves (noted-persist_config h (record no_update { client_secret = issue secret }) _)
  ]

module _ {P : Noted → Type 0} (stable : IsStable P) (h : Host) where
  -- What a handler leaves, if it does not throw.
  abbrev pub HoldsAny : Option Client → Type 0
  HoldsAny none = Unit
  HoldsAny (some c) = Holds P c

  pub Holds-on_presence : (f : Frame) (c : Client) → Holds P c → HoldsAny (on_presence h f c)
  unfolding on_presence
  Holds-on_presence f c s = elim (Option-cases (presence_agents h (listed h (prop f "agents")) c)) [
    | inl bad ↦ rw (bad, on_presence) tt
    | inr (agents, ok) ↦
        rw (ok, on_presence)
          (Holds-noted stable (route_presence h (prop f "replyTo") agents c) c
            (noted-route_presence h (prop f "replyTo") agents c) s)
  ]
