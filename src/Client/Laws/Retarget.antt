-- ===== src/Client/Laws/Retarget.antt =====
-- What `failWaiters` and `retarget` of client.ts leave alone.
use dap.Common.{
  List-cases, ℕ, zero, suc, ◌≡◌, refl, ap, ◌∙◌, inl, inr, Option, none, String, List, [], ◌∷◌,
  false,
}
use dap.JsMap.{JsMap}
use dap.Client.State.{
  Client, Host, Identity, Outcome, throws, Waiter, PresenceWaiter, query, warm_up,
}
use dap.Client.Wire.{settle_all}
use dap.Client.Handlers.{settle_map, complete_all, visits, presence_done}
use dap.Client.Socket.{fail_waiters, retarget, connect}
use dap.Client.Laws.Frames.{kept, kept-settle, kept-settle_all}

pub kept-settle_map :
    (o : String → Outcome) (m : JsMap String (List Waiter)) (c : Client)
    → kept (settle_map o m c) ≡ kept c
unfolding settle_map
kept-settle_map o [] c = refl
kept-settle_map o ((k, ws) ∷ m) c =
    kept-settle_map o m (settle_all ws (o k) c) ∙ kept-settle_all ws (o k) c

module _ (h : Host) where
  kept-presence_done :
      (id : String) (w : PresenceWaiter) (e : String) (c : Client)
      → kept (presence_done h id w (throws e) c) ≡ kept c
  unfolding presence_done kept
  kept-presence_done id (query w) e c = kept-settle w.stack (throws e) _
  kept-presence_done id (warm_up n) e c = refl

  kept-complete_all :
      (fuel : ℕ) (e : String) (c : Client) → kept (complete_all h fuel (throws e) c) ≡ kept c
  unfolding complete_all kept
  kept-complete_all zero e c = refl
  kept-complete_all (suc fuel) e c = elim (List-cases c.presence_waiters) [
    | inl none_left ↦ rw (none_left, complete_all) refl
    | inr ((id, w), m, first) ↦
        rw (first, complete_all)
          (kept-complete_all fuel e (presence_done h id w (throws e) c)
            ∙ kept-presence_done id w e c)
  ]

  pub kept-fail_waiters : (e : String) (c : Client) → kept (fail_waiters h e c) ≡ kept c
  unfolding fail_waiters kept
  kept-fail_waiters e c =
      let whois_failed : Client = record (settle_map (λ _. throws e) c.whois_waiters c) {
        whois_waiters = [];
      } in
      let presence_failed =
        complete_all h (visits h whois_failed.presence_waiters) (throws e) whois_failed in
      kept-settle_all presence_failed.ready_waiters (throws e) _
      ∙ kept-complete_all (visits h whois_failed.presence_waiters) e whois_failed
      ∙ kept-settle_map (λ _. throws e) c.whois_waiters c

  pub retarget-config_file :
      (url : Option String) (keys : Option Identity) (name : Option String) (c : Client)
      → (retarget h url keys name c).config_file ≡ c.config_file
  unfolding retarget connect kept
  retarget-config_file url keys name c =
      ap (λ k. k.config_file)
        (kept-fail_waiters "retargeted — in-flight hub call dropped, retry on the new connection"
          (record c { retry_in = none; watched = false; socket = none }))
