-- ===== src/Client/Laws/Parked.antt =====
-- What client.ts has parked, and what `failWaiters` leaves.
use dap.Common.{List-cases, ℕ, zero, suc, ◌≡◌, refl, ap, ◌∙◌, inl, inr, String, List, [], ◌∷◌}
use dap.JsMap.{JsMap}
use dap.Client.State.{Client, Host, Stack, Outcome, throws, Waiter, PresenceWaiter, query, warm_up}
use dap.Client.Wire.{settle, settle_all}
use dap.Client.Handlers.{settle_map, complete_all, visits, presence_done}
use dap.Client.Socket.{fail_waiters}
use dap.Client.Laws.Presence.{waiters-settle, complete_all-visits}

pub record Parked : Type 0 where
  pub lookups : JsMap String (List Waiter)
  pub wakes : List Waiter
  pub joins : JsMap String (List Waiter)

unfoldable parked : Client → Parked
parked c = record { lookups = c.whois_waiters; wakes = c.ready_waiters; joins = c.join_waiters }

parked-settle : (k : Stack) (o : Outcome) (c : Client) → parked (settle k o c) ≡ parked c
unfolding settle parked
parked-settle [] o c = refl
parked-settle (a ∷ k) o c = refl

parked-settle_all :
    (ws : List Waiter) (o : Outcome) (c : Client) → parked (settle_all ws o c) ≡ parked c
unfolding settle_all
parked-settle_all [] o c = refl
parked-settle_all (w ∷ ws) o c =
    parked-settle_all ws o (settle w.stack o c) ∙ parked-settle w.stack o c

presence-settle_all :
    (ws : List Waiter) (o : Outcome) (c : Client)
    → (settle_all ws o c).presence_waiters ≡ c.presence_waiters
unfolding settle_all
presence-settle_all [] o c = refl
presence-settle_all (w ∷ ws) o c =
    presence-settle_all ws o (settle w.stack o c) ∙ waiters-settle w.stack o c

parked-settle_map :
    (o : String → Outcome) (m : JsMap String (List Waiter)) (c : Client)
    → parked (settle_map o m c) ≡ parked c
unfolding settle_map
parked-settle_map o [] c = refl
parked-settle_map o ((k, ws) ∷ m) c =
    parked-settle_map o m (settle_all ws (o k) c) ∙ parked-settle_all ws (o k) c

module _ (h : Host) where
  parked-presence_done :
      (id : String) (w : PresenceWaiter) (e : String) (c : Client)
      → parked (presence_done h id w (throws e) c) ≡ parked c
  unfolding presence_done parked
  parked-presence_done id (query w) e c = parked-settle w.stack (throws e) _
  parked-presence_done id (warm_up n) e c = refl

  parked-complete_all :
      (fuel : ℕ) (e : String) (c : Client) → parked (complete_all h fuel (throws e) c) ≡ parked c
  unfolding complete_all parked
  parked-complete_all zero e c = refl
  parked-complete_all (suc fuel) e c = elim (List-cases c.presence_waiters) [
    | inl none_left ↦ rw (none_left, complete_all) refl
    | inr ((id, w), m, first) ↦
        rw (first, complete_all)
          (parked-complete_all fuel e (presence_done h id w (throws e) c)
            ∙ parked-presence_done id w e c)
  ]

  -- When `failWaiters` runs, no lookup, presence query or wait for a welcome stays parked, and
  -- the joins that wait stay.
  pub parked-fail_waiters :
      (err : String) (c : Client)
      → ((fail_waiters h err c).whois_waiters ≡ [])
        × ((fail_waiters h err c).presence_waiters ≡ [])
        × ((fail_waiters h err c).ready_waiters ≡ [])
        × ((fail_waiters h err c).join_waiters ≡ c.join_waiters)
  unfolding fail_waiters parked
  parked-fail_waiters err c =
      let o : Outcome = throws err in
      let a : Client = record (settle_map (λ _. o) c.whois_waiters c) { whois_waiters = [] } in
      let b : Client = complete_all h (visits h a.presence_waiters) o a in
      let d : Client = record b { ready_waiters = [] } in
      let last = parked-settle_all b.ready_waiters o d in
      let middle = parked-complete_all (visits h a.presence_waiters) err a in
      (
        ap (λ p. p.lookups) last ∙ ap (λ p. p.lookups) middle,
        presence-settle_all b.ready_waiters o d ∙ complete_all-visits h o a,
        ap (λ p. p.wakes) last,
        ap (λ p. p.joins) last
            ∙ ap (λ p. p.joins) middle
            ∙ ap (λ p. p.joins) (parked-settle_map (λ _. o) c.whois_waiters c),
      )
