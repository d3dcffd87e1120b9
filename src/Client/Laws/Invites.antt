-- ===== src/Client/Laws/Invites.antt =====
-- Which pending invite a delivery pass of client.ts takes up.
use dap.Common.{
  ℕ, zero, suc, ◌≤◌, ◌<◌, ◌≡◌, refl, false, some, List, [], ◌∷◌, arith, inl, inr, ◌⊎◌, sym, ◌∙◌,
  some_injective, none, Option, Option-cases, Bool-cases, nat_beq, subst,
}
use dap.Config.{PendingInvite}
use dap.Client.State.{Client, Host, Stack, returns, throws, done, PresenceAgent, deliver_invited}
use dap.Client.Wire.{settle}
use dap.Client.Calls.{invite}
use dap.Client.Invites.{get_elem?, targets, deliver_from}

module _ (h : Host) (agents : List PresenceAgent) (c : Client) where
  -- The invite at this place can be delivered: to the one agent online under its name.
  abbrev pub Deliverable : ℕ → PendingInvite → PresenceAgent → Type 0
  Deliverable i pending a =
      (get_elem? c.pending_invites i ≡ some pending) × (targets h c pending agents ≡ some (a ∷ []))

  -- The filter throws for the invite at this place.
  abbrev pub IsUnreadable : ℕ → PendingInvite → Type 0
  IsUnreadable i pending =
      (get_elem? c.pending_invites i ≡ some pending) × (targets h c pending agents ≡ none)

  -- The pass stops at this place.
  abbrev pub Stops : ℕ → PendingInvite → Type 0
  Stops i pending = ((a : PresenceAgent) × Deliverable i pending a) ⊎ IsUnreadable i pending

  abbrev pub NoneStops : ℕ → ℕ → Type 0
  NoneStops low high = (j : ℕ) (pending : PendingInvite) → low ≤ j → j < high → ¬ Stops j pending

  -- What a pass over the indices below `i` does.
  pub data Pass (i : ℕ) (k : Stack) : Client → Type 0 where
    ends : NoneStops 0 i → Pass i k (settle k (returns done) (record c { delivering = false }))
    delivers :
        (j : ℕ) (pending : PendingInvite) (a : PresenceAgent)
        → j < i
        → Deliverable j pending a
        → NoneStops (suc j) i
        → Pass i k (invite h pending.channel a.agent_id (deliver_invited j pending agents ∷ k) c)
    fails :
        (j : ℕ) (pending : PendingInvite)
        → j < i
        → IsUnreadable j pending
        → NoneStops (suc j) i
        → Pass i k (settle k (throws h.lower_error) (record c { delivering = false }))

  widen :
      (low i : ℕ)
      → ((pending : PendingInvite) → ¬ Stops i pending)
      → NoneStops low i
      → NoneStops low (suc i)
  widen low i bars n j pending above below stops = elim (Bool-cases (nat_beq j i)) [
    | inl same ↦ let e : j ≡ i = ground arith in bars pending (subst (λ x. Stops x pending) e stops)
    | inr other ↦ n j pending above (ground arith) stops
  ]

  extend :
      (i : ℕ) (k : Stack) (d : Client)
      → ((pending : PendingInvite) → ¬ Stops i pending)
      → Pass i k d
      → Pass (suc i) k d
  extend i k d bars (ends n) = ends (widen 0 i bars n)
  extend i k d bars (delivers j pending a lt fits n) =
      delivers j pending a (omega arith) fits (widen (suc j) i bars n)
  extend i k d bars (fails j pending lt fits n) =
      fails j pending (omega arith) fits (widen (suc j) i bars n)

  none_above : (i : ℕ) → NoneStops (suc i) (suc i)
  none_above i j pending low high stops = absurd (omega arith)

  absent-Stops : (i : ℕ) (p : PendingInvite) → get_elem? c.pending_invites i ≡ none → ¬ Stops i p
  absent-Stops i p missing (inl (a, fits)) = ground (arith, missing, fits.0)
  absent-Stops i p missing (inr fits) = ground (arith, missing, fits.0)

  waits-Stops :
      (i : ℕ) (p q : PendingInvite) (found : List PresenceAgent)
      → get_elem? c.pending_invites i ≡ some q
      → targets h c q agents ≡ some found
      → ((a : PresenceAgent) → ¬ (found ≡ a ∷ []))
      → ¬ Stops i p
  waits-Stops i p q found here others many (inl (a, fits)) =
      let same : q ≡ p = some_injective (sym here ∙ fits.0) in
      many a (
        some_injective
          (sym others ∙ subst (λ z. targets h c z agents ≡ some (a ∷ [])) (sym same) fits.1))
  waits-Stops i p q found here others many (inr fits) =
      let same : q ≡ p = some_injective (sym here ∙ fits.0) in
      let unreadable : targets h c q agents ≡ none =
        subst (λ z. targets h c z agents ≡ none) (sym same) fits.1 in
      ground (arith, others, unreadable)

  -- The turn of the loop for a pending invite with these targets.
  turn :
      (i : ℕ) (k : Stack) (pending : PendingInvite) (found : Option (List PresenceAgent))
      (next : Client)
      → get_elem? c.pending_invites i ≡ some pending
      → targets h c pending agents ≡ found
      → Pass i k next
      → Pass (suc i) k (elim found [
        | none ↦ settle k (throws h.lower_error) (record c { delivering = false })
        | some (a ∷ []) ↦
            invite h pending.channel a.agent_id (deliver_invited i pending agents ∷ k) c
        | some _ ↦ next
      ])
  turn i k pending none next here unreadable rest =
      fails i pending (omega arith) (here, unreadable) (none_above i)
  turn i k pending (some []) next here none_found rest =
      extend i k next (λ p. waits-Stops i p pending [] here none_found (λ a e. ground (arith, e)))
        rest
  turn i k pending (some (a ∷ [])) next here one rest =
      delivers i pending a (omega arith) (here, one) (none_above i)
  turn i k pending (some (a ∷ b ∷ more)) next here several rest =
      extend i k next
        (λ p. waits-Stops i p pending (a ∷ b ∷ more) here several (λ x e. ground (arith, e))) rest

  -- A delivery pass takes up the last pending invite below its index that has exactly one target,
  -- and sends it there, or at which comparing the names of the roster throws, and then the pass
  -- fails with that error; it ends, with nothing sent, only if there is neither. In the last two
  -- cases `delivering` is cleared.
  pub deliver_from-Pass : (i : ℕ) (k : Stack) → Pass i k (deliver_from h i agents k c)
  unfolding deliver_from
  deliver_from-Pass zero k = ends (λ j pending low high. absurd (omega arith))
  deliver_from-Pass (suc i) k = elim (Option-cases (get_elem? c.pending_invites i)) [
    | inl missing ↦
        rw (missing, deliver_from)
          (extend i k (deliver_from h i agents k c) (λ p. absent-Stops i p missing)
            (deliver_from-Pass i k))
    | inr (pending, here) ↦
        rw (here, deliver_from)
          (turn i k pending (targets h c pending agents) (deliver_from h i agents k c) here refl
            (deliver_from-Pass i k))
  ]
