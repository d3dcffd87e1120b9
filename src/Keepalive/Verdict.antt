-- ===== src/Keepalive/Verdict.antt =====
-- Whom the watchdog of keepalive.ts terminates, and when.
use dap.Common.{
  subst, ap, ◌≤◌, not, ℕ, suc, ◌+◌, ◌≡◌, refl, Bool, true, false, Option, none, some, List, [], ◌∷◌,
  arith, nat_beq, nat_beq_iff, All, filterb, Bool-cases, ◌||◌, inl, inr,
}
use dap.Keepalive.{
  KeepAliveOptions, Timer, World, Action, ping, terminate, init, clear, on_pong, stop, expire, tick,
  arm_interval, start, Step, starts, stops, pongs, interval_fires, deadline_fires, passes, Reach,
  here, next,
}
use dap.Keepalive.Invariant.{Inv, clear-Holds}

module _ (opts : KeepAliveOptions) (prompt : ℕ → Bool) where
  -- A peer that answers every ping before `ping` returns.
  abbrev pub IsSpared : Action → Type 0
  IsSpared (ping p) = Unit
  IsSpared (terminate p) = prompt p ≡ false

  abbrev IsSilent : Timer → Type 0
  IsSilent t = prompt t.peer ≡ false

  record Spares (w : World) : Type 0 where
    armed : All IsSilent w.timeouts
    acted : All IsSpared w.done

  All-filterb : (p : Timer → Bool) (ts : List Timer) → All IsSilent ts → All IsSilent (filterb p ts)
  All-filterb p [] h = tt
  All-filterb p (t ∷ ts) h = ground (arith, All-filterb p ts h.1)

  All-clear : (o : Option ℕ) (ts : List Timer) → All IsSilent ts → All IsSilent (clear o ts)
  All-clear none ts h = h
  All-clear (some i) ts h = All-filterb _ ts h

  stop-Spares : (w : World) → Spares w → Spares (stop w)
  unfolding stop
  stop-Spares w s = record { armed = All-clear w.deadline w.timeouts s.armed; acted = s.acted }

  on_pong-Spares : (w : World) → Spares w → Spares (on_pong w)
  unfolding on_pong
  on_pong-Spares w s = record { armed = All-clear w.deadline w.timeouts s.armed; acted = s.acted }

  -- The deadline of a prompt peer is cleared before `tick` returns.
  tick-Spares : (peer : ℕ) (w : World) → Spares w → Spares (tick opts prompt peer w)
  unfolding tick
  tick-Spares peer w s = elim (Bool-cases (w.terminated || w.awaiting_pong)) [
    | inl e ↦ rw e s
    | inr e ↦ elim (Bool-cases (prompt peer)) [
      | inl p ↦
          rw (e, p)
            (record {
              armed = ground (
                arith,
                nat_beq_iff w.next_handle w.next_handle,
                All-filterb (λ t. not (nat_beq t.handle w.next_handle)) w.timeouts s.armed,
              );
              acted = (tt, s.acted);
            })
      | inr p ↦ rw (e, p) (record { armed = (p, s.armed); acted = (tt, s.acted) })
    ]
  ]

  start-Spares : (peer : ℕ) (w : World) → Spares w → Spares (start opts prompt peer w)
  unfolding start
  start-Spares peer w s =
      let c = stop-Spares w s in
      let l : World = record (stop w) {
        terminated = false;
        listening = peer ∷ (stop w).listening;
      } in
      tick-Spares peer (arm_interval opts prompt peer l)
        (record { armed = c.armed; acted = c.acted })

  Step-Spares : {w u : World} → Step opts prompt w u → Spares w → Spares u
  unfolding expire
  Step-Spares {w} (starts peer) s = start-Spares peer w s
  Step-Spares {w} stops s = stop-Spares w s
  Step-Spares {w} (pongs peer h) s = on_pong-Spares w s
  Step-Spares {w} (interval_fires t others e h) s =
      tick-Spares t.peer _ (record { armed = s.armed; acted = s.acted })
  Step-Spares {w} (deadline_fires t others e h) s =
      let silent = subst (All IsSilent) e s.armed in
      record { armed = All-clear w.deadline others silent.1; acted = (silent.0, s.acted) }
  Step-Spares {w} (passes ms) s = record { armed = s.armed; acted = s.acted }

  Reach-Spares : {w : World} → Reach opts prompt init w → Spares w
  Reach-Spares here = record { armed = tt; acted = tt }
  Reach-Spares (next r st) = Step-Spares st (Reach-Spares r)

  -- A peer whose pong arrives before `ping` returns is terminated in no reachable state: its
  -- deadline is armed before the ping, so the pong can clear it.
  pub prompt_peer-IsSpared : {w : World} → Reach opts prompt init w → All IsSpared w.done
  prompt_peer-IsSpared r = (Reach-Spares r).acted

  abbrev first_deadline : ℕ → World → Timer
  first_deadline peer w = record {
    handle = suc w.next_handle;
    peer = peer;
    due = w.now + opts.pong_deadline;
  }

  start_watches :
      (peer : ℕ) (w : World)
      → Inv w
      → prompt peer ≡ false
      → let s = start opts prompt peer w in
        (s.timeouts ≡ first_deadline peer w ∷ [])
        × (clear s.interval s.intervals ≡ [])
        × (clear s.deadline [] ≡ [])
        × (s.done ≡ ping peer ∷ w.done)
        × (s.now ≡ w.now)
  unfolding start
  start_watches peer w v silent =
      let none_left = clear-Holds w.next_handle w.deadline w.timeouts v.deadline_held in
      let no_interval = clear-Holds w.next_handle w.interval w.intervals v.interval_held in
      rw silent (
        ap (◌∷◌ (first_deadline peer w)) none_left,
        ground (arith, no_interval, nat_beq_iff w.next_handle w.next_handle),
        refl,
        refl,
        refl,
      )

  -- From any state that keeps the invariant, also one in which an earlier peer was terminated,
  -- `start` watches the new peer; if that never answers, there is a run that terminates it, in
  -- which nothing else is done and after which no timer is live.
  pub silent_peer_is_terminated :
      (peer : ℕ) (w : World)
      → Inv w
      → prompt peer ≡ false
      → (u : World) × Reach opts prompt (start opts prompt peer w) u
        × (u.done ≡ terminate peer ∷ ping peer ∷ w.done)
        × (u.now ≡ w.now + opts.pong_deadline)
        × (u.terminated ≡ true)
        × (u.intervals ≡ [])
        × (u.timeouts ≡ [])
  unfolding expire
  silent_peer_is_terminated peer w v silent =
      let s = start opts prompt peer w in
      let late : World = record s { now = s.now + opts.pong_deadline } in
      let (watched, no_interval, no_deadline, done, now) = start_watches peer w v silent in
      let due : w.now + opts.pong_deadline ≤ s.now + opts.pong_deadline = omega (arith, now) in
      (
        expire peer (record late { timeouts = [] }),
        next (next here (passes opts.pong_deadline))
            (deadline_fires (first_deadline peer w) [] watched due),
        ap (◌∷◌ (terminate peer)) done,
        ap (λ t. t + opts.pong_deadline) now,
        refl,
        no_interval,
        no_deadline,
      )
