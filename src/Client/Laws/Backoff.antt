-- ===== src/Client/Laws/Backoff.antt =====
-- The reconnect delay of client.ts.
use dap.Common.{
  ℕ, zero, suc, ◌*◌, min, ◌≤◌, ◌≡◌, refl, ap, ◌∙◌, Bool, true, false, not, none, some, arith,
  Bool-cases, inl, inr, length, nat_beq, ◌||◌, if◌then◌else◌, [], ◌∷◌,
}
use dap.Client.State.{Client, Host, returns, done, deliver_presence, surfaced}
use dap.Client.Wire.{connected, settle_all, ws_send}
use dap.Client.Calls.{warm_up_presence}
use dap.Client.Invites.{poll_pending_invites}
use dap.Client.Handlers.{on_welcome, flush_frame, enroll_frame, join_all}
use dap.Client.Socket.{connect, on_disconnect}
use dap.Client.Laws.Frames.{
  kept, kept-ws_send, kept-settle_all, kept-join_all, kept-presence, kept-warm_up_presence,
}

-- A delay that is doubled a number of times.
abbrev pub doubled : ℕ → ℕ → ℕ
doubled zero ms = ms
doubled (suc n) ms = doubled n ms * 2

module _ (h : Host) where
  -- The connection is lost, and the timer dials again.
  unfoldable pub redial : Client → Client
  unfolding on_disconnect connect
  redial c = connect h (record (on_disconnect h c) { retry_in = none })

  unfoldable pub redials : ℕ → Client → Client
  unfolding redial
  redials zero c = c
  redials (suc n) c = redial (redials n c)

  redial_lem :
      (c : Client)
      → c.stopped ≡ false
      → ((redial c).stopped ≡ false)
        × ((redial c).max_ms ≡ c.max_ms)
        × ((redial c).delay ≡ min (c.delay * 2) c.max_ms)
  unfolding redial
  redial_lem c runs = rw runs (refl, refl, refl)

  redials_lem :
      (n : ℕ) (c : Client)
      → c.stopped ≡ false
      → c.delay ≤ c.max_ms
      → ((redials n c).stopped ≡ false)
        × ((redials n c).max_ms ≡ c.max_ms)
        × ((redials n c).delay ≡ min (doubled n c.delay) c.max_ms)
  unfolding redials
  redials_lem zero c runs fits = (runs, refl, omega arith)
  redials_lem (suc n) c runs fits =
      let (r, m, d) = redials_lem n c runs fits in
      let (r', m', d') = redial_lem (redials n c) r in (r', m' ∙ m, d' ∙ rw (d, m) (omega arith))

  -- After a client that runs, with a delay of at most the maximum, has lost its connection n
  -- times, and has dialled after each loss without being welcomed, the next loss schedules the
  -- dial after its delay doubled n times, or after the maximum where that is less, and the
  -- client still runs.
  pub redials-retry_in :
      (n : ℕ) (c : Client)
      → c.stopped ≡ false
      → c.delay ≤ c.max_ms
      → ((on_disconnect h (redials n c)).retry_in ≡ some (min (doubled n c.delay) c.max_ms))
        × ((redials n c).stopped ≡ false)
  unfolding on_disconnect
  redials-retry_in n c runs fits =
      let (r, m, d) = redials_lem n c runs fits in (rw r (ap some d), r)

  pub kept-poll_pending_invites : (c : Client) → kept (poll_pending_invites h c) ≡ kept c
  unfolding poll_pending_invites kept
  kept-poll_pending_invites c =
      elim (Bool-cases
        (c.delivering || nat_beq (length c.pending_invites) 0 || not (connected c))) [
          | inl idle ↦ rw idle refl
          | inr asks ↦
              rw asks (
                kept-presence h (deliver_presence ∷ surfaced ∷ []) (record c { delivering = true }))
        ]

  kept-if :
      (b : Bool) (f : Client → Client) (c : Client)
      → ((d : Client) → kept (f d) ≡ kept d)
      → kept (if b then f c else c) ≡ kept c
  kept-if true f c k = k c
  kept-if false f c k = refl

  -- The client as a welcome leaves it before it sends anything.
  abbrev greeted : Client → Client
  greeted c = record c {
    welcomed = true;
    welcomes = suc c.welcomes;
    delay = c.initial_ms;
    joined = [];
  }

  -- A welcome sets the delay back to the initial one, and it keeps the inbox, the errors, the known
  -- peers, the channels, the pending invites and the config file.
  pub kept-on_welcome :
      (c : Client) → kept (on_welcome h c) ≡ record (kept c) { delay = c.initial_ms }
  unfolding on_welcome kept
  kept-on_welcome c =
      let flushed : Client = ws_send (flush_frame h) (warm_up_presence h 0 (greeted c)) in
      let enrolling : Client =
        if c.enroll_pending then ws_send (enroll_frame h) flushed else flushed in
      let woken : Client =
        settle_all enrolling.ready_waiters (returns done)
          (record enrolling { ready_waiters = [] }) in
      let joining : Client = join_all h c.channels woken in
      kept-if c.invites (λ d. poll_pending_invites h (record d { polling = true })) joining
        (λ d. kept-poll_pending_invites (record d { polling = true }))
      ∙ kept-join_all h c.channels woken
      ∙ kept-settle_all enrolling.ready_waiters (returns done)
          (record enrolling { ready_waiters = [] })
      ∙ kept-if c.enroll_pending (ws_send (enroll_frame h)) flushed (kept-ws_send (enroll_frame h))
      ∙ kept-ws_send (flush_frame h) (warm_up_presence h 0 (greeted c))
      ∙ kept-warm_up_presence h 0 (greeted c)
