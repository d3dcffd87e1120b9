-- ===== src/Client/Laws/Runs/Stable.antt =====
-- What a predicate on the messages, the errors, the delays and the latch of client.ts is to keep, so
-- that it holds in every run: one field for each change that the code makes to them.
use dap.Common.{◌*◌, min, ◌≡◌, sym, subst, Bool, true, false, none, some, [], ◌∷◌, if◌then◌else◌}
use dap.Client.State.{Client, MsgEvent, HubErrorEvent}
use dap.Client.Wire.{push_bounded, inbox_cap, errors_cap, ring_error, deliver}
use dap.Client.Laws.Runs.Noted.{Noted, noted}

pub record IsStable (P : Noted → Type 0) : Type 0 where
  pub delivered :
      (n : Noted) (ev : MsgEvent)
      → P n
      → P (record n { inbox = push_bounded inbox_cap n.inbox ev; observed = ev ∷ n.observed })
  pub rung :
      (n : Noted) (ev : HubErrorEvent)
      → P n
      → P (record n {
        error_ring = push_bounded errors_cap n.error_ring ev;
        reported = ev ∷ n.reported;
      })
  pub inbox_drained : (n : Noted) → P n → P (record n { inbox = [] })
  pub errors_drained : (n : Noted) → P n → P (record n { error_ring = [] })
  -- The delay goes back to the least one.
  pub reset : (n : Noted) → P n → P (record n { delay = n.initial_ms })
  -- A dial is scheduled, and the delay doubles.
  pub doubled :
      (n : Noted)
      → P n
      → P (record n { retry_in = some n.delay; delay = min (n.delay * 2) n.max_ms })
  -- No dial is scheduled.
  pub no_retry : (n : Noted) → P n → P (record n { retry_in = none })
  -- A stale secret is dropped.
  pub recovered : (n : Noted) → P n → P (record n { re_enrolled = true })

abbrev pub Holds : (Noted → Type 0) → Client → Type 0
Holds P c = P (noted c)

module _ {P : Noted → Type 0} (stable : IsStable P) where
  pub Holds-if : (b : Bool) (x y : Client) → Holds P x → Holds P y → Holds P (if b then x else y)
  Holds-if true x y s t = s
  Holds-if false x y s t = t

  pub Holds-noted : (c d : Client) → noted c ≡ noted d → Holds P d → Holds P c
  Holds-noted c d e s = subst P (sym e) s

  pub Holds-deliver : (ev : MsgEvent) (c : Client) → Holds P c → Holds P (deliver ev c)
  unfolding deliver noted
  Holds-deliver ev c s = stable.delivered (noted c) ev s

  pub Holds-ring_error : (ev : HubErrorEvent) (c : Client) → Holds P c → Holds P (ring_error ev c)
  unfolding ring_error noted
  Holds-ring_error ev c s = stable.rung (noted c) ev s
