-- ===== src/Keepalive/Invariant.antt =====
-- The live timers of keepalive.ts are exactly those that the watchdog holds.
use dap.JsMap.{is_some}
use dap.Common.{
  ap, subst, Bool-cases, ◌||◌, ℕ, suc, ◌+◌, ◌<◌, ◌≡◌, refl, ◌⊎◌, inl, inr, Bool, true, false,
  Option, none, some, List, [], ◌∷◌, arith, nat_beq_iff,
}
use dap.Keepalive.{
  KeepAliveOptions, Timer, Action, ping, World, init, clear, on_pong, stop, expire, arm_deadline,
  send_ping, tick, arm_interval, start, Step, starts, stops, pongs, interval_fires, deadline_fires,
  passes, Reach, here, next,
}

-- The live timers of one kind are the one that is held, if any.
abbrev pub Holds : ℕ → Option ℕ → List Timer → Type 0
Holds n none ts = ts ≡ []
Holds n (some h) ts = (h < n) × (t : Timer) × (ts ≡ t ∷ []) × (t.handle ≡ h)

pub record Inv (w : World) : Type 0 where
  pub interval_held : Holds w.next_handle w.interval w.intervals
  pub deadline_held : Holds w.next_handle w.deadline w.timeouts
  pub awaits : w.awaiting_pong ≡ is_some w.deadline
  pub ended : (w.terminated ≡ false) ⊎ ((w.interval ≡ none) × (w.deadline ≡ none))

pub clear-Holds : (n : ℕ) (o : Option ℕ) (ts : List Timer) → Holds n o ts → clear o ts ≡ []
clear-Holds n none ts h = h
clear-Holds n (some i) ts h = ground (arith, nat_beq_iff i i)

pub stop-Inv : (w : World) → Inv w → Inv (stop w)
unfolding stop
stop-Inv w v = record {
  interval_held = clear-Holds w.next_handle w.interval w.intervals v.interval_held;
  deadline_held = clear-Holds w.next_handle w.deadline w.timeouts v.deadline_held;
  awaits = refl;
  ended = inr (refl, refl);
}

on_pong-Inv : (w : World) → Inv w → Inv (on_pong w)
unfolding on_pong
on_pong-Inv w v = record {
  interval_held = v.interval_held;
  deadline_held = clear-Holds w.next_handle w.deadline w.timeouts v.deadline_held;
  awaits = refl;
  ended = ground arith;
}

Holds-suc : (n : ℕ) (o : Option ℕ) (ts : List Timer) → Holds n o ts → Holds (suc n) o ts
Holds-suc n none ts h = h
Holds-suc n (some i) ts h = (omega arith, h.1, h.2, h.3)

Holds-others :
    (n : ℕ) (o : Option ℕ) (t : Timer) (others : List Timer) → Holds n o (t ∷ others) → others ≡ []
Holds-others n none t others h = cc
Holds-others n (some i) t others h = ground arith

Holds-renew :
    (n due : ℕ) (o : Option ℕ) (t : Timer) (others : List Timer)
    → Holds n o (t ∷ others)
    → Holds n o (record t { due = due } ∷ others)
Holds-renew n due none t others h = cc
Holds-renew n due (some i) t others h =
    let renewed : Timer = record t { due = due } in
    (h.0, renewed, ap (◌∷◌ renewed) (Holds-others n (some i) t others h), ground arith)

clear-nil : (o : Option ℕ) → clear o [] ≡ []
clear-nil none = refl
clear-nil (some i) = refl

-- What the invariant says nothing of may change.
Inv-rest :
    (w : World) (pings t : ℕ) (l : List ℕ) (d : List Action)
    → Inv w
    → Inv (record w { pings_sent = pings; now = t; listening = l; done = d })
Inv-rest w pings t l d v = record {
  interval_held = v.interval_held;
  deadline_held = v.deadline_held;
  awaits = v.awaits;
  ended = v.ended;
}

module _ (opts : KeepAliveOptions) (prompt : ℕ → Bool) where
  arm_deadline-Inv :
      (peer : ℕ) (w : World)
      → Inv w
      → w.terminated ≡ false
      → w.deadline ≡ none
      → Inv (arm_deadline opts prompt peer (record w { awaiting_pong = true }))
  unfolding arm_deadline
  arm_deadline-Inv peer w v alive idle = record {
    interval_held = Holds-suc w.next_handle w.interval w.intervals v.interval_held;
    deadline_held =
        let empty : w.timeouts ≡ [] =
          subst (λ o. Holds w.next_handle o w.timeouts) idle v.deadline_held in
        let timer : Timer = record {
          handle = w.next_handle;
          peer = peer;
          due = w.now + opts.pong_deadline;
        } in
        (omega arith, timer, ap (◌∷◌ timer) empty, refl);
    awaits = refl;
    ended = inl alive;
  }

  arm_interval-Inv :
      (peer : ℕ) (w : World)
      → Inv w
      → w.interval ≡ none
      → Inv (arm_interval opts prompt peer (record w { terminated = false }))
  unfolding arm_interval
  arm_interval-Inv peer w v idle = record {
    deadline_held = Holds-suc w.next_handle w.deadline w.timeouts v.deadline_held;
    interval_held =
        let empty : w.intervals ≡ [] =
          subst (λ o. Holds w.next_handle o w.intervals) idle v.interval_held in
        let timer : Timer = record {
          handle = w.next_handle;
          peer = peer;
          due = w.now + opts.every;
        } in
        (omega arith, timer, ap (◌∷◌ timer) empty, refl);
    awaits = v.awaits;
    ended = inl refl;
  }

  send_ping-Inv : (peer : ℕ) (w : World) → Inv w → Inv (send_ping opts prompt peer w)
  unfolding send_ping
  send_ping-Inv peer w v =
      let p : World = record w { done = ping peer ∷ w.done } in
      let q : Inv p = Inv-rest w w.pings_sent w.now w.listening (ping peer ∷ w.done) v in
      elim (Bool-cases (prompt peer)) [ inl e ↦ rw e (on_pong-Inv p q) | inr e ↦ rw e q ]

  tick-Inv : (peer : ℕ) (w : World) → Inv w → Inv (tick opts prompt peer w)
  unfolding tick
  tick-Inv peer w v = elim (Bool-cases (w.terminated || w.awaiting_pong)) [
    | inl e ↦ rw e v
    | inr e ↦ rw e (
        send_ping-Inv peer _ (
          Inv-rest _ (suc w.pings_sent) w.now w.listening w.done
            (arm_deadline-Inv peer w v (ground arith) (ground arith))))
  ]

  pub start-Inv : (peer : ℕ) (w : World) → Inv w → Inv (start opts prompt peer w)
  unfolding start
  start-Inv peer w v =
      let s = stop w in
      tick-Inv peer _ (
        arm_interval-Inv peer (record s { listening = peer ∷ s.listening })
          (Inv-rest s s.pings_sent s.now (peer ∷ s.listening) s.done (stop-Inv w v)) refl)

  interval_fires-Inv :
      (w : World) (t : Timer) (others : List Timer)
      → Inv w
      → w.intervals ≡ t ∷ others
      → Inv (record w { intervals = record t { due = w.now + opts.every } ∷ others })
  interval_fires-Inv w t others v e = record {
    interval_held =
        Holds-renew w.next_handle (w.now + opts.every) w.interval t others
          (rw e at v.interval_held);
    deadline_held = v.deadline_held;
    awaits = v.awaits;
    ended = v.ended;
  }

  expire-Inv :
      (w : World) (t : Timer) (others : List Timer)
      → Inv w
      → w.timeouts ≡ t ∷ others
      → Inv (expire t.peer (record w { timeouts = others }))
  unfolding expire
  expire-Inv w t others v e = record {
    interval_held = clear-Holds w.next_handle w.interval w.intervals v.interval_held;
    deadline_held =
        rw (Holds-others w.next_handle w.deadline t others (rw e at v.deadline_held))
          (clear-nil w.deadline);
    awaits = refl;
    ended = inr (refl, refl);
  }

  pub Step-Inv : {w u : World} → Step opts prompt w u → Inv w → Inv u
  Step-Inv {w} (starts peer) v = start-Inv peer w v
  Step-Inv {w} stops v = stop-Inv w v
  Step-Inv {w} (pongs peer h) v = on_pong-Inv w v
  Step-Inv {w} (interval_fires t others e h) v =
      tick-Inv t.peer _ (interval_fires-Inv w t others v e)
  Step-Inv {w} (deadline_fires t others e h) v = expire-Inv w t others v e
  Step-Inv {w} (passes ms) v = Inv-rest w w.pings_sent (w.now + ms) w.listening w.done v

  -- In every reachable state the live interval and the live deadline are the ones that the
  -- watchdog holds, one of each at most; a pong is awaited exactly while a deadline is armed; and
  -- after a verdict nothing is armed.
  pub Reach-Inv : {w : World} → Reach opts prompt init w → Inv w
  Reach-Inv here = record {
    interval_held = refl;
    deadline_held = refl;
    awaits = refl;
    ended = inl refl;
  }
  Reach-Inv (next r s) = Step-Inv s (Reach-Inv r)
