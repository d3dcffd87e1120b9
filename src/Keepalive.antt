-- ===== src/Keepalive.antt =====
-- adapters/mcp-bridge/src/keepalive.ts: the liveness watchdog, with the timers that it arms.
-- The `KaTimers` object is modelled by the two lists of live timers below: a handle that is cleared
-- or that has fired is no longer live. A peer is a number. `ping` may call the pong listener
-- before it returns: which peers do that is the parameter `prompt`.
pub mod Invariant
pub mod Verdict
mod Tests
use dap.Common.{
  ℕ, suc, ◌+◌, ◌≤◌, ◌≡◌, Bool, true, false, ◌||◌, Option, none, some, List, [], ◌∷◌, ◌++◌, filterb,
  any, nat_beq, if◌then◌else◌, not,
}

pub record KeepAliveOptions : Type 0 where
  pub every : ℕ
  pub pong_deadline : ℕ

abbrev pub default_keep_alive : KeepAliveOptions
default_keep_alive = record { every = 20000; pong_deadline = 10000 }

-- A live timer: its handle, the peer that its callback closes over, and when it is due.
pub record Timer : Type 0 where
  pub handle : ℕ
  pub peer : ℕ
  pub due : ℕ

-- What the watchdog did to its peers.
pub data Action : Type 0 where
  ping terminate : ℕ → Action

-- `KeepAliveWatchdog`, and around it the clock, the live timers, the peers whose `pong` event has
-- the listener, and what was done so far, the last action first.
pub record World : Type 0 where
  pub pings_sent : ℕ
  pub terminated : Bool
  pub interval : Option ℕ
  pub deadline : Option ℕ
  pub awaiting_pong : Bool
  pub now : ℕ
  pub next_handle : ℕ
  pub intervals : List Timer
  pub timeouts : List Timer
  pub listening : List ℕ
  pub done : List Action

abbrev pub init : World
init = record {
  pings_sent = 0;
  terminated = false;
  interval = none;
  deadline = none;
  awaiting_pong = false;
  now = 0;
  next_handle = 0;
  intervals = [];
  timeouts = [];
  listening = [];
  done = [];
}

-- `clearInterval` and `clearTimeout`, under the guard `!== undefined`.
abbrev pub clear : Option ℕ → List Timer → List Timer
clear none ts = ts
clear (some h) ts = filterb (λ t. not (nat_beq t.handle h)) ts

-- The listener that `start` adds to the peer's `pong` event.
unfoldable pub on_pong : World → World
on_pong w = record w {
  awaiting_pong = false;
  timeouts = clear w.deadline w.timeouts;
  deadline = none;
}

unfoldable pub stop : World → World
stop w = record w {
  intervals = clear w.interval w.intervals;
  timeouts = clear w.deadline w.timeouts;
  interval = none;
  deadline = none;
  awaiting_pong = false;
}

-- The callback of the deadline.
unfoldable pub expire : ℕ → World → World
unfolding stop
expire peer w =
    let s = stop (record w { terminated = true }) in record s { done = terminate peer ∷ s.done }

module _ (opts : KeepAliveOptions) (prompt : ℕ → Bool) where
  -- `setTimeout(…, opts.pongDeadline)`
  unfoldable pub arm_deadline : ℕ → World → World
  arm_deadline peer w = record w {
    deadline = some w.next_handle;
    timeouts =
        record { handle = w.next_handle; peer = peer; due = w.now + opts.pong_deadline }
        ∷ w.timeouts;
    next_handle = suc w.next_handle;
  }

  -- `peer.ping()`
  unfoldable pub send_ping : ℕ → World → World
  unfolding on_pong
  send_ping peer w =
      let p = record w { done = ping peer ∷ w.done } in if prompt peer then on_pong p else p

  unfoldable pub tick : ℕ → World → World
  unfolding arm_deadline send_ping
  tick peer w =
      if w.terminated || w.awaiting_pong
      then w
      else let a = arm_deadline peer (record w { awaiting_pong = true }) in
        send_ping peer (record a { pings_sent = suc a.pings_sent })

  -- `setInterval(…, opts.every)`
  unfoldable pub arm_interval : ℕ → World → World
  arm_interval peer w = record w {
    interval = some w.next_handle;
    intervals =
        record { handle = w.next_handle; peer = peer; due = w.now + opts.every } ∷ w.intervals;
    next_handle = suc w.next_handle;
  }

  unfoldable pub start : ℕ → World → World
  unfolding stop arm_interval tick
  start peer w =
      let s = stop w in
      let l = record s { terminated = false; listening = peer ∷ s.listening } in
      tick peer (arm_interval peer l)

  -- What can happen next. Timers never run early; they may run late.
  pub data Step (w : World) : World → Type 0 where
    starts : (peer : ℕ) → Step w (start peer w)
    stops : Step w (stop w)
    pongs : (peer : ℕ) → any (nat_beq peer) w.listening ≡ true → Step w (on_pong w)
    -- an interval runs its callback and stays live
    interval_fires :
        (t : Timer) (others : List Timer)
        → w.intervals ≡ t ∷ others
        → t.due ≤ w.now
        → Step w
            (tick t.peer (record w { intervals = record t { due = w.now + opts.every } ∷ others }))
    -- a timeout that fires is no longer live
    deadline_fires :
        (t : Timer) (others : List Timer)
        → w.timeouts ≡ t ∷ others
        → t.due ≤ w.now
        → Step w (expire t.peer (record w { timeouts = others }))
    passes : (ms : ℕ) → Step w (record w { now = w.now + ms })

  pub data Reach (w : World) : World → Type 0 where
    here : Reach w w
    next : {v u : World} → Reach w v → Step v u → Reach w u
