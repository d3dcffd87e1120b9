-- ===== src/Dsh/Laws/Awake.antt =====
-- The connection always has something to come: the state machine gets stuck only by an unreadable key.
use dap.Common.{
  ℕ, ◌≡◌, ◌≢◌, ◌⊎◌, refl, ◌∙◌, ap, sym, Bool, true, false, Option, none, some, nat_eq, Option-cases,
  inl, inr, arith,
}
use dap.JsMap.{get-set, is_some}
use dap.Client.State.{ReadyState, connecting, opened, closing, closed}
use dap.Dsh.Laws.Links.{Link}
use dap.Dsh.Laws.Connection.{
  Move, mark, released, dialled, stays, establishes, shuts, loses, fades, redials, gives_up, stops,
  retargets, breaks,
}
use dap.Dsh.Laws.Single.{state_of, get-mark}
use dap.Dsh.Laws.Refinement.{Moves, done, later}

-- The current socket may still open or has to close yet, so that an event of it is to come.
abbrev pub in_progress : Option ReadyState → Bool
in_progress (some connecting) = true
in_progress (some opened) = true
in_progress (some closing) = true
in_progress _ = false

-- A client that is not stopped waits for a socket or for a dial.
abbrev pub IsAwake : Link → Type 0
IsAwake l = l.stopped ≡ false → (is_some l.retry_in ≡ true) ⊎ (in_progress (state_of l) ≡ true)

IsAwake-mark :
    (n : ℕ) (s : ReadyState) (l : Link)
    → in_progress (some s) ≡ true
    → IsAwake l
    → IsAwake (mark n s l)
IsAwake-mark n s l busy ok runs = elim (Option-cases l.ws) [
  | inl off ↦ ground (arith, ok runs)
  | inr (m, on) ↦ ground (arith, on, ok runs, get-mark n m s l)
]

IsAwake-faded : (n : ℕ) (l : Link) → l.ws ≢ some n → IsAwake l → IsAwake (mark n closed l)
IsAwake-faded n l other ok runs = elim (Option-cases l.ws) [
  | inl off ↦ ground (arith, ok runs)
  | inr (m, on) ↦
      ground
        (arith, on, ok runs, get-mark n m closed l, λ (e : n ≡ m). other (on ∙ ap some (sym e)))
]

pub IsAwake-dialled : (l : Link) → IsAwake (dialled l)
IsAwake-dialled l runs = inr (
    ground (
      arith,
      get-set l.sockets l.next_socket l.next_socket connecting,
      nat_eq.same_iff l.next_socket l.next_socket,
    ))

module _ {U : Type 0} where
  IsAwake-move : ¬ U → {l m : Link} → Move U l m → IsAwake l → IsAwake m
  IsAwake-move reads stays ok runs = ok runs
  IsAwake-move reads {l} (establishes n e) ok runs = IsAwake-mark n opened l refl ok runs
  IsAwake-move reads {l} (shuts n e) ok runs = IsAwake-mark n closing l refl ok runs
  IsAwake-move reads (loses n s ms e o current) ok runs = inl refl
  IsAwake-move reads {l} (fades n s e o (inl other)) ok runs = IsAwake-faded n l other ok runs
  IsAwake-move reads (fades n s e o (inr still)) ok runs = absurd (ground (arith, still, runs))
  IsAwake-move reads {l} (redials ms due active) ok runs =
      IsAwake-dialled (record l { retry_in = none }) runs
  IsAwake-move reads (gives_up ms due still) ok runs = absurd (ground (arith, still, runs))
  IsAwake-move reads stops ok runs = absurd (ground (arith, runs))
  IsAwake-move reads {l} retargets ok runs =
      IsAwake-dialled (record (released l) { stopped = false }) runs
  IsAwake-move reads (breaks u) ok runs = absurd (reads u)

  pub IsAwake-moves : ¬ U → {l m : Link} → Moves U l m → IsAwake l → IsAwake m
  IsAwake-moves reads done ok = ok
  IsAwake-moves reads (later before move) ok =
      IsAwake-move reads move (IsAwake-moves reads before ok)
