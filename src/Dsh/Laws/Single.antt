-- ===== src/Dsh/Laws/Single.antt =====
-- What holds of the connection in every state that the state machine reaches.
use dap.Common.{
  ℕ, ◌≡◌, ◌≢◌, ◌⊎◌, refl, ◌∙◌, ap, sym, true, false, Option, none, some, nat_eq, Bool-cases,
  Option-cases, inl, inr, arith,
}
use dap.JsMap.{get, get-set}
use dap.Client.State.{ReadyState, connecting, opened, closing, closed}
use dap.Dsh.Laws.Links.{Link}
use dap.Dsh.Laws.Connection.{
  Move, mark, unhooked, released, dialled, is_live, stays, establishes, shuts, loses, fades,
  redials, gives_up, stops, retargets, breaks,
}
use dap.Dsh.Laws.Refinement.{Moves, done, later}

abbrev pub state_of : Link → Option ReadyState
state_of l = elim l.ws [ none ↦ none | some n ↦ get l.sockets n ]

-- One live socket at most, no dial scheduled unless it is closed, and none of both when stopped.
pub record IsSingle (l : Link) : Type 0 where
  pub one : (n : ℕ) → is_live (get l.sockets n) ≡ true → l.ws ≡ some n
  pub idle : (l.retry_in ≡ none) ⊎ (state_of l ≡ some closed)
  pub still : l.stopped ≡ true → (l.ws ≡ none) × (l.retry_in ≡ none)

-- A socket that changes its state, by what it was before.
pub get-mark :
    (n m : ℕ) (s : ReadyState) (l : Link)
    → ((n ≡ m) × (get (mark n s l).sockets m ≡ some s))
      ⊎ ((n ≢ m) × (get (mark n s l).sockets m ≡ get l.sockets m))
get-mark n m s l = ground (arith, get-set l.sockets n m s, nat_eq.same_iff n m)

-- A socket that comes to be in a state that is not live, is not the one that is live.
live_before :
    (n m : ℕ) (s : ReadyState) (l : Link)
    → is_live (some s) ≡ false
    → is_live (get (mark n s l).sockets m) ≡ true
    → (n ≢ m) × (is_live (get l.sockets m) ≡ true)
live_before n m s l dead live = elim (get-mark n m s l) [
  | inl (same, e) ↦ absurd (ground (arith, ap is_live e))
  | inr (other, e) ↦ (other, ap is_live (sym e) ∙ live)
]

-- No dial is scheduled while the current socket is not closed.
quiet :
    (l : Link) (n : ℕ) (s : ReadyState)
    → l.ws ≡ some n
    → get l.sockets n ≡ some s
    → s ≢ closed
    → IsSingle l
    → l.retry_in ≡ none
quiet l n s current is_s other ok = elim ok.idle [ inl e ↦ e | inr e ↦ absurd (ground (arith, e)) ]

abbrev NoneLive : Link → Type 0
NoneLive l = (m : ℕ) → is_live (get l.sockets m) ≡ false

IsSingle-mark :
    (n : ℕ) (s : ReadyState) (l : Link)
    → is_live (get l.sockets n) ≡ true
    → IsSingle l
    → IsSingle (mark n s l)
IsSingle-mark n s l live ok = record {
  one = λ m live'. elim (get-mark n m s l) [
    | inl (same, e) ↦ ok.one n live ∙ ap some same
    | inr (other, e) ↦ ok.one m (ap is_live (sym e) ∙ live')
  ];
  idle = inl (ground (arith, ok.one n live, ok.idle));
  still = ok.still;
}

pub IsSingle-dialled :
    (l : Link) → NoneLive l → l.retry_in ≡ none → l.stopped ≡ false → IsSingle (dialled l)
IsSingle-dialled l dead quiet runs = record {
  one = λ m live. elim (get-mark l.next_socket m connecting l) [
    | inl (same, e) ↦ ap some same
    | inr (other, e) ↦ absurd (ground (arith, ap is_live e, dead m))
  ];
  idle = inl quiet;
  still = λ stopped. absurd (ground arith);
}

dead_unless : (m : ℕ) (l : Link) → l.ws ≢ some m → IsSingle l → is_live (get l.sockets m) ≡ false
dead_unless m l other ok = elim (Bool-cases (is_live (get l.sockets m))) [
  | inl live ↦ absurd (other (ok.one m live))
  | inr dead ↦ dead
]

dead_closing :
    (n m : ℕ) (l : Link)
    → l.ws ≡ some n
    → IsSingle l
    → is_live (get (mark n closing l).sockets m) ≡ false
dead_closing n m l current ok = elim (get-mark n m closing l) [
  | inl (same, e) ↦ ap is_live e
  | inr (other, e) ↦ ap is_live e ∙ dead_unless m l (λ e. absurd (ground (arith, current, e))) ok
]

dead_closed :
    (n m : ℕ) (l : Link)
    → l.ws ≡ some n
    → get l.sockets n ≡ some closed
    → IsSingle l
    → is_live (get l.sockets m) ≡ false
dead_closed n m l current is_closed ok = elim (Bool-cases (is_live (get l.sockets m))) [
  | inl live ↦ absurd (ground (arith, current, ok.one m live))
  | inr dead ↦ dead
]

NoneLive-unhooked : (l : Link) → IsSingle l → NoneLive (unhooked l)
unfolding unhooked
NoneLive-unhooked l ok m = elim (Option-cases l.ws) [
  | inl off ↦ rw (off, unhooked) (dead_unless m l (λ e. absurd (ground (arith, e))) ok)
  | inr (n, on) ↦ ground (
    arith,
    dead_closing n m l on ok,
    λ (e : get l.sockets n ≡ some closed). dead_closed n m l on e ok,
  )
]

ws-unhooked : (l : Link) → (unhooked l).ws ≡ none
unfolding unhooked
ws-unhooked l = ground arith

IsSingle-lost :
    (n : ℕ) (ms : ℕ) (l : Link)
    → l.ws ≡ some n
    → IsSingle l
    → IsSingle (record (mark n closed l) { retry_in = some ms })
IsSingle-lost n ms l current ok = record {
  one = λ m live. ok.one m (live_before n m closed l refl live).1;
  idle = inr (ground (arith, current, get-set l.sockets n n closed, nat_eq.same_iff n n));
  still = λ e. absurd (ground (arith, ok.still e));
}

IsSingle-faded : (n : ℕ) (l : Link) → IsSingle l → IsSingle (mark n closed l)
IsSingle-faded n l ok = record {
  one = λ m live. ok.one m (live_before n m closed l refl live).1;
  idle = elim ok.idle [
    | inl e ↦ inl e
    | inr e ↦ elim (Option-cases l.ws) [
      | inl off ↦ absurd (ground (arith, e, off))
      | inr (m, on) ↦ inr (ground (arith, e, on, get-mark n m closed l))
    ]
  ];
  still = ok.still;
}

module _ {U : Type 0} where
  IsSingle-move : {l m : Link} → Move U l m → IsSingle l → IsSingle m
  IsSingle-move stays ok = ok
  IsSingle-move (establishes n e) ok = IsSingle-mark n opened _ (rw e refl) ok
  IsSingle-move (shuts n e) ok = IsSingle-mark n closing _ e ok
  IsSingle-move (loses n s ms e o current) ok = IsSingle-lost n ms _ current ok
  IsSingle-move (fades n s e o old) ok = IsSingle-faded n _ ok
  IsSingle-move {l} (redials ms due runs) ok =
      IsSingle-dialled (record l { retry_in = none })
        (λ m. elim (Bool-cases (is_live (get l.sockets m))) [
          | inl live ↦ absurd (ground (arith, due, ok.idle, ok.one m live))
          | inr dead ↦ dead
        ])
        refl runs
  IsSingle-move (gives_up ms due still) ok = record {
    one = ok.one;
    idle = inl refl;
    still = λ e. ((ok.still e).0, refl);
  }
  IsSingle-move {l} stops ok = record {
    one = λ n live. absurd (ground (arith, NoneLive-unhooked l ok n));
    idle = inl refl;
    still = λ e. (ws-unhooked l, refl);
  }
  IsSingle-move {l} retargets ok =
      IsSingle-dialled (record (released l) { stopped = false }) (NoneLive-unhooked l ok) refl refl
  IsSingle-move {l} (breaks u) ok = record {
    one = λ n live. absurd (ground (arith, NoneLive-unhooked l ok n));
    idle = inl refl;
    still = λ e. absurd (ground arith);
  }

  pub IsSingle-moves : {l m : Link} → Moves U l m → IsSingle l → IsSingle m
  IsSingle-moves done ok = ok
  IsSingle-moves (later before move) ok = IsSingle-move move (IsSingle-moves before ok)
