-- ===== src/Client/Laws/Runs/Noted.antt =====
-- The messages, the errors and the delays of client.ts, and what is to hold of them.
use dap.Common.{
  Bool, true, false, if◌then◌else◌, ℕ, suc, ◌+◌, ◌≤◌, ◌≡◌, refl, ap, sym, ◌∙◌, Option, some, List,
  [], ◌∷◌, ◌++◌, length, length-append, append_assoc, arith, ltb, Bool-cases, inl, inr,
}
use mathlib.Core.List.{reverse, reverse-append}
use dap.Client.State.{Client, MsgEvent, HubErrorEvent}
use dap.Client.Wire.{push_bounded, shift, inbox_cap, errors_cap}
use dap.Client.Laws.Frames.{Kept, kept}

pub record Noted : Type 0 where
  pub inbox : List MsgEvent
  pub observed : List MsgEvent
  pub error_ring : List HubErrorEvent
  pub reported : List HubErrorEvent
  pub delay : ℕ
  pub initial_ms : ℕ
  pub max_ms : ℕ
  pub retry_in : Option ℕ
  pub re_enrolled : Bool

abbrev pub noted_of : Kept → Noted
noted_of k = record {
  inbox = k.inbox;
  observed = k.observed;
  error_ring = k.error_ring;
  reported = k.reported;
  delay = k.delay;
  initial_ms = k.initial_ms;
  max_ms = k.max_ms;
  retry_in = k.retry_in;
  re_enrolled = k.re_enrolled;
}

unfoldable pub noted : Client → Noted
unfolding kept
noted c = noted_of (kept c)

-- What keeps more keeps this.
pub noted_same : (c d : Client) → kept c ≡ kept d → noted c ≡ noted d
unfolding noted
noted_same c d e = ap noted_of e

-- Both branches of a test keep it.
pub noted_if :
    (b : Bool) (x y c : Client)
    → noted x ≡ noted c
    → noted y ≡ noted c
    → noted (if b then x else y) ≡ noted c
noted_if true x y c p q = p
noted_if false x y c p q = q

module _ {ℓ} {A : Type ℓ} where
  -- The window has the newest entries of the log, which has the last first, and at most `cap`.
  pub record IsWindow (cap : ℕ) (window log : List A) : Type ℓ where
    pub older : List A
    pub in_order : log ≡ reverse window ++ older
    pub bounded : length window ≤ cap

  pub IsWindow-drained : (cap : ℕ) (log : List A) → IsWindow cap [] log
  IsWindow-drained cap log = record { older = log; in_order = refl; bounded = omega arith }

  reverse_push :
      (window older : List A) (x : A)
      → x ∷ reverse window ++ older ≡ reverse (window ++ x ∷ []) ++ older
  reverse_push window older x = ap (λ r. r ++ older) (sym (reverse-append window (x ∷ [])))

  reverse_shift : (y : A) (ys older : List A) → reverse (y ∷ ys) ++ older ≡ reverse ys ++ y ∷ older
  reverse_shift y ys older =
      ap (λ r. r ++ older) (reverse-append (y ∷ []) ys) ∙ append_assoc (reverse ys) (y ∷ []) older

  push_full :
      (window older : List A) (x : A)
      → 1 ≤ length window
      → (rest : List A) × (x ∷ reverse window ++ older ≡ reverse (shift (window ++ x ∷ [])) ++ rest)
        × (suc (length (shift (window ++ x ∷ []))) ≡ length window + 1)
  push_full [] older x h = absurd (omega arith)
  push_full (y ∷ ys) older x h = (
    y ∷ older,
    reverse_push (y ∷ ys) older x ∙ reverse_shift y (ys ++ x ∷ []) older,
    omega (arith, length-append ys (x ∷ [])),
  )

  pub IsWindow-push_bounded :
      (cap : ℕ) (window log : List A) (x : A)
      → 1 ≤ cap
      → IsWindow cap window log
      → IsWindow cap (push_bounded cap window x) (x ∷ log)
  unfolding push_bounded
  IsWindow-push_bounded cap window log x h w =
      let size : length (window ++ x ∷ []) ≡ length window + 1 = length-append window (x ∷ []) in
      let bound : length window ≤ cap = w.bounded in
      elim (Bool-cases (ltb cap (length (window ++ x ∷ [])))) [
        | inr room ↦ rw room (record {
          older = w.older;
          in_order = ap (◌∷◌ x) w.in_order ∙ reverse_push window w.older x;
          bounded = ground (arith, size, room);
        })
        | inl full ↦
            let (rest, order, shorter) = push_full window w.older x (ground (arith, size, full)) in
            rw full (record {
              older = rest;
              in_order = ap (◌∷◌ x) w.in_order ∙ order;
              bounded = omega (arith, shorter, bound);
            })
      ]

-- The inbox has the newest 100 messages at most and the ring the newest 20 errors at most, with none
-- left out and in their order; the delay is between its limits, and so is that of a dial to come.
pub record IsSound (n : Noted) : Type 0 where
  pub messages : IsWindow inbox_cap n.inbox n.observed
  pub errors : IsWindow errors_cap n.error_ring n.reported
  pub limits : n.initial_ms ≤ n.max_ms
  pub least : n.initial_ms ≤ n.delay
  pub most : n.delay ≤ n.max_ms
  pub retry : (ms : ℕ) → n.retry_in ≡ some ms → (n.initial_ms ≤ ms) × (ms ≤ n.max_ms)

abbrev pub Sound : Client → Type 0
Sound c = IsSound (noted c)
