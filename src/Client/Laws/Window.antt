-- ===== src/Client/Laws/Window.antt =====
-- The bounded inbox and error ring of client.ts.
use dap.Common.{
  length-drop, append_nil, append_assoc, drop_zero, ℕ, zero, suc, ◌+◌, ◌-◌, ◌≤◌, ◌≡◌, refl, ap, ◌∙◌,
  sym, List, [], ◌∷◌, ◌++◌, arith, length, length-append, drop, ltb, Bool-cases, inl, inr,
}
use dap.Client.State.{Client, HubErrorEvent, MsgEvent}
use dap.Client.Wire.{push_bounded, shift, inbox_cap, errors_cap, ring_error, deliver}

-- The last so many elements.
abbrev newest {ℓ} : {A : Type ℓ} → ℕ → List A → List A
newest cap xs = drop (length xs - cap) xs

module _ {ℓ} {A : Type ℓ} where
  shift-drop : (n : ℕ) (xs : List A) → shift (drop n xs) ≡ drop (suc n) xs
  shift-drop zero [] = refl
  shift-drop (suc n) [] = refl
  shift-drop zero (x ∷ []) = refl
  shift-drop zero (x ∷ y ∷ xs) = refl
  shift-drop (suc n) (x ∷ xs) = shift-drop n xs

  drop-append_le : (n : ℕ) (xs ys : List A) → n ≤ length xs → drop n (xs ++ ys) ≡ drop n xs ++ ys
  drop-append_le zero xs ys h = drop_zero (xs ++ ys) ∙ ap (λ zs. zs ++ ys) (sym (drop_zero xs))
  drop-append_le (suc n) [] ys h = absurd (omega arith)
  drop-append_le (suc n) (x ∷ xs) ys h = drop-append_le n xs ys (omega arith)

  pub push_bounded-newest :
      (cap : ℕ) (all : List A) (x : A)
      → push_bounded cap (newest cap all) x ≡ newest cap (all ++ x ∷ [])
  unfolding push_bounded
  push_bounded-newest cap all x =
      let n : ℕ = length all - cap in
      let xs : List A = all ++ x ∷ [] in
      let left : length (drop n xs) ≡ length all + 1 - n =
        length-drop n xs ∙ omega (arith, length-append all (x ∷ [])) in
      rw (sym (drop-append_le n all (x ∷ []) (omega arith)))
        (elim (Bool-cases (ltb cap (length (drop n xs)))) [
          | inl full ↦ rw full (
              shift-drop n xs
              ∙ ap (λ k. drop k xs) (ground (arith, left, length-append all (x ∷ []))))
          | inr room ↦
              rw room (ap (λ k. drop k xs) (ground (arith, left, length-append all (x ∷ []))))
        ])

  pub newest_all : (cap : ℕ) (xs : List A) → length xs ≤ cap → newest cap xs ≡ xs
  newest_all cap xs h =
      let none_over : length xs - cap ≡ 0 = omega arith in rw none_over (drop_zero xs)

unfoldable pub deliver_all : List MsgEvent → Client → Client
unfolding deliver
deliver_all [] c = c
deliver_all (ev ∷ evs) c = deliver_all evs (deliver ev c)

unfoldable pub ring_all : List HubErrorEvent → Client → Client
unfolding ring_error
ring_all [] c = c
ring_all (e ∷ es) c = ring_all es (ring_error e c)

deliver_all_from :
    (evs all : List MsgEvent) (c : Client)
    → c.inbox ≡ newest inbox_cap all
    → (deliver_all evs c).inbox ≡ newest inbox_cap (all ++ evs)
unfolding deliver_all
deliver_all_from [] all c e = rw (append_nil all) e
deliver_all_from (ev ∷ evs) all c e =
    deliver_all_from evs (all ++ ev ∷ []) (deliver ev c)
      (ap (λ xs. push_bounded inbox_cap xs ev) e ∙ push_bounded-newest inbox_cap all ev)
    ∙ ap (newest inbox_cap) (append_assoc all (ev ∷ []) evs)

ring_all_from :
    (es all : List HubErrorEvent) (c : Client)
    → c.error_ring ≡ newest errors_cap all
    → (ring_all es c).error_ring ≡ newest errors_cap (all ++ es)
unfolding ring_all
ring_all_from [] all c e = rw (append_nil all) e
ring_all_from (ev ∷ es) all c e =
    ring_all_from es (all ++ ev ∷ []) (ring_error ev c)
      (ap (λ xs. push_bounded errors_cap xs ev) e ∙ push_bounded-newest errors_cap all ev)
    ∙ ap (newest errors_cap) (append_assoc all (ev ∷ []) es)

-- Whatever number of messages arrives at an inbox of at most 100, the inbox has the newest 100 of
-- those that it had and those that arrived, in their order.
deliver_all-newest :
    (evs : List MsgEvent) (c : Client)
    → length c.inbox ≤ inbox_cap
    → (deliver_all evs c).inbox ≡ newest inbox_cap (c.inbox ++ evs)
deliver_all-newest evs c h = deliver_all_from evs c.inbox c (sym (newest_all inbox_cap c.inbox h))

-- Whatever number of errors rings at an error ring of at most 20, the ring has the newest 20 of
-- those that it had and those that rang, in their order.
ring_all-newest :
    (es : List HubErrorEvent) (c : Client)
    → length c.error_ring ≤ errors_cap
    → (ring_all es c).error_ring ≡ newest errors_cap (c.error_ring ++ es)
ring_all-newest es c h =
    ring_all_from es c.error_ring c (sym (newest_all errors_cap c.error_ring h))
