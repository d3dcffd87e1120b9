-- ===== src/Gloss/Cutting.antt =====
-- compact_from, one `replace` of compact in gloss.ts, makes a cut.
use dap.Common.{
  length-drop, subst, nat_beq_iff, ℕ, zero, suc, ◌-◌, ◌≤◌, ◌≡◌, refl, ap, sym, ◌∙◌, Bool, true,
  false, not, ◌&&◌, List, [], ◌∷◌, ◌++◌, length, drop, arith, nat_beq, Text, text_eq, Bool-cases,
  inl, inr, any, ◌==◌,
}
use dap.Gloss.Words.{is_word, begins_word, starts_with, word_at, compact_from}
use dap.Gloss.Cut.{
  Cut, done, keeps, marks, swaps, is_clear, is_plain, word-all_word, after_word, word_at-after_word,
  after_word-begins, word_at-append, starts_with-append, is_clear-plain, all_word-plain, all_word,
  ends_in_word,
}

module _ (t : ℕ) (ts token : Text) where
  abbrev pub cuts : Bool → Text → Text
  cuts b x = compact_from (t ∷ ts) token b 0 x

  cuts-word : (w x : Text) → all_word w ≡ true → cuts true (w ++ x) ≡ w ++ cuts true x
  unfolding compact_from
  cuts-word [] x h = refl
  cuts-word (c ∷ cs) x h = ground (arith, cuts-word cs x)

  compact_from-skip :
      (u x : Text) (b : Bool)
      → compact_from (t ∷ ts) token b (length u) (u ++ x) ≡ cuts (ends_in_word b u) x
  unfolding compact_from
  compact_from-skip [] x b = refl
  compact_from-skip (c ∷ cs) x b = compact_from-skip cs x (is_word c)

  move : {x x' y y' : Text} → x ≡ x' → y ≡ y' → Cut (t ∷ ts) token x' y' → Cut (t ∷ ts) token x y
  move {x} {y' = y'} p q cut =
      subst (Cut (t ∷ ts) token x) (sym q) (subst (λ z. Cut (t ∷ ts) token z y') (sym p) cut)

  -- Does the term stand at the start of the text, as a word?
  abbrev is_match : Bool → Text → Bool
  is_match b x = not b && starts_with (t ∷ ts) x && not (begins_word (drop (length (t ∷ ts)) x))

  compact_from-starts_with :
      (b : Bool) (x : Text)
      → starts_with ts x ≡ true
      → compact_from (t ∷ ts) token b (suc (length ts) - 1) x
        ≡ cuts (ends_in_word b ts) (drop (length ts) x)
  compact_from-starts_with b x h =
      ap (λ n. compact_from (t ∷ ts) token b n x) (omega arith)
      ∙ ap (compact_from (t ∷ ts) token b (length ts)) (starts_with-append ts x h)
      ∙ compact_from-skip ts (drop (length ts) x) b

  cuts-match :
      (b : Bool) (c : ℕ) (cs : Text)
      → is_match b (c ∷ cs) ≡ true
      → cuts b (c ∷ cs) ≡ token ++ cuts (ends_in_word (is_word c) ts) (drop (length ts) cs)
  unfolding compact_from
  cuts-match b c cs h =
      let starts : starts_with ts cs ≡ true = ground arith in
      rw (h, compact_from) (ap (◌++◌ token) (compact_from-starts_with (is_word c) cs starts))

  cuts-other :
      (b : Bool) (c : ℕ) (cs : Text)
      → is_match b (c ∷ cs) ≡ false
      → cuts b (c ∷ cs) ≡ c ∷ cuts (is_word c) cs
  unfolding compact_from
  cuts-other b c cs h = rw (h, compact_from) refl

  word_at-starts : (u x : Text) → begins_word x ≡ false → word_at (u ++ x) ≡ word_at u
  word_at-starts [] x h = word_at-append [] x refl h
  word_at-starts (c ∷ cs) x h = ground (arith, word_at-starts cs x h)

  word_at-match : (x : Text) → is_match false x ≡ true → word_at x ≡ word_at (t ∷ ts)
  word_at-match x h =
      let r : Text = drop (length (t ∷ ts)) x in
      let split : x ≡ (t ∷ ts) ++ r = starts_with-append (t ∷ ts) x (ground arith) in
      ap word_at split ∙ word_at-starts (t ∷ ts) r (ground arith)

  cuts-nil : (b : Bool) → cuts b [] ≡ []
  unfolding compact_from
  cuts-nil b = refl

  -- After a mark, its word stays as it is.
  cuts-mark :
      (x : Text)
      → ¬ (word_at x ≡ word_at (t ∷ ts))
      → cuts false x ≡ word_at x ++ cuts (begins_word x) (after_word x)
  cuts-mark [] differ = refl
  cuts-mark (c ∷ cs) differ = elim (Bool-cases (is_word c)) [
    | inr other ↦ rw other refl
    | inl inside ↦ elim (Bool-cases (is_match false (c ∷ cs))) [
      | inl found ↦ absurd (differ (word_at-match (c ∷ cs) found))
      | inr missed ↦
          cuts-other false c cs missed
          ∙ rw inside (
              ap (◌∷◌ c) (
                ap (cuts true) (word_at-after_word cs)
                ∙ cuts-word (word_at cs) (after_word cs) (word-all_word cs)))
    ]
  ]

  module _ (avoid : List Text) where
    -- A text of which a `replace` makes a cut, whatever stands before it.
    abbrev pub IsCut : ℕ → Type 0
    IsCut n =
        (b : Bool) (x : Text)
        → length x ≤ n
        → is_clear avoid x ≡ true
        → Cut (t ∷ ts) token x (cuts b x)

    Cut-match :
        (n : ℕ) (ih : IsCut n) (b : Bool) (c : ℕ) (cs : Text)
        → length cs ≤ n
        → is_plain (t ∷ ts) ≡ true
        → is_clear avoid (c ∷ cs) ≡ true
        → is_match b (c ∷ cs) ≡ true
        → Cut (t ∷ ts) token (c ∷ cs) (cuts b (c ∷ cs))
    Cut-match n ih b c cs h plain clear found =
        let r : Text = drop (length ts) cs in
        let split : c ∷ cs ≡ (t ∷ ts) ++ r = starts_with-append (t ∷ ts) (c ∷ cs) (ground arith) in
        let boundary : begins_word r ≡ false = ground arith in
        let rest : Cut (t ∷ ts) token r (cuts (ends_in_word (is_word c) ts) r) =
          ih (ends_in_word (is_word c) ts) r (omega (arith, length-drop (length ts) cs)) (
            sym (is_clear-plain avoid (t ∷ ts) r plain)
            ∙ ap (is_clear avoid) (sym split)
            ∙ clear) in
        move split (cuts-match b c cs found) (swaps boundary rest)

    Cut-mark :
        (n : ℕ) (ih : IsCut n) (b : Bool) (cs : Text)
        → length cs ≤ n
        → any (λ a. a == word_at (t ∷ ts)) avoid ≡ true
        → is_clear avoid (126 ∷ cs) ≡ true
        → is_match b (126 ∷ cs) ≡ false
        → Cut (t ∷ ts) token (126 ∷ cs) (cuts b (126 ∷ cs))
    Cut-mark n ih b cs h avoided clear missed =
        let w : Text = word_at cs in
        let r : Text = after_word cs in
        let differ : ¬ (w ≡ word_at (t ∷ ts)) =
          (λ e. absurd (ground (arith, ap (λ z. any (λ a. a == z) avoid) e))) in
        let clear_rest : is_clear avoid r ≡ true =
          sym (is_clear-plain avoid w r (all_word-plain w (word-all_word cs)))
          ∙ ap (is_clear avoid) (sym (word_at-after_word cs))
          ∙ ground arith in
        move (ap (◌∷◌ 126) (word_at-after_word cs))
          (cuts-other b 126 cs missed ∙ ap (◌∷◌ 126) (cuts-mark cs differ))
          (marks w (word-all_word cs) (after_word-begins cs)
            (ih (begins_word cs) r (omega (arith, length-drop (length w) cs)) clear_rest))

    pub IsCut-all :
        (n : ℕ) → is_plain (t ∷ ts) ≡ true → any (λ a. a == word_at (t ∷ ts)) avoid ≡ true → IsCut n
    IsCut-all n plain avoided b [] h clear = subst (Cut (t ∷ ts) token []) (sym (cuts-nil b)) done
    IsCut-all zero plain avoided b (c ∷ cs) h clear = absurd (omega arith)
    IsCut-all (suc n) plain avoided b (c ∷ cs) h clear =
        let ih : IsCut n = IsCut-all n plain avoided in
        elim (Bool-cases (is_match b (c ∷ cs))) [
          | inl found ↦ Cut-match n ih b c cs (omega arith) plain clear found
          | inr missed ↦ elim (Bool-cases (nat_beq c 126)) [
            | inl mark ↦
                let e : c ≡ 126 = (nat_beq_iff c 126).0 mark in
                subst (λ d. Cut (t ∷ ts) token (d ∷ cs) (cuts b (d ∷ cs))) (sym e)
                  (Cut-mark n ih b cs (omega arith) avoided
                    (subst (λ d. is_clear avoid (d ∷ cs) ≡ true) e clear)
                    (subst (λ d. is_match b (d ∷ cs) ≡ false) e missed))
            | inr other ↦
                subst (Cut (t ∷ ts) token (c ∷ cs)) (sym (cuts-other b c cs missed))
                  (keeps c other (ih (is_word c) cs (omega arith) (ground arith)))
          ]
        ]
