-- ===== src/Gloss/Expansion.antt =====
-- What expand of gloss.ts makes of a text that is cut.
use dap.Common.{
  ◌⊎◌, not, ◌&&◌, ℕ, ◌≡◌, ◌≢◌, refl, ap, sym, ◌∙◌, true, false, none, some, List, [], ◌∷◌, ◌++◌,
  length, arith, Text, text_eq, any, ◌==◌, Option-cases, inl, inr,
}
use dap.JsMap.{JsMap, get}
use dap.Gloss.Words.{begins_word, word_at, expand_from}
use dap.Gloss.Cut.{
  Cut, done, keeps, marks, swaps, all_word, is_plain, is_clear, word_at-append, is_clear-plain,
  all_word-plain,
}

is_clear-mark :
    (avoid : List Text) (w x : Text)
    → all_word w ≡ true
    → begins_word x ≡ false
    → is_clear avoid (126 ∷ w ++ x) ≡ (not (any (λ a. a == w) avoid) && is_clear avoid x)
is_clear-mark avoid w x h b =
    rw (word_at-append w x h b)
      (ap (λ r. not (any (λ a. a == w) avoid) && r) (is_clear-plain avoid w x (all_word-plain w h)))

module _ (terms : JsMap Text Text) where
  pub expand-plain :
      (u x : Text) → is_plain u ≡ true → expand_from terms 0 (u ++ x) ≡ u ++ expand_from terms 0 x
  unfolding expand_from
  expand-plain [] x h = refl
  expand-plain (c ∷ cs) x h = ground (arith, expand-plain cs x)

  expand-skip : (u x : Text) → expand_from terms (length u) (u ++ x) ≡ expand_from terms 0 x
  unfolding expand_from
  expand-skip [] x = refl
  expand-skip (c ∷ cs) x = expand-skip cs x

  -- What a mark and its word become.
  abbrev meaning : Text → Text
  meaning [] = 126 ∷ []
  meaning (c ∷ cs) = elim (get terms (c ∷ cs)) [ some term ↦ term | none ↦ 126 ∷ c ∷ cs ]

  meaning-known :
      (c : ℕ) (cs term : Text) → get terms (c ∷ cs) ≡ some term → meaning (c ∷ cs) ≡ term
  meaning-known c cs term e = rw (e, meaning) refl

  meaning-unknown :
      (c : ℕ) (cs : Text) → get terms (c ∷ cs) ≡ none → meaning (c ∷ cs) ≡ 126 ∷ c ∷ cs
  meaning-unknown c cs e = rw (e, meaning) refl

  expand_known :
      (w x term : Text)
      → get terms w ≡ some term
      → w ≢ []
      → word_at x ≡ w
      → expand_from terms 0 (126 ∷ x) ≡ term ++ expand_from terms (length w) x
  unfolding expand_from
  expand_known [] x term g h e = absurd (h refl)
  expand_known (c ∷ cs) x term g h e =
      rw (e, g) (ap (λ w. term ++ expand_from terms (length w) x) e)

  expand_unknown :
      (w x : Text)
      → (w ≡ []) ⊎ (get terms w ≡ none)
      → word_at x ≡ w
      → expand_from terms 0 (126 ∷ x) ≡ 126 ∷ expand_from terms 0 x
  unfolding expand_from
  expand_unknown [] x g e = rw e refl
  expand_unknown (c ∷ cs) x (inl g) e = absurd (ground (arith, g))
  expand_unknown (c ∷ cs) x (inr g) e = rw (e, g) refl

  expand-mark :
      (w x : Text)
      → all_word w ≡ true
      → begins_word x ≡ false
      → expand_from terms 0 (126 ∷ w ++ x) ≡ meaning w ++ expand_from terms 0 x
  expand-mark [] x h b = expand_unknown [] x (inl refl) (word_at-append [] x h b)
  expand-mark (c ∷ cs) x h b =
      let word : word_at (c ∷ cs ++ x) ≡ c ∷ cs = word_at-append (c ∷ cs) x h b in
      elim (Option-cases (get terms (c ∷ cs))) [
        | inl e ↦
            expand_unknown (c ∷ cs) (c ∷ cs ++ x) (inr e) word
            ∙ ap (◌∷◌ 126) (expand-plain (c ∷ cs) x (all_word-plain (c ∷ cs) h))
            ∙ ap (λ m. m ++ expand_from terms 0 x) (sym (meaning-unknown c cs e))
        | inr (t, e) ↦
            expand_known (c ∷ cs) (c ∷ cs ++ x) t e (ground arith) word
            ∙ ap (◌++◌ t) (expand-skip (c ∷ cs) x)
            ∙ ap (λ m. m ++ expand_from terms 0 x) (sym (meaning-known c cs t e))
      ]

  module _ (term : Text) (a : ℕ) (short : Text) where
    Cut-begins :
        {x y : Text}
        → Cut term (126 ∷ a ∷ short) x y
        → begins_word x ≡ false
        → begins_word y ≡ false
    Cut-begins done b = b
    Cut-begins (keeps c h cut) b = b
    Cut-begins (marks w h e cut) b = refl
    Cut-begins (swaps e cut) b = refl

    -- A cut of a text means what the text does.
    pub Cut-expand :
        {x y : Text}
        → Cut term (126 ∷ a ∷ short) x y
        → is_plain term ≡ true
        → all_word (a ∷ short) ≡ true
        → get terms (a ∷ short) ≡ some term
        → expand_from terms 0 y ≡ expand_from terms 0 x
    Cut-expand done p w g = refl
    Cut-expand (keeps {x} {y} c h cut) p w g =
        expand-plain (c ∷ []) y (ground arith)
        ∙ ap (◌∷◌ c) (Cut-expand cut p w g)
        ∙ sym (expand-plain (c ∷ []) x (ground arith))
    Cut-expand (marks {x} {y} v h e cut) p w g =
        expand-mark v y h (Cut-begins cut e)
        ∙ ap (◌++◌ (meaning v)) (Cut-expand cut p w g)
        ∙ sym (expand-mark v x h e)
    Cut-expand (swaps {x} {y} e cut) p w g =
        expand-mark (a ∷ short) y w (Cut-begins cut e)
        ∙ ap (λ m. m ++ expand_from terms 0 y) (meaning-known a short term g)
        ∙ ap (◌++◌ term) (Cut-expand cut p w g)
        ∙ sym (expand-plain term x p)

    -- A cut brings in no mark before a word to avoid.
    pub Cut-is_clear :
        {x y : Text} (avoid : List Text)
        → Cut term (126 ∷ a ∷ short) x y
        → is_plain term ≡ true
        → all_word (a ∷ short) ≡ true
        → any (λ v. v == a ∷ short) avoid ≡ false
        → is_clear avoid x ≡ true
        → is_clear avoid y ≡ true
    Cut-is_clear avoid done p w n k = refl
    Cut-is_clear avoid (keeps c h cut) p w n k = ground (arith, Cut-is_clear avoid cut p w n)
    Cut-is_clear avoid (marks {x} {y} v h e cut) p w n k =
        is_clear-mark avoid v y h (Cut-begins cut e)
        ∙ ground (arith, is_clear-mark avoid v x h e, Cut-is_clear avoid cut p w n)
    Cut-is_clear avoid (swaps {x} {y} e cut) p w n k =
        is_clear-mark avoid (a ∷ short) y w (Cut-begins cut e)
        ∙ ground (arith, is_clear-plain avoid term x p, Cut-is_clear avoid cut p w n)
