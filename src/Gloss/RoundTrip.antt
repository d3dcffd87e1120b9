-- ===== src/Gloss/RoundTrip.antt =====
-- expand of gloss.ts reverses compact.
use dap.Common.{
  ◌≡◌, ◌≢◌, refl, ◌∙◌, true, false, some, List, [], ◌∷◌, length, All, arith, Text, text_eq, any,
  ◌==◌, inl, inr, Bool-cases, ltb, ==_refl,
}
use dap.JsMap.{JsMap, get}
use dap.Gloss.Words.{
  insert_term, word_at, compact_term, compact_terms, sort_terms, expand_from, compact_from,
}
use dap.Gloss.Agent.{Conv, active, compact, expand}
use dap.Gloss.Cutting.{IsCut-all}
use dap.Gloss.Cut.{Cut, all_word, is_plain, is_clear}
use dap.Gloss.Expansion.{Cut-expand, Cut-is_clear}

-- The first word of the entry's term is to avoid.
abbrev IsAvoided : List Text → Text × Text → Type 0
IsAvoided avoid (term, short) = any (λ a. a == word_at term) avoid ≡ true

module _ (terms : JsMap Text Text) where
  -- What the reader of a text needs of an entry of its writer: the term has no mark, the
  -- abbreviation is a word and none of those to avoid, and the reader expands it to the term.
  abbrev pub IsReadable : List Text → Text × Text → Type 0
  IsReadable avoid (term, short) =
      (term ≢ [])
      × (is_plain term ≡ true)
      × (short ≢ [])
      × (all_word short ≡ true)
      × (any (λ a. a == short) avoid ≡ false)
      × (get terms short ≡ some term)

  compact_term-expand :
      (avoid : List Text) (e : Text × Text) (text : Text)
      → IsReadable avoid e
      → IsAvoided avoid e
      → is_clear avoid text ≡ true
      → (expand_from terms 0 (compact_term e text) ≡ expand_from terms 0 text)
        × (is_clear avoid (compact_term e text) ≡ true)
  unfolding compact_term
  compact_term-expand avoid ([], short) text r v k = absurd (r.0 refl)
  compact_term-expand avoid (t ∷ ts, []) text r v k = absurd (r.2 refl)
  compact_term-expand avoid (t ∷ ts, a ∷ short) text (_, plain, _, word, new, known) v k =
      let cut : Cut (t ∷ ts) (126 ∷ a ∷ short) text
          (compact_from (t ∷ ts) (126 ∷ a ∷ short) false 0 text) =
        IsCut-all t ts (126 ∷ a ∷ short) avoid (length text) plain v false text (omega arith) k in
      (
        Cut-expand terms (t ∷ ts) a short cut plain word known,
        Cut-is_clear terms (t ∷ ts) a short avoid cut plain word new k,
      )

  compact_terms-expand :
      (avoid : List Text) (es : List (Text × Text)) (text : Text)
      → All (IsReadable avoid) es
      → All (IsAvoided avoid) es
      → is_clear avoid text ≡ true
      → expand_from terms 0 (compact_terms es text) ≡ expand_from terms 0 text
  unfolding compact_terms
  compact_terms-expand avoid [] text r v k = refl
  compact_terms-expand avoid (e ∷ es) text r v k =
      let (same, clear) = compact_term-expand avoid e text r.0 v.0 k in
      compact_terms-expand avoid es (compact_term e text) r.1 v.1 clear ∙ same

module _ (P : Text × Text → Type 0) where
  insert_term-All :
      (e : Text × Text) (es : List (Text × Text)) → P e → All P es → All P (insert_term e es)
  insert_term-All e [] p h = (p, tt)
  insert_term-All e (d ∷ ds) p h = elim (Bool-cases (ltb (length e.0) (length d.0))) [
    | inl shorter ↦ rw shorter (h.0, insert_term-All e ds p h.1)
    | inr first ↦ rw first (p, h)
  ]

  sort_terms-All : (es : List (Text × Text)) → All P es → All P (sort_terms es)
  sort_terms-All [] h = tt
  sort_terms-All (e ∷ es) h = insert_term-All e (sort_terms es) h.0 (sort_terms-All es h.1)

-- The words that terms begin with.
abbrev pub first_words : List (Text × Text) → List Text
first_words [] = []
first_words (e ∷ es) = word_at e.0 ∷ first_words es

IsAvoided-later :
    (w : Text) (avoid : List Text) (es : List (Text × Text))
    → All (IsAvoided avoid) es
    → All (IsAvoided (w ∷ avoid)) es
IsAvoided-later w avoid [] h = tt
IsAvoided-later w avoid (e ∷ es) h = (ground arith, IsAvoided-later w avoid es h.1)

first_words-IsAvoided : (es : List (Text × Text)) → All (IsAvoided (first_words es)) es
first_words-IsAvoided [] = tt
first_words-IsAvoided (e ∷ es) = (
  ground (arith, ==_refl (word_at e.0)),
  IsAvoided-later (word_at e.0) (first_words es) es (first_words-IsAvoided es),
)

plain-is_clear : (avoid : List Text) (x : Text) → is_plain x ≡ true → is_clear avoid x ≡ true
plain-is_clear avoid [] h = refl
plain-is_clear avoid (c ∷ cs) h = ground (arith, plain-is_clear avoid cs)

expand_nothing :
    (terms : JsMap Text Text) (x : Text) → is_plain x ≡ true → expand_from terms 0 x ≡ x
unfolding expand_from
expand_nothing terms [] h = refl
expand_nothing terms (c ∷ cs) h = ground (arith, expand_nothing terms cs)

-- What one side compacts, the other side expands to the same text, if the text has no `~` and each
-- entry that is active on the first side is readable: its term is not empty and has no `~`, its
-- abbreviation is a word that no active term begins with, and on the other side the abbreviation
-- stands for the term.
pub expand-compact :
    (ours theirs : Conv) (text : Text)
    → All (IsReadable theirs.reverse (first_words (active ours))) (active ours)
    → is_plain text ≡ true
    → expand theirs (compact ours text) ≡ text
unfolding expand compact
expand-compact ours theirs text readable plain =
    let es : List (Text × Text) = active ours in
    let avoid : List Text = first_words es in
    compact_terms-expand theirs.reverse avoid (sort_terms es) text
      (sort_terms-All (IsReadable theirs.reverse avoid) es readable)
      (sort_terms-All (IsAvoided avoid) es (first_words-IsAvoided es))
      (plain-is_clear avoid text plain)
    ∙ expand_nothing theirs.reverse text plain
