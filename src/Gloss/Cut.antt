-- ===== src/Gloss/Cut.antt =====
-- How one `replace` of compact, and the `replace` of expand, of gloss.ts divide a text.
use dap.Common.{
  ℕ, ◌≡◌, refl, ap, Bool, true, false, not, ◌&&◌, List, [], ◌∷◌, ◌++◌, length, drop, arith, nat_beq,
  Text, text_eq, Bool-cases, inl, inr, any, ◌==◌,
}
use dap.Gloss.Words.{is_word, begins_word, starts_with, word_at}

-- Only characters of words.
abbrev pub all_word : Text → Bool
all_word [] = true
all_word (c ∷ cs) = is_word c && all_word cs

-- No `~`.
abbrev pub is_plain : Text → Bool
is_plain [] = true
is_plain (c ∷ cs) = not (nat_beq c 126) && is_plain cs

pub word-all_word : (x : Text) → all_word (word_at x) ≡ true
word-all_word [] = refl
word-all_word (c ∷ cs) = ground (arith, word-all_word cs)

-- What follows the word that begins a text.
abbrev pub after_word : Text → Text
after_word x = drop (length (word_at x)) x

pub word_at-after_word : (x : Text) → x ≡ word_at x ++ after_word x
word_at-after_word [] = refl
word_at-after_word (c ∷ cs) = elim (Bool-cases (is_word c)) [
  | inl e ↦ rw e (ap (◌∷◌ c) (word_at-after_word cs))
  | inr e ↦ rw e refl
]

pub after_word-begins : (x : Text) → begins_word (after_word x) ≡ false
after_word-begins [] = refl
after_word-begins (c ∷ cs) = elim (Bool-cases (is_word c)) [
  | inl e ↦ rw e (after_word-begins cs)
  | inr e ↦ rw e e
]

pub word_at-append : (w y : Text) → all_word w ≡ true → begins_word y ≡ false → word_at (w ++ y) ≡ w
word_at-append [] [] h k = refl
word_at-append [] (c ∷ cs) h k = rw k refl
word_at-append (c ∷ cs) y h k = ground (arith, word_at-append cs y)

pub starts_with-append : (t x : Text) → starts_with t x ≡ true → x ≡ t ++ drop (length t) x
starts_with-append [] [] h = refl
starts_with-append [] (c ∷ cs) h = refl
starts_with-append (t ∷ ts) [] h = absurd (ground arith)
starts_with-append (t ∷ ts) (c ∷ cs) h = ground (arith, starts_with-append ts cs)

-- No `~` stands before one of these words.
abbrev pub is_clear : List Text → Text → Bool
is_clear avoid [] = true
is_clear avoid (c ∷ cs) =
    not (nat_beq c 126 && any (λ a. a == word_at cs) avoid) && is_clear avoid cs

pub is_clear-plain :
    (avoid : List Text) (u y : Text)
    → is_plain u ≡ true
    → is_clear avoid (u ++ y) ≡ is_clear avoid y
is_clear-plain avoid [] y h = refl
is_clear-plain avoid (c ∷ cs) y h = ground (arith, is_clear-plain avoid cs y)

pub all_word-plain : (w : Text) → all_word w ≡ true → is_plain w ≡ true
all_word-plain [] h = refl
all_word-plain (c ∷ cs) h = ground (arith, all_word-plain cs)

-- Is the last character, or the one before the text, in a word?
abbrev pub ends_in_word : Bool → Text → Bool
ends_in_word b [] = b
ends_in_word b (c ∷ cs) = ends_in_word (is_word c) cs

-- A text and what `replace` makes of it: it is a row of other characters, of marks with their
-- words, and of terms, each of which becomes the token.
pub data Cut (term token : Text) : Text → Text → Type 0 where
  done : Cut term token [] []
  keeps :
      {x y : Text} (c : ℕ)
      → nat_beq c 126 ≡ false
      → Cut term token x y
      → Cut term token (c ∷ x) (c ∷ y)
  marks :
      {x y : Text} (w : Text)
      → all_word w ≡ true
      → begins_word x ≡ false
      → Cut term token x y
      → Cut term token (126 ∷ w ++ x) (126 ∷ w ++ y)
  swaps :
      {x y : Text}
      → begins_word x ≡ false
      → Cut term token x y
      → Cut term token (term ++ x) (token ++ y)
