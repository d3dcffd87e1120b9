-- ===== src/Gloss/Words.antt =====
-- gloss.ts: terms, abbreviations, and the texts that go out and come in. A text is a list of UTF-16
-- code units. A `$` in an abbreviation, which `replace` reads, and an empty term are not modelled.
use dap.Common.{
  ℕ, zero, suc, ◌+◌, ◌-◌, Bool, true, false, not, ◌&&◌, ◌||◌, none, some, List, [], ◌∷◌, ◌++◌,
  length, take, drop, filterb, any, ltb, leb, nat_beq, if◌then◌else◌, Text, text_eq,
}
use dap.JsMap.{JsMap, get, set, has}
use Prim.Native.Nat.{◌/◌, ◌%◌}

abbrev pub min_term : ℕ
min_term = 8

abbrev pub min_msgs : ℕ
min_msgs = 2

abbrev pub max_ngram : ℕ
max_ngram = 3

abbrev pub max_abbrev : ℕ
max_abbrev = 4

abbrev is_lower : ℕ → Bool
is_lower c = leb 97 c && leb c 122

abbrev is_digit : ℕ → Bool
is_digit c = leb 48 c && leb c 57

-- `[a-z0-9]`
abbrev pub is_word : ℕ → Bool
is_word c = is_lower c || is_digit c

-- `[aeiou]`
abbrev is_vowel : ℕ → Bool
is_vowel c = any (nat_beq c) (97 ∷ 101 ∷ 105 ∷ 111 ∷ 117 ∷ [])

-- `text.split(' ')`
abbrev pub split_spaces : Text → List Text
split_spaces [] = [] ∷ []
split_spaces (c ∷ cs) = elim (split_spaces cs) [
  | [] ↦ (c ∷ []) ∷ []
  | w ∷ ws ↦ if nat_beq c 32 then [] ∷ w ∷ ws else (c ∷ w) ∷ ws
]

abbrev initials : List Text → Text
initials [] = []
initials (w ∷ ws) = take 1 w ++ initials ws

unfoldable pub base_of : Text → Text
base_of term = take max_abbrev (elim (split_spaces term) [
  | [] ↦ []
  | w ∷ ws ↦ elim ws [
    | [] ↦ take 1 w ++ filterb (λ c. not (is_vowel c)) (drop 1 w)
    | v ∷ vs ↦ initials (w ∷ v ∷ vs)
  ]
])

unfoldable pub digits_from : ℕ → ℕ → Text
digits_from zero n = []
digits_from (suc f) n =
    let higher = digits_from f (n / 10) in
    if ltb n 10 then (48 + n) ∷ [] else higher ++ (48 + n % 10) ∷ []

-- `base + i`
abbrev pub numbered : Text → ℕ → Text
numbered base i = base ++ digits_from (suc i) i

-- `for (let i = 2; reserved.has(abbrev); i++) abbrev = base + i;`. At most one turn for each
-- reserved abbreviation.
unfoldable pub free_abbrev : ℕ → Text → ℕ → Text → JsMap Text (Unit {0}) → Text
unfolding has digits_from
free_abbrev zero base i abbrev_ reserved = abbrev_
free_abbrev (suc f) base i abbrev_ reserved =
    let later = free_abbrev f base (suc i) (numbered base i) reserved in
    if has reserved abbrev_ then later else abbrev_

unfoldable pub gen_abbrev : Text → JsMap Text (Unit {0}) → Text × JsMap Text (Unit {0})
unfolding base_of free_abbrev
gen_abbrev term reserved =
    let chosen = free_abbrev (suc (length reserved)) (base_of term) 2 (base_of term) reserved in
    (chosen, set reserved chosen tt)

-- `text.match(/[a-z]{4,}/g) ?? []`; the first argument is the run of letters before the text.
unfoldable pub words_from : Text → Text → List Text
words_from run [] = if leb 4 (length run) then run ∷ [] else []
words_from run (c ∷ cs) =
    let inside = words_from (run ++ c ∷ []) cs in
    let outside = words_from [] cs in
    if is_lower c then inside else if leb 4 (length run) then run ∷ outside else outside

-- `ws.join(' ')`
abbrev joined_words : List Text → Text
joined_words [] = []
joined_words (w ∷ ws) = elim ws [ [] ↦ w | v ∷ vs ↦ w ++ 32 ∷ joined_words ws ]

-- The runs of `n` words that begin at each word.
abbrev windows : ℕ → List Text → List Text
windows n [] = []
windows n (w ∷ ws) =
    let later = windows n ws in
    if leb n (length (w ∷ ws)) then joined_words (take n (w ∷ ws)) ∷ later else later

unfoldable pub ngrams : (Text → Text) → Text → List Text
unfolding words_from
ngrams lower text =
    let ws = words_from [] (lower text) in windows 1 ws ++ windows 2 ws ++ windows 3 ws

-- Does the text begin with the term?
abbrev pub starts_with : Text → Text → Bool
starts_with [] text = true
starts_with (t ∷ ts) [] = false
starts_with (t ∷ ts) (c ∷ cs) = nat_beq t c && starts_with ts cs

abbrev pub begins_word : Text → Bool
begins_word [] = false
begins_word (c ∷ cs) = is_word c

-- One `replace` of `compact`: after a character that is in a word or not, with so many characters
-- of a match still to leave out.
unfoldable pub compact_from : Text → Text → Bool → ℕ → Text → Text
compact_from term token in_word skip [] = []
compact_from term token in_word (suc skip) (c ∷ cs) = compact_from term token (is_word c) skip cs
compact_from term token in_word zero (c ∷ cs) =
    let kept = compact_from term token (is_word c) 0 cs in
    let cut = compact_from term token (is_word c) (length term - 1) cs in
    if not in_word && starts_with term (c ∷ cs) && not (begins_word (drop (length term) (c ∷ cs)))
    then token ++ cut
    else c ∷ kept

unfoldable pub compact_term : Text × Text → Text → Text
unfolding compact_from
compact_term (term, short) text = compact_from term (126 ∷ short) false 0 text

-- `sort((a, b) => b.term.length - a.term.length)`, which is stable
abbrev pub insert_term : Text × Text → List (Text × Text) → List (Text × Text)
insert_term e [] = e ∷ []
insert_term e (d ∷ ds) =
    let later = insert_term e ds in if ltb (length e.0) (length d.0) then d ∷ later else e ∷ d ∷ ds

abbrev pub sort_terms : List (Text × Text) → List (Text × Text)
sort_terms [] = []
sort_terms (e ∷ es) = insert_term e (sort_terms es)

unfoldable pub compact_terms : List (Text × Text) → Text → Text
unfolding compact_term
compact_terms [] text = text
compact_terms (e ∷ es) text = compact_terms es (compact_term e text)

-- The longest run of `[a-z0-9]` that begins the text.
abbrev pub word_at : Text → Text
word_at [] = []
word_at (c ∷ cs) = let later = word_at cs in if is_word c then c ∷ later else []

unfoldable pub expand_from : JsMap Text Text → ℕ → Text → Text
unfolding get
expand_from terms skip [] = []
expand_from terms (suc skip) (c ∷ cs) = expand_from terms skip cs
expand_from terms zero (c ∷ cs) =
    let kept = expand_from terms 0 cs in
    let cut = expand_from terms (length (word_at cs)) cs in
    if nat_beq c 126
    then elim (word_at cs) [
      | [] ↦ c ∷ kept
      | w ∷ ws ↦ elim (get terms (w ∷ ws)) [ some term ↦ term ++ cut | none ↦ c ∷ kept ]
    ]
    else c ∷ kept
