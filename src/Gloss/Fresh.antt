-- ===== src/Gloss/Fresh.antt =====
-- genAbbrev of gloss.ts finds an abbreviation that is free, within the turns that its model has.
use dap.Common.{
  ℕ, zero, suc, ◌+◌, ◌*◌, ◌-◌, ◌≤◌, ◌≡◌, ◌≢◌, refl, ap, sym, ◌∙◌, true, false, List, [], ◌∷◌, ◌++◌,
  length, length-append, arith, ltb, Text, text_eq, Bool-cases, inl, inr,
}
use dap.JsMap.{JsMap, get, has, set, delete, get-delete, get-set}
use Prim.Native.Nat.{◌/◌, ◌%◌}
use dap.Gloss.Words.{numbered, digits_from, free_abbrev, gen_abbrev, base_of}

-- The number that a text of digits stands for, after the digits before it.
read : Text → ℕ → ℕ
read [] acc = acc
read (c ∷ cs) acc = read cs (acc * 10 + (c - 48))

read-append : (xs ys : Text) (acc : ℕ) → read (xs ++ ys) acc ≡ read ys (read xs acc)
unfolding read
read-append [] ys acc = refl
read-append (x ∷ xs) ys acc = read-append xs ys (acc * 10 + (x - 48))

read-digits_from : (f n : ℕ) → suc n ≤ f → read (digits_from f n) 0 ≡ n
unfolding digits_from read
read-digits_from zero n h = absurd (omega arith)
read-digits_from (suc f) n h = elim (Bool-cases (ltb n 10)) [
  | inl small ↦ rw (small, digits_from) (omega arith)
  | inr large ↦
      let smaller : suc (n / 10) ≤ f = ground arith in
      let higher : read (digits_from f (n / 10)) 0 ≡ n / 10 = read-digits_from f (n / 10) smaller in
      rw (large, digits_from)
        (read-append (digits_from f (n / 10)) ((48 + n % 10) ∷ []) 0 ∙ ground (arith, higher))
]

digits_from-nonempty : (f n : ℕ) → 1 ≤ length (digits_from (suc f) n)
unfolding digits_from
digits_from-nonempty f n =
    ground (arith, length-append (digits_from f (n / 10)) ((48 + n % 10) ∷ []))

has-delete : (m : JsMap Text (Unit {0})) (x y : Text) → x ≢ y → has (delete m x) y ≡ has m y
unfolding has
has-delete m x y other =
    ground (arith, get-delete m x y, text_eq.same_iff x y, λ (e : x ≡ y). other e)

length-delete_le : (m : JsMap Text (Unit {0})) (k : Text) → length (delete m k) ≤ length m
unfolding delete
length-delete_le [] k = omega arith
length-delete_le ((j, w) ∷ m) k = ground (arith, length-delete_le m k)

length-delete :
    (m : JsMap Text (Unit {0})) (k : Text) → has m k ≡ true → suc (length (delete m k)) ≤ length m
unfolding has get delete
length-delete [] k h = absurd (ground (arith, h))
length-delete ((j, w) ∷ m) k h = ground (arith, length-delete m k, length-delete_le m k)

-- Each of the texts is a key.
abbrev AllKept : JsMap Text (Unit {0}) → List Text → Type 0
AllKept m [] = Unit
AllKept m (x ∷ xs) = (has m x ≡ true) × AllKept m xs

-- The text is none of the list.
abbrev IsNew : Text → List Text → Type 0
IsNew x [] = Unit
IsNew x (y ∷ ys) = (x ≢ y) × IsNew x ys

abbrev IsDistinct : List Text → Type 0
IsDistinct [] = Unit
IsDistinct (x ∷ xs) = IsNew x xs × IsDistinct xs

delete-AllKept :
    (m : JsMap Text (Unit {0})) (x : Text) (xs : List Text)
    → IsNew x xs
    → AllKept m xs
    → AllKept (delete m x) xs
delete-AllKept m x [] new kept = tt
delete-AllKept m x (y ∷ ys) new kept =
    (has-delete m x y new.0 ∙ kept.0, delete-AllKept m x ys new.1 kept.1)

length-AllKept :
    (m : JsMap Text (Unit {0})) (xs : List Text)
    → IsDistinct xs
    → AllKept m xs
    → length xs ≤ length m
length-AllKept m [] distinct kept = omega arith
length-AllKept m (x ∷ xs) distinct kept = omega (
  arith,
  length-delete m x kept.0,
  length-AllKept (delete m x) xs distinct.1 (delete-AllKept m x xs distinct.0 kept.1),
)

-- The numbered abbreviations from a number on.
abbrev numbers : ℕ → Text → ℕ → List Text
numbers zero base i = []
numbers (suc f) base i = numbered base i ∷ numbers f base (suc i)

rest_of : Text → Text
rest_of [] = []
rest_of (x ∷ xs) = xs

append_cancel : (xs ys zs : Text) → xs ++ ys ≡ xs ++ zs → ys ≡ zs
unfolding rest_of
append_cancel [] ys zs e = e
append_cancel (x ∷ xs) ys zs e = append_cancel xs ys zs (ap rest_of e)

numbered_injective : (base : Text) (i j : ℕ) → numbered base i ≡ numbered base j → i ≡ j
numbered_injective base i j e =
    sym (read-digits_from (suc i) i (omega arith))
    ∙ ap (λ ds. read ds 0) (append_cancel base _ _ e)
    ∙ read-digits_from (suc j) j (omega arith)

IsNew-numbers :
    (f : ℕ) (base : Text) (i j : ℕ) → suc i ≤ j → IsNew (numbered base i) (numbers f base j)
IsNew-numbers zero base i j less = tt
IsNew-numbers (suc f) base i j less = (
  λ e. absurd (omega (arith, less, numbered_injective base i j e)),
  IsNew-numbers f base i (suc j) (omega (arith, less)),
)

IsNew-base : (f : ℕ) (base : Text) (j : ℕ) → IsNew base (numbers f base j)
IsNew-base zero base j = tt
IsNew-base (suc f) base j = (
  λ e. absurd (
      omega
        (arith, ap length e, length-append base (digits_from (suc j) j), digits_from-nonempty j j)),
  IsNew-base f base (suc j),
)

IsDistinct-numbers : (f : ℕ) (base : Text) (i : ℕ) → IsDistinct (numbers f base i)
IsDistinct-numbers zero base i = tt
IsDistinct-numbers (suc f) base i =
    (IsNew-numbers f base i (suc i) (omega arith), IsDistinct-numbers f base (suc i))

length-numbers : (f : ℕ) (base : Text) (i : ℕ) → length (numbers f base i) ≡ f
length-numbers zero base i = refl
length-numbers (suc f) base i = ap suc (length-numbers f base (suc i))

-- If the search ends at a reserved abbreviation, all that it went through are.
free_abbrev-AllKept :
    (f : ℕ) (base : Text) (i : ℕ) (a : Text) (reserved : JsMap Text (Unit {0}))
    → has reserved (free_abbrev f base i a reserved) ≡ true
    → AllKept reserved (a ∷ numbers f base i)
unfolding free_abbrev
free_abbrev-AllKept zero base i a reserved taken = (taken, tt)
free_abbrev-AllKept (suc f) base i a reserved taken = elim (Bool-cases (has reserved a)) [
  | inl is_taken ↦
      let step : free_abbrev (suc f) base i a reserved
          ≡ free_abbrev f base (suc i) (numbered base i) reserved =
        rw (is_taken, free_abbrev) refl in
      (
        is_taken,
        free_abbrev-AllKept f base (suc i) (numbered base i) reserved
            (ap (has reserved) (sym step) ∙ taken),
      )
  | inr open_ ↦
      let step : free_abbrev (suc f) base i a reserved ≡ a = rw (open_, free_abbrev) refl in
      absurd (ground (arith, sym (ap (has reserved) (sym step) ∙ taken) ∙ open_))
]

has-set : (m : JsMap Text (Unit {0})) (x : Text) → has (set m x tt) x ≡ true
unfolding has
has-set m x = ground (arith, get-set m x x tt, text_eq.same_iff x x)

search_ends :
    (base : Text) (reserved : JsMap Text (Unit {0}))
    → has reserved (free_abbrev (suc (length reserved)) base 2 base reserved) ≡ false
search_ends base reserved =
    let turns : ℕ = suc (length reserved) in
    elim (Bool-cases (has reserved (free_abbrev turns base 2 base reserved))) [
      | inr free ↦ free
      | inl taken ↦
          let kept : AllKept reserved (base ∷ numbers turns base 2) =
            free_abbrev-AllKept turns base 2 base reserved taken in
          absurd (
            omega (
              arith,
              length-AllKept reserved (base ∷ numbers turns base 2)
                  (IsNew-base turns base 2, IsDistinct-numbers turns base 2) kept,
              length-numbers turns base 2,
            ))
    ]

-- The abbreviation of a term is not one that was reserved, whatever was: the search for a free one
-- ends within its turns. It is reserved from then on.
pub gen_abbrev-fresh :
    (term : Text) (reserved : JsMap Text (Unit {0}))
    → (has reserved (gen_abbrev term reserved).0 ≡ false)
      × (has (gen_abbrev term reserved).1 (gen_abbrev term reserved).0 ≡ true)
unfolding gen_abbrev
gen_abbrev-fresh term reserved = (search_ends (base_of term) reserved, has-set reserved _)
