-- ===== src/Gloss/Bulk.antt =====
-- What `load` of gloss.ts does to a conversation: its entries become active one after the other.
use dap.Common.{
  ◌≡◌, refl, ◌∙◌, true, false, Option, none, some, some_injective, subst, List, [], ◌∷◌, All, arith,
  ◌==◌, text_eq, Text, text_beq_iff, if◌then◌else◌, Bool-cases, inl, inr,
}
use dap.JsMap.{JsMap, get, get-set, IsFresh, HasDistinctKeys, get-IsFresh}
use dap.JsObject.{first_of_both, text_name}
use dap.Gloss.Entries.{live_pair}
use dap.Gloss.Agent.{Conv, GlossPair, active, actives, activate, activate_all, live_of, live}

live_of-activate :
    (t s u : Text) (c : Conv)
    → live_of (activate t s c) u ≡ (if t == u then some s else live_of c u)
unfolding activate
live_of-activate t s u c = ground (arith, get-set c.entries t u (live_pair s))

-- Every term of the list is active, and the other terms are as they were.
pub live_of-activate_all :
    (es : List (Text × Text)) (c : Conv) (u : Text)
    → HasDistinctKeys es
    → live_of (activate_all es c) u ≡ first_of_both (get es u) (live_of c u)
unfolding get
live_of-activate_all [] c u d = refl
live_of-activate_all ((t, s) ∷ es) c u d =
    live_of-activate_all es (activate t s c) u d.1
    ∙ ground (arith, live_of-activate t s u c, get-IsFresh t es d.0, text_beq_iff t u)

actives-IsFresh : (m : JsMap Text GlossPair) (t : Text) → IsFresh t m → IsFresh t (actives m)
actives-IsFresh [] t h = tt
actives-IsFresh ((u, p) ∷ m) t h = ground (arith, actives-IsFresh m t h.1)

actives-HasDistinctKeys :
    (m : JsMap Text GlossPair) → HasDistinctKeys m → HasDistinctKeys (actives m)
actives-HasDistinctKeys [] h = tt
actives-HasDistinctKeys ((t, p) ∷ m) h =
    ground (arith, actives-IsFresh m t h.0, actives-HasDistinctKeys m h.1)

pub active-HasDistinctKeys : (c : Conv) → HasDistinctKeys c.entries → HasDistinctKeys (active c)
unfolding active
active-HasDistinctKeys c h = actives-HasDistinctKeys c.entries h

-- The active abbreviation of what a map has under a term.
live_in : JsMap Text GlossPair → Text → Option Text
live_in m u = elim (get m u) [ some p ↦ live p | none ↦ none ]

get-actives :
    (m : JsMap Text GlossPair) (u : Text) → HasDistinctKeys m → get (actives m) u ≡ live_in m u
unfolding get live_in
get-actives [] u d = refl
get-actives ((t, p) ∷ m) u d = ground (
  arith,
  get-actives m u d.1,
  get-IsFresh t (actives m) (actives-IsFresh m t d.0),
  text_beq_iff t u,
)

pub get-active : (c : Conv) (u : Text) → HasDistinctKeys c.entries → get (active c) u ≡ live_of c u
unfolding active live_in
get-active c u d = get-actives c.entries u d

-- The entries by their abbreviations.
abbrev pub swapped : List (Text × Text) → List (Text × Text)
swapped [] = []
swapped ((t, s) ∷ es) = (s, t) ∷ swapped es

-- No other term of the list has the abbreviation.
abbrev pub IsOnly : Text → Text → List (Text × Text) → Type 0
IsOnly t s = All (λ e. (if e.1 == s then e.0 == t else true) ≡ true)

swapped-unused : (t s : Text) (es : List (Text × Text)) → IsFresh s (swapped es) → IsOnly t s es
swapped-unused t s [] f = tt
swapped-unused t s ((u, v) ∷ es) f =
    (ground (arith, f.0, text_beq_iff s v, text_beq_iff v s), swapped-unused t s es f.1)

swapped-differ :
    (r s t : Text) (es : List (Text × Text))
    → IsFresh r (swapped es)
    → get es t ≡ some s
    → (r == s) ≡ false
unfolding get
swapped-differ r s t [] f g = absurd (ground (arith, g))
swapped-differ r s t ((u, v) ∷ es) f g =
    ground (arith, g, f.0, swapped-differ r s t es f.1, text_beq_iff r s, text_beq_iff r v)

pub swapped-IsOnly :
    (t s : Text) (es : List (Text × Text))
    → HasDistinctKeys (swapped es)
    → get es t ≡ some s
    → IsOnly t s es
unfolding get
swapped-IsOnly t s [] d g = tt
swapped-IsOnly t s ((u, v) ∷ es) d g = elim (Bool-cases (u == t)) [
  | inl same ↦
      let held : some v ≡ some s = ground (arith, same, g) in
      (
        ground (arith, same),
        swapped-unused t s es (subst (λ z. IsFresh z (swapped es)) (some_injective held) d.0),
      )
  | inr other ↦
      let later : get es t ≡ some s = ground (arith, other, g) in
      (ground (arith, swapped-differ v s t es d.0 later), swapped-IsOnly t s es d.1 later)
]

reverse-kept :
    (t s : Text) (es : List (Text × Text)) (c : Conv)
    → IsOnly t s es
    → get c.reverse s ≡ some t
    → get (activate_all es c).reverse s ≡ some t
unfolding activate
reverse-kept t s [] c only h = h
reverse-kept t s ((u, v) ∷ es) c only h =
    reverse-kept t s es (activate u v c) only.1
      (ground (arith, h, only.0, get-set c.reverse v s u, text_beq_iff u t))

-- The abbreviation stands for its term, if it is no other term's.
pub reverse-activate_all :
    (t s : Text) (es : List (Text × Text)) (c : Conv)
    → IsOnly t s es
    → get es t ≡ some s
    → get (activate_all es c).reverse s ≡ some t
unfolding activate get
reverse-activate_all t s [] c only g = absurd (ground (arith, g))
reverse-activate_all t s ((u, v) ∷ es) c only g = elim (Bool-cases (u == t)) [
  | inl same ↦
      let held : some v ≡ some s = ground (arith, same, g) in
      reverse-kept t s es (activate u v c) only.1
        (ground (arith, held, get-set c.reverse v s u, text_beq_iff u t, text_beq_iff v s, same))
  | inr other ↦ reverse-activate_all t s es (activate u v c) only.1 (ground (arith, other, g))
]
