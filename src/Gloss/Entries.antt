-- ===== src/Gloss/Entries.antt =====
-- What a propose and an ack of gloss.ts do to the entries, one by one.
use dap.Common.{
  ◌≡◌, ◌≢◌, refl, sym, ap, ◌∙◌, false, none, some, Option, List, [], ◌∷◌, arith, ◌==◌, text_eq,
  Text, text_beq_iff, subst, Option-cases, Bool-cases, inl, inr, ==_refl,
}
use dap.JsMap.{JsMap, get, get-set, IsFresh, HasDistinctKeys}
use dap.Gloss.Agent.{
  GlossState, Conv, GlossPair, proposed, active_, live, live_of, state_of, activate, on_propose,
  on_ack,
}

abbrev pub live_pair : Text → GlossPair
live_pair short = record { abbreviation = short; state = active_ }

get-activate :
    (t s : Text) (c : Conv) (term : Text)
    → (t == term) ≡ false
    → get (activate t s c).entries term ≡ get c.entries term
unfolding activate
get-activate t s c term other = ground (arith, get-set c.entries t term (live_pair s))

pub live_of-activate : (t s : Text) (c : Conv) → live_of (activate t s c) t ≡ some s
unfolding activate
live_of-activate t s c = ground (arith, get-set c.entries t t (live_pair s), ==_refl t)

abbrev pub Asked : Type 0
Asked = List (Text × Text) × Conv

pub asked_live :
    (t s a : Text) (es : List (Text × Text)) (c : Conv)
    → live_of c t ≡ some a
    → on_propose ((t, s) ∷ es) c ≡ ((t, a) ∷ (on_propose es c).0, (on_propose es c).1)
unfolding on_propose
asked_live t s a es c e = ground (arith, e)

pub asked_new :
    (t s : Text) (es : List (Text × Text)) (c : Conv)
    → live_of c t ≡ none
    → on_propose ((t, s) ∷ es) c
      ≡ ((t, s) ∷ (on_propose es (activate t s c)).0, (on_propose es (activate t s c)).1)
unfolding on_propose
asked_new t s es c e = ground (arith, e)

nothing_asked : (c : Conv) (term : Text) → get (on_propose [] c).1.entries term ≡ get c.entries term
unfolding on_propose
nothing_asked c term = refl

-- A frame leaves the entries of other terms alone.
on_propose-other :
    (es : List (Text × Text)) (c : Conv) (term : Text)
    → IsFresh term es
    → get (on_propose es c).1.entries term ≡ get c.entries term
on_propose-other [] c term h = nothing_asked c term
on_propose-other ((t, s) ∷ es) c term h = elim (Option-cases (live_of c t)) [
  | inr (a, e) ↦
      ap (λ (r : Asked). get r.1.entries term) (asked_live t s a es c e)
      ∙ on_propose-other es c term h.1
  | inl e ↦
      ap (λ (r : Asked). get r.1.entries term) (asked_new t s es c e)
      ∙ on_propose-other es (activate t s c) term h.1
      ∙ get-activate t s c term (ground (arith, text_beq_iff t term, text_beq_iff term t))
]

on_ack-other :
    (es : List (Text × Text)) (c : Conv) (term : Text)
    → IsFresh term es
    → get (on_ack es c).entries term ≡ get c.entries term
unfolding on_ack
on_ack-other [] c term h = refl
on_ack-other ((t, s) ∷ es) c term h = ground (
  arith,
  text_beq_iff t term,
  text_beq_iff term t,
  on_ack-other es c term,
  on_ack-other es (activate t s c) term,
  get-activate t s c term,
)

-- The ack has the proposed terms.
pub on_propose-IsFresh :
    (es : List (Text × Text)) (c : Conv) (term : Text)
    → IsFresh term es
    → IsFresh term (on_propose es c).0
unfolding on_propose
on_propose-IsFresh [] c term h = tt
on_propose-IsFresh ((t, s) ∷ es) c term h =
    ground
      (arith, on_propose-IsFresh es c term h.1, on_propose-IsFresh es (activate t s c) term h.1)

abbrev live_at : Option GlossPair → Option Text
live_at found = elim found [ some p ↦ live p | none ↦ none ]

abbrev state_at : Option GlossPair → Option GlossState
state_at found = elim found [ some p ↦ some p.state | none ↦ none ]

-- Each term waits for the peer's ack.
abbrev pub AreProposed : Conv → List (Text × Text) → Type 0
AreProposed c [] = Unit
AreProposed c ((t, s) ∷ es) = (state_of c t ≡ some proposed) × AreProposed c es

pub activate-AreProposed :
    (es : List (Text × Text)) (t s : Text) (c : Conv)
    → IsFresh t es
    → AreProposed c es
    → AreProposed (activate t s c) es
activate-AreProposed [] t s c f h = tt
activate-AreProposed ((u, v) ∷ es) t s c f h =
    (ap state_at (get-activate t s c u f.0) ∙ h.0, activate-AreProposed es t s c f.1 h.1)

-- The first entry of an ack.
acked_first :
    (t a : Text) (es : List (Text × Text)) (c : Conv)
    → state_of c t ≡ some proposed
    → on_ack ((t, a) ∷ es) c ≡ on_ack es (activate t a c)
unfolding on_ack
acked_first t a es c e = ground (arith, e)

no_entry : (term short : Text) → get {V = Text} [] term ≢ some short
unfolding get
no_entry term short g = absurd (ground (arith, g))

get_first : (t a : Text) (m : JsMap Text Text) → get ((t, a) ∷ m) t ≡ some a
unfolding get
get_first t a m = ground (arith, ==_refl t)

get_later :
    (t a : Text) (m : JsMap Text Text) (term : Text)
    → (t == term) ≡ false
    → get ((t, a) ∷ m) term ≡ get m term
unfolding get
get_later t a m term other = ground (arith, other)

-- What both sides have for a term after a proposal: the ack's abbreviation is the live one.
abbrev pub Agrees : Asked → Text → Type 0
Agrees r term = (agreed : Text) × (get r.0 term ≡ some agreed) × (live_of r.1 term ≡ some agreed)

Agrees-first :
    (t s : Text) (es : List (Text × Text)) (c : Conv)
    → IsFresh t es
    → Agrees (on_propose ((t, s) ∷ es) c) t
Agrees-first t s es c fresh = elim (Option-cases (live_of c t)) [
  | inr (a, e) ↦ (
    a,
    ap (λ (r : Asked). get r.0 t) (asked_live t s a es c e) ∙ get_first t a _,
    ap (λ (r : Asked). live_of r.1 t) (asked_live t s a es c e)
        ∙ ap live_at (on_propose-other es c t fresh)
        ∙ e,
  )
  | inl e ↦ (
    s,
    ap (λ (r : Asked). get r.0 t) (asked_new t s es c e) ∙ get_first t s _,
    ap (λ (r : Asked). live_of r.1 t) (asked_new t s es c e)
        ∙ ap live_at (on_propose-other es (activate t s c) t fresh)
        ∙ live_of-activate t s c,
  )
]

Agrees-later :
    (t a term : Text) (r q : Asked)
    → q ≡ ((t, a) ∷ r.0, r.1)
    → (t == term) ≡ false
    → Agrees r term
    → Agrees q term
Agrees-later t a term r q e other (agreed, acked, alive) = (
  agreed,
  ap (λ (z : Asked). get z.0 term) e ∙ get_later t a r.0 term other ∙ acked,
  ap (λ (z : Asked). live_of z.1 term) e ∙ alive,
)

pub Agrees-asked :
    (es : List (Text × Text)) (c : Conv) (term short : Text)
    → HasDistinctKeys es
    → get es term ≡ some short
    → Agrees (on_propose es c) term
Agrees-asked [] c term short d g = absurd (no_entry term short g)
Agrees-asked ((t, s) ∷ es) c term short d g = elim (Bool-cases (t == term)) [
  | inl same ↦
      subst (Agrees (on_propose ((t, s) ∷ es) c)) ((text_beq_iff t term).0 same)
        (Agrees-first t s es c d.0)
  | inr other ↦
      let later : get es term ≡ some short = sym (get_later t s es term other) ∙ g in
      elim (Option-cases (live_of c t)) [
        | inr (a, e) ↦
            Agrees-later t a term _ _ (asked_live t s a es c e) other
              (Agrees-asked es c term short d.1 later)
        | inl e ↦
            Agrees-later t s term _ _ (asked_new t s es c e) other
              (Agrees-asked es (activate t s c) term short d.1 later)
      ]
]

-- Where each term of an ack is proposed, all become active under what the ack has for them.
pub on_ack_live :
    (es : List (Text × Text)) (c : Conv) (term short : Text)
    → HasDistinctKeys es
    → AreProposed c es
    → get es term ≡ some short
    → live_of (on_ack es c) term ≡ some short
on_ack_live [] c term short d p g = absurd (no_entry term short g)
on_ack_live ((t, s) ∷ es) c term short d p g =
    ap (λ z. live_of z term) (acked_first t s es c p.0) ∙ elim (Bool-cases (t == term)) [
      | inl same ↦
          let e : t ≡ term = (text_beq_iff t term).0 same in
          let head : live_of (on_ack es (activate t s c)) t ≡ some s =
            ap live_at (on_ack-other es (activate t s c) t d.0) ∙ live_of-activate t s c in
          subst (λ z. live_of (on_ack es (activate t s c)) z ≡ some s) e head
          ∙ sym (get_first t s es)
          ∙ ap (get ((t, s) ∷ es)) e
          ∙ g
      | inr other ↦
          on_ack_live es (activate t s c) term short d.1 (activate-AreProposed es t s c d.0 p.1)
            (sym (get_later t s es term other) ∙ g)
    ]
