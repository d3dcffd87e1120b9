-- ===== src/Gloss/Handshake.antt =====
-- What the two sides of a negotiation in gloss.ts hold after each message.
use dap.Common.{
  ◌⊎◌, refl, true, ◌==◌, any, ◌≡◌, ◌≢◌, none, some, List, [], ◌∷◌, arith, text_eq, Text,
  text_beq_iff, Option-cases, inl, inr, ==_refl, ==_ne,
}
use dap.JsMap.{get-set, set, delete, get-delete, get, HasDistinctKeys}
use dap.Gloss.Agent.{
  GlossPair, active_, Conv, proposed, live_of, state_of, activate, on_propose, on_ack, deactivate,
}
use dap.Gloss.Entries.{AreProposed, Agrees-asked, on_ack_live, live_pair, on_propose-IsFresh}

asked-HasDistinctKeys :
    (es : List (Text × Text)) (c : Conv) → HasDistinctKeys es → HasDistinctKeys (on_propose es c).0
unfolding on_propose
asked-HasDistinctKeys [] c d = tt
asked-HasDistinctKeys ((t, s) ∷ es) c d = ground (
  arith,
  on_propose-IsFresh es c t d.0,
  on_propose-IsFresh es (activate t s c) t d.0,
  asked-HasDistinctKeys es c d.1,
  asked-HasDistinctKeys es (activate t s c) d.1,
)

asked-AreProposed :
    (es : List (Text × Text)) (ours theirs : Conv)
    → AreProposed ours es
    → AreProposed ours (on_propose es theirs).0
unfolding on_propose
asked-AreProposed [] ours theirs p = tt
asked-AreProposed ((t, s) ∷ es) ours theirs p = ground (
  arith,
  asked-AreProposed es ours theirs p.1,
  asked-AreProposed es ours (activate t s theirs) p.1,
)

-- After a propose and its ack are handled, each of the entries that one side has proposed, for
-- terms that differ, is active on both sides under the same abbreviation.
pub on_ack-on_propose :
    (ours theirs : Conv) (es : List (Text × Text)) (term short : Text)
    → HasDistinctKeys es
    → AreProposed ours es
    → get es term ≡ some short
    → (agreed : Text) × (live_of (on_propose es theirs).1 term ≡ some agreed)
      × (live_of (on_ack (on_propose es theirs).0 ours) term ≡ some agreed)
on_ack-on_propose ours theirs es term short d p g =
    let (agreed, acked, alive) = Agrees-asked es theirs term short d g in
    (
      agreed,
      alive,
      on_ack_live (on_propose es theirs).0 ours term agreed (asked-HasDistinctKeys es theirs d)
          (asked-AreProposed es ours theirs p) acked,
    )

-- An entry that one side has proposed for a term is active on both after the propose and its ack
-- are handled, with the same abbreviation, and the proposer expands that to the term.
on_ack-on_propose_one :
    (ours theirs : Conv) (term short : Text)
    → state_of ours term ≡ some proposed
    → (agreed : Text) × (live_of (on_propose ((term, short) ∷ []) theirs).1 term ≡ some agreed)
      × (live_of (on_ack (on_propose ((term, short) ∷ []) theirs).0 ours) term ≡ some agreed)
      × (get (on_ack (on_propose ((term, short) ∷ []) theirs).0 ours).reverse agreed ≡ some term)
unfolding on_propose on_ack activate
on_ack-on_propose_one ours theirs term short waits =
    let pair : Text → GlossPair = (λ a. record { abbreviation = a; state = active_ }) in
    elim (Option-cases (live_of theirs term)) [
      | inl idle ↦ (
        short,
        ground (arith, text_beq_iff term term, get-set theirs.entries term term (pair short)),
        ground (arith, text_beq_iff term term, get-set ours.entries term term (pair short)),
        ground (arith, text_beq_iff short short, get-set ours.reverse short short term),
      )
      | inr (a, alive) ↦ (
        a,
        ground arith,
        ground (arith, text_beq_iff term term, get-set ours.entries term term (pair a)),
        ground (arith, text_beq_iff a a, get-set ours.reverse a a term),
      )
    ]

-- An ack changes the entries only of terms that this side has proposed.
on_ack-keeps :
    (es : List (Text × Text)) (c : Conv) (term : Text)
    → state_of c term ≢ some proposed
    → get (on_ack es c).entries term ≡ get c.entries term
unfolding on_ack activate
on_ack-keeps [] c term h = refl
on_ack-keeps ((t, s) ∷ es) c term h = ground (
  arith,
  text_beq_iff t term,
  get-set c.entries t term (record { abbreviation = s; state = active_ }),
  on_ack-keeps es (activate t s c) term,
  on_ack-keeps es c term,
)

-- Both sides propose a term at once, each handles the other's propose, and then the other's ack.
abbrev pub crossed : Text → Text → Text → Conv → Conv → Conv × Conv
crossed term x y ours theirs =
    let us = on_propose ((term, y) ∷ []) ours in
    let them = on_propose ((term, x) ∷ []) theirs in (on_ack them.0 us.1, on_ack us.0 them.1)

-- Where both sides have proposed the same term under abbreviations that differ and their messages
-- cross, each side ends with the other's abbreviation: the two never agree, and what the first
-- side's stands for on the second side is what it stood for before.
pub crossed_differ :
    (ours theirs : Conv) (term x y : Text)
    → x ≢ y
    → state_of ours term ≡ some proposed
    → state_of theirs term ≡ some proposed
    → (live_of (crossed term x y ours theirs).0 term ≡ some y)
      × (live_of (crossed term x y ours theirs).1 term ≡ some x)
      × (get (crossed term x y ours theirs).1.reverse y ≡ get theirs.reverse y)
unfolding on_propose on_ack activate
crossed_differ ours theirs term x y differ p q = (
  ground (arith, ==_refl term, get-set ours.entries term term (live_pair y), p, q),
  ground (arith, ==_refl term, get-set theirs.entries term term (live_pair x), p, q),
  ground (
    arith,
    ==_refl term,
    get-set theirs.entries term term (live_pair x),
    get-set theirs.reverse x y term,
    ==_ne x y differ,
    p,
    q,
  ),
)

-- After a drop, none of its abbreviations stands for a term.
deactivate-reverse :
    (shorts : List Text) (c : Conv) (short : Text)
    → (get c.reverse short ≡ none) ⊎ (any (λ s. s == short) shorts ≡ true)
    → get (deactivate shorts c).reverse short ≡ none
unfolding deactivate
deactivate-reverse [] c short h = ground arith
deactivate-reverse (s ∷ shorts) c short h = elim (Option-cases (get c.reverse s)) [
  | inl unknown ↦ ground (arith, text_beq_iff s short, deactivate-reverse shorts c short)
  | inr (term, known) ↦ ground (
    arith,
    text_beq_iff s short,
    get-delete c.reverse s short,
    deactivate-reverse shorts
        (record c {
          entries = delete c.entries term;
          reverse = delete c.reverse s;
          dropped = set c.dropped term tt;
        })
        short,
  )
]
