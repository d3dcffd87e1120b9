-- ===== src/Gloss/Guarded.antt =====
-- In gloss.ts every abbreviation in use is reserved: what the operations do to one conversation.
use dap.Common.{
  some_injective, ◌≡◌, ◌≢◌, sym, ap, ◌∙◌, subst, Bool, true, false, none, some, Option, List, [],
  ◌∷◌, arith, ◌==◌, text_eq, Text, text_beq_iff, Option-cases, Bool-cases, inl, inr, ==_refl,
}
use dap.JsMap.{JsMap, get, set, delete, has, get-set, get-delete}
use dap.Gloss.Words.{gen_abbrev}
use dap.Gloss.Agent.{
  Conv, GlossPair, GlossState, proposed, active_, live_of, state_of, activate, activate_all,
  on_propose, on_ack, deactivate, propose_all, draw_all, enter_all, no_conv,
}
use dap.Gloss.Entries.{live_pair, asked_live, asked_new, Asked}
use dap.Gloss.Fresh.{gen_abbrev-fresh}

abbrev pub Reserved : Type 0
Reserved = JsMap Text (Unit {0})

-- What holds of every entry of a map.
module _ {ℓ} {V : Type ℓ} (R : Text → V → Type 0) where
  abbrev AllHold : JsMap Text V → Type ℓ
  AllHold m = (k : Text) (v : V) → get m k ≡ some v → R k v

  set-AllHold : (m : JsMap Text V) (k : Text) (v : V) → R k v → AllHold m → AllHold (set m k v)
  set-AllHold m k v r all j w e = elim (Bool-cases (k == j)) [
    | inl same ↦
        let chosen : some v ≡ some w = ground (arith, get-set m k j v, same, e) in
        subst (λ x. R x w) ((text_beq_iff k j).0 same) (subst (R k) (some_injective chosen) r)
    | inr other ↦ all j w (ground (arith, get-set m k j v, other, e))
  ]

  delete-AllHold : (m : JsMap Text V) (k : Text) → AllHold m → AllHold (delete m k)
  delete-AllHold m k all j w e = all j w (ground (arith, get-delete m k j, e))

-- The abbreviation of every entry, and every abbreviation that stands for a term, is reserved.
pub record IsGuarded (c : Conv) : Type 0 where
  pub entries :
      (t : Text) (p : GlossPair) → get c.entries t ≡ some p → has c.reserved p.abbreviation ≡ true
  pub reverse : (s t : Text) → get c.reverse s ≡ some t → has c.reserved s ≡ true

has-set_kept : (m : Reserved) (s x : Text) → has m x ≡ true → has (set m s tt) x ≡ true
unfolding has
has-set_kept m s x h = ground (arith, get-set m s x tt, h)

has-set_same : (m : Reserved) (s : Text) → has (set m s tt) s ≡ true
unfolding has
has-set_same m s = ground (arith, get-set m s s tt, ==_refl s)

IsGuarded-activate : (t s : Text) (c : Conv) → IsGuarded c → IsGuarded (activate t s c)
unfolding activate
IsGuarded-activate t s c g = record {
  entries =
      set-AllHold (λ _ p. has (set c.reserved s tt) p.abbreviation ≡ true) c.entries t (live_pair s)
        (has-set_same c.reserved s)
        (λ u p e. has-set_kept c.reserved s p.abbreviation (g.entries u p e));
  reverse =
      set-AllHold (λ x _. has (set c.reserved s tt) x ≡ true) c.reverse s t
        (has-set_same c.reserved s) (λ x u e. has-set_kept c.reserved s x (g.reverse x u e));
}

pub IsGuarded-activate_all :
    (es : List (Text × Text)) (c : Conv) → IsGuarded c → IsGuarded (activate_all es c)
IsGuarded-activate_all [] c g = g
IsGuarded-activate_all ((t, s) ∷ es) c g =
    IsGuarded-activate_all es (activate t s c) (IsGuarded-activate t s c g)

IsGuarded-nothing : (c : Conv) → IsGuarded c → IsGuarded (on_propose [] c).1
unfolding on_propose
IsGuarded-nothing c g = g

pub IsGuarded-on_propose :
    (es : List (Text × Text)) (c : Conv) → IsGuarded c → IsGuarded (on_propose es c).1
IsGuarded-on_propose [] c g = IsGuarded-nothing c g
IsGuarded-on_propose ((t, s) ∷ es) c g = elim (Option-cases (live_of c t)) [
  | inr (a, e) ↦
      subst (λ (r : Asked). IsGuarded r.1) (sym (asked_live t s a es c e))
        (IsGuarded-on_propose es c g)
  | inl e ↦
      subst (λ (r : Asked). IsGuarded r.1) (sym (asked_new t s es c e))
        (IsGuarded-on_propose es (activate t s c) (IsGuarded-activate t s c g))
]

-- Both branches of `on_ack` keep it.
IsGuarded-acked :
    (state : Option GlossState) (x y : Conv)
    → IsGuarded x
    → IsGuarded y
    → IsGuarded (elim state [ some proposed ↦ x | _ ↦ y ])
IsGuarded-acked none x y g h = h
IsGuarded-acked (some proposed) x y g h = g
IsGuarded-acked (some active_) x y g h = h

pub IsGuarded-on_ack : (es : List (Text × Text)) (c : Conv) → IsGuarded c → IsGuarded (on_ack es c)
unfolding on_ack
IsGuarded-on_ack [] c g = g
IsGuarded-on_ack ((t, s) ∷ es) c g =
    IsGuarded-acked (state_of c t) (on_ack es (activate t s c)) (on_ack es c)
      (IsGuarded-on_ack es (activate t s c) (IsGuarded-activate t s c g)) (IsGuarded-on_ack es c g)

pub IsGuarded-deactivate :
    (shorts : List Text) (c : Conv) → IsGuarded c → IsGuarded (deactivate shorts c)
unfolding deactivate
IsGuarded-deactivate [] c g = g
IsGuarded-deactivate (s ∷ shorts) c g = elim (Option-cases (get c.reverse s)) [
  | inl unknown ↦ rw (unknown, deactivate) (IsGuarded-deactivate shorts c g)
  | inr (t, known) ↦
      rw (known, deactivate)
        (IsGuarded-deactivate shorts _ (record {
          entries =
              delete-AllHold (λ _ p. has c.reserved p.abbreviation ≡ true) c.entries t g.entries;
          reverse = delete-AllHold (λ x _. has c.reserved x ≡ true) c.reverse s g.reverse;
        }))
]

gen_abbrev_kept :
    (term : Text) (m : Reserved) (x : Text) → has m x ≡ true → has (gen_abbrev term m).1 x ≡ true
unfolding gen_abbrev
gen_abbrev_kept term m x h = has-set_kept m _ x h

-- What was reserved stays so.
draw_all_kept :
    (terms : List Text) (m : Reserved) (x : Text)
    → has m x ≡ true
    → has (draw_all terms m).1 x ≡ true
unfolding draw_all
draw_all_kept [] m x h = h
draw_all_kept (t ∷ ts) m x h = draw_all_kept ts (gen_abbrev t m).1 x (gen_abbrev_kept t m x h)

-- Every abbreviation of the proposals is reserved.
abbrev AreReserved : Reserved → List (Text × Text) → Type 0
AreReserved m [] = Unit {0}
AreReserved m ((t, s) ∷ proposals) = (has m s ≡ true) × AreReserved m proposals

draw_all-AreReserved :
    (terms : List Text) (m : Reserved) → AreReserved (draw_all terms m).1 (draw_all terms m).0
unfolding draw_all
draw_all-AreReserved [] m = tt
draw_all-AreReserved (t ∷ ts) m =
    let drawn : Text × Reserved = gen_abbrev t m in
    (draw_all_kept ts drawn.1 drawn.0 (gen_abbrev-fresh t m).1, draw_all-AreReserved ts drawn.1)

enter_all-AllHold :
    (m : Reserved) (proposals : List (Text × Text)) (entries : JsMap Text GlossPair)
    → AreReserved m proposals
    → AllHold (λ _ p. has m p.abbreviation ≡ true) entries
    → AllHold (λ _ p. has m p.abbreviation ≡ true) (enter_all proposals entries)
unfolding enter_all
enter_all-AllHold m [] entries r all = all
enter_all-AllHold m ((t, s) ∷ proposals) entries (r, rs) all = enter_all-AllHold m proposals _ rs (
    set-AllHold (λ _ p. has m p.abbreviation ≡ true) entries t
      (record { abbreviation = s; state = proposed }) r all)

pub IsGuarded-propose_all :
    (terms : List Text) (c : Conv) → IsGuarded c → IsGuarded (propose_all terms c).1
unfolding propose_all
IsGuarded-propose_all terms c g = record {
  entries =
      enter_all-AllHold (draw_all terms c.reserved).1 (draw_all terms c.reserved).0 c.entries
        (draw_all-AreReserved terms c.reserved)
        (λ u p e. draw_all_kept terms c.reserved p.abbreviation (g.entries u p e));
  reverse = λ x u e. draw_all_kept terms c.reserved x (g.reverse x u e);
}

pub IsGuarded-no_conv : IsGuarded no_conv
unfolding get
IsGuarded-no_conv = record {
  entries = λ t p e. absurd (ground (arith, e));
  reverse = λ s t e. absurd (ground (arith, e));
}

booleans_differ : ¬ (◌≡◌ {A = Bool} false true)
booleans_differ e = cc

-- The abbreviation of a term's entry, active or proposed.
abbrev pub abbreviation_of : Conv → Text → Option Text
abbreviation_of c t = elim (get c.entries t) [ some p ↦ some p.abbreviation | none ↦ none ]

-- What is drawn next stands for nothing and belongs to no entry.
pub gen_abbrev-unused :
    (term t : Text) (c : Conv)
    → IsGuarded c
    → (get c.reverse (gen_abbrev term c.reserved).0 ≡ none)
      × (abbreviation_of c t ≢ some (gen_abbrev term c.reserved).0)
gen_abbrev-unused term t c g =
    let s : Text = (gen_abbrev term c.reserved).0 in
    let free : has c.reserved s ≡ false = (gen_abbrev-fresh term c.reserved).0 in
    (
      elim (Option-cases (get c.reverse s)) [
        | inl unknown ↦ unknown
        | inr (u, known) ↦ absurd (booleans_differ (sym free ∙ g.reverse s u known))
      ],
      elim (Option-cases (get c.entries t)) [
        | inl absent ↦ rw (absent, abbreviation_of) (λ e. absurd (ground (arith, e)))
        | inr (p, present) ↦
            rw (present, abbreviation_of)
              (λ e.
                booleans_differ
                  (sym free ∙ ap (has c.reserved) (sym (some_injective e)) ∙ g.entries t p present))
      ],
    )
