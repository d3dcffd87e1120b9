-- ===== src/Gloss/Stored.antt =====
-- load of gloss.ts restores what serialize gives.
use dap.Common.{
  some_injective, List-cases, if◌then◌else◌, ◌≡◌, ◌⊎◌, refl, sym, ap, ◌∙◌, subst, true, false,
  Option, none, some, String, string_eq, List, [], ◌∷◌, All, arith, ◌==◌, text_eq, Text, Bool-cases,
  inl, inr, ==_refl,
}
use dap.JsMap.{JsMap, get, set, get-set, IsFresh, HasDistinctKeys, get-IsFresh}
use dap.JsObject.{
  is_proto, string_name, text_name, get-put_all, put_all-HasDistinctKeys, put_all-All, All-get,
}
use dap.Gloss.Agent.{
  Conv, Convs, conv, no_conv, active, activate_all, load, serialize, written, terms_of, live_of,
}
use dap.Gloss.Bulk.{
  swapped, reverse-activate_all, live_of-activate_all, active-HasDistinctKeys, get-active, IsOnly,
  swapped-IsOnly,
}

pub conv-set :
    (convs : Convs) (k key : String) (c : Conv)
    → conv key (set convs k c) ≡ (if k == key then c else conv key convs)
unfolding conv
conv-set convs k key c = ground (arith, get-set convs k key c)

conv-set_same :
    (convs : Convs) (k key : String) (c : Conv) → (k == key) ≡ true → conv key (set convs k c) ≡ c
conv-set_same convs k key c e = ground (arith, conv-set convs k key c, e)

conv-set_other :
    (convs : Convs) (k key : String) (c : Conv)
    → (k == key) ≡ false
    → conv key (set convs k c) ≡ conv key convs
conv-set_other convs k key c e = ground (arith, conv-set convs k key c, e)

load-other :
    (d : JsMap String (JsMap Text Text)) (convs : Convs) (key : String)
    → IsFresh key d
    → conv key (load d convs) ≡ conv key convs
unfolding load
load-other [] convs key h = refl
load-other ((k, terms) ∷ d) convs key h =
    load-other d (set convs k (activate_all terms (conv k convs))) key h.1
    ∙ ground (
      arith,
      conv-set convs k key (activate_all terms (conv k convs)),
      string_eq.same_iff k key,
      string_eq.same_iff key k,
    )

load_entry :
    (d : JsMap String (JsMap Text Text)) (convs : Convs) (key : String) (terms : List (Text × Text))
    → HasDistinctKeys d
    → get d key ≡ some terms
    → conv key (load d convs) ≡ activate_all terms (conv key convs)
unfolding load get
load_entry [] convs key terms h g = absurd (ground (arith, g))
load_entry ((k, ts) ∷ d) convs key terms h g = elim (Bool-cases (k == key)) [
  | inl same ↦
      let e : k ≡ key = (string_eq.same_iff k key).0 same in
      let held : some ts ≡ some terms = ground (arith, same, g) in
      load-other d (set convs k (activate_all ts (conv k convs))) key
        (subst (λ z. IsFresh z d) e h.0)
      ∙ conv-set_same convs k key (activate_all ts (conv k convs)) same
      ∙ ap (λ z. activate_all ts (conv z convs)) e
      ∙ ap (λ z. activate_all z (conv key convs)) (some_injective held)
  | inr other ↦
      load_entry d (set convs k (activate_all ts (conv k convs))) key terms h.1
        (ground (arith, other, g))
      ∙ ap (activate_all terms) (conv-set_other convs k key (activate_all ts (conv k convs)) other)
]

pub no_convs : (key : String) → conv key [] ≡ no_conv
unfolding conv get
no_convs key = refl

-- What is stored for a key.
abbrev stored : JsMap Text Text → Option (JsMap Text Text)
stored [] = none
stored (e ∷ es) = some (e ∷ es)

written-IsFresh : (convs : Convs) (key : String) → IsFresh key convs → IsFresh key (written convs)
unfolding written
written-IsFresh [] key h = tt
written-IsFresh ((k, c) ∷ convs) key h = ground (arith, written-IsFresh convs key h.1)

written-HasDistinctKeys : (convs : Convs) → HasDistinctKeys convs → HasDistinctKeys (written convs)
unfolding written
written-HasDistinctKeys [] h = tt
written-HasDistinctKeys ((k, c) ∷ convs) h =
    ground (arith, written-IsFresh convs k h.0, written-HasDistinctKeys convs h.1)

-- The entry of `written` for a conversation.
abbrev with_entry :
    String → JsMap Text Text → JsMap String (JsMap Text Text) → JsMap String (JsMap Text Text)
with_entry k [] rest = rest
with_entry k (e ∷ es) rest = (k, e ∷ es) ∷ rest

get-with_entry :
    (k : String) (es : JsMap Text Text) (rest : JsMap String (JsMap Text Text))
    → IsFresh k rest
    → get (with_entry k es rest) k ≡ stored es
unfolding get
get-with_entry k [] rest h = get-IsFresh k rest h
get-with_entry k (e ∷ es) rest h = ground (arith, ==_refl k)

get-with_entry_other :
    (k key : String) (es : JsMap Text Text) (rest : JsMap String (JsMap Text Text))
    → (k == key) ≡ false
    → get (with_entry k es rest) key ≡ get rest key
unfolding get
get-with_entry_other k key [] rest h = refl
get-with_entry_other k key (e ∷ es) rest h = ground (arith, h)

written-cons :
    (k : String) (c : Conv) (convs : Convs)
    → written ((k, c) ∷ convs) ≡ with_entry k (terms_of c) (written convs)
unfolding written
written-cons k c convs = ground arith

conv-cons :
    (k key : String) (c : Conv) (convs : Convs)
    → conv key ((k, c) ∷ convs) ≡ (if k == key then c else conv key convs)
unfolding conv get
conv-cons k key c convs = ground arith

no_terms : terms_of no_conv ≡ []
unfolding terms_of
no_terms = refl

get-written :
    (convs : Convs) (key : String)
    → HasDistinctKeys convs
    → get (written convs) key ≡ stored (terms_of (conv key convs))
unfolding written get
get-written [] key h = ap stored (sym (ap terms_of (no_convs key) ∙ no_terms))
get-written ((k, c) ∷ convs) key h = elim (Bool-cases (k == key)) [
  | inl same ↦
      let e : k ≡ key = (string_eq.same_iff k key).0 same in
      let found : conv k ((k, c) ∷ convs) ≡ c = ground (arith, conv-cons k k c convs, ==_refl k) in
      subst (λ z. get (written ((k, c) ∷ convs)) z ≡ stored (terms_of (conv z ((k, c) ∷ convs)))) e
        (ap (λ m. get m k) (written-cons k c convs)
          ∙ get-with_entry k (terms_of c) (written convs) (written-IsFresh convs k h.0)
          ∙ ap (λ d. stored (terms_of d)) (sym found))
  | inr other ↦
      let passed : conv key ((k, c) ∷ convs) ≡ conv key convs =
        ground (arith, conv-cons k key c convs, other) in
      ap (λ m. get m key) (written-cons k c convs)
      ∙ get-with_entry_other k key (terms_of c) (written convs) other
      ∙ get-written convs key h.1
      ∙ ap (λ d. stored (terms_of d)) (sym passed)
]

get-serialize :
    (convs : Convs) (key : String)
    → HasDistinctKeys convs
    → is_proto key ≡ false
    → get (serialize convs) key ≡ stored (terms_of (conv key convs))
unfolding serialize get
get-serialize convs key h plain =
    get-put_all (written convs) [] key (written-HasDistinctKeys convs h)
    ∙ ground (arith, plain, get-written convs key h)

serialize-HasDistinctKeys : (convs : Convs) → HasDistinctKeys (serialize convs)
unfolding serialize
serialize-HasDistinctKeys convs = put_all-HasDistinctKeys (written convs) [] tt

abbrev loaded : Convs → String → Conv
loaded convs key = conv key (load (serialize convs) [])

IsFresh-none : (m : JsMap String (JsMap Text Text)) (k : String) → get m k ≡ none → IsFresh k m
unfolding get
IsFresh-none [] k h = tt
IsFresh-none ((j, w) ∷ m) k h =
    ground (arith, string_eq.same_iff j k, string_eq.same_iff k j, IsFresh-none m k)

loaded-conv :
    (convs : Convs) (key : String)
    → HasDistinctKeys convs
    → is_proto key ≡ false
    → loaded convs key ≡ activate_all (terms_of (conv key convs)) no_conv
loaded-conv convs key h plain = elim (List-cases (terms_of (conv key convs))) [
  | inl empty ↦
      load-other (serialize convs) [] key
        (IsFresh-none (serialize convs) key (get-serialize convs key h plain ∙ ap stored empty))
      ∙ no_convs key
      ∙ ap (λ es. activate_all es no_conv) (sym empty)
  | inr (e, es, full) ↦
      load_entry (serialize convs) [] key (e ∷ es) (serialize-HasDistinctKeys convs)
        (get-serialize convs key h plain ∙ ap stored full)
      ∙ ap (activate_all (e ∷ es)) (no_convs key)
      ∙ ap (λ es. activate_all es no_conv) (sym full)
]

terms_of-HasDistinctKeys : (c : Conv) → HasDistinctKeys (terms_of c)
unfolding terms_of
terms_of-HasDistinctKeys c = put_all-HasDistinctKeys (active c) [] tt

get-terms_of :
    (c : Conv) (term : Text)
    → HasDistinctKeys c.entries
    → get (terms_of c) term ≡ (if is_proto term then none else live_of c term)
unfolding terms_of get
get-terms_of c term d =
    get-put_all (active c) [] term (active-HasDistinctKeys c d)
    ∙ ground (arith, get-active c term d)

live_of-no_conv : (term : Text) → live_of no_conv term ≡ none
unfolding get
live_of-no_conv term = refl

live_of-terms_of :
    (c : Conv) (term : Text)
    → HasDistinctKeys c.entries
    → live_of (activate_all (terms_of c) no_conv) term
      ≡ (if is_proto term then none else live_of c term)
live_of-terms_of c term d =
    live_of-activate_all (terms_of c) no_conv term (terms_of-HasDistinctKeys c)
    ∙ ground (arith, get-terms_of c term d, live_of-no_conv term)

terms_of-IsOnly :
    (c : Conv) (t s : Text)
    → HasDistinctKeys (swapped (active c))
    → get (active c) t ≡ some s
    → IsOnly t s (terms_of c)
unfolding terms_of
terms_of-IsOnly c t s d g = put_all-All _ (active c) [] (swapped-IsOnly t s (active c) d g) tt

-- The abbreviation of an active entry stands for its term, unless that is `__proto__`.
abbrev pub IsRestored : Conv → Text × Text → Type 0
IsRestored d (term, short) = (is_proto term ≡ true) ⊎ (get d.reverse short ≡ some term)

active-IsRestored :
    (c : Conv)
    → HasDistinctKeys c.entries
    → HasDistinctKeys (swapped (active c))
    → All (IsRestored (activate_all (terms_of c) no_conv)) (active c)
active-IsRestored c d distinct =
    All-get (IsRestored (activate_all (terms_of c) no_conv)) (active c) (active-HasDistinctKeys c d)
      (λ t s g. elim (Bool-cases (is_proto t)) [
        | inl proto ↦ inl proto
        | inr plain ↦ inr (
            reverse-activate_all t s (terms_of c) no_conv (terms_of-IsOnly c t s distinct g)
              (ground (arith, get-terms_of c t d, get-active c t d, g, plain)))
      ])

-- A fresh agent that loads what an agent serialized has, in a conversation whose key is not
-- `__proto__`, the same active abbreviation for every term but `__proto__`, for which it has none,
-- and the abbreviation of every active entry with another term stands for that term; if the maps'
-- keys are distinct, and no two active entries of the conversation share an abbreviation.
pub load-serialize :
    (convs : Convs) (key : String) (term : Text)
    → HasDistinctKeys convs
    → HasDistinctKeys (conv key convs).entries
    → HasDistinctKeys (swapped (active (conv key convs)))
    → is_proto key ≡ false
    → (live_of (conv key (load (serialize convs) [])) term
        ≡ (if is_proto term then none else live_of (conv key convs) term))
      × All (IsRestored (conv key (load (serialize convs) []))) (active (conv key convs))
load-serialize convs key term h d distinct plain =
    let same : loaded convs key ≡ activate_all (terms_of (conv key convs)) no_conv =
      loaded-conv convs key h plain in
    (
      ap (λ c. live_of c term) same ∙ live_of-terms_of (conv key convs) term d,
      subst (λ c. All (IsRestored c) (active (conv key convs))) (sym same)
          (active-IsRestored (conv key convs) d distinct),
    )
