-- ===== src/Gloss/Agent.antt =====
-- gloss.ts: the conversations of `GlossAgent`, and what its operations do to one of them.
use dap.Common.{
  Bool, not, ◌&&◌, ℕ, ◌+◌, Option, none, some, String, List, [], ◌∷◌, length, filterb, leb,
  string_eq, text_eq, if◌then◌else◌, Text, map,
}
use dap.JsMap.{JsMap, get, set, delete, has}
use dap.JsObject.{put_all, string_name, text_name}
use dap.Gloss.Words.{min_term, min_msgs, gen_abbrev, ngrams, sort_terms, compact_terms, expand_from}

pub data GlossState : Type 0 where
  proposed active_ : GlossState

pub record GlossPair : Type 0 where
  pub abbreviation : Text
  pub state : GlossState

-- `entries` has a term's pair under the term.
pub record Conv : Type 0 where
  pub entries : JsMap Text GlossPair
  pub reverse : JsMap Text Text
  pub seen : JsMap Text ℕ
  pub dropped : JsMap Text (Unit {0})
  pub reserved : JsMap Text (Unit {0})

abbrev pub no_conv : Conv
no_conv = record { entries = []; reverse = []; seen = []; dropped = []; reserved = [] }

abbrev pub Convs : Type 0
Convs = JsMap String Conv

-- A miss inserts no conversation here: only the order in which `serialize` writes them can show it.
unfoldable pub conv : String → Convs → Conv
unfolding get
conv key convs = elim (get convs key) [ some c ↦ c | none ↦ no_conv ]

-- The active abbreviation of a pair.
abbrev pub live : GlossPair → Option Text
live p = elim p.state [ active_ ↦ some p.abbreviation | proposed ↦ none ]

abbrev pub actives : JsMap Text GlossPair → List (Text × Text)
actives [] = []
actives ((term, p) ∷ m) =
    let rest = actives m in elim (live p) [ some short ↦ (term, short) ∷ rest | none ↦ rest ]

unfoldable pub active : Conv → List (Text × Text)
active c = actives c.entries

unfoldable pub compact : Conv → Text → Text
unfolding active compact_terms
compact c text = compact_terms (sort_terms (active c)) text

unfoldable pub expand : Conv → Text → Text
unfolding expand_from
expand c body = expand_from c.reverse 0 body

-- An entry becomes active.
unfoldable pub activate : Text → Text → Conv → Conv
unfolding set
activate term short c = record c {
  entries = set c.entries term (record { abbreviation = short; state = active_ });
  reverse = set c.reverse short term;
  reserved = set c.reserved short tt;
}

abbrev pub activate_all : List (Text × Text) → Conv → Conv
activate_all [] c = c
activate_all ((term, short) ∷ es) c = activate_all es (activate term short c)

-- `load`, of the parsed glossaries.
unfoldable pub load : JsMap String (JsMap Text Text) → Convs → Convs
unfolding activate conv set
load [] convs = convs
load ((key, terms) ∷ rest) convs = load rest (set convs key (activate_all terms (conv key convs)))

-- `terms` of `serialize`: a plain object.
unfoldable pub terms_of : Conv → JsMap Text Text
unfolding active put_all
terms_of c = put_all (active c) []

-- The conversations that `serialize` writes, in the order of its writes.
unfoldable pub written : Convs → List (String × JsMap Text Text)
unfolding terms_of
written [] = []
written ((key, c) ∷ convs) =
    let rest = written convs in elim (terms_of c) [ [] ↦ rest | e ∷ es ↦ (key, e ∷ es) ∷ rest ]

-- `serialize`, before it is printed.
unfoldable pub serialize : Convs → JsMap String (JsMap Text Text)
unfolding written put_all
serialize convs = put_all (written convs) []

-- `for (const term of new Set(…)) c.seen.set(term, (c.seen.get(term) ?? 0) + 1)`; the second
-- argument has the terms that the loop has counted.
unfoldable pub observe : List Text → JsMap Text (Unit {0}) → JsMap Text ℕ → JsMap Text ℕ
unfolding get set has
observe [] counted seen = seen
observe (t ∷ ts) counted seen =
    let again = observe ts counted seen in
    let first =
      observe ts (set counted t tt)
        (set seen t (elim (get seen t) [ some n ↦ n + 1 | none ↦ 1 ])) in
    if has counted t then again else first

abbrev is_candidate : Conv → Text × ℕ → Bool
is_candidate c (term, n) =
    leb min_msgs n
    && leb min_term (length term)
    && not (has c.entries term)
    && not (has c.dropped term)

unfoldable pub candidates : Conv → List Text
unfolding has
candidates c = map (λ e. e.0) (filterb (is_candidate c) c.seen)

-- The proposals, and what is reserved when all of their abbreviations are drawn.
unfoldable pub draw_all :
    List Text → JsMap Text (Unit {0}) → List (Text × Text) × JsMap Text (Unit {0})
unfolding gen_abbrev
draw_all [] reserved = ([], reserved)
draw_all (term ∷ terms) reserved =
    let drawn = gen_abbrev term reserved in
    let (proposals, rest) = draw_all terms drawn.1 in ((term, drawn.0) ∷ proposals, rest)

-- `for (const { term, abbrev } of proposals) c.entries.set(term, { abbrev, state: 'proposed' })`
unfoldable pub enter_all : List (Text × Text) → JsMap Text GlossPair → JsMap Text GlossPair
unfolding set
enter_all [] entries = entries
enter_all ((term, short) ∷ proposals) entries =
    enter_all proposals (set entries term (record { abbreviation = short; state = proposed }))

unfoldable pub propose_all : List Text → Conv → List (Text × Text) × Conv
unfolding draw_all enter_all
propose_all terms c =
    let (proposals, reserved) = draw_all terms c.reserved in
    (proposals, record c { entries = enter_all proposals c.entries; reserved = reserved })

-- `sayTo`, up to the send of the proposals that it makes.
unfoldable pub observe_text : (Text → Text) → String → Text → Convs → List (Text × Text) × Convs
unfolding conv observe candidates propose_all ngrams set
observe_text lower key text convs =
    let c = conv key convs in
    let d = record c { seen = observe (ngrams lower text) [] c.seen } in
    let (proposals, e) = propose_all (candidates d) d in (proposals, set convs key e)

unfoldable pub deactivate : List Text → Conv → Conv
unfolding get set delete
deactivate [] c = c
deactivate (short ∷ shorts) c = elim (get c.reverse short) [
  | none ↦ deactivate shorts c
  | some term ↦ deactivate shorts (record c {
    entries = delete c.entries term;
    reverse = delete c.reverse short;
    dropped = set c.dropped term tt;
  })
]

-- The state of a term's entry.
abbrev pub state_of : Conv → Text → Option GlossState
state_of c term = elim (get c.entries term) [ some p ↦ some p.state | none ↦ none ]

abbrev pub live_of : Conv → Text → Option Text
live_of c term = elim (get c.entries term) [ some p ↦ live p | none ↦ none ]

-- The entries of the ack, and the conversation.
unfoldable pub on_propose : List (Text × Text) → Conv → List (Text × Text) × Conv
unfolding get activate
on_propose [] c = ([], c)
on_propose ((term, short) ∷ es) c = elim (live_of c term) [
  | some ours ↦ let (ack, d) = on_propose es c in ((term, ours) ∷ ack, d)
  | none ↦ let (ack, d) = on_propose es (activate term short c) in ((term, short) ∷ ack, d)
]

unfoldable pub on_ack : List (Text × Text) → Conv → Conv
unfolding get activate
on_ack [] c = c
on_ack ((term, short) ∷ es) c = elim (state_of c term) [
  | some proposed ↦ on_ack es (activate term short c)
  | _ ↦ on_ack es c
]
