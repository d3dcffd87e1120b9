-- ===== src/Gloss/Tests.antt =====
-- A negotiation of gloss.ts.
use dap.Common.{
  ◌≡◌, ◌≢◌, refl, true, false, none, some, List, [], ◌∷◌, Text, text_eq, string_eq, String, nat_eq,
  arith, All,
}
use dap.JsMap.{JsMap, get, set, has, HasDistinctKeys}
use dap.JsObject.{put, insert}
use dap.Json.{undefined}
use dap.Client.State.{MsgEvent}
use dap.Gloss.Words.{gen_abbrev}
use dap.Gloss.Agent.{
  Conv, proposed, no_conv, live_of, state_of, on_propose, on_ack, compact, expand, activate, active,
  conv, load, serialize, terms_of,
}
use dap.Gloss.Session.{
  GlossAgent, GlossFrame, msg_frame, entries_frame, say_body, say, sends, to_channel, key_of,
  parsed, not_json, handle_inbound, tell_all,
}
use dap.Gloss.Entries.{AreProposed}
use dap.Gloss.Fresh.{gen_abbrev-fresh}
use dap.Gloss.Handshake.{on_ack-on_propose, crossed, crossed_differ}
use dap.Gloss.RoundTrip.{IsReadable, first_words}
use dap.Gloss.Bulk.{swapped}
use dap.Gloss.Stored.{load-serialize, IsRestored}
use dap.Gloss.Steps.{Reach, here, next, says}
use dap.Gloss.Guarded.{abbreviation_of}
use dap.Gloss.Runs.{gen_abbrev-Reach}
use dap.Gloss.Heard.{handle_inbound-say_body}

-- "glossary", and its consonant skeleton "glss".
abbrev term : Text
term = 103 ∷ 108 ∷ 111 ∷ 115 ∷ 115 ∷ 97 ∷ 114 ∷ 121 ∷ []

abbrev short : Text
short = 103 ∷ 108 ∷ 115 ∷ 115 ∷ []

gen_abbrev_glossary : (gen_abbrev term []).0 ≡ short
unfolding gen_abbrev get
gen_abbrev_glossary = refl

abbrev taken : JsMap Text (Unit {0})
taken = (short, tt) ∷ []

-- "glss2", when "glss" is reserved.
second_choice : (gen_abbrev term taken).0 ≡ 103 ∷ 108 ∷ 115 ∷ 115 ∷ 50 ∷ []
unfolding gen_abbrev has get
second_choice = refl

gen_abbrev-fresh_example :
    (has taken (gen_abbrev term taken).0 ≡ false)
    × (has (gen_abbrev term taken).1 (gen_abbrev term taken).0 ≡ true)
gen_abbrev-fresh_example = gen_abbrev-fresh term taken

-- "the glossary." becomes "the ~glss.", and back.
compact_sentence :
    compact
      (activate term short no_conv)
      (116 ∷ 104 ∷ 101 ∷ 32 ∷ 103 ∷ 108 ∷ 111 ∷ 115 ∷ 115 ∷ 97 ∷ 114 ∷ 121 ∷ 46 ∷ [])
    ≡ 116 ∷ 104 ∷ 101 ∷ 32 ∷ 126 ∷ 103 ∷ 108 ∷ 115 ∷ 115 ∷ 46 ∷ []
unfolding compact activate
compact_sentence = refl

expand_sentence :
    expand
      (activate term short no_conv)
      (116 ∷ 104 ∷ 101 ∷ 32 ∷ 126 ∷ 103 ∷ 108 ∷ 115 ∷ 115 ∷ 46 ∷ [])
    ≡ 116 ∷ 104 ∷ 101 ∷ 32 ∷ 103 ∷ 108 ∷ 111 ∷ 115 ∷ 115 ∷ 97 ∷ 114 ∷ 121 ∷ 46 ∷ []
unfolding expand activate
expand_sentence = refl

abbrev proposer : Conv
proposer = record no_conv {
  entries = (term, record { abbreviation = short; state = proposed }) ∷ [];
}

proposed_state : state_of proposer term ≡ some proposed
unfolding get
proposed_state = refl

-- "negotiation protocol", and its initials "np".
abbrev long_term : Text
long_term =
    110 ∷ 101 ∷ 103 ∷ 111 ∷ 116 ∷ 105 ∷ 97 ∷ 116 ∷ 105 ∷ 111 ∷ 110 ∷ 32 ∷ 112 ∷ 114 ∷ 111 ∷ 116
    ∷ 111 ∷ 99 ∷ 111 ∷ 108 ∷ []

abbrev two_entries : List (Text × Text)
two_entries = (long_term, 110 ∷ 112 ∷ []) ∷ (term, short) ∷ []

abbrev two_proposed : Conv
two_proposed = record no_conv {
  entries =
      (long_term, record { abbreviation = 110 ∷ 112 ∷ []; state = proposed }) ∷ proposer.entries;
}

two_AreProposed : AreProposed two_proposed two_entries
unfolding get
two_AreProposed = (refl, (refl, tt))

second_entry : get two_entries term ≡ some short
unfolding get
second_entry = refl

-- The peer has the term already, under another abbreviation.
abbrev peer_conv : Conv
peer_conv = activate term (103 ∷ []) no_conv

on_ack-on_propose_example :
    (agreed : Text) × (live_of (on_propose two_entries peer_conv).1 term ≡ some agreed)
    × (live_of (on_ack (on_propose two_entries peer_conv).0 two_proposed) term ≡ some agreed)
on_ack-on_propose_example =
    on_ack-on_propose two_proposed peer_conv two_entries term short ((refl, tt), (tt, tt))
      two_AreProposed second_entry

-- The second side has drawn "glss2", since "glss" was reserved there.
abbrev second_short : Text
second_short = 103 ∷ 108 ∷ 115 ∷ 115 ∷ 50 ∷ []

abbrev second_proposer : Conv
second_proposer = record no_conv {
  entries = (term, record { abbreviation = second_short; state = proposed }) ∷ [];
  reserved = (short, tt) ∷ (second_short, tt) ∷ [];
}

second_state : state_of second_proposer term ≡ some proposed
unfolding get
second_state = refl

shorts_differ : short ≢ second_short
shorts_differ = ground arith

crossed_differ_example :
    (live_of (crossed term short second_short proposer second_proposer).0 term ≡ some second_short)
    × (live_of (crossed term short second_short proposer second_proposer).1 term ≡ some short)
    × (get (crossed term short second_short proposer second_proposer).1.reverse second_short
        ≡ get second_proposer.reverse second_short)
crossed_differ_example =
    crossed_differ proposer second_proposer term short second_short shorts_differ proposed_state
      second_state

-- So the second side cannot read what the first one says: "~glss2" stays as it is.
crossed_unread :
    expand
      (crossed term short second_short proposer second_proposer).1
      (compact (crossed term short second_short proposer second_proposer).0 term)
    ≡ 126 ∷ second_short
unfolding expand compact on_propose on_ack activate get
crossed_unread = refl

-- Where each side proposes a term of its own under one abbreviation, the second reads its own.
own_term_read :
    expand
      (on_ack
        ((long_term, short) ∷ [])
        (on_propose ((term, short) ∷ []) (record no_conv {
          entries = (long_term, record { abbreviation = short; state = proposed }) ∷ [];
        })).1)
      (compact (on_ack ((term, short) ∷ []) proposer) term)
    ≡ long_term
unfolding expand compact on_propose on_ack activate get
own_term_read = refl

-- A text that has "~glss" of itself does not come back.
marked_text :
    expand (activate term short no_conv) (compact (activate term short no_conv) (126 ∷ short))
    ≡ term
unfolding expand compact activate get
marked_text = refl

abbrev spoken : GlossAgent
spoken = record {
  convs = ("chan:team", activate term short no_conv) ∷ [];
  listeners = (0, tt) ∷ (1, tt) ∷ [];
  started = true;
}

abbrev sentence : Text
sentence = 116 ∷ 104 ∷ 101 ∷ 32 ∷ 103 ∷ 108 ∷ 111 ∷ 115 ∷ 115 ∷ 97 ∷ 114 ∷ 121 ∷ 46 ∷ []

abbrev said : MsgEvent
said = record {
  dm = false;
  channel = some "team";
  from = "ann";
  text = "{}";
  ts = undefined;
  invite = none;
}

abbrev said_frame : GlossFrame
said_frame = msg_frame (say_body (to_channel "team") "chan:team" sentence spoken).1

spoken_IsReadable :
    All
      (IsReadable
        (conv (key_of said) spoken.convs).reverse
        (first_words (active (conv "chan:team" spoken.convs))))
      (active (conv "chan:team" spoken.convs))
unfolding conv active activate get
spoken_IsReadable = ((ground arith, refl, ground arith, refl, refl, refl), tt)

others : ◌≢◌ {A = String} "ann" "bob"
others e = ground (arith, (string_eq.same_iff "ann" "bob").1 e)

handle_inbound-say_body_example :
    handle_inbound (λ _. parsed said_frame) "bob" said spoken
    ≡ some (
      tell_all spoken.listeners (record {
        dm = false;
        channel = some "team";
        from = "ann";
        body = sentence;
        ts = undefined;
      }),
      spoken,
    )
handle_inbound-say_body_example =
    handle_inbound-say_body (λ _. parsed said_frame) "bob" said (to_channel "team") "chan:team"
      sentence spoken spoken others refl spoken_IsReadable refl

-- The term is said for the second time: it is proposed, and the text waits.
proposes :
    (say
      (λ t. t)
      "team"
      sentence
      (record {
        convs = ("chan:team", record no_conv { seen = (term, 1) ∷ [] }) ∷ [];
        listeners = [];
        started = true;
      })).0
    ≡ sends (to_channel "team") (entries_frame "propose" ((term, short) ∷ [])) ∷ []
unfolding say conv get set has gen_abbrev
proposes = refl

distinct_example : HasDistinctKeys (swapped (active (conv "chan:team" spoken.convs)))
unfolding conv active activate get
distinct_example = (tt, tt)

distinct_terms : HasDistinctKeys (conv "chan:team" spoken.convs).entries
unfolding conv activate get
distinct_terms = (tt, tt)

load-serialize_example :
    (live_of (conv "chan:team" (load (serialize spoken.convs) [])) term
      ≡ live_of (conv "chan:team" spoken.convs) term)
    × All
        (IsRestored (conv "chan:team" (load (serialize spoken.convs) [])))
        (active (conv "chan:team" spoken.convs))
load-serialize_example =
    load-serialize spoken.convs "chan:team" term (tt, tt) distinct_terms distinct_example refl

-- "7" comes before "glossary" in a plain object, whichever is written first, and a term `__proto__`
-- is lost.
abbrev proto_term : Text
proto_term = 95 ∷ 95 ∷ 112 ∷ 114 ∷ 111 ∷ 116 ∷ 111 ∷ 95 ∷ 95 ∷ []

indices_first :
    terms_of (activate proto_term short (activate (55 ∷ []) short (activate term short no_conv)))
    ≡ (55 ∷ [], short) ∷ (term, short) ∷ []
unfolding terms_of activate put insert
indices_first = refl

abbrev new_agent : GlossAgent
new_agent = record { convs = []; listeners = []; started = false }

-- The sentence is said twice.
abbrev said_once : GlossAgent
said_once = (say (λ t. t) "team" sentence new_agent).2

abbrev said_twice : GlossAgent
said_twice = (say (λ t. t) "team" sentence said_once).2

two_says : Reach (λ t. t) (λ _. not_json) "ann" new_agent said_twice
two_says = next (next here (says "team" sentence)) (says "team" sentence)

gen_abbrev-Reach_example :
    (get
        (conv "chan:team" said_twice.convs).reverse
        (gen_abbrev term (conv "chan:team" said_twice.convs).reserved).0
      ≡ none)
    × (abbreviation_of (conv "chan:team" said_twice.convs) term
        ≢ some (gen_abbrev term (conv "chan:team" said_twice.convs).reserved).0)
gen_abbrev-Reach_example =
    gen_abbrev-Reach (λ t. t) (λ _. not_json) "ann" new_agent said_twice "chan:team" term term refl
      two_says
