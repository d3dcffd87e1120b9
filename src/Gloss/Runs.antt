-- ===== src/Gloss/Runs.antt =====
-- In every run of an agent of gloss.ts, an abbreviation that it draws is one that is not in use.
use dap.Common.{
  ◌≡◌, ◌≢◌, sym, subst, Bool, true, false, Option, none, some, String, string_eq, text_eq, List, [],
  ◌==◌, if◌then◌else◌, Text, Bool-cases, Option-cases, inl, inr,
}
use dap.JsMap.{get}
use dap.Client.State.{MsgEvent}
use dap.Gloss.Words.{gen_abbrev}
use dap.Gloss.Agent.{expand, conv}
use dap.Gloss.Session.{
  tell_all, body_text, GlossAgent, Command, Payload, parsed, not_json, null_payload, start, stop,
  on_chat, off_chat, say, say_dm, handle_gloss, handle_inbound, dest_of, key_of,
}
use dap.Gloss.Stored.{no_convs}
use dap.Gloss.Guarded.{IsGuarded, IsGuarded-no_conv, gen_abbrev-unused, abbreviation_of}
use dap.Gloss.Steps.{Event, Reach}
use dap.Gloss.Conversations.{
  AllGuarded, load-AllGuarded, say_to-AllGuarded, drop-AllGuarded, handle_gloss-AllGuarded,
}

-- What `handle_inbound` leaves, if it does not throw.
abbrev Guards : Option (List Command × GlossAgent) → Type 0
Guards none = Unit
Guards (some (calls, b)) = AllGuarded b.convs

Guards-if :
    (b : Bool) (x y : Option (List Command × GlossAgent))
    → Guards x
    → Guards y
    → Guards (if b then x else y)
Guards-if true x y g h = g
Guards-if false x y g h = h

-- What becomes of a payload.
abbrev taken : MsgEvent → Payload → GlossAgent → Option (List Command × GlossAgent)
taken m payload a = elim payload [
  | not_json ↦ some ([], a)
  | null_payload ↦ none
  | parsed frame ↦ elim frame.t [
    | none ↦ some ([], a)
    | some t ↦
        if t == "gloss"
        then (let (calls, convs) = handle_gloss (key_of m) (dest_of m) frame a.convs in
            some (calls, record a { convs = convs }))
        else if t == "msg"
        then some (
          tell_all a.listeners (record {
            dm = m.dm;
            channel = m.channel;
            from = m.from;
            body = expand (conv (key_of m) a.convs) (body_text frame);
            ts = m.ts;
          }),
          a,
        )
        else some ([], a)
  ]
]

taken-AllGuarded :
    (m : MsgEvent) (payload : Payload) (a : GlossAgent)
    → AllGuarded a.convs
    → Guards (taken m payload a)
taken-AllGuarded m not_json a all = all
taken-AllGuarded m null_payload a all = tt
taken-AllGuarded m (parsed frame) a all = elim (Option-cases frame.t) [
  | inl untyped ↦ rw (untyped, taken) all
  | inr (t, typed) ↦
      rw (typed, taken)
        (Guards-if (t == "gloss") _ _
          (handle_gloss-AllGuarded (key_of m) (dest_of m) frame a.convs all)
          (Guards-if (t == "msg") _ _ all all))
]

handle_inbound-AllGuarded :
    (parse : String → Payload) (own : String) (m : MsgEvent) (a : GlossAgent)
    → AllGuarded a.convs
    → Guards (handle_inbound parse own m a)
unfolding handle_inbound
handle_inbound-AllGuarded parse own m a all =
    Guards-if (m.from == own) (some ([], a)) (taken m (parse m.text) a) all
      (taken-AllGuarded m (parse m.text) a all)

start-AllGuarded : (a : GlossAgent) → AllGuarded a.convs → AllGuarded (start a).1.convs
unfolding start
start-AllGuarded a all = elim (Bool-cases a.started) [
  | inl again ↦ rw (again, start) all
  | inr first ↦ rw (first, start) all
]

module _ (lower : Text → Text) (parse : String → Payload) (own : String) where
  Event-AllGuarded :
      (a b : GlossAgent) → Event lower parse own a b → AllGuarded a.convs → AllGuarded b.convs
  unfolding say say_dm start stop on_chat off_chat
  Event-AllGuarded a b (Event.says channel text) all = say_to-AllGuarded lower _ _ text a all
  Event-AllGuarded a b (Event.says_dm peer text) all = say_to-AllGuarded lower _ _ text a all
  Event-AllGuarded a b (Event.drops channel short) all = drop-AllGuarded channel short a all
  Event-AllGuarded a b (Event.hears m calls b' e) all =
      subst Guards e (handle_inbound-AllGuarded parse own m a all)
  Event-AllGuarded a b (Event.loads table) all = load-AllGuarded table a.convs all
  Event-AllGuarded a b (Event.listens cb) all = all
  Event-AllGuarded a b (Event.unlistens cb) all = all
  Event-AllGuarded a b Event.starts all = start-AllGuarded a all
  Event-AllGuarded a b Event.stops all = all

  Reach-AllGuarded :
      (a b : GlossAgent) → Reach lower parse own a b → AllGuarded a.convs → AllGuarded b.convs
  Reach-AllGuarded a b Reach.here all = all
  Reach-AllGuarded a b (Reach.next {b = m} run event) all =
      Event-AllGuarded m b event (Reach-AllGuarded a m run all)

  -- In every state that a new agent reaches, whatever was said, heard, dropped and loaded, the
  -- abbreviation that a conversation draws next for a term stands for no term there and is not the
  -- abbreviation of any entry, active or proposed.
  pub gen_abbrev-Reach :
      (a b : GlossAgent) (key : String) (term t : Text)
      → a.convs ≡ []
      → Reach lower parse own a b
      → (get (conv key b.convs).reverse (gen_abbrev term (conv key b.convs).reserved).0 ≡ none)
        × (abbreviation_of (conv key b.convs) t
            ≢ some (gen_abbrev term (conv key b.convs).reserved).0)
  gen_abbrev-Reach a b key term t fresh run = gen_abbrev-unused term t (conv key b.convs) (
      Reach-AllGuarded a b run
        (subst AllGuarded (sym fresh) (λ k. subst IsGuarded (sym (no_convs k)) IsGuarded-no_conv))
        key)
