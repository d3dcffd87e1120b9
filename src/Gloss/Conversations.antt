-- ===== src/Gloss/Conversations.antt =====
-- In gloss.ts the abbreviations in use are reserved in every conversation: what the operations of
-- the agent do to that.
use dap.Common.{
  ◌≡◌, refl, sym, subst, Bool, true, false, some, String, string_eq, text_eq, List, [], ◌∷◌, ◌==◌,
  if◌then◌else◌, Text, Option-cases, inl, inr,
}
use dap.JsMap.{JsMap, set}
use dap.Gloss.Words.{ngrams}
use dap.Gloss.Agent.{
  Conv, Convs, observe, conv, load, activate_all, observe_text, propose_all, candidates, on_propose,
  on_ack, deactivate,
}
use dap.Gloss.Session.{
  GlossAgent, GlossFrame, Command, Dest, say_to, drop, handle_gloss, channel_key, sends,
  entries_frame,
}
use dap.Gloss.Stored.{conv-set}
use dap.Gloss.Guarded.{
  IsGuarded, IsGuarded-activate_all, IsGuarded-on_propose, IsGuarded-on_ack, IsGuarded-deactivate,
  IsGuarded-propose_all,
}

-- Every conversation is guarded.
abbrev pub AllGuarded : Convs → Type 0
AllGuarded convs = (key : String) → IsGuarded (conv key convs)

IsGuarded-if : (b : Bool) (c d : Conv) → IsGuarded c → IsGuarded d → IsGuarded (if b then c else d)
IsGuarded-if true c d g h = g
IsGuarded-if false c d g h = h

set-AllGuarded :
    (convs : Convs) (key : String) (c : Conv)
    → IsGuarded c
    → AllGuarded convs
    → AllGuarded (set convs key c)
set-AllGuarded convs key c g all k =
    subst IsGuarded (sym (conv-set convs key k c))
      (IsGuarded-if (key == k) c (conv k convs) g (all k))

pub load-AllGuarded :
    (table : JsMap String (List (Text × Text))) (convs : Convs)
    → AllGuarded convs
    → AllGuarded (load table convs)
unfolding load
load-AllGuarded [] convs all = all
load-AllGuarded ((key, terms) ∷ table) convs all =
    load-AllGuarded table (set convs key (activate_all terms (conv key convs))) (
      set-AllGuarded convs key (activate_all terms (conv key convs))
        (IsGuarded-activate_all terms (conv key convs) (all key)) all)

observe_text-AllGuarded :
    (lower : Text → Text) (key : String) (text : Text) (convs : Convs)
    → AllGuarded convs
    → AllGuarded (observe_text lower key text convs).1
unfolding observe_text
observe_text-AllGuarded lower key text convs all =
    let c : Conv = conv key convs in
    let seen : Conv = record c { seen = observe (ngrams lower text) [] c.seen } in
    let guarded : IsGuarded seen = record {
      entries = (all key).entries;
      reverse = (all key).reverse;
    } in
    set-AllGuarded convs key (propose_all (candidates seen) seen).1
      (IsGuarded-propose_all (candidates seen) seen guarded) all

-- Whether it waits for the proposals' send or not, `say_to` keeps the agent.
kept_agent :
    {X : Type 0} (proposals : List (Text × Text)) (x : X)
    (f : (Text × Text) → List (Text × Text) → X) (a : GlossAgent)
    → (let said : X × Bool × GlossAgent = elim proposals [
      | [] ↦ (x, false, a)
      | p ∷ ps ↦ (f p ps, true, a)
    ] in
        said.2)
      ≡ a
kept_agent [] x f a = refl
kept_agent (p ∷ ps) x f a = refl

-- What `say_to` keeps is what it has observed.
say_to_agent :
    (lower : Text → Text) (dest : Dest) (key : String) (text : Text) (a : GlossAgent)
    → (say_to lower dest key text a).2
      ≡ record a { convs = (observe_text lower key text a.convs).1 }
unfolding say_to
say_to_agent lower dest key text a =
    kept_agent (observe_text lower key text a.convs).0 _ _
      (record a { convs = (observe_text lower key text a.convs).1 })

pub say_to-AllGuarded :
    (lower : Text → Text) (dest : Dest) (key : String) (text : Text) (a : GlossAgent)
    → AllGuarded a.convs
    → AllGuarded (say_to lower dest key text a).2.convs
say_to-AllGuarded lower dest key text a all =
    subst (λ (b : GlossAgent). AllGuarded b.convs) (sym (say_to_agent lower dest key text a))
      (observe_text-AllGuarded lower key text a.convs all)

pub drop-AllGuarded :
    (channel : String) (short : Text) (a : GlossAgent)
    → AllGuarded a.convs
    → AllGuarded (drop channel short a).1.convs
unfolding drop
drop-AllGuarded channel short a all =
    set-AllGuarded a.convs (channel_key channel)
      (deactivate (short ∷ []) (conv (channel_key channel) a.convs))
      (IsGuarded-deactivate (short ∷ []) (conv (channel_key channel) a.convs)
        (all (channel_key channel)))
      all

AllGuarded-if :
    (b : Bool) (x y : List Command × Convs)
    → AllGuarded x.1
    → AllGuarded y.1
    → AllGuarded (if b then x else y).1
AllGuarded-if true x y g h = g
AllGuarded-if false x y g h = h

acted :
    (key : String) (dest : Dest) (frame : GlossFrame) (act : String) (convs : Convs)
    → frame.act ≡ some act
    → AllGuarded convs
    → AllGuarded (handle_gloss key dest frame convs).1
unfolding handle_gloss
acted key dest frame act convs e all =
    let c : Conv = conv key convs in
    let es : List (Text × Text) = frame.entries in
    rw (e, handle_gloss)
      (AllGuarded-if (act == "propose")
        (
          sends dest (entries_frame "ack" (on_propose es c).0) ∷ [],
          set convs key (on_propose es c).1,
        )
        (if act == "ack"
          then ([], set convs key (on_ack es c))
          else if act == "drop"
          then ([], set convs key (deactivate frame.terms c))
          else ([], convs))
        (set-AllGuarded convs key (on_propose es c).1 (IsGuarded-on_propose es c (all key)) all)
        (AllGuarded-if (act == "ack") ([], set convs key (on_ack es c))
          (if act == "drop" then ([], set convs key (deactivate frame.terms c)) else ([], convs))
          (set-AllGuarded convs key (on_ack es c) (IsGuarded-on_ack es c (all key)) all)
          (AllGuarded-if (act == "drop") ([], set convs key (deactivate frame.terms c)) ([], convs)
            (set-AllGuarded convs key (deactivate frame.terms c)
              (IsGuarded-deactivate frame.terms c (all key)) all)
            all)))

pub handle_gloss-AllGuarded :
    (key : String) (dest : Dest) (frame : GlossFrame) (convs : Convs)
    → AllGuarded convs
    → AllGuarded (handle_gloss key dest frame convs).1
unfolding handle_gloss
handle_gloss-AllGuarded key dest frame convs all = elim (Option-cases frame.act) [
  | inl silent ↦ rw (silent, handle_gloss) all
  | inr (act, e) ↦ acted key dest frame act convs e all
]
