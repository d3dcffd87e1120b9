-- ===== src/Gloss/Steps.antt =====
-- gloss.ts: what can happen next to an agent of the glossary. Between the sends of `sayTo`, which it
-- awaits, anything may happen; the second one changes nothing.
use dap.Common.{ℕ, ◌≡◌, some, String, List, Text}
use dap.JsMap.{JsMap}
use dap.Client.State.{MsgEvent}
use dap.Gloss.Agent.{load}
use dap.Gloss.Session.{
  GlossAgent, Command, Payload, start, stop, on_chat, off_chat, say, say_dm, drop, handle_inbound,
}

module _ (lower : Text → Text) (parse : String → Payload) (own : String) where
  pub data Event (a : GlossAgent) : GlossAgent → Type 0 where
    says : (channel : String) (text : Text) → Event a (say lower channel text a).2
    says_dm : (peer : String) (text : Text) → Event a (say_dm lower peer text a).2
    drops : (channel : String) (short : Text) → Event a (drop channel short a).1
    hears :
        (m : MsgEvent) (calls : List Command) (b : GlossAgent)
        → handle_inbound parse own m a ≡ some (calls, b)
        → Event a b
    loads :
        (table : JsMap String (List (Text × Text)))
        → Event a (record a { convs = load table a.convs })
    listens : (cb : ℕ) → Event a (on_chat cb a)
    unlistens : (cb : ℕ) → Event a (off_chat cb a)
    starts : Event a (start a).1
    stops : Event a (stop a).1

  pub data Reach (a : GlossAgent) : GlossAgent → Type 0 where
    here : Reach a a
    next : {b c : GlossAgent} → Reach a b → Event b c → Reach a c
