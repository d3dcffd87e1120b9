-- ===== src/Gloss/Session.antt =====
-- gloss.ts: `GlossAgent`. An operation gives the calls that it makes, in their order, and the new
-- agent. A frame is what `JSON.parse` and its casts make of a payload; a listener is the number of
-- its callback; where `sayTo` awaits the send of its proposals, it is two functions.
use dap.Common.{
  Bool, true, false, ℕ, Option, none, some, String, List, [], ◌∷◌, ◌==◌, string_eq, text_eq, nat_eq,
  if◌then◌else◌, Text,
}
use Prim.Native.String as Native
use dap.JsMap.{JsMap, set, delete}
use dap.Json.{Value}
use dap.Client.State.{MsgEvent}
use dap.Gloss.Agent.{Convs, conv, compact, expand, observe_text, on_propose, on_ack, deactivate}

pub record ChatEvent : Type 0 where
  pub dm : Bool
  pub channel : Option String
  pub from : String
  pub body : Text
  pub ts : Value

pub data Dest : Type 0 where
  to_channel to_peer : String → Dest

pub record GlossFrame : Type 0 where
  pub t : Option String
  pub act : Option String
  pub body : Option Text
  pub entries : List (Text × Text)
  pub terms : List Text

abbrev pub no_frame : GlossFrame
no_frame = record { t = none; act = none; body = none; entries = []; terms = [] }

-- `{ t: 'msg', body }`
abbrev pub msg_frame : Text → GlossFrame
msg_frame body = record no_frame { t = some "msg"; body = some body }

-- `{ t: 'gloss', act, entries }`
abbrev pub entries_frame : String → List (Text × Text) → GlossFrame
entries_frame act entries = record no_frame { t = some "gloss"; act = some act; entries = entries }

-- `{ t: 'gloss', act: 'drop', terms }`
abbrev pub drop_frame : List Text → GlossFrame
drop_frame terms = record no_frame { t = some "gloss"; act = some "drop"; terms = terms }

-- A call of the client or of a listener.
pub data Command : Type 0 where
  subscribes starts_client stops_client : Command
  sends : Dest → GlossFrame → Command
  tells : ℕ → ChatEvent → Command

pub record GlossAgent : Type 0 where
  pub convs : Convs
  pub listeners : JsMap ℕ (Unit {0})
  pub started : Bool

unfoldable pub start : GlossAgent → List Command × GlossAgent
start a =
    if a.started then ([], a) else (subscribes ∷ starts_client ∷ [], record a { started = true })

unfoldable pub stop : GlossAgent → List Command × GlossAgent
stop a = (stops_client ∷ [], a)

unfoldable pub on_chat : ℕ → GlossAgent → GlossAgent
unfolding set
on_chat cb a = record a { listeners = set a.listeners cb tt }

-- The function that `onChat` returns.
unfoldable pub off_chat : ℕ → GlossAgent → GlossAgent
unfolding delete
off_chat cb a = record a { listeners = delete a.listeners cb }

-- The rest of `sayTo` when its proposals are sent, and the body that it returns.
unfoldable pub say_body : Dest → String → Text → GlossAgent → List Command × Text
unfolding conv compact
say_body dest key text a =
    let body = compact (conv key a.convs) text in (sends dest (msg_frame body) ∷ [], body)

-- `sayTo` up to its first await, and whether it is the await of the proposals.
unfoldable pub say_to :
    (Text → Text) → Dest → String → Text → GlossAgent → List Command × Bool × GlossAgent
unfolding observe_text say_body
say_to lower dest key text a =
    let (proposals, convs) = observe_text lower key text a.convs in
    let b = record a { convs = convs } in
    elim proposals [
      | [] ↦ ((say_body dest key text b).0, false, b)
      | p ∷ ps ↦ (sends dest (entries_frame "propose" (p ∷ ps)) ∷ [], true, b)
    ]

abbrev pub channel_key : String → String
channel_key channel = Native.◌++◌ "chan:" channel

abbrev pub peer_key : String → String
peer_key peer = Native.◌++◌ "dm:" peer

unfoldable pub say : (Text → Text) → String → Text → GlossAgent → List Command × Bool × GlossAgent
unfolding say_to
say lower channel text a = say_to lower (to_channel channel) (channel_key channel) text a

unfoldable pub say_dm :
    (Text → Text) → String → Text → GlossAgent → List Command × Bool × GlossAgent
unfolding say_to
say_dm lower peer text a = say_to lower (to_peer peer) (peer_key peer) text a

unfoldable pub drop : String → Text → GlossAgent → List Command × GlossAgent
unfolding conv deactivate set
drop channel short a =
    let key = channel_key channel in
    (
      sends (to_channel channel) (drop_frame (short ∷ [])) ∷ [],
      record a { convs = set a.convs key (deactivate (short ∷ []) (conv key a.convs)) },
    )

-- The calls and the conversations.
unfoldable pub handle_gloss : String → Dest → GlossFrame → Convs → List Command × Convs
unfolding conv on_propose on_ack deactivate set
handle_gloss key dest frame convs = elim frame.act [
  | none ↦ ([], convs)
  | some act ↦
      let asked = on_propose frame.entries (conv key convs) in
      if act == "propose"
      then (sends dest (entries_frame "ack" asked.0) ∷ [], set convs key asked.1)
      else if act == "ack"
      then ([], set convs key (on_ack frame.entries (conv key convs)))
      else if act == "drop"
      then ([], set convs key (deactivate frame.terms (conv key convs)))
      else ([], convs)
]

-- The payload of a text: not JSON, `null`, or a frame.
pub data Payload : Type 0 where
  not_json null_payload : Payload
  parsed : GlossFrame → Payload

-- `m.channel ? … : …`
abbrev pub dest_of : MsgEvent → Dest
dest_of m = elim m.channel [
  | none ↦ to_peer m.from
  | some channel ↦ if channel == "" then to_peer m.from else to_channel channel
]

abbrev pub key_of : MsgEvent → String
key_of m = elim (dest_of m) [ to_channel name ↦ channel_key name | to_peer id ↦ peer_key id ]

-- `String(frame.body)`; a text without a body is `undefined`.
abbrev pub body_text : GlossFrame → Text
body_text frame = elim frame.body [
  | some body ↦ body
  | none ↦ 117 ∷ 110 ∷ 100 ∷ 101 ∷ 102 ∷ 105 ∷ 110 ∷ 101 ∷ 100 ∷ []
]

-- `for (const cb of this.listeners) cb(…)`
abbrev pub tell_all : JsMap ℕ (Unit {0}) → ChatEvent → List Command
tell_all [] ev = []
tell_all ((cb, _) ∷ cbs) ev = tells cb ev ∷ tell_all cbs ev

-- `none` where it throws.
unfoldable pub handle_inbound :
    (String → Payload) → String → MsgEvent → GlossAgent → Option (List Command × GlossAgent)
unfolding conv expand handle_gloss
handle_inbound parse own m a = if m.from == own then some ([], a) else elim (parse m.text) [
  | not_json ↦ some ([], a)
  | null_payload ↦ none
  | parsed frame ↦ elim frame.t [
    | none ↦ some ([], a)
    | some t ↦
        if t == "gloss"
        then (let (calls, convs) = handle_gloss (key_of m) (dest_of m) frame a.convs in
            some (calls, record a { convs = convs }))
        else if t == "msg"
        then some (
          tell_all a.listeners (record {
            dm = m.dm;
            channel = m.channel;
            from = m.from;
            body = expand (conv (key_of m) a.convs) (body_text frame);
            ts = m.ts;
          }),
          a,
        )
        else some ([], a)
  ]
]
