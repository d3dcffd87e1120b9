-- ===== src/Gloss/Heard.antt =====
-- What listeners of gloss.ts hear of what the peer says.
use dap.Common.{◌≡◌, ◌≢◌, true, some, String, string_eq, All, arith, Text, ==_ne}
use dap.Client.State.{MsgEvent}
use dap.Gloss.Agent.{conv, active, compact, expand}
use dap.Gloss.RoundTrip.{IsReadable, first_words, expand-compact}
use dap.Gloss.Cut.{is_plain}
use dap.Gloss.Session.{
  GlossAgent, Dest, Payload, parsed, msg_frame, say_body, key_of, handle_inbound, tell_all,
}

-- When the body that one agent says comes in at another agent, from a sender that is not itself and
-- in a text that parses to the frame of that body, each listener there is told the text that was
-- said and the agent stays as it is; if the text has no `~` and each entry that is active at the one
-- is readable at the other: its term is not empty and has no `~`, its abbreviation is a word that no
-- active term begins with, and at the other the abbreviation stands for the term.
pub handle_inbound-say_body :
    (parse : String → Payload) (own : String) (m : MsgEvent) (dest : Dest) (key : String)
    (text : Text) (ours theirs : GlossAgent)
    → m.from ≢ own
    → parse m.text ≡ parsed (msg_frame (say_body dest key text ours).1)
    → All
        (IsReadable
          (conv (key_of m) theirs.convs).reverse
          (first_words (active (conv key ours.convs))))
        (active (conv key ours.convs))
    → is_plain text ≡ true
    → handle_inbound parse own m theirs
      ≡ some (
        tell_all theirs.listeners
            (record { dm = m.dm; channel = m.channel; from = m.from; body = text; ts = m.ts }),
        theirs,
      )
unfolding handle_inbound say_body
handle_inbound-say_body parse own m dest key text ours theirs other sent readable plain =
    let same : expand (conv (key_of m) theirs.convs) (compact (conv key ours.convs) text) ≡ text =
      expand-compact (conv key ours.convs) (conv (key_of m) theirs.convs) text readable plain in
    ground (arith, ==_ne m.from own other, sent, same)
