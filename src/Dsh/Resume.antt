-- ===== src/Dsh/Resume.antt =====
-- dsh-plugin/src/client.ts: what its async functions do after an await.
use dap.Common.{
  suc, Bool, true, false, Option, none, some, String, List, [], ◌∷◌, ◌==◌, length, nat_beq,
  string_eq, if◌then◌else◌,
}
use dap.Json.{
  Value, undefined, null, bool, num, str, arr, obj, prop, property, items, to_string, or_undefined,
}
use dap.Crypto.{◌+s+◌}
use dap.Client.State.{Frame}
use dap.Client.Resume.{number_of}
use dap.Dsh.State.{
  Host, Client, Stack, Await, Outcome, returns, throws, nobody, info, answer, roster, looked_up,
  AgentInfo, PresenceAgent, WhoisAnswer, directory, whois_info, send_ready, dm_whois, dm_ready,
  presence_answer, warm_up, msg_whois,
}
use dap.Dsh.Wire.{settle, agent_id}
use dap.Dsh.Calls.{when_ready, warm_up_echo, send_sealed}
use dap.Dsh.Handlers.{undecryptable}
use dap.Dsh.Inbound.{receive, decrypt_msg}

-- `Boolean(v)`
abbrev pub truthy : Value → Bool
truthy undefined = false
truthy null = false
truthy (bool b) = b
truthy (num n) = if nat_beq n 0 then false else true
truthy (str s) = if s == "" then false else true
truthy (arr xs) = true
truthy (obj fs) = true

abbrev pub text_of : Value → Option String
text_of undefined = none
text_of v = some (to_string v)

module _ (h : Host) where
  abbrev pub presence_agent : Value → Client → PresenceAgent
  presence_agent v c = record {
    agent_id = to_string (or_undefined (property v "agentId"));
    name = text_of (or_undefined (property v "name"));
    last_seen = number_of h.number (or_undefined (property v "lastSeen"));
    self = to_string (or_undefined (property v "agentId")) == agent_id h c;
  }

  abbrev pub is_null : Value → Bool
  is_null undefined = true
  is_null null = true
  is_null _ = false

  -- The online agents of an answer: `none` where an entry is `null`, whose properties throw.
  abbrev pub online_agents : List Value → Client → Option (List PresenceAgent)
  online_agents [] c = some []
  online_agents (v ∷ vs) c = if is_null v then none else elim (online_agents vs c) [
    | none ↦ none
    | some rest ↦
        if truthy (or_undefined (property v "online"))
        then some (presence_agent v c ∷ rest)
        else some rest
  ]

  abbrev pub listed : Value → List Value
  listed (arr xs) = items xs
  listed _ = []

  -- `presence` after its await.
  unfoldable pub roster_of : Frame → Stack → Client → Client
  unfolding settle
  roster_of frame k c = elim (online_agents (listed (prop frame "agents")) c) [
    | none ↦ settle k (throws "Cannot read properties of null") c
    | some agents ↦ settle k (returns (roster agents)) c
  ]

  abbrev pub whois_answer : String → AgentInfo → WhoisAnswer
  whois_answer id i = record {
    agent_id = id;
    pubkey = h.crypto.b64e i.ed_pub;
    x25519 = if nat_beq (length i.x_pub) 0 then "" else h.crypto.b64e i.x_pub;
    name = i.name;
    online = i.online;
  }

  -- `dm` after the whois.
  unfoldable pub dm_to_peer : String → String → AgentInfo → Stack → Client → Client
  unfolding when_ready settle
  dm_to_peer to text i k c =
      if nat_beq (length i.x_pub) 0
      then settle k (throws ("agent " +s+ to +s+ " has no x25519 key")) c
      else when_ready (dm_ready to text i ∷ k) c

  -- One await point of the client: `k` is who awaits the function that stands there.
  unfoldable pub resume : Await → Stack → Outcome → Client → Client
  unfolding settle when_ready send_sealed dm_to_peer roster_of warm_up_echo receive decrypt_msg
      undecryptable
  resume (directory id) k (returns nobody) c = settle k (throws ("unknown_agent: " +s+ id)) c
  resume (directory id) k (returns r) c = settle k (returns r) c
  resume (whois_info id) k (returns (info i)) c =
      settle k (returns (looked_up (whois_answer id i))) c
  resume (send_ready channel text ch) k (returns r) c =
      send_sealed h "channel" channel text (h.crypto.b64d ch.pub_key) k c
  resume (dm_whois to text) k (returns (info i)) c = dm_to_peer to text i k c
  resume (dm_ready to text i) k (returns r) c = send_sealed h "to" to text i.x_pub k c
  resume presence_answer k (returns (answer frame)) c = roster_of frame k c
  resume (warm_up attempt) k o c = warm_up_echo h (suc attempt) c
  resume (msg_whois frame) k (returns (info i)) c = receive h (decrypt_msg h frame i c) c
  resume (msg_whois frame) k (throws e) c = undecryptable e c
  resume a k (throws e) c = settle k (throws e) c
  resume a k (returns r) c = c
