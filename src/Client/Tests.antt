-- ===== src/Client/Tests.antt =====
-- Clients of client.ts in concrete states, over toy surroundings.
use text.Mathlib.TextEquality.{eq_iff}
use dap.Common.{
  ℕ, min, ◌≡◌, ◌≢◌, ◌⊎◌, refl, true, false, Option, none, some, String, [], ◌∷◌, ◌++◌, arith, ◌==◌,
  string_eq, if◌then◌else◌,
}
use dap.JsMap.{JsMap, get, set, delete, has}
use dap.Json.{Value, undefined, str, num, bool, object, arr, of_items, to_string}
use dap.Config.{read_dap_config, normalize_config, persist_dap_config, set_channels}
use dap.Crypto.{KeyPair, agent_id_of}
use dap.Crypto.Tests.{toy, twelve_ones}
use dap.Channels.{ChankeyInvite, chankey_payload, parse_chankey_invite}
use dap.Client.State.{
  Client, Host, HubErrorEvent, MsgEvent, PeerInfo, PresenceAgent, query, warm_up, caller, returns,
  roster, peer, opened, closed, config, master, Stack, presence_answered, surfaced, throws,
}
use dap.Client.Wire.{ws_send, settle, push_bounded, inbox_cap}
use dap.Client.Calls.{agent_info, waiting_at, send_frame_of}
use dap.Client.Invites.{text_of, deliver_from}
use dap.Client.Resume.{plain, decrypt_dm, receive, invite_notice}
use dap.Client.Handlers.{on_agent_info, peer_info, complete_all, route_presence, on_enrolled}
use dap.Client.Socket.{
  start, connect, on_open, send_hello, on_disconnect, on_unexpected_response, resolve_auth_token,
  fail_waiters,
}
use dap.Client.Laws.Backoff.{doubled, redials, redials-retry_in}
use dap.Client.Launch.{Options, Disk, new_client}
use dap.Client.Steps.{Reach, here, next, occurs, starts, opens, closes}
use dap.Client.Laws.Runs.Noted.{Sound}
use dap.Client.Laws.Runs.Invariant.{new_client-Sound}
use dap.Client.Laws.Presence.{route_presence-others, complete_all-visits}
use dap.Client.Laws.Roster.{run_job-presence}
use dap.Client.Calls.{presence}
use dap.Client.Resume.{run_job}
use dap.Client.Laws.Enrolment.{
  may_recover, on_unexpected_response-config_file, resolve-on_unexpected_response,
  resolve-on_enrolled,
}
use dap.Client.Laws.Sealing.{relayed, decrypt_dm-send_frame_of, receive-invite}
use dap.Client.Laws.Directory.{woken, agent_info-on_agent_info}
use dap.Client.Laws.Parked.{parked-fail_waiters}
use dap.Client.Invites.{arm_when_ensured, is_armed}
use dap.Client.Laws.Arming.{arm_when_ensured_idempotent}
use dap.Client.Laws.Invites.{Pass, deliver_from-Pass}

abbrev stale : JsMap String Value
stale = ("invites", arr (of_items [])) ∷ ("clientSecret", str "stale") ∷ []

abbrev without : JsMap String Value
without = ("invites", arr (of_items [])) ∷ []

abbrev renewed : JsMap String Value
renewed = ("invites", arr (of_items [])) ∷ ("clientSecret", str "fresh") ∷ []

abbrev invite : ChankeyInvite
invite = record {
  channel = "lobby";
  pub_key = "iiiiiiiiiiiiiiiiiiiiiiiiiiiiiiii";
  priv = "iiiiiiiiiiiiiiiiiiiiiiiiiiiiiiii";
}

abbrev parse : String → Option Value
parse text =
    if text == "stale"
    then some (object stale)
    else if text == "without"
    then some (object without)
    else if text == "renewed"
    then some (object renewed)
    else if text == "{"
    then some (object (chankey_payload invite))
    else none

abbrev print_config : JsMap String Value → String
print_config m = if has m "clientSecret" then "renewed" else "without"

abbrev pair : KeyPair
pair = record { priv = 1 ∷ 1 ∷ []; pub_key = 1 ∷ 1 ∷ [] }

abbrev host : Host
host = record {
  crypto = toy;
  parse = parse;
  stringify = λ v. "{";
  print_config = print_config;
  print_channels = λ v. "channels";
  lower = λ s. s;
  host_of = λ s. s;
  number = λ s. undefined;
  lower_error = "a.name?.toLowerCase is not a function";
  open_error = "invalid tag";
  uuid = λ n. "id";
  nonce = λ n. twelve_ones;
  keypair = λ n. pair;
  environment = record {
    client_secret = none;
    master_secret = some "m";
    agent_name = none;
    hub_url = none;
    key_path = none;
    channels_file = none;
  };
}

abbrev idle : Client
idle = record {
  url = "ws://hub/ws";
  name = some "ada";
  has_channels_file = false;
  invites = true;
  initial_ms = 1000;
  max_ms = 30000;
  identity = record { priv = 1 ∷ []; pub_key = 1 ∷ []; x_priv = 1 ∷ 1 ∷ []; x_pub = 1 ∷ 1 ∷ [] };
  whois_calls = 0;
  last_error = "";
  error_ring = [];
  channels = [];
  joined = [];
  inbox = [];
  listeners = [];
  known = [];
  whois_waiters = [];
  hellos = 0;
  welcomes = 0;
  ready_waiters = [];
  presence_waiters = [];
  echo_seen = false;
  join_waiters = [];
  socket = some opened;
  retry_in = none;
  polling = false;
  pending_invites = [];
  delivering = false;
  delay = 1000;
  welcomed = true;
  enroll_pending = false;
  dial_source = none;
  re_enrolled = false;
  stopped = false;
  watched = true;
  clock = 5;
  draws = 0;
  timers = 0;
  config_file = none;
  channels_file = none;
  jobs = [];
  wire = [];
  reported = [];
  observed = [];
  told = [];
  dials = [];
  retired = 0;
  results = [];
}

-- After six losses the delay would be 64 seconds, and is 30.
redials-retry_in_example :
    ((on_disconnect host (redials host 6 idle)).retry_in ≡ some (min (doubled 6 1000) 30000))
    × ((redials host 6 idle).stopped ≡ false)
redials-retry_in_example = redials-retry_in host 6 idle refl (omega arith)

abbrev hello : MsgEvent
hello = record { dm = true; channel = none; from = "bob"; text = "{"; ts = num 1; invite = none }

abbrev denied : HubErrorEvent
denied = record { code = "access_denied"; msg = "no"; ts = 1; from = none; id = none }

abbrev first_options : Options
first_options = record {
  url = "ws://hub/ws";
  key_path = "key";
  name = some "ada";
  channels_path = none;
  channels = [];
  invites = true;
  initial_ms = none;
  max_ms = none;
}

abbrev first_disk : Disk
first_disk = record { config_file = none; channels_file = none; listed_invites = []; clock = 5 }

abbrev launched : Client
launched = new_client host first_options first_disk idle.identity

abbrev dialled : Client
dialled = start host launched

abbrev greeted : Client
greeted = on_open host dialled

abbrev lost : Client
lost = on_disconnect host (record greeted { socket = some closed })

lost_run : Reach host launched lost
unfolding new_client start connect on_open send_hello ws_send
lost_run =
    next (next (next here (occurs refl starts)) (occurs refl (opens refl)))
      (occurs refl (closes opened refl))

new_client-Sound_example : Sound lost
new_client-Sound_example =
    new_client-Sound host first_options first_disk idle.identity lost (omega arith) lost_run

abbrev asking : Stack
asking = presence_answered ∷ caller 1 ∷ []

abbrev asked : Client
asked = record idle {
  echo_seen = true;
  presence_waiters =
      ("q1", query (record { timer = 0; stack = asking }))
      ∷ ("q2", query (record { timer = 1; stack = caller 2 ∷ [] }))
      ∷ [];
}

abbrev bob : PresenceAgent
bob = record {
  agent_id = "bob";
  name = str "bob";
  online = bool true;
  last_seen = undefined;
  self = false;
}

other_query : text_of (str "q1") ≢ some "q2"
unfolding to_string
other_query = ground (arith, eq_iff "q1" "q2")

route_presence-others_example :
    get (route_presence host (str "q1") (bob ∷ []) asked).presence_waiters "q2"
    ≡ get asked.presence_waiters "q2"
route_presence-others_example =
    route_presence-others host (str "q1") (bob ∷ []) asked "q2" refl other_query

-- A connected client with a query parked, and a call that asks.
abbrev linked : Client
linked = record asked { socket = some opened; welcomed = true }

not_taken : get linked.presence_waiters (host.uuid linked.draws) ≡ none
unfolding get
not_taken = refl

run_job-presence_example :
    let answered =
      route_presence host
        (str (host.uuid linked.draws))
        (bob ∷ [])
        (presence host (caller 1 ∷ []) linked) in
    let ended = run_job host (run_job host answered) in
    (ended.results ≡ (1, returns (roster (bob ∷ []))) ∷ linked.results)
    × (ended.jobs ≡ [])
    × (get ended.presence_waiters "q2" ≡ get linked.presence_waiters "q2")
run_job-presence_example = run_job-presence host 1 (bob ∷ []) "q2" linked refl refl not_taken

abbrev warming : Client
warming = record idle {
  presence_waiters = ("w", warm_up 0) ∷ ("q1", query (record { timer = 0; stack = asking })) ∷ [];
}

complete_all-visits_example :
    (complete_all host 4 (returns (roster [])) warming).presence_waiters ≡ []
complete_all-visits_example = complete_all-visits host (returns (roster [])) warming

abbrev unauthorized : ℕ
unauthorized = 401

abbrev rejected : Client
rejected = record idle { dial_source = some config; config_file = some "stale" }

-- The client when its dial was rejected; it dials again, and is rejected again.
abbrev recovered_ : Client
recovered_ = on_unexpected_response host unauthorized rejected

no_jobs : recovered_.jobs ≡ []
unfolding on_unexpected_response persist_dap_config set_channels
no_jobs = refl

redials_ : Reach host recovered_ (start host recovered_)
redials_ = next here (occurs no_jobs starts)

on_unexpected_response-config_file_example :
    (recovered_.config_file ≡ rejected.config_file)
    ⊎ ((unauthorized ≡ 401)
        × (may_recover host rejected ≡ true)
        × ((on_unexpected_response host unauthorized (start host recovered_)).config_file
            ≡ (start host recovered_).config_file))
on_unexpected_response-config_file_example =
    on_unexpected_response-config_file host unauthorized unauthorized rejected
      (start host recovered_) redials_

resolve-on_unexpected_response_example :
    resolve_auth_token host (on_unexpected_response host unauthorized rejected)
    ≡ some (record { token = "m"; enroll = true; source = master })
unfolding read_dap_config normalize_config get set delete has
resolve-on_unexpected_response_example =
    resolve-on_unexpected_response host rejected "m" refl refl refl refl refl

abbrev enrolling : Client
enrolling = record idle { enroll_pending = true; config_file = some "stale" }

resolve-on_enrolled_example :
    resolve_auth_token host (on_enrolled host "fresh" enrolling)
    ≡ some (record { token = "fresh"; enroll = false; source = config })
unfolding read_dap_config normalize_config get set has
resolve-on_enrolled_example = resolve-on_enrolled host enrolling "fresh" refl refl refl refl

abbrev sender : PeerInfo
sender = record {
  agent_id = "bob";
  pubkey = "i";
  x25519 = "ii";
  name = undefined;
  online = undefined;
  x_pub = 1 ∷ 1 ∷ [];
}

decrypt_dm-send_frame_of_example :
    decrypt_dm host
      (relayed host
        (set (send_frame_of host "to" "ada" "id" "iii" (1 ∷ 1 ∷ []) idle) "sig" (str "s"))
        "bob")
      sender
      idle
    ≡ plain (record {
      dm = true;
      channel = none;
      from = "bob";
      text = "iii";
      ts = num 5;
      invite = none;
    })
decrypt_dm-send_frame_of_example =
    decrypt_dm-send_frame_of host idle idle "ada" "iii" "id" "bob" (str "s") sender (1 ∷ 1 ∷ [])
      refl refl refl refl refl refl

accepted : parse_chankey_invite parse toy.b64d "{" ≡ some invite
unfolding parse_chankey_invite get
accepted = refl

receive-invite_example :
    ((receive host [] (plain hello) idle).inbox
      ≡ push_bounded inbox_cap idle.inbox (invite_notice host invite hello))
    × (get (receive host [] (plain hello) idle).channels "lobby"
        ≡ some (record { name = "lobby"; pub_key = invite.pub_key; priv = some invite.priv }))
receive-invite_example = receive-invite host [] hello invite idle refl accepted

abbrev info_frame : JsMap String Value
info_frame = ("op", str "agent_info") ∷ ("agentId", str "bob") ∷ ("x25519", str "ii") ∷ []

abbrev looking : Client
looking = record idle {
  whois_waiters = ("bob", record { timer = 0; stack = caller 1 ∷ [] } ∷ []) ∷ [];
}

agent_info-on_agent_info_example :
    let id = (peer_info host info_frame).agent_id in
    let d = on_agent_info host info_frame looking in
    (d.jobs
      ≡ looking.jobs
        ++ woken (waiting_at looking.whois_waiters id) (returns (peer (peer_info host info_frame))))
    × (waiting_at d.whois_waiters id ≡ [])
    × (agent_info id (caller 2 ∷ []) d
        ≡ settle (caller 2 ∷ []) (returns (peer (peer_info host info_frame))) d)
agent_info-on_agent_info_example = agent_info-on_agent_info host info_frame looking (caller 2 ∷ [])

abbrev parked_ : Client
parked_ = record warming {
  whois_waiters = looking.whois_waiters;
  ready_waiters = record { timer = 3; stack = caller 3 ∷ [] } ∷ [];
  join_waiters = ("lobby", record { timer = 4; stack = caller 4 ∷ [] } ∷ []) ∷ [];
}

parked-fail_waiters_example :
    ((fail_waiters host "closed" parked_).whois_waiters ≡ [])
    × ((fail_waiters host "closed" parked_).presence_waiters ≡ [])
    × ((fail_waiters host "closed" parked_).ready_waiters ≡ [])
    × ((fail_waiters host "closed" parked_).join_waiters ≡ parked_.join_waiters)
parked-fail_waiters_example = parked-fail_waiters host "closed" parked_

abbrev arming : Client
arming = record idle {
  pending_invites =
      record { name = "bob"; channel = "lobby" } ∷ record { name = "eve"; channel = "lobby" } ∷ [];
}

-- A name that is a number ends the pass with the error of its `toLowerCase`.
unreadable_roster :
    (deliver_from host 2 (record bob { name = num 7 } ∷ []) (surfaced ∷ []) arming).jobs
    ≡ record { stack = surfaced ∷ []; outcome = throws host.lower_error } ∷ []
unfolding deliver_from agent_id_of
unreadable_roster = refl

deliver_from-Pass_example :
    Pass host
      (bob ∷ [])
      arming
      2
      (caller 1 ∷ [])
      (deliver_from host 2 (bob ∷ []) (caller 1 ∷ []) arming)
deliver_from-Pass_example = deliver_from-Pass host (bob ∷ []) arming 2 (caller 1 ∷ [])

arm_when_ensured_idempotent_example :
    let d = arm_when_ensured host "bob" "lobby" (caller 1 ∷ []) idle in
    ((arm_when_ensured host "bob" "lobby" (caller 2 ∷ []) d).pending_invites ≡ d.pending_invites)
    × (is_armed host "bob" "lobby" d ≡ true)
arm_when_ensured_idempotent_example =
    arm_when_ensured_idempotent host "bob" "bob" "lobby" (caller 1 ∷ []) (caller 2 ∷ []) idle refl
