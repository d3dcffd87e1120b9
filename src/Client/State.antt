-- ===== src/Client/State.antt =====
-- The data of client.ts, and an async call that waits as the list of the await points that it and
-- its callers stand at. Text that `JSON.parse` typed by a cast (`name`, `online`) is a `Value`.
use dap.Common.{ℕ, Bool, Option, String, List}
use dap.JsMap.{JsMap}
use dap.Json.{Value}
use dap.Config.{Env, PendingInvite}
use dap.Crypto.{Bytes, KeyPair, Primitives}

abbrev pub Frame : Type 0
Frame = JsMap String Value

pub record HubErrorEvent : Type 0 where
  pub code : String
  pub msg : String
  pub ts : ℕ
  pub from : Option String
  pub id : Option String

pub record ChannelKey : Type 0 where
  pub name : String
  pub pub_key : String
  pub priv : Option String

pub record MsgEvent : Type 0 where
  pub dm : Bool
  pub channel : Option String
  pub from : String
  pub text : String
  pub ts : Value
  pub invite : Option String

pub record WhoisInfo : Type 0 where
  pub agent_id : String
  pub pubkey : String
  pub x25519 : String
  pub name : Value
  pub online : Value

-- `WhoisInfo` with the decoded key.
pub record PeerInfo : Type 0 where
  pub agent_id : String
  pub pubkey : String
  pub x25519 : String
  pub name : Value
  pub online : Value
  pub x_pub : Bytes

pub record PresenceAgent : Type 0 where
  pub agent_id : String
  pub name : Value
  pub online : Value
  pub last_seen : Value
  pub self : Bool

pub record SendResult : Type 0 where
  pub id : String
  pub from : String
  pub channel : Option String
  pub to : Option String
  pub created : Bool
  pub chan_pubkey : Option String

pub record StatusInfo : Type 0 where
  pub connected : Bool
  pub agent_id : String
  pub name : Option String
  pub url : String
  pub channels : List String
  pub welcomes : ℕ
  pub hellos : ℕ

pub record ArmedInvite : Type 0 where
  pub name : String
  pub channel : String
  pub connect_line : String

pub record Identity : Type 0 where
  pub priv : Bytes
  pub pub_key : Bytes
  pub x_priv : Bytes
  pub x_pub : Bytes

pub data AuthSource : Type 0 where
  env config master : AuthSource

pub record Auth : Type 0 where
  pub token : String
  pub enroll : Bool
  pub source : AuthSource

-- What a promise of the client is resolved with.
pub data Result : Type 0 where
  done : Result
  peer : PeerInfo → Result
  info : WhoisInfo → Result
  roster : List PresenceAgent → Result
  key : ChannelKey → Bool → Result
  sent : SendResult → Result
  armed : ArmedInvite → Result

pub data Outcome : Type 0 where
  returns : Result → Outcome
  throws : String → Outcome

-- An `await`, with the locals that the rest of its function reads.
pub data Await : Type 0 where
  join_ready : String → String → Await
  ensure_joined : ChannelKey → Bool → Await
  send_ensured : String → String → Await
  send_ready : String → String → ChannelKey → Bool → Await
  whois_found : Await
  dm_whois : String → String → Await
  dm_ready : String → String → PeerInfo → Await
  invite_ensured : String → String → Await
  invite_sent : String → ChannelKey → Bool → Await
  by_name_presence : String → String → Await
  arm_ensured : String → String → Await
  presence_answered : Await
  deliver_presence : Await
  deliver_invited : ℕ → PendingInvite → List PresenceAgent → Await
  msg_whois : Frame → Await
  -- `.catch(() => {})`
  ignored : Await
  -- `.catch((err) => this.surfaceInviteFailure(err))`
  surfaced : Await
  -- the tool call that made the outermost call, by its number
  caller : ℕ → Await

abbrev pub Stack : Type 0
Stack = List Await

-- A parked `done`: its timer's number, and who waits. Once its promise is settled nobody does.
pub record Waiter : Type 0 where
  pub timer : ℕ
  pub stack : Stack

pub data PresenceWaiter : Type 0 where
  query : Waiter → PresenceWaiter
  warm_up : ℕ → PresenceWaiter

-- A continuation that is due, as a microtask.
pub record Job : Type 0 where
  pub stack : Stack
  pub outcome : Outcome

pub data ReadyState : Type 0 where
  connecting opened closing closed : ReadyState

-- What the client uses and does not implement. `uuid n`, `nonce n` and `keypair n` are the n-th
-- random draws.
pub record Host : Type 0 where
  pub crypto : Primitives
  pub parse : String → Option Value
  pub stringify : Value → String
  pub print_config : JsMap String Value → String
  pub print_channels : Value → String
  pub lower : String → String
  pub host_of : String → String
  -- `Number(s)`
  pub number : String → Value
  pub open_error : String
  -- the message of the error that `toLowerCase` on a value without it throws
  pub lower_error : String
  pub uuid : ℕ → String
  pub nonce : ℕ → Bytes
  pub keypair : ℕ → KeyPair
  pub environment : Env

-- `DapClient`, and around it the clock, the random draws and timers used so far, the files, the
-- jobs that are due, what was sent and what the hooks saw (the last first), and how calls ended.
pub record Client : Type 0 where
  -- opts
  pub url : String
  pub name : Option String
  pub has_channels_file : Bool
  pub invites : Bool
  pub initial_ms : ℕ
  pub max_ms : ℕ
  -- fields
  pub identity : Identity
  pub whois_calls : ℕ
  pub last_error : String
  pub error_ring : List HubErrorEvent
  pub channels : JsMap String ChannelKey
  pub joined : JsMap String (Unit {0})
  pub inbox : List MsgEvent
  pub listeners : JsMap ℕ (Unit {0})
  pub known : JsMap String PeerInfo
  pub whois_waiters : JsMap String (List Waiter)
  pub hellos : ℕ
  pub welcomes : ℕ
  pub ready_waiters : List Waiter
  pub presence_waiters : List (String × PresenceWaiter)
  pub echo_seen : Bool
  pub join_waiters : JsMap String (List Waiter)
  pub socket : Option ReadyState
  pub retry_in : Option ℕ
  pub polling : Bool
  pub pending_invites : List PendingInvite
  pub delivering : Bool
  pub delay : ℕ
  pub welcomed : Bool
  pub enroll_pending : Bool
  pub dial_source : Option AuthSource
  pub re_enrolled : Bool
  pub stopped : Bool
  pub watched : Bool
  -- surroundings
  pub clock : ℕ
  pub draws : ℕ
  pub timers : ℕ
  pub config_file : Option String
  pub channels_file : Option String
  pub jobs : List Job
  pub wire : List Frame
  pub reported : List HubErrorEvent
  pub observed : List MsgEvent
  -- the calls of listeners, by their numbers
  pub told : List (ℕ × MsgEvent)
  -- the bearer token of each dial, if any
  pub dials : List (Option String)
  -- sockets that `stop` closed and whose `close` event is still to come
  pub retired : ℕ
  pub results : List (ℕ × Outcome)
