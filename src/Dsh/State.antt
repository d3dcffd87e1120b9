-- ===== src/Dsh/State.antt =====
-- The data of adapters/dsh-plugin/src/client.ts. An async call that waits is the list of the await
-- points that it and its callers stand at, as in `Client.State`.
use dap.Common.{ℕ, Bool, Option, String, List}
use dap.JsMap.{JsMap}
use dap.Json.{Value}
use dap.Config.{Env, PendingInvite}
use dap.Crypto.{Bytes, KeyPair, Primitives}
use dap.Channels.{ChankeyInvite}
use dap.Client.State.{Frame, ChannelKey, AuthSource, ReadyState}

pub record HubErrorEvent : Type 0 where
  pub code : String
  pub msg : String
  pub ts : ℕ

pub record MsgEvent : Type 0 where
  pub dm : Bool
  pub channel : Option String
  pub from : String
  pub text : String
  pub ts : Value

pub record PresenceAgent : Type 0 where
  pub agent_id : String
  pub name : Option String
  pub last_seen : Value
  pub self : Bool

pub record Identity : Type 0 where
  pub ed_priv : Bytes
  pub ed_pub : Bytes
  pub x_priv : Bytes
  pub x_pub : Bytes

pub record AgentInfo : Type 0 where
  pub ed_pub : Bytes
  pub x_pub : Bytes
  pub name : Value
  pub online : Value

pub record WhoisAnswer : Type 0 where
  pub agent_id : String
  pub pubkey : String
  pub x25519 : String
  pub name : Value
  pub online : Value

pub record StatusInfo : Type 0 where
  pub connected : Bool
  pub agent_id : String
  pub name : String
  pub url : String
  pub channels : List String
  pub welcomes : ℕ
  pub hellos : ℕ

pub record DialAuth : Type 0 where
  pub token : String
  pub enroll : Bool
  pub source : Option AuthSource

-- What a promise is resolved with; `nobody` is `undefined`.
pub data Result : Type 0 where
  done nobody : Result
  info : AgentInfo → Result
  answer : Frame → Result
  roster : List PresenceAgent → Result
  looked_up : WhoisAnswer → Result

pub data Outcome : Type 0 where
  returns : Result → Outcome
  throws : String → Outcome

-- An `await`, with the locals that the rest of its function reads.
pub data Await : Type 0 where
  -- the `then` at the end of `agentInfo`
  directory : String → Await
  whois_info : String → Await
  send_ready : String → String → ChannelKey → Await
  dm_whois : String → String → Await
  dm_ready : String → String → AgentInfo → Await
  presence_answer : Await
  warm_up : ℕ → Await
  msg_whois : Frame → Await
  -- the plugin's
  by_name_presence : String → String → Await
  deliver_presence : Await
  deliver_invited : ℕ → PendingInvite → List PresenceAgent → Await
  -- `.catch(…)` of `pollPending`
  poll_caught : Await
  -- the `catch` of the `dap_invite` call with this number
  invite_caught : ℕ → Await
  -- the tool call that made the outermost call, by its number
  caller : ℕ → Await

abbrev pub Stack : Type 0
Stack = List Await

pub record Waiter : Type 0 where
  pub timer : ℕ
  pub stack : Stack

pub record Job : Type 0 where
  pub stack : Stack
  pub outcome : Outcome

-- A call of one of the client's hooks.
pub data Hook : Type 0 where
  on_ready : String → Hook
  on_message : MsgEvent → Hook
  on_invite : ChankeyInvite → String → Hook
  on_hub_error : HubErrorEvent → Hook
  on_enrolled : Hook

-- What the client uses and does not implement; `uuid n`, `nonce n` and `keypair n` are the n-th
-- random draws, and `identity path` is what `loadIdentity` gives for a key file, if it does not throw.
pub record Host : Type 0 where
  pub crypto : Primitives
  pub parse : String → Option Value
  pub stringify : Value → String
  pub print_config : JsMap String Value → String
  pub print_channels : Value → String
  pub lower : String → String
  pub host_of : String → String
  pub normalize_host : String → Option String
  pub key_path : String → String
  -- `Number(s)`
  pub number : String → Value
  pub open_error : String
  pub uuid : ℕ → String
  pub nonce : ℕ → Bytes
  pub keypair : ℕ → KeyPair
  pub identity : String → Option Identity
  pub environment : Env

-- `DapClient`, and around it the sockets by their numbers, the clock, the draws and timers used so
-- far, the files, the jobs that are due, what was sent (on which socket) and which hooks
-- are called and not yet run (the last first).
pub record Client : Type 0 where
  -- opts
  pub url : String
  pub name : Option String
  pub client_secret : Option String
  pub use_channel_file : Bool
  pub initial_ms : ℕ
  pub max_ms : ℕ
  -- fields
  pub identity : Identity
  pub error_ring : List HubErrorEvent
  pub channels : JsMap String ChannelKey
  pub inbox : List MsgEvent
  pub known : JsMap String AgentInfo
  pub enroll_mode : Bool
  pub dial_source : Option AuthSource
  pub re_enrolled : Bool
  pub ws : Option ℕ
  pub whois_waiters : JsMap String (List Waiter)
  pub ready_waiters : List Waiter
  pub retry_in : Option ℕ
  pub delay : ℕ
  pub welcomed : Bool
  pub stopped : Bool
  pub hellos : ℕ
  pub welcomes : ℕ
  pub presence_waiters : JsMap String Waiter
  pub echo_seen : Bool
  pub last_error : String
  -- surroundings
  pub sockets : JsMap ℕ ReadyState
  pub next_socket : ℕ
  -- the socket that the watchdog watches
  pub watched : Option ℕ
  pub clock : ℕ
  pub draws : ℕ
  pub timers : ℕ
  pub config_file : Option String
  pub channels_file : Option String
  pub jobs : List Job
  pub wire : List (Option ℕ × Frame)
  pub hooks : List Hook
  pub dials : List String
