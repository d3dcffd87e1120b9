-- ===== src/Server/Tools.antt =====
-- server.ts: the tools of the MCP server. A tool's answer is the value that it turns into text.
use dap.Common.{
  ℕ, suc, Bool, true, false, Option, none, some, String, List, [], ◌∷◌, ◌++◌, string_eq,
  if◌then◌else◌, map,
}
use dap.JsMap.{JsMap, get, set}
use dap.Json.{str}
use dap.Config.{env_str, no_update, ConfigUpdate, persist_dap_config, default_key_path}
use dap.Crypto.{KeyPair}
use dap.Client.State.{
  Host, Client, StatusInfo, Identity, MsgEvent, HubErrorEvent, Result, Outcome, returns, throws,
  caller,
}
use dap.Client.Wire.{drain_inbox, drain_errors}
use dap.Client.Calls
use dap.Client.Calls.{send, dm, whois, presence, ensure_channel_keys}
use dap.Client.Invites.{invite_by_name}
use dap.Client.Resume.{run_job}
use dap.Client.Socket.{retarget}
use dap.Client.Identity.{KeyCodec, load_identity}

abbrev pub disabled_msg : String
disabled_msg = "DAP_MASTER_SECRET is not set — DAP disabled"

pub data Tool : Type 0 where
  dap_send dap_dm dap_invite : String → String → Tool
  dap_inbox dap_status dap_peers : Tool
  dap_whois : String → Tool
  dap_connect : Option String → Option String → Option String → Tool

-- `failure` with its message, or `json` of what the body gave: what the client's promise was
-- resolved with, the drained messages and errors, or the status.
pub data Answer : Type 0 where
  failure : String → Answer
  resolved : Result → Answer
  drained : List MsgEvent → List HubErrorEvent → Answer
  status : StatusInfo → Answer

-- What the server uses besides the client's surroundings: `normalizeHost` (`none` where `URL`
-- throws), the paths, the key codec, and the n-th pairs of keys that are drawn.
pub record World : Type 0 where
  pub host : Host
  pub codec : KeyCodec
  pub normalize_host : String → Option String
  pub join : List String → String
  pub homedir : String
  pub hostname : String
  pub ed_keypair : ℕ → KeyPair
  pub x_keypair : ℕ → KeyPair

-- The client, if there is one, the key files by their paths, and the answers that were given.
pub record Server : Type 0 where
  pub client : Option Client
  pub key_files : JsMap String String
  pub key_draws : ℕ
  pub answers : List (ℕ × Answer)

unfoldable pub reply : ℕ → Answer → Server → Server
reply n a s = record s { answers = (n, a) ∷ s.answers }

abbrev pub with_client : Client → Server → Server
with_client c s = record s { client = some c }

abbrev pub answer_of : ℕ × Outcome → ℕ × Answer
answer_of (n, returns r) = (n, resolved r)
answer_of (n, throws e) = (n, failure e)

-- The answers of the tools whose promises are settled.
unfoldable pub collect : Client → Server → Server
collect c s = record s {
  client = some (record c { results = [] });
  answers = map answer_of c.results ++ s.answers;
}

module _ (w : World) where
  abbrev pub key_path : String → Option String
  key_path name = default_key_path w.join w.homedir w.hostname (str name)

  -- `loadIdentity`: the identity and the server with the file that it leaves.
  unfoldable pub load_at : String → Server → Option (Identity × Server)
  unfolding get set load_identity
  load_at path s =
      elim (load_identity w.codec (get s.key_files path) (w.ed_keypair s.key_draws)
        (w.x_keypair s.key_draws)) [
          | none ↦ none
          | some (id, none) ↦ none
          | some (id, some text) ↦
              some (
                id,
                record s { key_files = set s.key_files path text; key_draws = suc s.key_draws },
              )
        ]

  -- `loadIdentity(defaultKeyPath(name))`
  unfoldable pub load_keys : String → Server → Option (Identity × Server)
  unfolding default_key_path load_at
  load_keys name s = elim (key_path name) [ none ↦ none | some path ↦ load_at path s ]

  -- The keys for a name that is given.
  abbrev pub given_keys : Option String → Server → Option (Option Identity × Server)
  given_keys none s = some (none, s)
  given_keys (some name) s = elim (load_keys name s) [
    | none ↦ none
    | some (id, s') ↦ some (some id, s')
  ]

  abbrev pub given_url : Option String → Option (Option String)
  given_url none = some none
  given_url (some host) = elim (w.normalize_host host) [ none ↦ none | some url ↦ some (some url) ]

  abbrev pub with_channel : Option String → Client → Client
  with_channel none c = c
  with_channel (some channel) c = (ensure_channel_keys w.host channel c).1

  abbrev pub target_update : Option String → Option String → Option String → ConfigUpdate
  target_update url name channel = record no_update {
    url = url;
    name = name;
    channels = elim channel [ none ↦ none | some s ↦ some (s ∷ []) ];
  }

  -- The rest of `dap_connect`: the channel, the config file, which may be ill-formed, and the retarget.
  unfoldable pub connect_client :
      Option String → Option Identity → Option String → Option String → Client → Client × Bool
  unfolding ensure_channel_keys persist_dap_config retarget
  connect_client url keys name channel c =
      let ensured = with_channel channel c in
      elim (persist_dap_config w.host.parse w.host.print_config (target_update url name channel)
        ensured.config_file) [
          | none ↦ (ensured, false)
          | some text ↦
              (retarget w.host url keys name (record ensured { config_file = some text }), true)
        ]

  unfoldable pub connect_tool :
      Option String → Option String → Option String → ℕ → Client → Server → Server
  unfolding load_keys connect_client reply
  connect_tool host name channel n c s = elim (given_url host) [
    | none ↦ reply n (failure "Invalid URL") s
    | some url ↦ elim (given_keys name s) [
      | none ↦ reply n (failure "bad key file") s
      | some (keys, s') ↦
          let (aimed, written) = connect_client url keys name channel c in
          if written
          then reply n (status (Calls.status w.host aimed)) (with_client aimed s')
          else reply n (failure "channels is not iterable") (with_client aimed s')
    ]
  ]

  -- A tool's body, up to its first await.
  unfoldable pub body : Tool → ℕ → Client → Server → Server
  unfolding send dm invite_by_name drain_inbox drain_errors whois presence connect_tool reply
  body (dap_send channel text) n c s = with_client (send w.host channel text (caller n ∷ []) c) s
  body (dap_dm agent text) n c s = with_client (dm w.host agent text (caller n ∷ []) c) s
  body (dap_invite channel agent) n c s =
      with_client (invite_by_name w.host channel agent (caller n ∷ []) c) s
  body dap_inbox n c s =
      reply n (drained c.inbox c.error_ring) (with_client (drain_errors (drain_inbox c).1).1 s)
  body (dap_whois agent) n c s = with_client (whois agent (caller n ∷ []) c) s
  body dap_status n c s = reply n (status (Calls.status w.host c)) s
  body dap_peers n c s = with_client (presence w.host (caller n ∷ []) c) s
  body (dap_connect host name channel) n c s = elim (env_str host) [
    | some given ↦ connect_tool (some given) (env_str name) (env_str channel) n c s
    | none ↦ elim (env_str name) [
      | some given ↦ connect_tool none (some given) (env_str channel) n c s
      | none ↦ reply n (failure "host or name required") s
    ]
  ]

  -- A job of the client, and the answers of the tools that it settles.
  unfoldable pub run_next : Server → Server
  unfolding run_job collect
  run_next s = elim s.client [ none ↦ s | some c ↦ collect (run_job w.host c) s ]

  -- `run`: the gate, then the body; without a client the body throws.
  unfoldable pub call_tool : Tool → ℕ → Server → Server
  unfolding body reply
  call_tool tool n s = elim (env_str w.host.environment.master_secret) [
    | none ↦ reply n (failure disabled_msg) s
    | some secret ↦ elim s.client [
      | none ↦ reply n (failure "Cannot read properties of null") s
      | some c ↦ body tool n c s
    ]
  ]

  -- Calls one after another.
  unfoldable pub call_tools : List (Tool × ℕ) → Server → Server
  unfolding call_tool
  call_tools [] s = s
  call_tools ((tool, n) ∷ calls) s = call_tools calls (call_tool tool n s)
