-- ===== src/Dsh/Launch.antt =====
-- dsh-plugin/src/client.ts and index.ts: the constructor of the client, and `apply`.
use dap.Common.{ℕ, false, not, ◌&&◌, Option, none, some, String, List, [], ◌∷◌, string_eq}
use dap.JsMap.{JsMap, set, is_some}
use dap.Config.{PendingInvite, env_str}
use dap.Channels.{ChannelKeys, load_channel_keys}
use dap.Client.State.{ChannelKey}
use dap.Dsh.State.{Host, Client, Identity}
use dap.Dsh.Socket.{start}
use dap.Dsh.Plugin.{Plugin}

-- `ClientOpts`, less its hooks
pub record Options : Type 0 where
  pub url : String
  pub key_path : String
  pub name : Option String
  pub channels : Option (List ChannelKey)
  pub channels_path : Option String
  pub initial_ms : Option ℕ
  pub max_ms : Option ℕ
  pub client_secret : Option String

-- What is there when the process starts: the two files, and the clock.
pub record Disk : Type 0 where
  pub config_file : Option String
  pub channels_file : Option String
  pub clock : ℕ

abbrev pub or_default : Option ℕ → ℕ → ℕ
or_default none d = d
or_default (some n) d = n

abbrev pub listed_channels : List ChannelKey → JsMap String ChannelKey → JsMap String ChannelKey
listed_channels [] m = m
listed_channels (ch ∷ chs) m = listed_channels chs (set m ch.name ch)

abbrev pub loaded_channels :
    JsMap String ChannelKeys → JsMap String ChannelKey → JsMap String ChannelKey
loaded_channels [] m = m
loaded_channels ((name, keys) ∷ ks) m =
    loaded_channels ks
      (set m name (record { name = name; pub_key = keys.pub_key; priv = some keys.priv }))

-- The channels that a client starts with.
unfoldable pub first_channels : Host → Options → Disk → JsMap String ChannelKey
unfolding set
first_channels h o disk = elim o.channels [
  | some chs ↦ listed_channels chs []
  | none ↦ elim (env_str o.channels_path) [
    | none ↦ []
    | some path ↦ loaded_channels (load_channel_keys h.parse disk.channels_file) []
  ]
]

-- `new DapClient(opts)`, with the identity that its key file gave.
unfoldable pub new_client : Host → Options → Disk → Identity → Client
unfolding first_channels
new_client h o disk identity = record {
  url = o.url;
  name = o.name;
  client_secret = o.client_secret;
  use_channel_file = not (is_some o.channels) && is_some (env_str o.channels_path);
  initial_ms = or_default o.initial_ms 1000;
  max_ms = or_default o.max_ms 30000;
  identity = identity;
  error_ring = [];
  channels = first_channels h o disk;
  inbox = [];
  known = [];
  enroll_mode = false;
  dial_source = none;
  re_enrolled = false;
  ws = none;
  whois_waiters = [];
  ready_waiters = [];
  retry_in = none;
  delay = or_default o.initial_ms 1000;
  welcomed = false;
  stopped = false;
  hellos = 0;
  welcomes = 0;
  presence_waiters = [];
  echo_seen = false;
  last_error = "";
  sockets = [];
  next_socket = 0;
  watched = none;
  clock = disk.clock;
  draws = 0;
  timers = 0;
  config_file = disk.config_file;
  channels_file = disk.channels_file;
  jobs = [];
  wire = [];
  hooks = [];
  dials = [];
}

-- `apply`: `none` where it makes no client, for want of a master secret or since the key file
-- cannot be read. `pending` are the invites that the config file lists.
unfoldable pub apply : Host → Options → Disk → List PendingInvite → Option Plugin
unfolding new_client start
apply h o disk pending = elim (env_str h.environment.master_secret) [
  | none ↦ none
  | some secret ↦ elim (h.identity o.key_path) [
    | none ↦ none
    | some identity ↦ some (record {
      client = start h (new_client h o disk identity);
      settings_url = o.url;
      settings_name = o.name;
      pending_invites = pending;
      delivering = false;
      told = [];
      answers = [];
    })
  ]
]
