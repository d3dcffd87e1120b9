-- ===== src/Client/Launch.antt =====
-- client.ts: the constructor of the client.
use dap.Common.{ℕ, Bool, false, Option, none, some, String, List, [], ◌∷◌, if◌then◌else◌, string_eq}
use dap.JsMap.{JsMap, set, is_some}
use dap.Config.{PendingInvite, env_str}
use dap.Channels.{ChannelKeys, load_channel_keys}
use dap.Client.State.{Host, Client, Identity, ChannelKey}

-- `ClientOpts`, less its hooks
pub record Options : Type 0 where
  pub url : String
  pub key_path : String
  pub name : Option String
  pub channels_path : Option String
  pub channels : List ChannelKey
  pub invites : Bool
  pub initial_ms : Option ℕ
  pub max_ms : Option ℕ

-- What is there when the process starts: the two files, the invites that the config file lists, and
-- the clock.
pub record Disk : Type 0 where
  pub config_file : Option String
  pub channels_file : Option String
  pub listed_invites : List PendingInvite
  pub clock : ℕ

abbrev pub or_default : Option ℕ → ℕ → ℕ
or_default none d = d
or_default (some n) d = n

abbrev pub loaded_channels :
    JsMap String ChannelKeys → JsMap String ChannelKey → JsMap String ChannelKey
loaded_channels [] m = m
loaded_channels ((name, keys) ∷ ks) m =
    loaded_channels ks
      (set m name (record { name = name; pub_key = keys.pub_key; priv = some keys.priv }))

abbrev pub explicit_channels : List ChannelKey → JsMap String ChannelKey → JsMap String ChannelKey
explicit_channels [] m = m
explicit_channels (ch ∷ chs) m = explicit_channels chs (set m ch.name ch)

-- The channels file first, then the explicit ones.
unfoldable pub first_channels : Host → Options → Disk → JsMap String ChannelKey
unfolding set
first_channels h o disk = explicit_channels o.channels (elim (env_str o.channels_path) [
  | none ↦ []
  | some path ↦ loaded_channels (load_channel_keys h.parse disk.channels_file) []
])

-- `new DapClient(opts)`, with the identity that its key file gave.
unfoldable pub new_client : Host → Options → Disk → Identity → Client
unfolding first_channels
new_client h o disk identity = record {
  url = o.url;
  name = o.name;
  has_channels_file = is_some (env_str o.channels_path);
  invites = o.invites;
  initial_ms = or_default o.initial_ms 1000;
  max_ms = or_default o.max_ms 30000;
  identity = identity;
  whois_calls = 0;
  last_error = "";
  error_ring = [];
  channels = first_channels h o disk;
  joined = [];
  inbox = [];
  listeners = [];
  known = [];
  whois_waiters = [];
  hellos = 0;
  welcomes = 0;
  ready_waiters = [];
  presence_waiters = [];
  echo_seen = false;
  join_waiters = [];
  socket = none;
  retry_in = none;
  polling = false;
  pending_invites = if o.invites then disk.listed_invites else [];
  delivering = false;
  delay = or_default o.initial_ms 1000;
  welcomed = false;
  enroll_pending = false;
  dial_source = none;
  re_enrolled = false;
  stopped = false;
  watched = false;
  clock = disk.clock;
  draws = 0;
  timers = 0;
  config_file = disk.config_file;
  channels_file = disk.channels_file;
  jobs = [];
  wire = [];
  reported = [];
  observed = [];
  told = [];
  dials = [];
  retired = 0;
  results = [];
}
