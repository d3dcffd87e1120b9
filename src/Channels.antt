-- ===== src/Channels.antt =====
-- adapters/mcp-bridge/src/channels.ts (adapters/dsh-plugin/src/channels.ts has the same functions):
-- the channels file and the chankey invite. The JSON codec and base64 are parameters; a file is its
-- text, `none` where it cannot be read. What is loaded is a plain object, which a channel named
-- `__proto__` does not become a property of.
pub mod Laws
mod Tests
use Prim.Native.Char.{code}
use Prim.Native.String as Native
use dap.Common.{
  ℕ, Bool, true, false, ◌&&◌, Option, none, some, String, List, [], ◌∷◌, map, nat_beq, length, ◌==◌,
  string_eq, if◌then◌else◌,
}
use dap.JsMap.{JsMap}
use dap.JsObject.{put, string_name}
use dap.Json.{Value, undefined, null, bool, num, str, arr, obj, entries, object, prop, property}
use dap.Config.{spread}
use dap.Crypto.{Bytes, KeyPair}

pub record ChannelKeys : Type 0 where
  pub pub_key : String
  pub priv : String

pub record ChankeyInvite : Type 0 where
  pub channel : String
  pub pub_key : String
  pub priv : String

abbrev pub two_strings : Value → Value → Option ChannelKeys
two_strings (str p) (str q) = some (record { pub_key = p; priv = q })
two_strings _ _ = none

-- `typeof keys?.pub === 'string' && typeof keys?.priv === 'string'`
unfoldable pub channel_keys : Value → Option ChannelKeys
channel_keys (obj fs) = two_strings (prop (entries fs) "pub") (prop (entries fs) "priv")
channel_keys _ = none

abbrev pub set_valid :
    JsMap String ChannelKeys → String → Option ChannelKeys → JsMap String ChannelKeys
set_valid out name none = out
set_valid out name (some keys) = put out name keys

-- The loop of `loadChannelKeys`.
unfoldable pub load_from : JsMap String ChannelKeys → JsMap String Value → JsMap String ChannelKeys
unfolding channel_keys
load_from out [] = out
load_from out ((name, keys) ∷ raw) = load_from (set_valid out name (channel_keys keys)) raw

abbrev pub keys_value : ChannelKeys → Value
keys_value k = object (("pub", str k.pub_key) ∷ ("priv", str k.priv) ∷ [])

abbrev pub channels_object : JsMap String ChannelKeys → Value
channels_object m = object (map (λ e. (e.0, keys_value e.1)) m)

abbrev pub starts_with_brace : String → Bool
starts_with_brace Native.[] = false
starts_with_brace (Native.◌∷◌ c s) = nat_beq (code c) 0x7b

abbrev pub chankey_payload : ChankeyInvite → JsMap String Value
chankey_payload i =
    ("t", str "chankey")
    ∷ ("channel", str i.channel)
    ∷ ("pub", str i.pub_key)
    ∷ ("priv", str i.priv)
    ∷ []

module _ (b64e : Bytes → String) where
  -- The keypair is what `newX25519Keypair` draws.
  unfoldable pub new_channel_keypair : KeyPair → ChannelKeys
  new_channel_keypair kp = record { pub_key = b64e kp.pub_key; priv = b64e kp.priv }

module _ (b64d : String → Bytes) where
  abbrev pub is_x25519_key : String → Bool
  is_x25519_key s = nat_beq (length (b64d s)) 32

  abbrev pub invite_of : Value → Value → Value → Value → Option ChankeyInvite
  invite_of (str t) (str channel) (str p) (str q) =
      if t == "chankey" && is_x25519_key p && is_x25519_key q
      then some (record { channel = channel; pub_key = p; priv = q })
      else none
  invite_of _ _ _ _ = none

  abbrev pub invite_in : Value → Option ChankeyInvite
  invite_in (obj fs) =
      let m = entries fs in invite_of (prop m "t") (prop m "channel") (prop m "pub") (prop m "priv")
  invite_in _ = none

module _ (parse : String → Option Value) where
  unfoldable pub load_channel_keys : Option String → JsMap String ChannelKeys
  unfolding load_from
  load_channel_keys none = []
  load_channel_keys (some text) = elim (parse text) [
    | none ↦ []
    | some raw ↦ load_from [] (spread raw)
  ]

  unfoldable pub persist_channel_keys :
      (Value → String) → Option String → String → ChannelKeys → String
  persist_channel_keys print file name keys =
      print (channels_object (put (load_channel_keys file) name keys))

  unfoldable pub parse_chankey_invite : (String → Bytes) → String → Option ChankeyInvite
  parse_chankey_invite b64d text =
      if starts_with_brace text
      then elim (parse text) [ none ↦ none | some v ↦ invite_in b64d v ]
      else none
