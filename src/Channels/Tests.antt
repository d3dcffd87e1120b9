-- ===== src/Channels/Tests.antt =====
-- The channels file and the invites of channels.ts, over a toy codec that knows the texts of these
-- tests.
use dap.Common.{◌≡◌, refl, Option, none, some, String, [], ◌∷◌, ◌==◌, string_eq, if◌then◌else◌}
use dap.JsMap.{JsMap, get, set}
use dap.JsObject.{put, string_name}
use dap.Json.{Value, object}
use dap.Crypto.{Bytes}
use dap.Channels.{
  ChannelKeys, ChankeyInvite, channels_object, chankey_payload, load_channel_keys,
  persist_channel_keys, parse_chankey_invite, load_from, channel_keys, keys_value,
}
use dap.Channels.Laws.{
  load-persist_channel_keys, parse_chankey_invite-payload, parse_chankey_invite_sound, IsInvite,
}

abbrev lobby : ChannelKeys
lobby = record { pub_key = "p"; priv = "q" }

abbrev invite : ChankeyInvite
invite = record { channel = "lobby"; pub_key = "p"; priv = "q" }

abbrev payload : String
payload = "{…}"

abbrev parse : String → Option Value
parse text =
    if text == "saved"
    then some (channels_object (("lobby", lobby) ∷ []))
    else if text == payload
    then some (object (chankey_payload invite))
    else none

abbrev key_bytes : Bytes
key_bytes =
    1 ∷ 1 ∷ 1 ∷ 1 ∷ 1 ∷ 1 ∷ 1 ∷ 1 ∷ 1 ∷ 1 ∷ 1 ∷ 1 ∷ 1 ∷ 1 ∷ 1 ∷ 1 ∷ 1 ∷ 1 ∷ 1 ∷ 1 ∷ 1 ∷ 1 ∷ 1 ∷ 1
    ∷ 1 ∷ 1 ∷ 1 ∷ 1 ∷ 1 ∷ 1 ∷ 1 ∷ 1 ∷ []

abbrev b64d : String → Bytes
b64d s = key_bytes

load-persist_channel_keys_example :
    get
      (load_channel_keys parse
        (some (persist_channel_keys parse (λ v. "saved") none "lobby" lobby)))
      "lobby"
    ≡ some lobby
unfolding load_channel_keys load_from channel_keys put set
load-persist_channel_keys_example =
    load-persist_channel_keys parse (λ v. "saved") none "lobby" lobby "lobby" refl

parse_chankey_invite-payload_example : parse_chankey_invite parse b64d payload ≡ some invite
parse_chankey_invite-payload_example =
    parse_chankey_invite-payload parse b64d payload invite refl refl refl refl

accepted : parse_chankey_invite parse b64d payload ≡ some invite
unfolding parse_chankey_invite get
accepted = refl

parse_chankey_invite_sound_example :
    (m : JsMap String Value) × (parse payload ≡ some (object m)) × IsInvite parse b64d m invite
parse_chankey_invite_sound_example = parse_chankey_invite_sound parse b64d payload invite accepted

-- A keypair under `__proto__` is not kept.
nameless : load_from [] (("__proto__", keys_value lobby) ∷ []) ≡ []
unfolding load_from put
nameless = refl
