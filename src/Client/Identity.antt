-- ===== src/Client/Identity.antt =====
-- client.ts: `loadIdentity`. A key file is its text, `none` where there is no file.
use dap.Common.{
  Bool, ◌&&◌, Option, none, some, String, [], ◌∷◌, length, nat_beq, if◌then◌else◌, string_eq,
}
use dap.JsMap.{JsMap}
use dap.Json.{Value, undefined, null, str, obj, entries, prop}
use dap.Crypto.{Bytes, KeyPair}
use dap.Client.State.{Identity}

-- What `loadIdentity` uses: base64, the JSON codec, and what `Buffer.from` makes of a property that
-- is no text, if it does not throw.
pub record KeyCodec : Type 0 where
  pub b64e : Bytes → String
  pub b64d : String → Bytes
  pub odd_bytes : Value → Option Bytes
  pub parse : String → Option Value
  pub print : JsMap String Value → String

-- `Object.values(id).every((k) => k.length === 32)`
abbrev pub is_whole : Identity → Bool
is_whole id =
    nat_beq (length id.priv) 32
    && nat_beq (length id.pub_key) 32
    && nat_beq (length id.x_priv) 32
    && nat_beq (length id.x_pub) 32

abbrev pub drawn_identity : KeyPair → KeyPair → Identity
drawn_identity ed x = record {
  priv = ed.priv;
  pub_key = ed.pub_key;
  x_priv = x.priv;
  x_pub = x.pub_key;
}

-- An identity from its four keys, if all are there.
abbrev pub assemble : Option Bytes → Option Bytes → Option Bytes → Option Bytes → Option Identity
assemble (some p) (some q) (some r) (some s) =
    some (record { priv = p; pub_key = q; x_priv = r; x_pub = s })
assemble _ _ _ _ = none

module _ (k : KeyCodec) where
  abbrev pub decoded : Value → Option Bytes
  decoded (str s) = some (k.b64d s)
  decoded v = k.odd_bytes v

  unfoldable pub identity_of : JsMap String Value → Option Identity
  identity_of f =
      assemble (decoded (prop f "priv")) (decoded (prop f "pub")) (decoded (prop f "xpriv"))
        (decoded (prop f "xpub"))

  -- The identity that a parsed file has: `none` where reading it throws.
  abbrev pub identity_in : Value → Option Identity
  identity_in undefined = none
  identity_in null = none
  identity_in (obj fs) = identity_of (entries fs)
  identity_in _ = identity_of []

  abbrev pub key_file : KeyPair → KeyPair → JsMap String Value
  key_file ed x =
      ("priv", str (k.b64e ed.priv))
      ∷ ("pub", str (k.b64e ed.pub_key))
      ∷ ("xpriv", str (k.b64e x.priv))
      ∷ ("xpub", str (k.b64e x.pub_key))
      ∷ []

  abbrev pub generate : KeyPair → KeyPair → Identity × Option String
  generate ed x = (drawn_identity ed x, some (k.print (key_file ed x)))

  -- The identity and the file afterwards, with the keys that are drawn if they are needed; `none`
  -- where it throws.
  unfoldable pub load_identity :
      Option String → KeyPair → KeyPair → Option (Identity × Option String)
  unfolding identity_of
  load_identity none ed x = some (generate ed x)
  load_identity (some text) ed x = elim (k.parse text) [
    | none ↦ none
    | some v ↦ elim (identity_in v) [
      | none ↦ none
      | some id ↦ if is_whole id then some (id, some text) else some (generate ed x)
    ]
  ]
