-- ===== src/Crypto.antt =====
-- adapters/mcp-bridge/src/crypto.ts (adapters/dsh-plugin/src/crypto.ts is the same text): canonical
-- JSON, frame signatures and payload sealing. The noble primitives, `Buffer`, `TextEncoder` and
-- `JSON.stringify` of a primitive value are the record `Primitives`. Object keys are sorted by code
-- points, which is `sort()`'s order for keys inside the BMP.
mod Order
pub mod Canonical
pub mod Signing
pub mod Tests
use Prim.Native.Nat.{Ordering}
use Prim.Native.String as Native
use Prim.Native.String.{compare, slice}
use dap.Common.{
  ℕ, Bool, true, false, not, ◌&&◌, Option, none, some, String, List, [], ◌∷◌, ◌++◌, map, take, drop,
  ◌==◌, string_eq, if◌then◌else◌,
}
use dap.JsMap.{JsMap, get, set}
use dap.Json.{
  Value, undefined, null, bool, num, str, arr, obj, Items, nil, cons, Fields, end, field, entries,
  object, prop, to_string,
}

abbrev pub Bytes : Type 0
Bytes = List ℕ

pub record KeyPair : Type 0 where
  pub priv : Bytes
  pub pub_key : Bytes

pub record Primitives : Type 0 where
  pub stringify : Value → String
  pub utf8 : String → Bytes
  pub decode_utf8 : Bytes → String
  pub b64e : Bytes → String
  pub b64d : String → Bytes
  pub hex : Bytes → String
  pub sha256 : Bytes → Bytes
  pub ed_sign : Bytes → Bytes → Bytes
  pub ed_verify : Bytes → Bytes → Bytes → Bool
  pub shared_secret : Bytes → Bytes → Bytes
  pub hkdf : Bytes → Bytes → Bytes → Bytes
  pub encrypt : Bytes → Bytes → Bytes → Bytes → Bytes
  pub decrypt : Bytes → Bytes → Bytes → Bytes → Option Bytes

infixr 60 ◌+s+◌
abbrev pub ◌+s+◌ : String → String → String
s +s+ t = Native.◌++◌ s t

-- `parts.join(',')`
abbrev pub join_comma : List String → String
join_comma [] = ""
join_comma (p ∷ []) = p
join_comma (p ∷ q ∷ ps) = p +s+ "," +s+ join_comma (q ∷ ps)

abbrev pub string_leb : String → String → Bool
string_leb s t = elim (compare s t) [ Ordering.gt ↦ false | _ ↦ true ]

unfoldable pub insert_key : String × String → List (String × String) → List (String × String)
insert_key e [] = e ∷ []
insert_key e (f ∷ fs) = if string_leb e.0 f.0 then e ∷ f ∷ fs else f ∷ insert_key e fs

-- `keys.sort()`, each key with what is written for its value.
unfoldable pub sort_keys : List (String × String) → List (String × String)
unfolding insert_key
sort_keys [] = []
sort_keys (e ∷ es) = insert_key e (sort_keys es)

abbrev pub is_undefined : Value → Bool
is_undefined undefined = true
is_undefined _ = false

-- `k !== 'sig' && o[k] !== undefined`
abbrev pub is_signed : String → Value → Bool
is_signed k v = not (k == "sig") && not (is_undefined v)

module _ (p : Primitives) where
  abbrev pub write_member : String × String → String
  write_member e = p.stringify (str e.0) +s+ ":" +s+ e.1

  abbrev pub write_object : List (String × String) → String
  write_object es = "{" +s+ join_comma (map write_member es) +s+ "}"

  unfoldable mutual
    unfolding sort_keys

    pub canonical_json : Value → String
    canonical_json undefined = "null"
    canonical_json null = p.stringify null
    canonical_json (bool b) = p.stringify (bool b)
    canonical_json (num n) = p.stringify (num n)
    canonical_json (str s) = p.stringify (str s)
    canonical_json (arr xs) = "[" +s+ join_comma (canonical_items xs) +s+ "]"
    canonical_json (obj fs) = write_object (sort_keys (canonical_members fs))

    pub canonical_items : Items → List String
    canonical_items nil = []
    canonical_items (cons v vs) = canonical_json v ∷ canonical_items vs

    pub canonical_members : Fields → List (String × String)
    canonical_members end = []
    canonical_members (field k v fs) =
        let rest = canonical_members fs in
        if is_signed k v then (k, canonical_json v) ∷ rest else rest

  unfoldable pub sha256_hex : Bytes → String
  sha256_hex b = p.hex (p.sha256 b)

  unfoldable pub agent_id_of : Bytes → String
  unfolding sha256_hex
  agent_id_of pub_raw = slice (sha256_hex pub_raw) 0 16

  unfoldable pub sig_payload : JsMap String Value → String
  unfolding sha256_hex to_string
  sig_payload frame =
      "dap1|"
      +s+ to_string (prop frame "op")
      +s+ "|"
      +s+ to_string (prop frame "ts")
      +s+ "|"
      +s+ sha256_hex (p.utf8 (canonical_json (object frame)))

  unfoldable pub sign_frame : JsMap String Value → Bytes → String
  sign_frame frame priv = p.b64e (p.ed_sign (p.utf8 (sig_payload frame)) priv)

  abbrev pub verify_sig : JsMap String Value → Value → Bytes → Bool
  verify_sig frame (str sig) pub_key = p.ed_verify (p.b64d sig) (p.utf8 (sig_payload frame)) pub_key
  verify_sig frame _ pub_key = false

  unfoldable pub verify_frame : JsMap String Value → Bytes → Bool
  verify_frame frame pub_key = verify_sig frame (prop frame "sig") pub_key

  unfoldable pub derive_key : Bytes → String → Bytes
  derive_key secret frame_id = p.hkdf secret (p.utf8 frame_id) (p.utf8 "dap1/v1")

  unfoldable pub aad_of : String → String → Bytes
  aad_of frame_id peer = p.utf8 ("dap1|" +s+ frame_id +s+ "|" +s+ peer)

  -- `nonce` is what `randomBytes(12)` gives.
  unfoldable pub seal : Bytes → String → String → String → Bytes → Bytes → String
  unfolding derive_key aad_of
  seal nonce plaintext frame_id peer x_priv peer_x_pub =
      let key = derive_key (p.shared_secret x_priv peer_x_pub) frame_id in
      let ct = p.encrypt key nonce (aad_of frame_id peer) (p.utf8 plaintext) in p.b64e (nonce ++ ct)

  -- `none` where the tag does not verify.
  unfoldable pub open_payload : String → String → String → Bytes → Bytes → Option String
  unfolding derive_key aad_of
  open_payload ciphertext frame_id peer x_priv peer_x_pub =
      let raw = p.b64d ciphertext in
      let key = derive_key (p.shared_secret x_priv peer_x_pub) frame_id in
      elim (p.decrypt key (take 12 raw) (aad_of frame_id peer) (drop 12 raw)) [
        | none ↦ none
        | some pt ↦ some (p.decode_utf8 pt)
      ]
