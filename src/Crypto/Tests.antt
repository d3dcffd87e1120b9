-- ===== src/Crypto/Tests.antt =====
-- The functions of crypto.ts over toy primitives: a text counts by its length, the cipher is the
-- identity, and a signature is the message.
use Prim.Native.String as Native
use mathlib.Core.List.{Permᴰ}
use dap.Common.{
  ℕ, zero, suc, ◌+◌, ◌≡◌, refl, true, some, String, [], ◌∷◌, length, ◌==◌, text_eq, string_eq,
}
use dap.JsMap.{JsMap, get, set}
use dap.Json.{Value, str, num, object}
use dap.Crypto.{
  Bytes, Primitives, canonical_json, sig_payload, sign_frame, verify_frame, seal, open_payload,
}
use dap.Crypto.Canonical.{canonical_json-perm}
use dap.Crypto.Signing.{verify_frame-sign_frame, open_payload-seal}

abbrev count : String → ℕ
count Native.[] = 0
count (Native.◌∷◌ c s) = suc (count s)

abbrev pub ones : ℕ → Bytes
ones zero = []
ones (suc n) = 1 ∷ ones n

abbrev letters : ℕ → String
letters zero = ""
letters (suc n) = Native.◌++◌ "i" (letters n)

abbrev quoted : Value → String
quoted (str s) = Native.◌++◌ "\"" (Native.◌++◌ s "\"")
quoted _ = "0"

abbrev pub toy : Primitives
toy = record {
  stringify = quoted;
  utf8 = λ s. ones (count s);
  decode_utf8 = λ b. letters (length b);
  b64e = λ b. letters (length b);
  b64d = λ s. ones (count s);
  hex = λ b. letters (length b);
  sha256 = λ b. b;
  ed_sign = λ message priv. message;
  ed_verify = λ sig message pub_key. sig == message;
  shared_secret = λ priv peer. ones (length priv + length peer);
  hkdf = λ secret salt info. secret;
  encrypt = λ key nonce aad plaintext. plaintext;
  decrypt = λ key nonce aad ct. some ct;
}

abbrev pub twelve_ones : Bytes
twelve_ones = ones 12

abbrev frame : JsMap String Value
frame = ("op", str "join") ∷ ("ts", num 0) ∷ []

canonical_json-perm_example :
    canonical_json toy (object (("op", str "join") ∷ ("ts", num 0) ∷ []))
    ≡ canonical_json toy (object (("ts", num 0) ∷ ("op", str "join") ∷ []))
canonical_json-perm_example =
    canonical_json-perm toy (("op", str "join") ∷ ("ts", num 0) ∷ [])
      (("ts", num 0) ∷ ("op", str "join") ∷ []) (Permᴰ.swap refl refl) ((refl, tt), (tt, tt))

verify_frame-sign_frame_example :
    verify_frame toy (set frame "sig" (str (sign_frame toy frame (ones 3)))) (ones 3) ≡ true
unfolding sig_payload get canonical_json
verify_frame-sign_frame_example = verify_frame-sign_frame toy frame (ones 3) (ones 3) refl refl

open_payload-seal_example :
    open_payload toy
      (seal toy twelve_ones "iii" "id" "peer" (ones 2) (ones 4))
      "id"
      "peer"
      (ones 3)
      (ones 3)
    ≡ some "iii"
open_payload-seal_example =
    open_payload-seal toy twelve_ones "iii" "id" "peer" (ones 2) (ones 3) (ones 3) (ones 4) refl
      refl refl refl refl
