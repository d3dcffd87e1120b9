-- ===== src/Crypto/Signing.antt =====
-- Signing, verification and sealing in crypto.ts, over primitives that do what they are documented
-- to do at the values at hand.
use dap.Common.{
  ◌≡◌, true, some, String, ◌++◌, arith, string_eq, take, drop, take-append, drop-append, length,
}
use dap.JsMap.{JsMap, set, get-set}
use dap.Json.{Value, str}
use dap.Crypto.{
  Bytes, Primitives, sig_payload, sign_frame, verify_frame, derive_key, aad_of, seal, open_payload,
}
use dap.Crypto.Canonical.{canonical_json-set_sig}

module _ (p : Primitives) where
  -- The signature covers every field but itself.
  sig_payload-set_sig :
      (frame : JsMap String Value) (v : Value)
      → sig_payload p (set frame "sig" v) ≡ sig_payload p frame
  unfolding sig_payload
  sig_payload-set_sig frame v =
      rw (get-set frame "sig" "op" v, get-set frame "sig" "ts" v, canonical_json-set_sig p frame v)

  -- A frame that carries the signature that `signFrame` made for it passes `verifyFrame` with the
  -- public key, if base64 gives the signature back and Ed25519 accepts it for the payload.
  pub verify_frame-sign_frame :
      (frame : JsMap String Value) (priv pub_key : Bytes)
      → let message = p.utf8 (sig_payload p frame) in
        p.b64d (p.b64e (p.ed_sign message priv)) ≡ p.ed_sign message priv
        → p.ed_verify (p.ed_sign message priv) message pub_key ≡ true
        → verify_frame p (set frame "sig" (str (sign_frame p frame priv))) pub_key ≡ true
  unfolding verify_frame sign_frame
  verify_frame-sign_frame frame priv pub_key decodes accepts =
      rw (get-set frame "sig" "sig" _) (rw (sig_payload-set_sig frame _) (rw decodes accepts))

  -- What the sender seals, the receiver opens, with the same frame id and peer: if the two sides
  -- agree on the secret, the nonce has 12 bytes, and base64, UTF-8 and the cipher give back what
  -- they were given.
  pub open_payload-seal :
      (nonce : Bytes) (plaintext frame_id peer : String) (a_priv a_pub b_priv b_pub : Bytes)
      → let key = derive_key p (p.shared_secret a_priv b_pub) frame_id in
        let aad = aad_of p frame_id peer in
        let ct = p.encrypt key nonce aad (p.utf8 plaintext) in
        length nonce ≡ 12
        → p.shared_secret b_priv a_pub ≡ p.shared_secret a_priv b_pub
        → p.b64d (p.b64e (nonce ++ ct)) ≡ nonce ++ ct
        → p.decrypt key nonce aad ct ≡ some (p.utf8 plaintext)
        → p.decode_utf8 (p.utf8 plaintext) ≡ plaintext
        → open_payload p
            (seal p nonce plaintext frame_id peer a_priv b_pub)
            frame_id
            peer
            b_priv
            a_pub
          ≡ some plaintext
  unfolding seal open_payload
  open_payload-seal nonce plaintext frame_id peer a_priv a_pub b_priv b_pub twelve agree b64 aead
        utf =
      let ct =
        p.encrypt (derive_key p (p.shared_secret a_priv b_pub) frame_id) nonce
          (aad_of p frame_id peer) (p.utf8 plaintext) in
      let front : take 12 (nonce ++ ct) ≡ nonce = rw (← twelve) (take-append nonce ct) in
      let back : drop 12 (nonce ++ ct) ≡ ct = rw (← twelve) (drop-append nonce ct) in
      ground (arith, front, back)
