-- ===== src/Client/Laws/Identity.antt =====
-- The key files of client.ts.
use dap.Common.{
  ◌≡◌, refl, subst, true, Option, none, some, String, arith, Bool-cases, Option-cases, inl, inr,
  string_eq,
}
use dap.JsMap.{get}
use dap.Json.{object, entries-of_entries}
use dap.Crypto.{KeyPair}
use dap.Client.State.{Identity}
use dap.Client.Identity.{
  KeyCodec, is_whole, drawn_identity, identity_of, identity_in, key_file, load_identity,
}

module _ (k : KeyCodec) where
  -- What the two drawn keypairs and the codec have to satisfy: the keys have 32 bytes, base64 gives
  -- them back, and the file that is written parses to the object that was written.
  pub record IsDrawn (ed x : KeyPair) : Type 0 where
    pub whole : is_whole (drawn_identity ed x) ≡ true
    pub priv : k.b64d (k.b64e ed.priv) ≡ ed.priv
    pub pub_key : k.b64d (k.b64e ed.pub_key) ≡ ed.pub_key
    pub x_priv : k.b64d (k.b64e x.priv) ≡ x.priv
    pub x_pub : k.b64d (k.b64e x.pub_key) ≡ x.pub_key
    pub codec : k.parse (k.print (key_file k ed x)) ≡ some (object (key_file k ed x))

  identity_of-key_file :
      (ed x : KeyPair) → IsDrawn ed x → identity_of k (key_file k ed x) ≡ some (drawn_identity ed x)
  unfolding identity_of get
  identity_of-key_file ed x d = ground (arith, d.priv, d.pub_key, d.x_priv, d.x_pub)

  load-generated :
      (ed x ed' x' : KeyPair)
      → IsDrawn ed x
      → load_identity k (some (k.print (key_file k ed x))) ed' x'
        ≡ some (drawn_identity ed x, some (k.print (key_file k ed x)))
  unfolding load_identity
  load-generated ed x ed' x' d =
      ground
        (arith, d.codec, d.whole, identity_of-key_file ed x d, entries-of_entries (key_file k ed x))

  -- A load that gives something gives it again.
  abbrev IsStable : KeyPair → KeyPair → Option (Identity × Option String) → Type 0
  IsStable ed' x' none = Unit
  IsStable ed' x' (some (id, after)) = load_identity k after ed' x' ≡ some (id, after)

  load_identity-IsStable :
      (file : Option String) (ed x ed' x' : KeyPair)
      → IsDrawn ed x
      → IsStable ed' x' (load_identity k file ed x)
  unfolding load_identity
  load_identity-IsStable none ed x ed' x' d = load-generated ed x ed' x' d
  load_identity-IsStable (some text) ed x ed' x' d = elim (Option-cases (k.parse text)) [
    | inl garbled ↦ rw (garbled, IsStable, load_identity) tt
    | inr (v, parsed) ↦ elim (Option-cases (identity_in k v)) [
      | inl partial ↦ rw (parsed, partial, IsStable, load_identity) tt
      | inr (id, read) ↦ elim (Bool-cases (is_whole id)) [
        | inl whole ↦
            rw (parsed, read, whole, IsStable, load_identity)
              (rw (parsed, read, whole, load_identity) refl)
        | inr short ↦
            rw (parsed, read, short, IsStable, load_identity) (load-generated ed x ed' x' d)
      ]
    ]
  ]

  -- What is loaded from a key file stays: whatever the file was, if a load gives an identity, then a
  -- load of the file that it leaves gives the same identity and leaves that file alone, where base64
  -- and the codec give back the keys that were drawn, of 32 bytes each.
  pub load_identity_stable :
      (file : Option String) (ed x ed' x' : KeyPair) (id : Identity) (after : Option String)
      → IsDrawn ed x
      → load_identity k file ed x ≡ some (id, after)
      → load_identity k after ed' x' ≡ some (id, after)
  load_identity_stable file ed x ed' x' id after d e =
      subst (IsStable ed' x') e (load_identity-IsStable file ed x ed' x' d)
