-- ===== src/Channels/Laws.antt =====
-- The channels file keeps what was persisted, and an invite is read back by its recipient.
use text.Mathlib.TextEquality.{eq_iff}
use dap.Common.{
  ◌≡◌, refl, ap, ◌∙◌, sym, true, Option, none, some, String, [], ◌∷◌, map, length, ◌==◌, string_eq,
  if◌then◌else◌, arith, Option-cases, Bool-cases, inl, inr,
}
use dap.JsMap.{JsMap, get, HasDistinctKeys, get-IsFresh}
use dap.JsObject.{put, is_proto, string_name, get-put, put-HasDistinctKeys, first_of_both}
use dap.Json.{Value, str, obj, object, entries, prop, entries-of_entries, of_entries-entries}
use dap.Config.{spread}
use dap.Crypto.{Bytes}
use dap.Channels.{
  ChannelKeys, ChankeyInvite, channel_keys, load_from, keys_value, channels_object,
  starts_with_brace, chankey_payload, invite_of, invite_in, load_channel_keys, persist_channel_keys,
  parse_chankey_invite,
}

load_from-HasDistinctKeys :
    (out : JsMap String ChannelKeys) (raw : JsMap String Value)
    → HasDistinctKeys out
    → HasDistinctKeys (load_from out raw)
unfolding load_from
load_from-HasDistinctKeys out [] h = h
load_from-HasDistinctKeys out ((name, keys) ∷ raw) h = elim (Option-cases (channel_keys keys)) [
  | inl bad ↦ rw (bad, load_from) (load_from-HasDistinctKeys out raw h)
  | inr (k, good) ↦
      rw (good, load_from)
        (load_from-HasDistinctKeys (put out name k) raw (put-HasDistinctKeys out name k h))
]

encoded : JsMap String ChannelKeys → JsMap String Value
encoded m = map (λ e. (e.0, keys_value e.1)) m

get-load_from :
    (out m : JsMap String ChannelKeys) (k : String)
    → HasDistinctKeys m
    → get (load_from out (encoded m)) k
      ≡ (if is_proto k then get out k else first_of_both (get m k) (get out k))
unfolding load_from encoded get
get-load_from out [] k h = ground arith
get-load_from out ((n, v) ∷ m) k h =
    get-load_from (put out n v) m k h.1
    ∙ ground (arith, get-put out n k v, eq_iff n k, get-IsFresh n m h.0)

-- No channel is named `__proto__`.
put-nameless :
    (m : JsMap String ChannelKeys) (name k : String) (keys : ChannelKeys)
    → is_proto k ≡ true
    → get m k ≡ none
    → get (put m name keys) k ≡ none
put-nameless m name k keys p h = ground (arith, get-put m name k keys, eq_iff name k, p, h)

load_from-nameless :
    (out : JsMap String ChannelKeys) (raw : JsMap String Value) (k : String)
    → is_proto k ≡ true
    → get out k ≡ none
    → get (load_from out raw) k ≡ none
unfolding load_from
load_from-nameless out [] k p h = h
load_from-nameless out ((name, keys) ∷ raw) k p h = elim (Option-cases (channel_keys keys)) [
  | inl bad ↦ rw (bad, load_from) (load_from-nameless out raw k p h)
  | inr (c, good) ↦
      rw (good, load_from)
        (load_from-nameless (put out name c) raw k p (put-nameless out name k c p h))
]

-- What a file without `__proto__` has is what is read from it.
kept_name :
    (m : JsMap String ChannelKeys) (k : String)
    → (is_proto k ≡ true → get m k ≡ none)
    → (if is_proto k then none else first_of_both (get m k) none) ≡ get m k
kept_name m k h = elim (Bool-cases (is_proto k)) [
  | inl p ↦ ground (arith, p, h p)
  | inr p ↦ ground (arith, p)
]

spread-object : (m : JsMap String Value) → spread (object m) ≡ m
spread-object m = entries-of_entries m

module _ (parse : String → Option Value) where
  load-HasDistinctKeys : (file : Option String) → HasDistinctKeys (load_channel_keys parse file)
  unfolding load_channel_keys
  load-HasDistinctKeys none = tt
  load-HasDistinctKeys (some text) = elim (Option-cases (parse text)) [
    | inl bad ↦ rw (bad, load_channel_keys) tt
    | inr (raw, good) ↦ rw (good, load_channel_keys) (load_from-HasDistinctKeys [] (spread raw) tt)
  ]

  load-parsed :
      (text : String) (v : Value)
      → parse text ≡ some v
      → load_channel_keys parse (some text) ≡ load_from [] (spread v)
  unfolding load_channel_keys
  load-parsed text v e = rw (e, load_channel_keys)

  load-nameless :
      (file : Option String) (k : String)
      → is_proto k ≡ true
      → get (load_channel_keys parse file) k ≡ none
  unfolding load_channel_keys get
  load-nameless none k p = refl
  load-nameless (some text) k p = elim (Option-cases (parse text)) [
    | inl bad ↦ rw (bad, load_channel_keys) refl
    | inr (raw, good) ↦ rw (good, load_channel_keys) (load_from-nameless [] (spread raw) k p refl)
  ]

  -- If what is written is read back, the channels file has under every other name the keypair that
  -- it had, and under its name the new keypair, unless that name is `__proto__`: then the file has
  -- the keypairs that it had, and not the new one.
  pub load-persist_channel_keys :
      (print : Value → String) (file : Option String) (name : String) (keys : ChannelKeys)
      (k : String)
      → let next = channels_object (put (load_channel_keys parse file) name keys) in
        parse (print next) ≡ some next
        → get (load_channel_keys parse (some (persist_channel_keys parse print file name keys))) k
          ≡ (if is_proto name
              then get (load_channel_keys parse file) k
              else if name == k
              then some keys
              else get (load_channel_keys parse file) k)
  unfolding persist_channel_keys encoded get
  load-persist_channel_keys print file name keys k back =
      let old : JsMap String ChannelKeys = load_channel_keys parse file in
      let m : JsMap String ChannelKeys = put old name keys in
      let distinct : HasDistinctKeys m =
        put-HasDistinctKeys old name keys (load-HasDistinctKeys file) in
      ap (λ c. get c k) (load-parsed (print (channels_object m)) (channels_object m) back)
      ∙ ap (λ c. get (load_from [] c) k) (spread-object (encoded m))
      ∙ get-load_from [] m k distinct
      ∙ kept_name m k (λ p. put-nameless old name k keys p (load-nameless file k p))
      ∙ get-put old name k keys

  module _ (b64d : String → Bytes) where
    abbrev pub IsInvite : JsMap String Value → ChankeyInvite → Type 0
    IsInvite m i =
        (prop m "t" ≡ str "chankey")
        × (prop m "channel" ≡ str i.channel)
        × (prop m "pub" ≡ str i.pub_key)
        × (prop m "priv" ≡ str i.priv)
        × (length (b64d i.pub_key) ≡ 32)
        × (length (b64d i.priv) ≡ 32)

    invite_of_sound :
        (t c p q : Value) (i : ChankeyInvite)
        → invite_of b64d t c p q ≡ some i
        → (t ≡ str "chankey")
          × (c ≡ str i.channel)
          × (p ≡ str i.pub_key)
          × (q ≡ str i.priv)
          × (length (b64d i.pub_key) ≡ 32)
          × (length (b64d i.priv) ≡ 32)
    invite_of_sound (str t) (str c) (str p) (str q) i e = ground (arith, eq_iff t "chankey")
    invite_of_sound _ _ _ _ i e = cc

    invite_in_sound :
        (v : Value) (i : ChankeyInvite)
        → invite_in b64d v ≡ some i
        → (m : JsMap String Value) × (v ≡ object m) × IsInvite m i
    invite_in_sound (obj fs) i e =
        (entries fs, ap obj (sym (of_entries-entries fs)), invite_of_sound _ _ _ _ i e)
    invite_in_sound _ i e = cc

    -- The text of an invite for two keys of 32 bytes, which JSON reads back and which starts with a
    -- brace, is accepted as that invite.
    pub parse_chankey_invite-payload :
        (text : String) (i : ChankeyInvite)
        → starts_with_brace text ≡ true
        → parse text ≡ some (object (chankey_payload i))
        → length (b64d i.pub_key) ≡ 32
        → length (b64d i.priv) ≡ 32
        → parse_chankey_invite parse b64d text ≡ some i
    unfolding parse_chankey_invite get
    parse_chankey_invite-payload text i brace parsed p q = rw (brace, parsed) (rw (p, q) refl)

    -- Only the text of a JSON object is taken for an invite, and then both keys have 32 bytes and
    -- the object's properties are those of the invite.
    pub parse_chankey_invite_sound :
        (text : String) (i : ChankeyInvite)
        → parse_chankey_invite parse b64d text ≡ some i
        → (m : JsMap String Value) × (parse text ≡ some (object m)) × IsInvite m i
    unfolding parse_chankey_invite
    parse_chankey_invite_sound text i e = elim (Option-cases (parse text)) [
      | inl bad ↦ ground arith
      | inr (v, parsed) ↦
          let accepted : invite_in b64d v ≡ some i = ground arith in
          let (m, is_object, is_invite) = invite_in_sound v i accepted in
          (m, parsed ∙ ap some is_object, is_invite)
    ]
