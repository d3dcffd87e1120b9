-- ===== src/Client/Laws/Sealing.antt =====
-- What one client of client.ts seals in a DM, and what another makes of it.
use dap.Common.{
  suc, ◌≡◌, refl, ap, ◌∙◌, true, false, none, some, String, [], ◌∷◌, ◌++◌, arith, length, string_eq,
  nat_beq, ==_refl,
}
use dap.JsMap.{get, set, get-set}
use dap.Json.{Value, str, num, to_string}
use dap.Crypto.{Bytes, derive_key, aad_of}
use dap.Crypto.Signing.{open_payload-seal}
use dap.Channels.{ChankeyInvite, ChannelKeys, parse_chankey_invite}
use dap.Client.State.{Client, Host, PeerInfo, MsgEvent, Frame, ChannelKey, ignored}
use dap.Client.Wire.{deliver, push_bounded, inbox_cap}
use dap.Client.Calls.{send_frame_of, keep_channel}
use dap.Client.Resume.{
  plain, decrypt_dm, receive, dm_event, accept_invite, invite_notice, or_failed,
}
use dap.Client.Laws.Frames.{kept, kept-join}

module _ (h : Host) where
  -- A DM that the hub passes on is the frame that was sent, with the sender's id.
  abbrev pub relayed : Frame → String → Frame
  relayed frame from = set frame "from" (str from)

  -- A DM that one client seals for another, relayed with its sender and a signature, decrypts at
  -- the other to the text that was sent, if the sender's key is known, the two sides agree on
  -- the secret, the nonce has 12 bytes, and base64, UTF-8 and the cipher give back what they
  -- were given.
  pub decrypt_dm-send_frame_of :
      (a b : Client) (to text id from : String) (sig : Value) (sender : PeerInfo) (x_pub : Bytes)
      → let p = h.crypto in
        let nonce = h.nonce (suc a.draws) in
        let key = derive_key p (p.shared_secret a.identity.x_priv x_pub) id in
        let aad = aad_of p id to in
        let ct = p.encrypt key nonce aad (p.utf8 text) in
        nat_beq (length sender.x_pub) 0 ≡ false
        → length nonce ≡ 12
        → p.shared_secret b.identity.x_priv sender.x_pub ≡ p.shared_secret a.identity.x_priv x_pub
        → p.b64d (p.b64e (nonce ++ ct)) ≡ nonce ++ ct
        → p.decrypt key nonce aad ct ≡ some (p.utf8 text)
        → p.decode_utf8 (p.utf8 text) ≡ text
        → decrypt_dm h
            (relayed (set (send_frame_of h "to" to id text x_pub a) "sig" sig) from)
            sender
            b
          ≡ plain (record {
            dm = true;
            channel = none;
            from = from;
            text = text;
            ts = num a.clock;
            invite = none;
          })
  unfolding decrypt_dm get set to_string
  decrypt_dm-send_frame_of a b to text id from sig sender x_pub has_key twelve agree b64 aead utf =
      let opens =
        open_payload-seal h.crypto (h.nonce (suc a.draws)) text id to a.identity.x_priv sender.x_pub
          b.identity.x_priv x_pub twelve agree b64 aead utf in
      rw has_key (
        ap
          (λ o.
            or_failed o h.open_error
              (dm_event h (relayed (set (send_frame_of h "to" to id text x_pub a) "sig" sig) from)))
          opens)

  -- A DM whose text parses as an invite never reaches the inbox as text: the inbox gets the
  -- notice, and the channel has the keys of the invite.
  pub receive-invite :
      (frame : Frame) (ev : MsgEvent) (i : ChankeyInvite) (c : Client)
      → ev.dm ≡ true
      → parse_chankey_invite h.parse h.crypto.b64d ev.text ≡ some i
      → ((receive h frame (plain ev) c).inbox
          ≡ push_bounded inbox_cap c.inbox (invite_notice h i ev))
        × (get (receive h frame (plain ev) c).channels i.channel
            ≡ some (record { name = i.channel; pub_key = i.pub_key; priv = some i.priv }))
  unfolding receive accept_invite deliver kept
  receive-invite frame ev i c dm accepted =
      let ch : ChannelKey = record { name = i.channel; pub_key = i.pub_key; priv = some i.priv } in
      let keys : ChannelKeys = record { pub_key = i.pub_key; priv = i.priv } in
      let same = kept-join i.channel i.pub_key (ignored ∷ []) (keep_channel h ch keys c) in
      let taken : receive h frame (plain ev) c ≡ accept_invite h i ev c = ground arith in
      (
        ap (λ d. d.inbox) taken
            ∙ ap (λ k. push_bounded inbox_cap k.inbox (invite_notice h i ev)) same,
        ap (λ d. get d.channels i.channel) taken
            ∙ ap (λ k. get k.channels i.channel) same
            ∙ rw (get-set c.channels i.channel i.channel ch) (rw (==_refl i.channel) refl),
      )
