-- ===== src/Client/Laws/Runs/Jobs.antt =====
-- What messages and the jobs of client.ts do to the inbox, the errors and the delays.
use dap.Common.{
  ◌≡◌, refl, ◌∙◌, Bool, false, Option, none, some, String, List, [], ◌∷◌, string_eq, ℕ, length,
}
use dap.Json.{prop, to_string}
use dap.Crypto.{◌+s+◌}
use dap.Channels.{ChankeyInvite, ChannelKeys, parse_chankey_invite}
use dap.Config.{PendingInvite, no_update}
use dap.Client.State.{
  whois_found, Client, ChannelKey, Frame, Host, Outcome, Await, Stack, Job, MsgEvent, throws,
  returns, peer, roster, key, sent, join_ready, ensure_joined, send_ensured, send_ready, dm_whois,
  dm_ready, invite_ensured, invite_sent, by_name_presence, arm_ensured, presence_answered,
  deliver_presence, deliver_invited, msg_whois, ignored, surfaced, caller,
}
use dap.Client.Wire.{deliver, persist_config}
use dap.Client.Calls.{join, keep_channel}
use dap.Client.Invites.{surface_invite_failure, remove_delivered, remove_at, invited_notice}
use dap.Client.Resume.{
  undecryptable, accept_invite, receive, on_msg, Decrypted, failed, plain, decrypt_msg,
  invite_notice, resume, run_job, send_result,
}
use dap.Client.Laws.Runs.Noted.{Noted, noted}
use dap.Client.Laws.Runs.Stable.{
  IsStable, Holds, Holds-if, Holds-noted, Holds-ring_error, Holds-deliver,
}
use dap.Client.Laws.Runs.Calls.{
  noted-settle, noted-join, noted-join_when_ready, noted-ready, noted-send_sealed, noted-dm_to_peer,
  noted-invite_with_keys, noted-persist_config, noted-keep_channel, noted-agent_info,
}
use dap.Client.Laws.Runs.Invites.{noted-invite_matching, noted-arm_when_ensured, noted-deliver_from}

module _ {P : Noted → Type 0} (stable : IsStable P) where
  Holds-undecryptable :
      (f : Frame) (err : String) (c : Client) → Holds P c → Holds P (undecryptable f err c)
  unfolding undecryptable noted
  Holds-undecryptable f err c s =
      Holds-ring_error stable _ (record c { last_error = "undecryptable msg: " +s+ err }) s

  Holds-surface_invite_failure :
      (err : String) (c : Client) → Holds P c → Holds P (surface_invite_failure err c)
  unfolding surface_invite_failure noted
  Holds-surface_invite_failure err c s =
      Holds-ring_error stable _ (record c { last_error = "pending invite check failed: " +s+ err })
        s

  noted_delivering : (b : Bool) (c : Client) → noted (record c { delivering = b }) ≡ noted c
  unfolding noted
  noted_delivering b c = refl

  Holds-result :
      (n : ℕ) (o : Outcome) (c : Client)
      → Holds P c
      → Holds P (record c { results = (n, o) ∷ c.results })
  unfolding noted
  Holds-result n o c s = s

  Holds-jobs : (js : List Job) (c : Client) → Holds P c → Holds P (record c { jobs = js })
  unfolding noted
  Holds-jobs js c s = s

  module _ (h : Host) where
    Holds-remove_delivered :
        (i : ℕ) (pending : PendingInvite) (c : Client)
        → Holds P c
        → Holds P (remove_delivered h i pending c)
    unfolding remove_delivered noted
    Holds-remove_delivered i pending c s =
        let left : List PendingInvite = remove_at i c.pending_invites in
        let listed : Client = record c { pending_invites = left } in
        let saved : Client = persist_config h (record no_update { invites = some left }) listed in
        Holds-deliver stable (invited_notice h pending saved) saved (
          Holds-noted stable saved c
            (noted-persist_config h (record no_update { invites = some left }) listed) s)

    Holds-accept_invite :
        (i : ChankeyInvite) (ev : MsgEvent) (c : Client)
        → Holds P c
        → Holds P (accept_invite h i ev c)
    unfolding accept_invite
    Holds-accept_invite i ev c s =
        let ch : ChannelKey = record {
          name = i.channel;
          pub_key = i.pub_key;
          priv = some i.priv;
        } in
        let keys : ChannelKeys = record { pub_key = i.pub_key; priv = i.priv } in
        let held : Client = keep_channel h ch keys c in
        let joining : Client = join i.channel i.pub_key (ignored ∷ []) held in
        Holds-deliver stable (invite_notice h i ev) joining (
          Holds-noted stable joining c
            (noted-join i.channel i.pub_key (ignored ∷ []) held ∙ noted-keep_channel h ch keys c) s)

    Holds-invited :
        (found : Option ChankeyInvite) (ev : MsgEvent) (c : Client)
        → Holds P c
        → Holds P (elim found [ none ↦ deliver ev c | some i ↦ accept_invite h i ev c ])
    Holds-invited none ev c s = Holds-deliver stable ev c s
    Holds-invited (some i) ev c s = Holds-accept_invite i ev c s

    pub Holds-receive :
        (f : Frame) (d : Decrypted) (c : Client) → Holds P c → Holds P (receive h f d c)
    unfolding receive
    Holds-receive f (failed e) c s = Holds-undecryptable f e c s
    Holds-receive f (plain ev) c s =
        let found : Option ChankeyInvite = parse_chankey_invite h.parse h.crypto.b64d ev.text in
        Holds-if stable ev.dm (elim found [ none ↦ deliver ev c | some i ↦ accept_invite h i ev c ])
          (deliver ev c) (Holds-invited found ev c s) (Holds-deliver stable ev c s)

    pub Holds-on_msg : (f : Frame) (c : Client) → Holds P c → Holds P (on_msg h f c)
    unfolding on_msg
    Holds-on_msg f c s =
        Holds-noted stable (on_msg h f c) c
          (noted-agent_info (to_string (prop f "from")) (msg_whois f ∷ []) c) s

    -- Whatever a promise is settled with, what runs after the await keeps it.
    Holds-resume :
        (a : Await) (k : Stack) (o : Outcome) (c : Client) → Holds P c → Holds P (resume h a k o c)
    unfolding resume
    Holds-resume (join_ready name chan_pubkey) k (returns r) c s =
        Holds-noted stable _ c (noted-join_when_ready name chan_pubkey k c) s
    Holds-resume (ensure_joined ch created) k (returns r) c s =
        Holds-noted stable _ c (noted-settle k (returns (key ch created)) c) s
    Holds-resume (send_ensured channel text) k (returns (key ch created)) c s =
        Holds-noted stable _ c (noted-ready (send_ready channel text ch created ∷ k) c) s
    Holds-resume (send_ready channel text ch created) k (returns r) c s =
        Holds-noted stable _ c
          (noted-send_sealed h "channel" channel text (h.crypto.b64d ch.pub_key)
            (λ id. record (send_result h id channel c) {
              created = created;
              chan_pubkey = some ch.pub_key;
            })
            k c)
          s
    Holds-resume whois_found k (returns (peer p)) c s =
        Holds-noted stable _ c (noted-settle k _ c) s
    Holds-resume (dm_whois to text) k (returns (peer p)) c s =
        Holds-noted stable _ c (noted-dm_to_peer h to text p k c) s
    Holds-resume (dm_ready to text p) k (returns r) c s =
        Holds-noted stable _ c
          (noted-send_sealed h "to" to text p.x_pub
            (λ id. record (send_result h id to c) { channel = none; to = some to }) k c)
          s
    Holds-resume (invite_ensured channel to) k (returns (key ch created)) c s =
        Holds-noted stable _ c (noted-invite_with_keys h channel to ch created k c) s
    Holds-resume (invite_sent channel ch created) k (returns (sent r)) c s =
        Holds-noted stable _ c (noted-settle k _ c) s
    Holds-resume (by_name_presence channel who) k (returns (roster agents)) c s =
        Holds-noted stable _ c (noted-invite_matching h channel who agents k c) s
    Holds-resume (arm_ensured name channel) k (returns r) c s =
        Holds-noted stable _ c (noted-arm_when_ensured h name channel k c) s
    Holds-resume presence_answered k (returns (roster agents)) c s =
        Holds-noted stable _ c (noted-settle k _ c) s
    Holds-resume deliver_presence k (returns (roster agents)) c s =
        Holds-noted stable _ c (noted-deliver_from h (length c.pending_invites) agents k c) s
    Holds-resume deliver_presence k (throws e) c s =
        Holds-noted stable _ c
          (noted-settle k (throws e) (record c { delivering = false }) ∙ noted_delivering false c) s
    Holds-resume (deliver_invited i pending agents) k (returns r) c s =
        let left : Client = remove_delivered h i pending c in
        Holds-noted stable _ left (noted-deliver_from h i agents k left)
          (Holds-remove_delivered i pending c s)
    Holds-resume (deliver_invited i pending agents) k (throws e) c s =
        Holds-noted stable _ c (noted-deliver_from h i agents k c) s
    Holds-resume (msg_whois f) k (returns (peer p)) c s = Holds-receive f (decrypt_msg h f p c) c s
    Holds-resume (msg_whois f) k (throws e) c s = Holds-undecryptable f e c s
    Holds-resume ignored k o c s = s
    Holds-resume surfaced k (throws e) c s = Holds-surface_invite_failure e c s
    Holds-resume (caller n) k o c s = Holds-result n o c s
    Holds-resume a k (throws e) c s = Holds-noted stable _ c (noted-settle k (throws e) c) s
    Holds-resume a k (returns r) c s = s

    Holds-run :
        (k : Stack) (o : Outcome) (c : Client)
        → Holds P c
        → Holds P (elim k [ [] ↦ c | a ∷ more ↦ resume h a more o c ])
    Holds-run [] o c s = s
    Holds-run (a ∷ more) o c s = Holds-resume a more o c s

    Holds-due :
        (jobs : List Job) (c : Client)
        → Holds P c
        → Holds P (elim jobs [
          | [] ↦ c
          | j ∷ js ↦ elim j.stack [
            | [] ↦ record c { jobs = js }
            | a ∷ k ↦ resume h a k j.outcome (record c { jobs = js })
          ]
        ])
    Holds-due [] c s = s
    Holds-due (j ∷ js) c s =
        Holds-run j.stack j.outcome (record c { jobs = js }) (Holds-jobs js c s)

    pub Holds-run_job : (c : Client) → Holds P c → Holds P (run_job h c)
    unfolding run_job
    Holds-run_job c s = Holds-due c.jobs c s
