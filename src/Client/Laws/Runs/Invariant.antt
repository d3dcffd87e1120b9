-- ===== src/Client/Laws/Runs/Invariant.antt =====
-- client.ts: the inbox, the error ring and the delays in every run of the client.
use dap.Common.{
  ◌+◌, ◌≤◌, arith, [], ◌∷◌, subst, Bool, true, false, Option, none, some, String, ◌==◌, string_eq,
  if◌then◌else◌, ℕ,
}
use dap.Json.{Value, undefined, null, bool, num, str, arr, obj, prop, to_string, entries}
use dap.Client.State.{Client, Frame, Host, Identity, query, caller, closed}
use dap.Client.Wire.{on_message, off_message, inbox_cap, errors_cap, drain_inbox, drain_errors}
use dap.Client.Calls.{add_channel, send, dm, whois, presence, ensure_channel_keys}
use dap.Client.Invites.{invite_by_name, poll_pending_invites}
use dap.Client.Handlers.{
  handle_frame, handle_raw, dispatch, handle_value, frame_kind, on_joined, on_agent_info,
  on_enrolled, secret_of,
}
use dap.Client.Launch.{Options, Disk, or_default, new_client}
use dap.Client.Steps.{Call, sends, dms, invites, looks_up, lists_peers, call, Event, Step, Reach}
use dap.Client.Laws.Runs.Noted.{IsWindow-drained, Noted, noted, Sound}
use dap.Client.Laws.Runs.Stable.{IsStable, Holds, Holds-noted}
use dap.Client.Laws.Runs.Bounds.{IsSound-IsStable}
use dap.Client.Laws.Runs.Calls.{
  noted-on_message, noted-off_message, noted-add_channel, noted-send, noted-dm, noted-whois,
  noted-presence, noted-poll_pending_invites, noted-ensure_channel_keys,
}
use dap.Client.Laws.Runs.Invites.{noted-invite_by_name}
use dap.Client.Laws.Runs.Hub.{
  HoldsAny, Holds-on_presence, Holds-on_error, noted-on_joined, noted-on_agent_info,
  noted-on_enrolled,
}
use dap.Client.Laws.Runs.Jobs.{Holds-on_msg, Holds-run_job}
use dap.Client.Laws.Runs.Socket.{
  Holds-on_welcome, Holds-on_unexpected_response, Holds-on_open, Holds-on_socket_error,
  Holds-on_disconnect, Holds-connect, Holds-start, Holds-stop, Holds-retarget,
  Holds-ready_times_out, Holds-presence_times_out, Holds-whois_times_out, Holds-join_times_out,
}

module _ {P : Noted → Type 0} (stable : IsStable P) (h : Host) where
  HoldsAny-if :
      (b : Bool) (x y : Option Client)
      → HoldsAny stable h x
      → HoldsAny stable h y
      → HoldsAny stable h (if b then x else y)
  HoldsAny-if true x y s t = s
  HoldsAny-if false x y s t = t

  Holds-handle_frame :
      (kind : String) (f : Frame) (c : Client)
      → Holds P c
      → HoldsAny stable h (handle_frame h kind f c)
  unfolding handle_frame
  Holds-handle_frame kind f c s =
      HoldsAny-if (kind == "welcome") _ _ (Holds-on_welcome stable h c s) (
        HoldsAny-if (kind == "joined") _ _
          (Holds-noted stable (on_joined (to_string (prop f "channel")) c) c
            (noted-on_joined (to_string (prop f "channel")) c) s)
          (HoldsAny-if (kind == "agent_info") _ _
            (Holds-noted stable (on_agent_info h f c) c (noted-on_agent_info h f c) s)
            (HoldsAny-if (kind == "presence") _ _ (Holds-on_presence stable h f c s) (
              HoldsAny-if (kind == "msg") _ _ (Holds-on_msg stable h f c s) (
                HoldsAny-if (kind == "error") _ _ (Holds-on_error stable f c s) (
                  HoldsAny-if (kind == "enrolled") _ _
                    (Holds-noted stable (on_enrolled h (secret_of h (prop f "secret")) c) c
                      (noted-on_enrolled h (secret_of h (prop f "secret")) c) s)
                    s))))))

  Holds-dispatch :
      (v : Value) (f : Frame) (c : Client) → Holds P c → HoldsAny stable h (dispatch h v f c)
  Holds-dispatch (str kind) f c s = Holds-handle_frame kind f c s
  Holds-dispatch undefined f c s = s
  Holds-dispatch null f c s = s
  Holds-dispatch (bool b) f c s = s
  Holds-dispatch (num n) f c s = s
  Holds-dispatch (arr vs) f c s = s
  Holds-dispatch (obj fs) f c s = s

  Holds-handle_value : (v : Value) (c : Client) → Holds P c → HoldsAny stable h (handle_value h v c)
  Holds-handle_value (obj fs) c s = Holds-dispatch (frame_kind h (entries fs)) (entries fs) c s
  Holds-handle_value undefined c s = tt
  Holds-handle_value null c s = tt
  Holds-handle_value (str t) c s = s
  Holds-handle_value (bool b) c s = s
  Holds-handle_value (num n) c s = s
  Holds-handle_value (arr vs) c s = s

  Holds-bad_frame :
      (err : String) (c : Client) → Holds P c → Holds P (record c { last_error = err })
  unfolding noted
  Holds-bad_frame err c s = s

  Holds-read :
      (read : Option Value) (c : Client)
      → Holds P c
      → HoldsAny stable h (elim read [
        | none ↦ some (record c { last_error = "bad frame (not JSON)" })
        | some v ↦ handle_value h v c
      ])
  Holds-read none c s = Holds-bad_frame "bad frame (not JSON)" c s
  Holds-read (some v) c s = Holds-handle_value v c s

  Holds-handle_raw :
      (raw : String) (c : Client) → Holds P c → HoldsAny stable h (handle_raw h raw c)
  unfolding handle_raw
  Holds-handle_raw raw c s = Holds-read (h.parse raw) c s

  Holds-call : (request : Call) (n : ℕ) (c : Client) → Holds P c → Holds P (call h request n c)
  unfolding call
  Holds-call (sends channel text) n c s =
      Holds-noted stable (send h channel text (caller n ∷ []) c) c
        (noted-send h channel text (caller n ∷ []) c) s
  Holds-call (dms to text) n c s =
      Holds-noted stable (dm h to text (caller n ∷ []) c) c (noted-dm h to text (caller n ∷ []) c) s
  Holds-call (invites channel who) n c s =
      Holds-noted stable (invite_by_name h channel who (caller n ∷ []) c) c
        (noted-invite_by_name h channel who (caller n ∷ []) c) s
  Holds-call (looks_up id) n c s =
      Holds-noted stable (whois id (caller n ∷ []) c) c (noted-whois id (caller n ∷ []) c) s
  Holds-call lists_peers n c s =
      Holds-noted stable (presence h (caller n ∷ []) c) c (noted-presence h (caller n ∷ []) c) s

  -- Steps that set a field that the invariant is not about.
  Holds-fields :
      (n ms : ℕ) (c : Client)
      → Holds P c
      → Holds P (record c { retired = n })
        × Holds P (record c { clock = c.clock + ms })
        × Holds P (record c { socket = some closed })
  unfolding noted
  Holds-fields n ms c s = (s, s, s)

  Holds-drain_inbox : (c : Client) → Holds P c → Holds P (drain_inbox c).1
  unfolding drain_inbox noted
  Holds-drain_inbox c s = stable.inbox_drained (noted c) s

  Holds-drain_errors : (c : Client) → Holds P c → Holds P (drain_errors c).1
  unfolding drain_errors noted
  Holds-drain_errors c s = stable.errors_drained (noted c) s

  Holds-retries : (c : Client) → Holds P c → Holds P (record c { retry_in = none })
  unfolding noted
  Holds-retries c s = stable.no_retry (noted c) s

  Event-Holds : (c d : Client) → Event h c d → Holds P c → Holds P d
  Event-Holds c d (Event.opens up) s = Holds-on_open stable h c s
  Event-Holds c d (Event.receives raw d' up e) s =
      subst (HoldsAny stable h) e (Holds-handle_raw raw c s)
  Event-Holds c d (Event.rejects code dialling) s = Holds-on_unexpected_response stable h code c s
  Event-Holds c d (Event.fails err) s = Holds-on_socket_error stable h err c s
  Event-Holds c d (Event.closes r e) s = Holds-on_disconnect stable h _ (Holds-fields 0 0 c s).2
  Event-Holds c d (Event.retired_closes n e) s =
      Holds-on_disconnect stable h _ (Holds-fields n 0 c s).0
  Event-Holds c d (Event.retries ms e) s = Holds-connect stable h _ (Holds-retries c s)
  Event-Holds c d (Event.polls e) s =
      Holds-noted stable (poll_pending_invites h c) c (noted-poll_pending_invites h c) s
  Event-Holds c d (Event.ready_ends t) s = Holds-ready_times_out stable h t c s
  Event-Holds c d (Event.presence_ends id w e) s =
      Holds-presence_times_out stable h id (query w) c s
  Event-Holds c d (Event.whois_ends id t e) s = Holds-whois_times_out stable h id t c s
  Event-Holds c d (Event.join_ends name t e) s = Holds-join_times_out stable h name t c s
  Event-Holds c d (Event.passes ms) s = (Holds-fields 0 ms c s).1
  Event-Holds c d (Event.calls request n) s = Holds-call request n c s
  Event-Holds c d (Event.adds_channel ch) s =
      Holds-noted stable (add_channel ch c) c (noted-add_channel ch c) s
  Event-Holds c d (Event.listens cb) s =
      Holds-noted stable (on_message cb c) c (noted-on_message cb c) s
  Event-Holds c d (Event.unlistens cb) s =
      Holds-noted stable (off_message cb c) c (noted-off_message cb c) s
  Event-Holds c d (Event.ensures_keys name) s =
      Holds-noted stable (ensure_channel_keys h name c).1 c (noted-ensure_channel_keys h name c) s
  Event-Holds c d Event.drains_inbox s = Holds-drain_inbox c s
  Event-Holds c d Event.drains_errors s = Holds-drain_errors c s
  Event-Holds c d Event.starts s = Holds-start stable h c s
  Event-Holds c d Event.stops s = Holds-stop stable h c s
  Event-Holds c d (Event.retargets url keys name) s = Holds-retarget stable h url keys name c s

  Step-Holds : (c d : Client) → Step h c d → Holds P c → Holds P d
  Step-Holds c d (Step.runs j js e) s = Holds-run_job stable h c s
  Step-Holds c d (Step.occurs e event) s = Event-Holds c d event s

  pub Reach-Holds : (c d : Client) → Holds P c → Reach h c d → Holds P d
  Reach-Holds c d s Reach.here = s
  Reach-Holds c d s (Reach.next {d = m} run step) = Step-Holds m d step (Reach-Holds c m s run)

module _ (h : Host) where
  Sound-launch :
      (o : Options) (disk : Disk) (identity : Identity)
      → or_default o.initial_ms 1000 ≤ or_default o.max_ms 30000
      → Sound (new_client h o disk identity)
  unfolding new_client noted
  Sound-launch o disk identity limits = record {
    messages = IsWindow-drained inbox_cap [];
    errors = IsWindow-drained errors_cap [];
    limits = limits;
    least = omega arith;
    most = limits;
    retry = λ ms e. absurd (ground (arith, e));
  }

  -- In every state that a new client reaches, if its initial delay is at most its maximum: the inbox
  -- has at most 100 messages and the error ring at most 20 errors, and each is the newest part of
  -- what was delivered, in its order, with none left out; the delay is between the initial one and
  -- the maximum, and so is that of the dial that is scheduled, if one is.
  pub new_client-Sound :
      (o : Options) (disk : Disk) (identity : Identity) (d : Client)
      → or_default o.initial_ms 1000 ≤ or_default o.max_ms 30000
      → Reach h (new_client h o disk identity) d
      → Sound d
  new_client-Sound o disk identity d limits run =
      Reach-Holds IsSound-IsStable h (new_client h o disk identity) d
        (Sound-launch o disk identity limits) run
