-- ===== src/Client/Laws/Runs/Socket.antt =====
-- What the events of the socket and the timers of client.ts do to the inbox, the errors and the
-- delays.
use dap.Common.{
  [], Bool-cases, inl, inr, ℕ, ◌*◌, min, ◌≡◌, refl, sym, subst, true, false, not, ◌&&◌, Option,
  none, some, String, nat_beq, string_eq,
}
use dap.JsMap.{is_some}
use dap.Json.{decimal}
use dap.Crypto.{◌+s+◌}
use dap.Config.{env_str, no_update, purge}
use dap.Client.State.{Client, Host, Identity, PresenceWaiter, throws, opened, HubErrorEvent}
use dap.Client.Wire.{ring_error, persist_config, is_opened}
use dap.Client.Invites.{error_event}
use dap.Client.Handlers.{on_welcome}
use dap.Client.Socket.{
  or_kept, connect, on_open, send_hello, on_socket_error, on_unexpected_response,
  recover_stale_secret, on_disconnect, start, stop, retarget, fail_waiters, ready_times_out,
  presence_times_out, whois_times_out, join_times_out, dial_401_help, is_config,
}
use dap.Client.Laws.Retarget.{kept-fail_waiters}
use dap.Client.Laws.Backoff.{kept-on_welcome}
use dap.Client.Laws.Runs.Noted.{Noted, noted, noted_of, noted_same}
use dap.Client.Laws.Runs.Stable.{IsStable, Holds, Holds-if, Holds-noted, Holds-ring_error}
use dap.Client.Laws.Runs.Calls.{noted-settle, noted-ws_send, noted-persist_config}
use dap.Client.Laws.Runs.Hub.{noted-presence_done}

module _ {P : Noted → Type 0} (stable : IsStable P) (h : Host) where
  pub Holds-on_welcome : (c : Client) → Holds P c → Holds P (on_welcome h c)
  unfolding noted
  Holds-on_welcome c s =
      subst (λ k. P (noted_of k)) (sym (kept-on_welcome h c)) (stable.reset (noted c) s)

  noted-connect : (c : Client) → noted (connect h c) ≡ noted c
  unfolding connect noted
  noted-connect c = elim (Bool-cases c.stopped) [
    | inl stops ↦ rw stops refl
    | inr runs ↦ rw runs refl
  ]

  Holds-recover_stale_secret : (c : Client) → Holds P c → Holds P (recover_stale_secret h c)
  unfolding recover_stale_secret noted
  Holds-recover_stale_secret c s =
      let dropped : Client = record c { re_enrolled = true } in
      let purged : Client = persist_config h (record no_update { client_secret = purge }) dropped in
      Holds-if stable
        (is_config c.dial_source
          && not c.re_enrolled
          && is_some (env_str h.environment.master_secret))
        purged c
        (Holds-noted stable purged dropped
          (noted-persist_config h (record no_update { client_secret = purge }) dropped)
          (stable.recovered (noted c) s))
        s

  pub Holds-on_unexpected_response :
      (code : ℕ) (c : Client) → Holds P c → Holds P (on_unexpected_response h code c)
  unfolding on_unexpected_response noted
  Holds-on_unexpected_response code c s =
      let told : Client = record c { last_error = dial_401_help } in
      let event : HubErrorEvent = error_event "unauthorized" dial_401_help c in
      let rung : Client = ring_error event told in
      Holds-if stable (nat_beq code 401) (recover_stale_secret h rung)
        (record c { last_error = "Unexpected server response: " +s+ decimal code })
        (Holds-recover_stale_secret rung (Holds-ring_error stable event told s)) s

  noted-send_hello : (c : Client) → noted (send_hello h c) ≡ noted c
  unfolding send_hello noted
  noted-send_hello c = noted-ws_send _ _

  pub Holds-on_open : (c : Client) → Holds P c → Holds P (on_open h c)
  unfolding on_open noted
  Holds-on_open c s =
      let up : Client = record c { socket = some opened; watched = true } in
      Holds-noted stable (send_hello h up) up (noted-send_hello up) s

  pub Holds-on_socket_error :
      (err : String) (c : Client) → Holds P c → Holds P (on_socket_error h err c)
  unfolding on_socket_error noted
  Holds-on_socket_error err c s =
      Holds-if stable (is_opened c.socket) (record c { last_error = err }) c s s

  noted-fail_waiters : (err : String) (c : Client) → noted (fail_waiters h err c) ≡ noted c
  noted-fail_waiters err c = noted_same (fail_waiters h err c) c (kept-fail_waiters h err c)

  pub Holds-on_disconnect : (c : Client) → Holds P c → Holds P (on_disconnect h c)
  unfolding on_disconnect noted
  Holds-on_disconnect c s =
      let down : Client = record c { watched = false; welcomed = false } in
      let err : String = "connection closed — client stopped" in
      Holds-if stable c.stopped (fail_waiters h err down)
        (record c {
          watched = false;
          welcomed = false;
          retry_in = some c.delay;
          delay = min (c.delay * 2) c.max_ms;
        })
        (Holds-noted stable (fail_waiters h err down) down (noted-fail_waiters err down) s)
        (stable.doubled (noted c) s)

  pub Holds-connect : (c : Client) → Holds P c → Holds P (connect h c)
  Holds-connect c s = Holds-noted stable (connect h c) c (noted-connect c) s

  pub Holds-start : (c : Client) → Holds P c → Holds P (start h c)
  unfolding start noted
  Holds-start c s = Holds-connect (record c { stopped = false }) s

  pub Holds-stop : (c : Client) → Holds P c → Holds P (stop h c)
  unfolding stop noted
  Holds-stop c s = stable.no_retry (noted c) s

  pub Holds-retarget :
      (url : Option String) (keys : Option Identity) (name : Option String) (c : Client)
      → Holds P c
      → Holds P (retarget h url keys name c)
  unfolding retarget noted
  Holds-retarget url keys name c s =
      let free : Client = record c { retry_in = none; watched = false; socket = none } in
      let err : String = "retargeted — in-flight hub call dropped, retry on the new connection" in
      let failed : Client = fail_waiters h err free in
      let holds : Holds P failed =
        Holds-noted stable failed free (noted-fail_waiters err free)
          (stable.no_retry (noted c) s) in
      let redirected : Client = record failed {
        welcomed = false;
        stopped = false;
        url = or_kept h url failed.url;
        identity = elim keys [ none ↦ failed.identity | some id ↦ id ];
        name = elim name [ none ↦ failed.name | some n ↦ some n ];
        known = [];
        joined = [];
        delay = failed.initial_ms;
      } in
      Holds-connect redirected (stable.reset (noted failed) holds)

  pub Holds-ready_times_out : (t : ℕ) (c : Client) → Holds P c → Holds P (ready_times_out h t c)
  unfolding ready_times_out noted
  Holds-ready_times_out t c s = Holds-noted stable (ready_times_out h t c) c (noted-settle _ _ _) s

  pub Holds-presence_times_out :
      (id : String) (w : PresenceWaiter) (c : Client)
      → Holds P c
      → Holds P (presence_times_out h id w c)
  unfolding presence_times_out
  Holds-presence_times_out id w c s =
      Holds-noted stable (presence_times_out h id w c) c
        (noted-presence_done h id w (throws "timeout waiting for presence") c) s

  pub Holds-whois_times_out :
      (id : String) (t : ℕ) (c : Client) → Holds P c → Holds P (whois_times_out h id t c)
  unfolding whois_times_out noted
  Holds-whois_times_out id t c s =
      Holds-noted stable (whois_times_out h id t c) c (noted-settle _ _ _) s

  pub Holds-join_times_out :
      (name : String) (t : ℕ) (c : Client) → Holds P c → Holds P (join_times_out h name t c)
  unfolding join_times_out noted
  Holds-join_times_out name t c s =
      Holds-noted stable (join_times_out h name t c) c (noted-settle _ _ _) s
