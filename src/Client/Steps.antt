-- ===== src/Client/Steps.antt =====
-- client.ts: what can happen next to a client. Jobs run before the next event; the hub, the network,
-- the timers and the tools choose the events. A time limit may run out at any moment of a wait.
use dap.Common.{ℕ, suc, string_eq, ◌+◌, ◌≡◌, ◌≢◌, true, Option, none, some, String, List, [], ◌∷◌}
use dap.JsMap.{get}
use dap.Client.State.{
  caller, query, Waiter, ReadyState, connecting, opened, closed, Job, Identity, Host, Client,
  ChannelKey,
}
use dap.Client.Wire.{on_message, off_message, drain_inbox, drain_errors}
use dap.Client.Calls.{add_channel, send, dm, presence, whois, ensure_channel_keys, waiting_at}
use dap.Client.Invites.{invite_by_name, poll_pending_invites}
use dap.Client.Resume.{run_job}
use dap.Client.Handlers.{handle_raw}
use dap.Client.Socket.{
  connect, on_open, on_socket_error, on_unexpected_response, on_disconnect, start, stop, retarget,
  ready_times_out, presence_times_out, whois_times_out, join_times_out,
}

-- A call of the tools, made by the `n`-th of them.
pub data Call : Type 0 where
  sends dms invites : String → String → Call
  looks_up : String → Call
  lists_peers : Call

module _ (h : Host) where
  unfoldable pub call : Call → ℕ → Client → Client
  unfolding send dm invite_by_name whois presence
  call (sends channel text) n c = send h channel text (caller n ∷ []) c
  call (dms to text) n c = dm h to text (caller n ∷ []) c
  call (invites channel who) n c = invite_by_name h channel who (caller n ∷ []) c
  call (looks_up agent_id) n c = whois agent_id (caller n ∷ []) c
  call lists_peers n c = presence h (caller n ∷ []) c

  pub data Event (c : Client) : Client → Type 0 where
    opens : c.socket ≡ some connecting → Event c (on_open h c)
    receives :
        (raw : String) (c' : Client)
        → c.socket ≡ some opened
        → handle_raw h raw c ≡ some c'
        → Event c c'
    rejects : (code : ℕ) → c.socket ≡ some connecting → Event c (on_unexpected_response h code c)
    fails : (err : String) → Event c (on_socket_error h err c)
    closes :
        (s : ReadyState)
        → c.socket ≡ some s
        → Event c (on_disconnect h (record c { socket = some closed }))
    -- the late `close` of a socket that `stop` let go
    retired_closes :
        (n : ℕ) → c.retired ≡ suc n → Event c (on_disconnect h (record c { retired = n }))
    retries : (ms : ℕ) → c.retry_in ≡ some ms → Event c (connect h (record c { retry_in = none }))
    polls : c.polling ≡ true → Event c (poll_pending_invites h c)
    ready_ends : (t : ℕ) → Event c (ready_times_out h t c)
    presence_ends :
        (id : String) (w : Waiter)
        → get c.presence_waiters id ≡ some (query w)
        → Event c (presence_times_out h id (query w) c)
    whois_ends :
        (agent_id : String) (t : ℕ)
        → waiting_at c.whois_waiters agent_id ≢ []
        → Event c (whois_times_out h agent_id t c)
    join_ends :
        (name : String) (t : ℕ)
        → waiting_at c.join_waiters name ≢ []
        → Event c (join_times_out h name t c)
    passes : (ms : ℕ) → Event c (record c { clock = c.clock + ms })
    calls : (request : Call) (n : ℕ) → Event c (call request n c)
    adds_channel : (ch : ChannelKey) → Event c (add_channel ch c)
    listens : (cb : ℕ) → Event c (on_message cb c)
    unlistens : (cb : ℕ) → Event c (off_message cb c)
    ensures_keys : (name : String) → Event c (ensure_channel_keys h name c).1
    drains_inbox : Event c (drain_inbox c).1
    drains_errors : Event c (drain_errors c).1
    starts : Event c (start h c)
    stops : Event c (stop h c)
    retargets :
        (url : Option String) (keys : Option Identity) (name : Option String)
        → Event c (retarget h url keys name c)

  pub data Step (c : Client) : Client → Type 0 where
    runs : (j : Job) (js : List Job) → c.jobs ≡ j ∷ js → Step c (run_job h c)
    occurs : {c' : Client} → c.jobs ≡ [] → Event c c' → Step c c'

  pub data Reach (c : Client) : Client → Type 0 where
    here : Reach c c
    next : {d e : Client} → Reach c d → Step d e → Reach c e
