-- ===== src/Dsh/Steps.antt =====
-- dsh-plugin/src: what can happen next to a plugin. Jobs run before the next event; the hub, the
-- network, the timers and the tools choose the events. A time limit may run out at any moment of a
-- wait, and a socket may have events after the client has let it go.
use dap.Common.{ℕ, ◌+◌, ◌≡◌, ◌≢◌, true, none, some, String, List, [], ◌∷◌, nat_eq}
use dap.JsMap.{get}
use dap.Client.State.{ReadyState, connecting, opened, closing, closed}
use dap.Dsh.State.{Host, Client, Job}
use dap.Dsh.Inbound.{handle_raw}
use dap.Dsh.Socket.{
  is_current, turn, connect, on_open, on_close, on_error, on_unexpected_response, stop,
  ready_times_out, presence_times_out, whois_times_out,
}
use dap.Dsh.Plugin.{Plugin, Tool, with_client, run_hooks, poll_pending}
use dap.Dsh.Invites.{run_job}
use dap.Dsh.Tools.{call_tool}

-- An event of the client, and the hooks that it called.
unfoldable pub acts : Host → Client → Plugin → Plugin
unfolding run_hooks
acts h c p = run_hooks h (with_client c p)

module _ (h : Host) where
  -- What can happen to the client.
  pub data Happens (c : Client) : Client → Type 0 where
    opens : (n : ℕ) → get c.sockets n ≡ some connecting → Happens c (on_open h n (turn n opened c))
    -- a message on a socket that was let go is ignored
    receives :
        (n : ℕ) (raw : String) (c' : Client)
        → get c.sockets n ≡ some opened
        → is_current n c ≡ true
        → handle_raw h raw c ≡ some c'
        → Happens c c'
    rejects :
        (n code : ℕ)
        → get c.sockets n ≡ some connecting
        → Happens c (on_unexpected_response h n code c)
    errs : (n : ℕ) (err : String) → Happens c (on_error h n err c)
    -- the watchdog's `terminate`
    expires :
        (n : ℕ) → c.watched ≡ some n → get c.sockets n ≡ some opened → Happens c (turn n closing c)
    closes :
        (n : ℕ) (s : ReadyState)
        → get c.sockets n ≡ some s
        → s ≢ closed
        → Happens c (on_close h n (turn n closed c))
    retries : (ms : ℕ) → c.retry_in ≡ some ms → Happens c (connect h (record c { retry_in = none }))
    ready_ends : (t : ℕ) → Happens c (ready_times_out t c)
    presence_ends : (id : String) → Happens c (presence_times_out id c)
    whois_ends : (agent_id : String) (t : ℕ) → Happens c (whois_times_out agent_id t c)
    passes : (ms : ℕ) → Happens c (record c { clock = c.clock + ms })
    disposes : Happens c (stop h c)

  pub data Step (p : Plugin) : Plugin → Type 0 where
    runs : (j : Job) (js : List Job) → p.client.jobs ≡ j ∷ js → Step p (run_job h p)
    happens : {c : Client} → p.client.jobs ≡ [] → Happens p.client c → Step p (acts h c p)
    polls : p.client.jobs ≡ [] → Step p (poll_pending h p)
    calls : (tool : Tool) (n : ℕ) → p.client.jobs ≡ [] → Step p (call_tool h tool n p)

  pub data Reach (p : Plugin) : Plugin → Type 0 where
    here : Reach p p
    next : {q r : Plugin} → Reach p q → Step q r → Reach p r
