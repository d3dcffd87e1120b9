-- ===== src/Client/Wire.antt =====
-- client.ts: sending frames, the bounded inbox and error ring, and the calls that wait.
use dap.Common.{
  ℕ, Bool, true, false, ◌&&◌, Option, none, some, String, List, [], ◌∷◌, ◌++◌, length, ltb,
  string_eq, nat_eq, if◌then◌else◌,
}
use dap.JsMap.{JsMap, set, delete}
use dap.Json.{str}
use dap.Config.{ConfigUpdate, persist_dap_config}
use dap.Crypto.{agent_id_of, sign_frame}
use dap.Client.State.{
  Frame, HubErrorEvent, MsgEvent, Outcome, Stack, Waiter, ReadyState, connecting, opened, Host,
  Client,
}

abbrev pub inbox_cap : ℕ
inbox_cap = 100

abbrev pub errors_cap : ℕ
errors_cap = 20

abbrev pub not_connected : String
not_connected = "not connected to the hub (reconnecting with backoff — retry in a moment)"

-- `xs.push(x); if (xs.length > cap) xs.shift();`
abbrev pub shift {ℓ} : {A : Type ℓ} → List A → List A
shift [] = []
shift (x ∷ xs) = xs

unfoldable pub push_bounded {ℓ} : {A : Type ℓ} → ℕ → List A → A → List A
push_bounded cap xs x =
    let pushed = xs ++ x ∷ [] in if ltb cap (length pushed) then shift pushed else pushed

abbrev pub is_opened : Option ReadyState → Bool
is_opened (some opened) = true
is_opened _ = false

abbrev pub is_connecting : Option ReadyState → Bool
is_connecting (some connecting) = true
is_connecting _ = false

abbrev pub connected : Client → Bool
connected c = c.welcomed && is_opened c.socket

-- A promise is settled: who waits runs as a job, after the code that runs now.
unfoldable pub settle : Stack → Outcome → Client → Client
settle [] o c = c
settle (a ∷ k) o c = record c { jobs = c.jobs ++ record { stack = a ∷ k; outcome = o } ∷ [] }

-- `for (const done of waiters) done(…)`
unfoldable pub settle_all : List Waiter → Outcome → Client → Client
unfolding settle
settle_all [] o c = c
settle_all (w ∷ ws) o c = settle_all ws o (settle w.stack o c)

-- `this.ws?.send(…)` on a socket that is no longer connecting: dropped unless it is open.
unfoldable pub ws_send : Frame → Client → Client
ws_send f c = if is_opened c.socket then record c { wire = f ∷ c.wire } else c

-- `sendFrame`: `none` where it throws.
unfoldable pub send_frame : Frame → Client → Option Client
send_frame f c = if is_opened c.socket then some (record c { wire = f ∷ c.wire }) else none

unfoldable pub ring_error : HubErrorEvent → Client → Client
unfolding push_bounded
ring_error event c = record c {
  error_ring = push_bounded errors_cap c.error_ring event;
  reported = event ∷ c.reported;
}

-- `for (const cb of this.listeners) cb(ev)`
abbrev pub tell_all : JsMap ℕ (Unit {0}) → MsgEvent → List (ℕ × MsgEvent) → List (ℕ × MsgEvent)
tell_all [] ev told = told
tell_all ((cb, _) ∷ cbs) ev told = tell_all cbs ev ((cb, ev) ∷ told)

-- `onMessage`, and the function that it returns
unfoldable pub on_message : ℕ → Client → Client
unfolding set
on_message cb c = record c { listeners = set c.listeners cb tt }

unfoldable pub off_message : ℕ → Client → Client
unfolding delete
off_message cb c = record c { listeners = delete c.listeners cb }

unfoldable pub deliver : MsgEvent → Client → Client
unfolding push_bounded
deliver ev c = record c {
  inbox = push_bounded inbox_cap c.inbox ev;
  observed = ev ∷ c.observed;
  told = tell_all c.listeners ev c.told;
}

unfoldable pub drain_inbox : Client → List MsgEvent × Client
drain_inbox c = (c.inbox, record c { inbox = [] })

unfoldable pub drain_errors : Client → List HubErrorEvent × Client
drain_errors c = (c.error_ring, record c { error_ring = [] })

module _ (h : Host) where
  abbrev pub agent_id : Client → String
  agent_id c = agent_id_of h.crypto c.identity.pub_key

  -- `signAndSend`: the signature is the last property.
  unfoldable pub sign_and_send : Frame → Client → Option Client
  unfolding send_frame
  sign_and_send frame c =
      send_frame (set frame "sig" (str (sign_frame h.crypto frame c.identity.priv))) c

  -- A `persistDapConfig` that names no channels: it does not throw.
  unfoldable pub persist_config : ConfigUpdate → Client → Client
  persist_config update c = elim (persist_dap_config h.parse h.print_config update c.config_file) [
    | none ↦ c
    | some text ↦ record c { config_file = some text }
  ]
