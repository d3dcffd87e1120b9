-- ===== src/Dsh/Wire.antt =====
-- dsh-plugin/src/client.ts: sending frames, the error ring, and settling what waits.
use dap.Common.{
  ℕ, Bool, true, false, ◌&&◌, Option, none, some, String, List, [], ◌∷◌, ◌++◌, if◌then◌else◌,
  string_eq, nat_eq,
}
use dap.JsMap.{get, set}
use dap.Json.{str}
use dap.Config.{ConfigUpdate, persist_dap_config}
use dap.Crypto.{agent_id_of, sign_frame}
use dap.Client.State.{Frame, ReadyState}
use dap.Client.Wire.{push_bounded, is_opened, is_connecting}
use dap.Dsh.State.{HubErrorEvent, Outcome, Stack, Waiter, on_hub_error, Host, Client}

abbrev pub inbox_cap : ℕ
inbox_cap = 100

abbrev pub errors_cap : ℕ
errors_cap = 20

abbrev pub not_connected : String
not_connected = "not connected to the hub (reconnecting with backoff — retry in a moment)"

-- What `send` throws on a socket that is still connecting.
abbrev pub still_connecting : String
still_connecting = "WebSocket is not open: readyState 0 (CONNECTING)"

-- `this.ws?.readyState`
unfoldable pub ready_state : Client → Option ReadyState
unfolding get
ready_state c = elim c.ws [ none ↦ none | some n ↦ get c.sockets n ]

abbrev pub connected : Client → Bool
connected c = c.welcomed && is_opened (ready_state c)

unfoldable pub settle : Stack → Outcome → Client → Client
settle [] o c = c
settle (a ∷ k) o c = record c { jobs = c.jobs ++ record { stack = a ∷ k; outcome = o } ∷ [] }

unfoldable pub settle_all : List Waiter → Outcome → Client → Client
unfolding settle
settle_all [] o c = c
settle_all (w ∷ ws) o c = settle_all ws o (settle w.stack o c)

-- `this.ws?.send(…)`, and whether it returned: it throws on a socket that is still connecting, and
-- on one that closes or is closed the frame is dropped.
unfoldable pub ws_send : Frame → Client → Client × Bool
ws_send f c =
    if is_connecting (ready_state c)
    then (c, false)
    else (if is_opened (ready_state c) then record c { wire = (c.ws, f) ∷ c.wire } else c, true)

unfoldable pub surface_error : String → String → Client → Client
unfolding push_bounded
surface_error code msg c =
    let event : HubErrorEvent = record { code = code; msg = msg; ts = c.clock } in
    record c {
      error_ring = push_bounded errors_cap c.error_ring event;
      hooks = on_hub_error event ∷ c.hooks;
    }

unfoldable pub drain_errors : Client → List HubErrorEvent × Client
drain_errors c = (c.error_ring, record c { error_ring = [] })

module _ (h : Host) where
  abbrev pub agent_id : Client → String
  agent_id c = agent_id_of h.crypto c.identity.ed_pub

  -- `signAndSend`: `none` where it throws.
  unfoldable pub sign_and_send : Frame → Client → Option Client
  sign_and_send frame c =
      if is_opened (ready_state c)
      then some (record c {
        wire =
            (c.ws, set frame "sig" (str (sign_frame h.crypto frame c.identity.ed_priv))) ∷ c.wire;
      })
      else none

  unfoldable pub persist_config : ConfigUpdate → Client → Client
  persist_config update c = elim (persist_dap_config h.parse h.print_config update c.config_file) [
    | none ↦ c
    | some text ↦ record c { config_file = some text }
  ]
