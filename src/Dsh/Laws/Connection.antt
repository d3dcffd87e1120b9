-- ===== src/Dsh/Laws/Connection.antt =====
-- The connection of dsh-plugin/src/client.ts as a state machine of its own: what its comments on the
-- sockets, the reconnects and `retarget` promise.
use dap.Common.{ℕ, suc, ◌≡◌, ◌≢◌, ◌⊎◌, Bool, true, false, Option, none, some, nat_eq}
use dap.JsMap.{get, set}
use dap.Client.State.{ReadyState, connecting, opened, closing, closed}
use dap.Dsh.Laws.Links.{Link}

abbrev pub mark : ℕ → ReadyState → Link → Link
mark n s l = record l { sockets = set l.sockets n s }

-- The current socket is told to close and is not the current one any more.
unfoldable pub unhooked : Link → Link
unhooked l = elim l.ws [
  | none ↦ l
  | some n ↦ elim (get l.sockets n) [
    | some closed ↦ record l { ws = none }
    | _ ↦ record (mark n closing l) { ws = none }
  ]
]

-- No dial is scheduled either.
abbrev pub released : Link → Link
released l = record (unhooked l) { retry_in = none }

-- A new socket, the current one.
abbrev pub dialled : Link → Link
dialled l = record l {
  ws = some l.next_socket;
  sockets = set l.sockets l.next_socket connecting;
  next_socket = suc l.next_socket;
}

abbrev pub is_live : Option ReadyState → Bool
is_live (some connecting) = true
is_live (some opened) = true
is_live _ = false

-- One move; `Unreadable` is what lets the last one happen.
pub data Move (Unreadable : Type 0) (l : Link) : Link → Type 0 where
  stays : Move Unreadable l l
  establishes : (n : ℕ) → get l.sockets n ≡ some connecting → Move Unreadable l (mark n opened l)
  shuts : (n : ℕ) → is_live (get l.sockets n) ≡ true → Move Unreadable l (mark n closing l)
  -- the current socket closes
  loses :
      (n : ℕ) (s : ReadyState) (ms : ℕ)
      → get l.sockets n ≡ some s
      → s ≢ closed
      → l.ws ≡ some n
      → Move Unreadable l (record (mark n closed l) { retry_in = some ms })
  -- one that was let go does
  fades :
      (n : ℕ) (s : ReadyState)
      → get l.sockets n ≡ some s
      → s ≢ closed
      → (l.ws ≢ some n) ⊎ (l.stopped ≡ true)
      → Move Unreadable l (mark n closed l)
  redials :
      (ms : ℕ)
      → l.retry_in ≡ some ms
      → l.stopped ≡ false
      → Move Unreadable l (dialled (record l { retry_in = none }))
  gives_up :
      (ms : ℕ)
      → l.retry_in ≡ some ms
      → l.stopped ≡ true
      → Move Unreadable l (record l { retry_in = none })
  stops : Move Unreadable l (record (released l) { stopped = true })
  retargets : Move Unreadable l (dialled (record (released l) { stopped = false }))
  breaks : Unreadable → Move Unreadable l (record (released l) { stopped = false })
