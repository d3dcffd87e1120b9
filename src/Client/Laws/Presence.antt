-- ===== src/Client/Laws/Presence.antt =====
-- How presence frames in client.ts reach the queries that wait for them.
use dap.Common.{
  List-cases, ℕ, zero, suc, ◌+◌, ◌-◌, ◌≤◌, ◌≡◌, ◌≢◌, refl, ap, ◌∙◌, true, false, not, ◌||◌, ◌&&◌,
  none, some, String, List, [], ◌∷◌, ◌++◌, arith, ltb, ◌==◌, string_eq, Bool-cases, Option-cases,
  inl, inr, ==_ne, ==_refl,
}
use dap.JsMap.{get, delete, get-delete}
use dap.Json.{Value, undefined, to_string}
use dap.Client.State.{
  Client, Host, Outcome, returns, throws, roster, PresenceAgent, PresenceWaiter, query, warm_up,
  Stack, Frame,
}
use dap.Client.Wire.{settle, connected, ws_send, is_opened}
use dap.Client.Calls.{warm_up_presence, park_presence, presence_query}
use dap.Client.Invites.{text_of}
use dap.Client.Handlers.{unpark, presence_done, visits, complete_all, route_presence}

pub waiters-settle :
    (k : Stack) (o : Outcome) (c : Client) → (settle k o c).presence_waiters ≡ c.presence_waiters
unfolding settle
waiters-settle [] o c = refl
waiters-settle (a ∷ k) o c = refl

waiters-ws_send : (f : Frame) (c : Client) → (ws_send f c).presence_waiters ≡ c.presence_waiters
unfolding ws_send
waiters-ws_send f c = elim (Bool-cases (is_opened c.socket)) [
  | inl is_open ↦ rw is_open refl
  | inr shut ↦ rw shut refl
]

module _ (h : Host) where
  waiters-presence_done :
      (key id : String) (w : PresenceWaiter) (o : Outcome) (c : Client)
      → c.echo_seen ≡ true
      → (key == id) ≡ false
      → get (presence_done h key w o c).presence_waiters id ≡ get c.presence_waiters id
  unfolding presence_done
  waiters-presence_done key id (query w) o c armed ne =
      ap (λ m. get m id) (waiters-settle w.stack o (unpark h key c))
      ∙ rw (get-delete c.presence_waiters key id) (rw ne refl)
  waiters-presence_done key id (warm_up n) (throws e) c armed ne =
      rw (get-delete c.presence_waiters key id) (rw ne refl)
  waiters-presence_done key id (warm_up n) (returns r) c armed ne =
      rw armed (rw (get-delete c.presence_waiters key id) (rw ne refl))

  -- What `route_presence` does with an answer.
  abbrev answer : String → List PresenceAgent → Client → Client
  answer key agents c = elim (get c.presence_waiters key) [
    | none ↦ record c { echo_seen = true }
    | some w ↦ presence_done h key w (returns (roster agents)) (record c { echo_seen = true })
  ]

  waiters-answer :
      (key id : String) (agents : List PresenceAgent) (c : Client)
      → (key == id) ≡ false
      → get (answer key agents c).presence_waiters id ≡ get c.presence_waiters id
  waiters-answer key id agents c ne = elim (Option-cases (get c.presence_waiters key)) [
    | inl nobody ↦ rw (nobody, answer) refl
    | inr (w, parked) ↦
        rw (parked, answer)
          (waiters-presence_done key id w (returns (roster agents)) (record c { echo_seen = true })
            refl ne)
  ]

  not_named : (key id : String) → some key ≢ some id → (key == id) ≡ false
  not_named key id other = ==_ne key id (λ e. other (ap some e))

  -- Once the echo latch is armed, a presence frame leaves every query parked but the one that it
  -- names, if it names one.
  pub route_presence-others :
      (reply_to : Value) (agents : List PresenceAgent) (c : Client) (id : String)
      → c.echo_seen ≡ true
      → text_of reply_to ≢ some id
      → get (route_presence h reply_to agents c).presence_waiters id ≡ get c.presence_waiters id
  unfolding route_presence
  route_presence-others undefined agents c id armed other = rw armed refl
  route_presence-others reply_to agents c id armed other =
      waiters-answer (to_string reply_to) id agents c (not_named (to_string reply_to) id other)

  visits-append :
      (m n : List (String × PresenceWaiter)) → visits h (m ++ n) ≡ visits h m + visits h n
  visits-append [] n = omega arith
  visits-append ((id, query w) ∷ m) n = omega (arith, visits-append m n)
  visits-append ((id, warm_up a) ∷ m) n = omega (arith, visits-append m n)

  visits-delete :
      (m : List (String × PresenceWaiter)) (id : String) → visits h (delete m id) ≤ visits h m
  unfolding delete
  visits-delete [] id = omega arith
  visits-delete ((j, query w) ∷ m) id = ground (arith, visits-delete m id)
  visits-delete ((j, warm_up a) ∷ m) id = ground (arith, visits-delete m id)

  visits-warm_up :
      (n : ℕ) (c : Client)
      → visits h (warm_up_presence h n c).presence_waiters
        ≤ visits h c.presence_waiters + suc (2 - n)
  unfolding warm_up_presence park_presence
  visits-warm_up n c = elim (Bool-cases (c.echo_seen || not (connected c))) [
    | inl skip ↦ rw skip (omega arith)
    | inr ask ↦ rw ask (
        rw
          (waiters-ws_send (presence_query (h.uuid c.draws))
            (park_presence h (h.uuid c.draws) (warm_up n) (record c { draws = suc c.draws })))
          (omega (arith, visits-append c.presence_waiters ((h.uuid c.draws, warm_up n) ∷ []))))
  ]

  -- How many turns of the loop a `done` leaves.
  abbrev later : PresenceWaiter → ℕ
  later (query w) = 0
  later (warm_up n) = 2 - n

  visits-presence_done :
      (id : String) (w : PresenceWaiter) (o : Outcome) (c : Client)
      → visits h (presence_done h id w o c).presence_waiters
        ≤ visits h (delete c.presence_waiters id) + later w
  unfolding presence_done
  visits-presence_done id (query w) o c =
      rw (waiters-settle w.stack o (unpark h id c)) (omega arith)
  visits-presence_done id (warm_up n) (throws e) c = omega arith
  visits-presence_done id (warm_up n) (returns r) c =
      elim (Bool-cases (not c.echo_seen && ltb n 2)) [
        | inl again ↦ rw again (ground (arith, visits-warm_up (suc n) (unpark h id c)))
        | inr enough ↦ rw enough (omega arith)
      ]

  visits_none : (m : List (String × PresenceWaiter)) → visits h m ≤ 0 → m ≡ []
  visits_none [] e = refl
  visits_none ((id, query w) ∷ m) e = absurd (omega arith)
  visits_none ((id, warm_up n) ∷ m) e = absurd (omega arith)

  delete-first :
      (id : String) (w : PresenceWaiter) (m : List (String × PresenceWaiter))
      → delete ((id, w) ∷ m) id ≡ delete m id
  unfolding delete
  delete-first id w m = rw (==_refl id) refl

  visits-cons :
      (id : String) (w : PresenceWaiter) (m : List (String × PresenceWaiter))
      → visits h ((id, w) ∷ m) ≡ suc (later w + visits h m)
  visits-cons id (query w) m = omega arith
  visits-cons id (warm_up n) m = omega arith

  visits-turn :
      (id : String) (w : PresenceWaiter) (m : List (String × PresenceWaiter)) (o : Outcome)
      (c : Client) (fuel : ℕ)
      → c.presence_waiters ≡ (id, w) ∷ m
      → visits h c.presence_waiters ≤ suc fuel
      → visits h (presence_done h id w o c).presence_waiters ≤ fuel
  visits-turn id w m o c fuel first enough =
      let left : visits h (delete c.presence_waiters id) ≤ visits h m =
        rw first (rw (delete-first id w m) (visits-delete m id)) in
      let all : visits h c.presence_waiters ≡ suc (later w + visits h m) =
        rw first (visits-cons id w m) in
      omega (arith, left, all, enough, visits-presence_done id w o c)

  complete_all_lem :
      (fuel : ℕ) (o : Outcome) (c : Client)
      → visits h c.presence_waiters ≤ fuel
      → (complete_all h fuel o c).presence_waiters ≡ []
  unfolding complete_all
  complete_all_lem zero o c enough = visits_none c.presence_waiters enough
  complete_all_lem (suc fuel) o c enough = elim (List-cases c.presence_waiters) [
    | inl none_left ↦ rw (none_left, complete_all) none_left
    | inr ((id, w), m, first) ↦
        rw (first, complete_all)
          (complete_all_lem fuel o (presence_done h id w o c)
            (visits-turn id w m o c fuel first enough))
  ]

  -- The loop that completes every parked presence query ends, whatever the warm-up parks meanwhile,
  -- and leaves none parked.
  pub complete_all-visits :
      (o : Outcome) (c : Client)
      → (complete_all h (visits h c.presence_waiters) o c).presence_waiters ≡ []
  complete_all-visits o c = complete_all_lem (visits h c.presence_waiters) o c (omega arith)
