-- ===== src/Client/Laws/Roster.antt =====
-- A presence query of client.ts from the call that makes it to the roster that ends that call.
use dap.Common.{
  ℕ, ◌≡◌, refl, ap, sym, subst, ◌∙◌, true, none, some, String, List, [], ◌∷◌, ◌++◌, arith, ◌==◌,
  string_eq, if◌then◌else◌, filterb, ==_refl,
}
use dap.JsMap.{JsMap, get, delete, get-delete}
use dap.Json.{str, to_string}
use dap.Client.State.{
  Client, Host, PresenceAgent, PresenceWaiter, query, presence_answered, caller, returns, roster,
}
use dap.Client.Wire.{connected, is_opened, ws_send, settle}
use dap.Client.Calls.{presence, ask_presence, park_presence}
use dap.Client.Invites.{is_online}
use dap.Client.Handlers.{route_presence, presence_done}
use dap.Client.Resume.{run_job, resume}

get-parked :
    (m : JsMap String PresenceWaiter) (id j : String) (w : PresenceWaiter)
    → get m id ≡ none
    → get (m ++ (id, w) ∷ []) j ≡ (if id == j then some w else get m j)
unfolding get
get-parked [] id j w h = refl
get-parked ((i, v) ∷ m) id j w h = ground (
  arith,
  h,
  string_eq.same_iff i id,
  string_eq.same_iff i j,
  string_eq.same_iff id j,
  get-parked m id j w,
)

get-unparked :
    (m : JsMap String PresenceWaiter) (id j : String) (w : PresenceWaiter)
    → get m id ≡ none
    → get (delete (m ++ (id, w) ∷ []) id) j ≡ get m j
get-unparked m id j w h =
    get-delete (m ++ (id, w) ∷ []) id j
    ∙ ground (arith, h, string_eq.same_iff id j, get-parked m id j w h)

module _ (h : Host) where
  -- The query that `presence` parks.
  abbrev waiter_of : ℕ → Client → PresenceWaiter
  waiter_of n c = query (record { timer = c.timers; stack = presence_answered ∷ caller n ∷ [] })

  asked-fields :
      (n : ℕ) (c : Client)
      → connected c ≡ true
      → let asked = presence h (caller n ∷ []) c in
        (asked.jobs ≡ c.jobs)
        × (asked.results ≡ c.results)
        × (asked.presence_waiters ≡ c.presence_waiters ++ (h.uuid c.draws, waiter_of n c) ∷ [])
  unfolding presence ask_presence park_presence ws_send
  asked-fields n c up =
      let is_open : is_opened c.socket ≡ true = ground (arith, up) in
      rw (up, is_open) (refl, refl, refl)

  -- The client when the query is answered.
  abbrev answered_ : ℕ → String → List PresenceAgent → Client → Client
  answered_ n key agents c = record c {
    echo_seen = true;
    presence_waiters = delete c.presence_waiters key;
    jobs =
        record { stack = presence_answered ∷ caller n ∷ []; outcome = returns (roster agents) }
        ∷ [];
  }

  route_presence-parked :
      (n t : ℕ) (key : String) (agents : List PresenceAgent) (c : Client)
      → c.jobs ≡ []
      → get c.presence_waiters key
        ≡ some (query (record { timer = t; stack = presence_answered ∷ caller n ∷ [] }))
      → route_presence h (str key) agents c ≡ answered_ n key agents c
  unfolding route_presence presence_done settle to_string
  route_presence-parked n t key agents c idle parked =
      rw (parked, route_presence) (rw (idle, route_presence) refl)

  abbrev Ends : ℕ → String → List PresenceAgent → Client → Client → Type 0
  Ends n key agents c ended =
      (ended.results ≡ (n, returns (roster (filterb (λ a. is_online a.online) agents))) ∷ c.results)
      × (ended.jobs ≡ [])
      × (ended.presence_waiters ≡ delete c.presence_waiters key)

  jobs-Ends :
      (n : ℕ) (key : String) (agents : List PresenceAgent) (c : Client)
      → Ends n key agents c (run_job h (run_job h (answered_ n key agents c)))
  unfolding run_job resume settle
  jobs-Ends n key agents c = (refl, refl, refl)

  -- The answer and the two jobs that it makes due.
  answer-Ends :
      (n t : ℕ) (key : String) (agents : List PresenceAgent) (c : Client)
      → c.jobs ≡ []
      → get c.presence_waiters key
        ≡ some (query (record { timer = t; stack = presence_answered ∷ caller n ∷ [] }))
      → Ends n key agents c (run_job h (run_job h (route_presence h (str key) agents c)))
  answer-Ends n t key agents c idle parked =
      subst (λ d. Ends n key agents c (run_job h (run_job h d)))
        (sym (route_presence-parked n t key agents c idle parked)) (jobs-Ends n key agents c)

  -- A call of `presence` on a connected client with no jobs due, whose fresh query id is not taken,
  -- ends with the online agents of the answer that names its query, once the two jobs that this
  -- makes due have run; then no job is left, and every query is parked as before the call.
  pub run_job-presence :
      (n : ℕ) (agents : List PresenceAgent) (id : String) (c : Client)
      → connected c ≡ true
      → c.jobs ≡ []
      → get c.presence_waiters (h.uuid c.draws) ≡ none
      → let asked = presence h (caller n ∷ []) c in
        let answered = route_presence h (str (h.uuid c.draws)) agents asked in
        let ended = run_job h (run_job h answered) in
        (ended.results
          ≡ (n, returns (roster (filterb (λ a. is_online a.online) agents))) ∷ c.results)
        × (ended.jobs ≡ [])
        × (get ended.presence_waiters id ≡ get c.presence_waiters id)
  run_job-presence n agents id c up idle fresh =
      let key : String = h.uuid c.draws in
      let asked : Client = presence h (caller n ∷ []) c in
      let (jobs, results, waiters) = asked-fields n c up in
      let parked : get asked.presence_waiters key ≡ some (waiter_of n c) =
        ap (λ m. get m key) waiters
        ∙ get-parked c.presence_waiters key key (waiter_of n c) fresh
        ∙ rw (==_refl key) refl in
      let (ended, left, unparked) = answer-Ends n c.timers key agents asked (jobs ∙ idle) parked in
      (
        ended
            ∙ ap (λ r. (n, returns (roster (filterb (λ a. is_online a.online) agents))) ∷ r)
                results,
        left,
        ap (λ m. get m id) unparked
            ∙ ap (λ m. get (delete m key) id) waiters
            ∙ get-unparked c.presence_waiters key id (waiter_of n c) fresh,
      )
