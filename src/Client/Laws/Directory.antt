-- ===== src/Client/Laws/Directory.antt =====
-- The directory lookups of client.ts.
use dap.Common.{
  append_nil, append_assoc, ◌≡◌, refl, sym, ap, ◌∙◌, none, some, List, [], ◌∷◌, ◌++◌, string_eq,
  ==_refl,
}
use dap.JsMap.{get, set, delete, get-set, get-delete}
use dap.Client.State.{Client, Host, Stack, Outcome, returns, peer, Waiter, Frame, Job}
use dap.Client.Wire.{settle, settle_all}
use dap.Client.Calls.{agent_info, waiting_at}
use dap.Client.Handlers.{on_agent_info, peer_info}
use dap.Client.Laws.Frames.{kept, kept-settle_all}

-- The job that waking one stack adds.
abbrev due : Stack → Outcome → List Job → List Job
due [] o js = js
due (a ∷ k) o js = record { stack = a ∷ k; outcome = o } ∷ js

-- The jobs that waking a list of waiters adds.
abbrev pub woken : List Waiter → Outcome → List Job
woken [] o = []
woken (w ∷ ws) o = due w.stack o (woken ws o)

jobs-settle :
    (k : Stack) (o : Outcome) (c : Client) (js : List Job)
    → (settle k o c).jobs ++ js ≡ c.jobs ++ due k o js
unfolding settle
jobs-settle [] o c js = refl
jobs-settle (a ∷ k) o c js = append_assoc c.jobs (record { stack = a ∷ k; outcome = o } ∷ []) js

jobs-settle_all :
    (ws : List Waiter) (o : Outcome) (c : Client) → (settle_all ws o c).jobs ≡ c.jobs ++ woken ws o
unfolding settle_all
jobs-settle_all [] o c = sym (append_nil c.jobs)
jobs-settle_all (w ∷ ws) o c =
    jobs-settle_all ws o (settle w.stack o c) ∙ jobs-settle w.stack o c (woken ws o)

module _ (h : Host) where
  -- The directory's answer wakes every call that waits for that agent, in order, and leaves none
  -- parked; after it, a lookup of the agent is answered from the cache, with no frame sent.
  pub agent_info-on_agent_info :
      (frame : Frame) (c : Client) (k : Stack)
      → let id = (peer_info h frame).agent_id in
        let d = on_agent_info h frame c in
        (d.jobs
          ≡ c.jobs ++ woken (waiting_at c.whois_waiters id) (returns (peer (peer_info h frame))))
        × (waiting_at d.whois_waiters id ≡ [])
        × (agent_info id k d ≡ settle k (returns (peer (peer_info h frame))) d)
  unfolding on_agent_info agent_info kept
  agent_info-on_agent_info frame c k =
      let info = peer_info h frame in
      let id = info.agent_id in
      let cached = record c { known = set c.known id info } in
      let same = kept-settle_all (waiting_at c.whois_waiters id) (returns (peer info)) cached in
      let hit : get (on_agent_info h frame c).known id ≡ some info =
        ap (λ k. get k.known id) same ∙ rw (get-set c.known id id info) (rw (==_refl id) refl) in
      let gone : get (delete c.whois_waiters id) id ≡ none =
        get-delete c.whois_waiters id id ∙ rw (==_refl id) refl in
      (
        jobs-settle_all (waiting_at c.whois_waiters id) (returns (peer info)) cached,
        ap (λ o. elim o [ none ↦ [] | some ws ↦ ws ]) gone,
        rw (hit, agent_info) refl,
      )
