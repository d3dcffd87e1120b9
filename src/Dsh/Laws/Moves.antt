-- ===== src/Dsh/Laws/Moves.antt =====
-- dsh-plugin/src implements the state machine of its connection.
use dap.Common.{
  ℕ, ◌≡◌, ◌≢◌, refl, ◌∙◌, ap, sym, subst, Bool, true, false, ◌&&◌, not, Option, none, some, String,
  [], nat_eq, if◌then◌else◌, nat_beq, Bool-cases, Option-cases, inl, inr, arith,
}
use dap.JsMap.{get, is_some}
use dap.Client.State.{ReadyState, connecting, closing, closed}
use dap.Dsh.State.{Host, Client, Identity}
use dap.Client.Wire.{is_opened}
use dap.Dsh.Wire.{surface_error}
use dap.Dsh.Handlers.{fail_whois_waiters}
use dap.Config.{env_str, no_update, purge}
use dap.Client.Socket.{is_config}
use dap.Dsh.Socket.{
  is_current, turn, let_go, connect, send_hello, on_disconnect, on_open, on_close, on_error,
  recover_stale_secret, on_unexpected_response, stop, set_free, dial_as, retarget, auth_required,
}
use dap.Dsh.Steps.{
  Happens, opens, receives, rejects, errs, expires, closes, retries, ready_ends, presence_ends,
  whois_ends, passes, disposes,
}
use dap.Dsh.Laws.Links.{Link, link, link-if, link-ws_send, link-persist_config}
use dap.Dsh.Laws.Handled.{
  link-fail_whois_waiters, link-handle_raw, link-ready_times_out, link-presence_times_out,
  link-whois_times_out,
}
use dap.Dsh.Laws.Connection.{
  Move, mark, unhooked, released, dialled, stays, establishes, shuts, loses, fades, redials,
  gives_up, stops, retargets, breaks,
}

-- A key file that `loadIdentity` throws on.
abbrev pub Unreadable : Host → Type 0
Unreadable h = (path : String) × (h.identity path ≡ none)

link-let_go : (c : Client) → link (let_go c) ≡ unhooked (link c)
unfolding let_go unhooked link
link-let_go c = ground arith

unhooked-with :
    (r : Option ℕ) (b : Bool) (l : Link)
    → unhooked (record l { retry_in = r; stopped = b })
      ≡ record (unhooked l) { retry_in = r; stopped = b }
unfolding unhooked
unhooked-with r b l = ground arith

is_current-ws : (n : ℕ) (c : Client) → is_current n c ≡ true → c.ws ≡ some n
is_current-ws n c e = ground arith

is_current-no : (n : ℕ) (c : Client) → is_current n c ≡ false → c.ws ≢ some n
is_current-no n c e = ground arith

link-either : (b : Bool) (x y : Client) → link (if b then x else y) ≡ (if b then link x else link y)
link-either true x y = refl
link-either false x y = refl

-- A dial, unless the client is stopped.
redialled : Link → Link
redialled l = if l.stopped then l else dialled l

module _ (h : Host) where
  -- A move to a link is one to whatever equals it.
  pub ends : {l m n : Link} → Move (Unreadable h) l m → n ≡ m → Move (Unreadable h) l n
  ends move e = subst (Move (Unreadable h) _) (sym e) move

  link-send_hello : (c : Client) → link (send_hello h c) ≡ link c
  unfolding send_hello link
  link-send_hello c = link-ws_send _ _

  link-on_open : (n : ℕ) (c : Client) → link (on_open h n c) ≡ link c
  unfolding on_open link
  link-on_open n c = elim (Bool-cases (is_current n c)) [
    | inl current ↦ rw (current, on_open) (link-send_hello (record c { watched = some n }))
    | inr old ↦ rw (old, on_open) refl
  ]

  lose-Move :
      (b : Bool) (n : ℕ) (s : ReadyState) (ms : ℕ) (l : Link)
      → get l.sockets n ≡ some s
      → s ≢ closed
      → l.ws ≡ some n
      → l.stopped ≡ b
      → Move
          (Unreadable h)
          l
          (if b then mark n closed l else record (mark n closed l) { retry_in = some ms })
  lose-Move true n s ms l is_s not_yet current still = fades n s is_s not_yet (inr still)
  lose-Move false n s ms l is_s not_yet current runs = loses n s ms is_s not_yet current

  redial-Move :
      (b : Bool) (ms : ℕ) (l : Link)
      → l.retry_in ≡ some ms
      → l.stopped ≡ b
      → Move
          (Unreadable h)
          l
          (if b then record l { retry_in = none } else dialled (record l { retry_in = none }))
  redial-Move true ms l due still = gives_up ms due still
  redial-Move false ms l due runs = redials ms due runs

  link-stop : (c : Client) → link (stop h c) ≡ record (released (link c)) { stopped = true }
  unfolding stop link
  link-stop c =
      let failed = fail_whois_waiters "whois: client stopped" (record c { stopped = true }) in
      link-let_go (record failed { watched = none; retry_in = none })
      ∙ ap (λ (l : Link). unhooked (record l { retry_in = none }))
          (link-fail_whois_waiters "whois: client stopped" (record c { stopped = true }))
      ∙ unhooked-with none true (link c)

  link-connect :
      (c : Client) → link (connect h c) ≡ (if c.stopped then link c else dialled (link c))
  unfolding connect link
  link-connect c = link-either c.stopped c _

  link-recover : (c : Client) → link (recover_stale_secret h c) ≡ link c
  unfolding recover_stale_secret link
  link-recover c =
      link-if
        (is_config c.dial_source
          && not c.re_enrolled
          && is_some (env_str h.environment.master_secret))
        _ c (link-persist_config h (record no_update { client_secret = purge }) _) refl

  link-set_free :
      (c : Client) → link (set_free h c) ≡ record (released (link c)) { stopped = false }
  unfolding set_free link
  link-set_free c =
      let gone = let_go (record c { retry_in = none; watched = none }) in
      link-fail_whois_waiters "whois: retargeted — the retired socket can never answer"
        (record gone { welcomed = false; stopped = false })
      ∙ ap (λ (l : Link). record l { stopped = false })
          (link-let_go (record c { retry_in = none; watched = none })
            ∙ unhooked-with none c.stopped (link c))

  link-dial_as :
      (id : Identity) (name : Option String) (c : Client)
      → link (dial_as h id name c) ≡ redialled (link c)
  unfolding dial_as link redialled
  link-dial_as id name c = link-connect (record c {
    identity = id;
    known = [];
    name = elim name [ none ↦ c.name | some n ↦ some n ];
    delay = c.initial_ms;
  })

  pub retarget-Move :
      (url key_path name : Option String) (c : Client)
      → Move (Unreadable h) (link c) (link (retarget h url key_path name c).0)
  unfolding retarget link redialled
  retarget-Move url key_path name c =
      let free = set_free h c in
      let aimed : Client = record free {
        url = elim (env_str url) [ none ↦ free.url | some u ↦ u ];
      } in
      let freed : link aimed ≡ record (released (link c)) { stopped = false } = link-set_free c in
      elim (Option-cases (env_str key_path)) [
        | inl no_key ↦
            rw (no_key, retarget)
              (ends retargets (link-dial_as aimed.identity name aimed ∙ ap redialled freed))
        | inr (path, given) ↦ elim (Option-cases (h.identity path)) [
          | inl unread ↦ rw (given, unread, retarget) (ends (breaks (path, unread)) freed)
          | inr (id, read) ↦
              rw (given, read, retarget)
                (ends retargets (link-dial_as id name aimed ∙ ap redialled freed))
        ]
      ]

  link-on_error : (n : ℕ) (err : String) (c : Client) → link (on_error h n err c) ≡ link c
  unfolding on_error link
  link-on_error n err c = link-if (is_current n c && is_opened (get c.sockets n)) _ c refl refl

  reject-Move :
      (n code : ℕ) (c : Client)
      → get c.sockets n ≡ some connecting
      → Move (Unreadable h) (link c) (link (on_unexpected_response h n code c))
  unfolding on_unexpected_response surface_error link
  reject-Move n code c dialling = elim (Bool-cases (is_current n c && nat_beq code 401)) [
    | inr other ↦ rw other stays
    | inl unauthorized ↦ rw unauthorized (
        ends (shuts n (rw dialling refl)) (
          ap (mark n closing) (
            link-recover (
              surface_error "unauthorized" auth_required
                (record c { last_error = auth_required })))))
  ]

  close-Move :
      (n : ℕ) (s : ReadyState) (c : Client)
      → get c.sockets n ≡ some s
      → s ≢ closed
      → Move (Unreadable h) (link c) (link (on_close h n (turn n closed c)))
  unfolding on_close on_disconnect link
  close-Move n s c is_s not_yet = elim (Bool-cases (is_current n c)) [
    | inr old ↦ rw (old, on_close) (fades n s is_s not_yet (inl (is_current-no n c old)))
    | inl current ↦
        let down : Client = record (turn n closed c) { watched = none; welcomed = false } in
        let failed = fail_whois_waiters "whois: hub connection closed" down in
        let same : link failed ≡ mark n closed (link c) =
          link-fail_whois_waiters "whois: hub connection closed" down in
        let lost : Link → Link =
          λ l. if l.stopped then l else record l { retry_in = some failed.delay } in
        rw (current, on_close)
          (ends
            (subst (λ l. Move (Unreadable h) (link c) (lost l)) (sym same)
              (lose-Move c.stopped n s failed.delay (link c) is_s not_yet
                (is_current-ws n c current) refl))
            (link-either failed.stopped failed _))
  ]

  retry-Move :
      (ms : ℕ) (c : Client)
      → c.retry_in ≡ some ms
      → Move (Unreadable h) (link c) (link (connect h (record c { retry_in = none })))
  unfolding link
  retry-Move ms c due =
      ends (redial-Move c.stopped ms (link c) due refl)
        (link-connect (record c { retry_in = none }))

  pub happens-Move : {c c' : Client} → Happens h c c' → Move (Unreadable h) (link c) (link c')
  unfolding link
  happens-Move (opens n e) = ends (establishes n e) (link-on_open n _)
  happens-Move (receives n raw c' e current handled) =
      ends stays (link-handle_raw h raw _ c' handled)
  happens-Move (rejects n code e) = reject-Move n code _ e
  happens-Move (errs n err) = ends stays (link-on_error n err _)
  happens-Move (expires n e o) = shuts n (rw o refl)
  happens-Move (closes n s e o) = close-Move n s _ e o
  happens-Move (retries ms due) = retry-Move ms _ due
  happens-Move (ready_ends t) = ends stays (link-ready_times_out t _)
  happens-Move (presence_ends id) = ends stays (link-presence_times_out id _)
  happens-Move (whois_ends id t) = ends stays (link-whois_times_out id t _)
  happens-Move (passes ms) = stays
  happens-Move disposes = ends stops (link-stop _)
