-- ===== src/Dsh/Laws/Reachable.antt =====
-- What holds of a plugin of dsh-plugin/src in every state that it reaches after `apply`.
use dap.Common.{
  ℕ, ◌≡◌, ◌⊎◌, refl, sym, subst, true, false, Option, none, some, List, [], inl, inr, nat_eq,
  Option-cases, Bool-cases, string_eq,
}
use dap.JsMap.{get, is_some}
use dap.Config.{PendingInvite, env_str}
use dap.Client.State.{closed}
use dap.Dsh.State.{Host}
use dap.Dsh.Wire.{ready_state}
use dap.Dsh.Socket.{start, connect}
use dap.Dsh.Plugin.{Plugin}
use dap.Dsh.Launch.{Options, Disk, new_client, apply}
use dap.Dsh.Steps.{Reach}
use dap.Dsh.Laws.Links.{Link, link}
use dap.Dsh.Laws.Tools.{plugin_link}
use dap.Dsh.Laws.Connection.{is_live, dialled}
use dap.Dsh.Laws.Moves.{Unreadable}
use dap.Dsh.Laws.Refinement.{reach-Moves}
use dap.Dsh.Laws.Single.{IsSingle, IsSingle-moves, IsSingle-dialled}
use dap.Dsh.Laws.Awake.{IsAwake, IsAwake-moves, IsAwake-dialled, in_progress}

abbrev nothing : Link
nothing = record { ws = none; retry_in = none; stopped = false; sockets = []; next_socket = 0 }

-- A plugin that is there has just dialled.
abbrev Dialling : Option Plugin → Type 0
Dialling none = Unit
Dialling (some p) = plugin_link p ≡ dialled nothing

module _ (h : Host) (o : Options) (disk : Disk) (pending : List PendingInvite) where
  apply-Dialling : Dialling (apply h o disk pending)
  unfolding apply start connect new_client link
  apply-Dialling = elim (Option-cases (env_str h.environment.master_secret)) [
    | inl gated ↦ rw (gated, Dialling, apply) tt
    | inr (secret, given) ↦ elim (Option-cases (h.identity o.key_path)) [
      | inl unread ↦ rw (given, unread, Dialling, apply) tt
      | inr (id, read) ↦ rw (given, read, Dialling, apply) refl
    ]
  ]

  launched : (p : Plugin) → apply h o disk pending ≡ some p → plugin_link p ≡ dialled nothing
  launched p e = subst Dialling e apply-Dialling

  -- Whatever happens to a plugin after it has started, a socket that is not the current one is not
  -- live, neither connecting nor open; a dial is scheduled only while the current socket is closed;
  -- and a stopped client has no current socket and no dial scheduled.
  pub one_connection :
      (p q : Plugin) (n : ℕ)
      → apply h o disk pending ≡ some p
      → Reach h p q
      → ((is_live (get q.client.sockets n) ≡ false) ⊎ (q.client.ws ≡ some n))
        × ((q.client.retry_in ≡ none) ⊎ (ready_state q.client ≡ some closed))
        × ((q.client.stopped ≡ false) ⊎ ((q.client.ws ≡ none) × (q.client.retry_in ≡ none)))
  unfolding ready_state link
  one_connection p q n started run =
      let first : IsSingle (dialled nothing) = IsSingle-dialled nothing (λ n. refl) refl refl in
      let ok : IsSingle (plugin_link q) =
        IsSingle-moves (reach-Moves h run) (subst IsSingle (sym (launched p started)) first) in
      (
        elim (Bool-cases (is_live (get q.client.sockets n))) [
          | inl live ↦ inr (ok.one n live)
          | inr dead ↦ inl dead
        ],
        ok.idle,
        elim (Bool-cases q.client.stopped) [
          | inl stopped ↦ inr (ok.still stopped)
          | inr runs ↦ inl runs
        ],
      )

  -- Whatever happens to a plugin after it has started, where each key file can be read, a client
  -- that is not stopped has a dial scheduled, or its current socket is not closed yet.
  pub never_adrift :
      (p q : Plugin)
      → ¬ Unreadable h
      → apply h o disk pending ≡ some p
      → Reach h p q
      → q.client.stopped ≡ false
      → (is_some q.client.retry_in ≡ true) ⊎ (in_progress (ready_state q.client) ≡ true)
  unfolding ready_state link
  never_adrift p q reads started run active =
      let ok : IsAwake (plugin_link q) =
        IsAwake-moves reads (reach-Moves h run)
          (subst IsAwake (sym (launched p started)) (IsAwake-dialled nothing)) in
      ok active
