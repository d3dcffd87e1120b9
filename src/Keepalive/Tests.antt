-- ===== src/Keepalive/Tests.antt =====
-- Runs of the watchdog of keepalive.ts.
use dap.Common.{ℕ, ◌+◌, ◌≡◌, refl, Bool, true, false, [], ◌∷◌, All, nat_beq}
use dap.Keepalive.{
  default_keep_alive, World, ping, terminate, init, start, starts, Reach, here, next,
}
use dap.Keepalive.Invariant.{Inv, Reach-Inv}
use dap.Keepalive.Verdict.{IsSpared, prompt_peer-IsSpared, silent_peer_is_terminated}

abbrev silent : ℕ → Bool
silent peer = false

abbrev first_prompt : ℕ → Bool
first_prompt peer = nat_beq peer 1

abbrev reconnected : (ℕ → Bool) → World
reconnected prompt = start default_keep_alive prompt 2 (start default_keep_alive prompt 1 init)

Reach-Inv_example : Inv (reconnected silent)
Reach-Inv_example = Reach-Inv default_keep_alive silent (next (next here (starts 1)) (starts 2))

prompt_peer-IsSpared_example :
    All (IsSpared default_keep_alive first_prompt) (reconnected first_prompt).done
prompt_peer-IsSpared_example =
    prompt_peer-IsSpared default_keep_alive first_prompt (next (next here (starts 1)) (starts 2))

silent_peer_is_terminated_example :
    (u : World) × Reach default_keep_alive silent
      (start default_keep_alive silent 2 (start default_keep_alive silent 1 init))
      u
    × (u.done ≡ terminate 2 ∷ ping 2 ∷ (start default_keep_alive silent 1 init).done)
    × (u.now ≡ (start default_keep_alive silent 1 init).now + 10000)
    × (u.terminated ≡ true)
    × (u.intervals ≡ [])
    × (u.timeouts ≡ [])
silent_peer_is_terminated_example =
    silent_peer_is_terminated default_keep_alive silent 2 (start default_keep_alive silent 1 init)
      (Reach-Inv default_keep_alive silent (next here (starts 1))) refl
