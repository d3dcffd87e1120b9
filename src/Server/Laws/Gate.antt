-- ===== src/Server/Laws/Gate.antt =====
-- The master-secret gate of server.ts.
use dap.Common.{ℕ, ◌≡◌, refl, ap, sym, ◌∙◌, arith, none, some, String, List, [], ◌∷◌}
use dap.Config.{env_str}
use dap.JsMap.{JsMap}
use dap.Client.Launch.{Options, Disk}
use dap.Server.Launch.{main}
use dap.Server.Tools.{
  Tool, Answer, failure, World, Server, disabled_msg, call_tool, call_tools, reply,
}

-- The answers with one refusal more for each call.
unfoldable pub refuse_all : List (Tool × ℕ) → List (ℕ × Answer) → List (ℕ × Answer)
refuse_all [] answers = answers
refuse_all ((tool, n) ∷ calls) answers = refuse_all calls ((n, failure disabled_msg) ∷ answers)

module _ (w : World) where
  refused :
      (tool : Tool) (n : ℕ) (s : Server)
      → env_str w.host.environment.master_secret ≡ none
      → call_tool w tool n s ≡ reply n (failure disabled_msg) s
  unfolding call_tool
  refused tool n s gated = rw (gated, call_tool) refl

  call_tools-refuse_all :
      (calls : List (Tool × ℕ)) (s : Server)
      → env_str w.host.environment.master_secret ≡ none
      → call_tools w calls s ≡ record s { answers = refuse_all calls s.answers }
  unfolding call_tools refuse_all reply
  call_tools-refuse_all [] s gated = refl
  call_tools-refuse_all ((tool, n) ∷ calls) s gated =
      ap (call_tools w calls) (refused tool n s gated)
      ∙ call_tools-refuse_all calls (reply n (failure disabled_msg) s) gated

  -- Without a master secret the server starts without a client, and however its tools are called,
  -- each call is answered with the one error that says so: no client comes to be, and the key files
  -- stay as they are.
  pub call_tools-disabled :
      (o : Options) (disk : Disk) (key_files : JsMap String String) (calls : List (Tool × ℕ))
      (s : Server)
      → env_str w.host.environment.master_secret ≡ none
      → main w o disk key_files ≡ some s
      → (s.client ≡ none)
        × (call_tools w calls s ≡ record {
          client = none;
          key_files = key_files;
          key_draws = 0;
          answers = refuse_all calls [];
        })
  unfolding main
  call_tools-disabled o disk key_files calls s gated starts =
      let bare : Server = record {
        client = none;
        key_files = key_files;
        key_draws = 0;
        answers = [];
      } in
      let is_bare : bare ≡ s = ground (arith, gated, starts) in
      (
        ap (λ s. s.client) (sym is_bare),
        ap (call_tools w calls) (sym is_bare) ∙ call_tools-refuse_all calls bare gated,
      )
