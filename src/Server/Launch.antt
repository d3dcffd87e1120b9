-- ===== src/Server/Launch.antt =====
-- server.ts: `main`, up to the connection with the MCP client.
use dap.Common.{Option, none, some, String, [], string_eq}
use dap.JsMap.{JsMap}
use dap.Config.{env_str}
use dap.Client.Launch.{Options, Disk, new_client}
use dap.Client.Socket.{start, stop}
use dap.Server.Tools.{World, Server, load_at, with_client}

module _ (w : World) where
  -- No client without a master secret; `none` where the key file cannot be read.
  unfoldable pub main : Options → Disk → JsMap String String → Option Server
  unfolding load_at new_client start
  main o disk key_files =
      let bare : Server = record {
        client = none;
        key_files = key_files;
        key_draws = 0;
        answers = [];
      } in
      elim (env_str w.host.environment.master_secret) [
        | none ↦ some bare
        | some secret ↦ elim (load_at w o.key_path bare) [
          | none ↦ none
          | some (id, s) ↦ some (with_client (start w.host (new_client w.host o disk id)) s)
        ]
      ]

  -- The MCP client went away.
  unfoldable pub on_stdio_close : Server → Server
  unfolding stop
  on_stdio_close s = elim s.client [ none ↦ s | some c ↦ with_client (stop w.host c) s ]
