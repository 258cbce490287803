-- ===== src/Commands/Server.antt =====
-- cmd/mam-server/main.go, which builds a server and ends. What it prints is left out.
use veraxis_memory_admissibi.Prelude.{Option, none, some}
use veraxis_memory_admissibi.Prelude.Time.{Time}
use veraxis_memory_admissibi.Platform.{Platform}
use veraxis_memory_admissibi.Quarantine.Monitor.{new_runtime_monitor}
use veraxis_memory_admissibi.Rpc.Types.{AdmissibilityServer}

-- The test for nil; `none` is the panic.
unfoldable started_server : AdmissibilityServer → Option AdmissibilityServer
started_server s = elim s.monitor [ none ↦ none | some m ↦ some s ]

-- `main`
unfoldable server_main : ⦃p : Platform⦄ → Time → Option AdmissibilityServer
unfolding started_server
server_main now =
    started_server (record { monitor = some (new_runtime_monitor now); ledger = none })
