-- ===== src/Lib.antt =====
-- Memory admissibility management: which remembered content may enter a language model's context,
-- and the trail that proves what was decided.
--
-- The parts and how they interact:
--   Bitmask, Tenant, Policy    pkg/bitmask, pkg/tenant, pkg/policy: flag words, hashes, snapshots
--   Evaluate                   pkg/evaluate/evaluate.go: `evaluate_memory_hot_path` is the function
--                              EvaluateMemoryHotPath; Table has its decision table
--   Quarantine.Event           pkg/quarantine/quarantine.go: events, their types and reason codes
--   Quarantine.Snapshot        the same file: `compile_snapshot` folds a history of events into three
--                              maps, `lookup_blocks` reads them; Standing has the state machine of one
--                              memory, History what follows from it, Canonical the hash
--   Quarantine.Monitor         the same file: the active snapshot and the events in memory
--   Quarantine.Ledger          pkg/quarantine/persistence.go: the write-ahead file, as its bytes;
--                              Frames, Sound, Exact, RoundTrip and Torn are about its records,
--                              Recovery about RecoverMonitorFromFile
--   Merkle                     pkg/merkle/merkle.go: `build_turn_tree` is BuildTurnTree; Levels,
--                              Trees, Binding and Order are about the root
--   SessionMap                 pkg/sessionmap/sessionmap.go: the signed record of a turn
--   Audit                      pkg/audit: `verify_session_map` is VerifySessionMAP, and Lineage is
--                              pkg/audit/lineage.go
--   Rpc                        pkg/rpc: the handlers EvaluateMemoryUse and RegisterRevocationEvent
--                              (`register_present` behind the tests for nil); Durable and Deleted
--                              are about them, Codes has the codes of errors.go
--   Ops                        pkg/ops/health.go: readiness of a node
--   Gateway                    pkg/gateway/gateway.go: `sanitize_context_window` is the method
--                              SanitizeContextWindow; Verdict, Window and Kept are about it;
--                              Adapters is anthropic_adapter.go and openai_adapter.go beside it
--   Gateway.Inference          pkg/gateway/inference.go: `execute_admissible_turn` is the method
--                              ExecuteAdmissibleTurn; Turns, Completion, Conditions and
--                              Sealed are about it
--   Orchestrator               pkg/orchestrator: `execute_agent_handoff` is ExecuteAgentHandoff;
--                              Admission, Handoffs, Completion and Results are about one
--                              handoff, Slots and Freed about many at the same time
--   Axis                       pkg/axis/integrity.go: CosineSimilarity and EvaluateDrift, with
--                              Cosine, Reference and Drift about them; Worker is
--                              pkg/axis/worker.go, Blocking, Counts and Quarantines what a processed
--                              job leaves, Loop and Drained the loop of a worker
--   Vectorstore                pkg/integrations/vectorstore/interceptor.go: the hook behind a query
--   Commands                   cmd/mam-harness/main.go and examples/clientloop/main.go; Scenario and
--                              LoopEnd are about how they end
--   Commands.Staging           cmd/staging-verify/main.go: the provider, the report, the vectors;
--                              Fixture and World are what main sets up and what is given to it,
--                              Checks its checks and Run main itself, `staging_main`; Verdict,
--                              Gates and Stopped are about an accepted run, Passing and the
--                              modules that it uses about a run without faults
--   Commands.Server            cmd/mam-server/main.go
--   Quarantine.Swaps           CompileAndSwap again, with its parts as the steps of several
--                              callers; Prefix, Stale and Forgotten are about it
--   Witness                    concrete inputs
-- The gateway asks the monitor and then the evaluation about each bound memory, and its leaves become
-- the Merkle tree of the session map, which the audit verifies. The monitor's snapshot is compiled
-- from events that the ledger keeps. A turn and a handoff sanitise, call the provider and sign; the
-- worker of the axis checks the vectors that the interceptor submits and registers those that drifted.
--
-- How it is modelled: a byte array, a byte slice and a Go string are lists of bytes, a Go map is an
-- association list without duplicate keys, a (value, error) pair is a `Result`, a nil pointer or
-- interface is `none`, and methods that change their receiver return it. The clock is an argument. A
-- uint64 counter wraps at 2 ^ 64. `Platform` is what the code uses of crypto/sha256, crypto/ed25519 and
-- sort.Slice, an argument with the documented behaviour: a key that ed25519 generated verifies what it
-- signs, where another key of 64 bytes need not, and the order of equal elements is left open.
-- `Codec` is encoding/json on events, an argument with no law: the theorems that need one name the
-- events that it stores. `Floats` is what the code uses of float32 and float64, with no law. A provider
-- is a function of its context and messages; a context answers each look at it. A send to a full or
-- closed channel is written out, a panic is `none`. Where two messages could have one digest, a theorem
-- offers the pair as the other outcome.
--
-- Bounds and fuel: the loop over the levels of a tree has one round of fuel for each hash and the loop
-- over the records of a ledger one for each byte of the file, of which a record has more than 38. Fuel
-- that runs out is the error `stuck` in the ledger. A file's length prefix has 32 bits, and a payload
-- above that is refused as in the source.
--
-- Not modelled: locks and atomic pointers (each operation is one step, save in Quarantine.Swaps and
-- Orchestrator.Slots), the starting of the worker's goroutines and their wait group, the file system
-- behind `FileLedger` save for writes that stop in the middle, the texts of the handlers' errors in
-- pkg/rpc, what the commands print, a worker that ends its job in the middle of a handoff of the
-- staging run, the file of the staging report, the benchmarks, software kits and deployment files.
pub mod Prelude
pub mod Platform
pub mod Bitmask
pub mod Tenant
pub mod Policy
pub mod Evaluate
pub mod Quarantine
pub mod Merkle
pub mod SessionMap
pub mod Audit
pub mod Gateway
pub mod Axis
pub mod Vectorstore
pub mod Commands
pub mod Ops
pub mod Orchestrator
pub mod Rpc
pub mod Witness
