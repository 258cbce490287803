-- ===== src/Rpc.antt =====
-- pkg/rpc/server.go, types.go and errors.go: the two handlers of the network edge. Pointers are
-- options; the clock, the random event id and the device are arguments.
pub mod Types
pub mod Deleted
mod Codes
pub mod Durable
use veraxis_memory_admissibi.Prelude.{
  ℕ, ◌==◌, ◌%◌, ◌^◌, Bool, true, false, ◌||◌, not, Option, none, some, List, [], ◌∷◌, ◌++◌, map,
  length, if◌then◌else◌,
}
use veraxis_memory_admissibi.Prelude.Bytes.{Bytes, GoString, text, zeros}
use veraxis_memory_admissibi.Prelude.Result.{Result, ok, err, ◌>>=◌, ◌>>◌, reject}
use veraxis_memory_admissibi.Prelude.Time.{Time}
use veraxis_memory_admissibi.Platform.{Platform}
use veraxis_memory_admissibi.Bitmask.{EvaluationMask}
use veraxis_memory_admissibi.Evaluate.{Decision, decision_code, evaluate_memory_hot_path}
use veraxis_memory_admissibi.Merkle.{LeafRecord, build_turn_tree}
use veraxis_memory_admissibi.Gateway.{is_use}
use veraxis_memory_admissibi.Quarantine.Event.{RevocationEvent, to_event_type, to_quarantine_reason}
use veraxis_memory_admissibi.Quarantine.Snapshot.{RuntimeSnapshot, lookup_with_snapshot}
use veraxis_memory_admissibi.Quarantine.Monitor
use veraxis_memory_admissibi.Quarantine.Monitor.{
  RuntimeMonitor, get_active_snapshot, compile_and_swap,
}
use veraxis_memory_admissibi.Quarantine.Ledger
use veraxis_memory_admissibi.Quarantine.Ledger.{LedgerError, Codec, Device, FileLedger}
use veraxis_memory_admissibi.Rpc.Types.{
  AdmissibilityServer, RuntimeContext, MemoryCandidate, EvaluateRequest, MemoryDecisionLeaf,
  EvaluateResponse, RevocationRequest, RevocationResponse, RpcError, context_error,
  server_not_ready, invalid_argument, random_error, ledger_error,
}

abbrev pub mask_of : RuntimeContext → EvaluationMask
mask_of c = record {
  required_lifecycle = c.required_lifecycle;
  prohibited_safety = c.prohibited_safety;
  allowed_use_classes = c.allowed_use_classes;
  prohibited_use_blocks = c.prohibited_use_blocks;
  sensitivity_limit = 0;
}

-- The decision on one candidate under the active snapshot; the memory's tenant and domain are the
-- runtime's own.
unfoldable pub decide_candidate :
    RuntimeSnapshot → RuntimeContext → MemoryCandidate → Decision × GoString
decide_candidate snap c m =
    let runtime = lookup_with_snapshot (some snap) m.memory_id in
    if not (is_use runtime.decision)
    then (runtime.decision, runtime.reason)
    else evaluate_memory_hot_path c.tenant_hash c.tenant_hash c.domain_hash c.domain_hash
        m.memory_flags (mask_of c)

abbrev pub is_injected : Decision → Bool
is_injected d = decision_code d == 0 || decision_code d == 1

abbrev pub decision_leaf : MemoryCandidate → Decision × GoString → MemoryDecisionLeaf
decision_leaf m (d, reason) = record {
  memory_id = m.memory_id;
  decision_code = decision_code d;
  reason_code = reason;
  injected = is_injected d;
}

abbrev pub merkle_leaf : MemoryCandidate → Decision × GoString → LeafRecord
merkle_leaf m (d, reason) = record {
  memory_id = m.memory_id;
  memory_hash = m.memory_hash;
  decision_code = decision_code d;
  injected = is_injected d;
  policy_hash = zeros 32;
  reason_code_hash = zeros 32;
}

-- The loop over the candidates: the first malformed one ends it.
unfoldable pub decide_candidates :
    RuntimeSnapshot
    → RuntimeContext
    → List (Option MemoryCandidate)
    → Result RpcError (List (MemoryDecisionLeaf × LeafRecord))
decide_candidates snap c [] = ok []
decide_candidates snap c (none ∷ rest) = err invalid_argument
decide_candidates snap c (some m ∷ rest) = do
  reject (not (length m.memory_id == 16) || not (length m.memory_hash == 32)) invalid_argument
  later ← decide_candidates snap c rest
  let judged = decide_candidate snap c m
  ok ((decision_leaf m judged, merkle_leaf m judged) ∷ later)

module _ ⦃p : Platform⦄ where
  unfoldable pub evaluate_in_context :
      Time → RuntimeMonitor → EvaluateRequest → RuntimeContext → Result RpcError EvaluateResponse
  evaluate_in_context now monitor req c = do
    reject (not (length c.tenant_hash == 32) || not (length c.domain_hash == 32)) invalid_argument
    let snap = get_active_snapshot monitor now
    judged ← decide_candidates snap c req.candidates
    ok (record {
      session_id = req.session_id;
      merkle_root = build_turn_tree (map (λ j. j.1) judged);
      decisions = map (λ j. j.0) judged;
      runtime_snapshot_version = snap.version;
    })

  -- The guards of `EvaluateMemoryUse` on a server and a request that are there.
  unfoldable pub evaluate_request :
      Time → Option RuntimeMonitor → EvaluateRequest → Result RpcError EvaluateResponse
  evaluate_request now none req = err server_not_ready
  evaluate_request now (some monitor) req = elim req.context [
    | none ↦ err invalid_argument
    | some c ↦
        if length req.candidates == 0
        then err invalid_argument
        else evaluate_in_context now monitor req c
  ]

  unfoldable pub evaluate_memory_use :
      Bool
      → Time
      → Option AdmissibilityServer
      → Option EvaluateRequest
      → Result RpcError EvaluateResponse
  evaluate_memory_use true now s req = err context_error
  evaluate_memory_use false now none req = err server_not_ready
  evaluate_memory_use false now (some s) (some req) = evaluate_request now s.monitor req
  evaluate_memory_use false now (some s) none = elim s.monitor [
    | none ↦ err server_not_ready
    | some m ↦ err invalid_argument
  ]

  -- The event that a request registers.
  abbrev pub event_of : RevocationRequest → Bytes → Time → RevocationEvent
  event_of req event_id now = record {
    event_id = event_id;
    memory_id = req.memory_id;
    event_type = to_event_type req.event_type;
    reason = to_quarantine_reason req.reason_code;
    operator_id = req.operator_id;
    source = req.source;
    created_at = now;
    policy_hash = zeros 32;
    previous_state = [];
    new_state = text "active";
    signature = zeros 64;
    signing_key_id = [];
  }

  -- `s.Ledger.AppendEvent`, where the server has a ledger.
  unfoldable pub store_event :
      Codec
      → Device
      → RevocationEvent
      → Option FileLedger
      → Result LedgerError (Unit {0}) × Option FileLedger
  store_event json d event none = (ok tt, none)
  store_event json d event (some l) =
      let (result, after) = Ledger.append_event json d event l in (result, some after)

  -- `s.Monitor.AppendEvent` and `CompileAndSwap`, behind a store that succeeded.
  unfoldable pub publish_event :
      Time
      → RevocationEvent
      → RuntimeMonitor
      → Result LedgerError (Unit {0}) × Option FileLedger
      → Result RpcError RevocationResponse × AdmissibilityServer
  publish_event now event monitor (err e, l) =
      (err (ledger_error e), record { monitor = some monitor; ledger = l })
  publish_event now event monitor (ok u, l) =
      let (snap, after) = compile_and_swap now (Monitor.append_event event monitor) in
      (
        ok (record {
          event_id = event.event_id;
          updated_snapshot_version = snap.version;
          updated_snapshot_hash = snap.snapshot_hash;
        }),
        record { monitor = some after; ledger = l },
      )

  -- `RegisterRevocationEvent` on a server and a request that are there; `random` is what the random
  -- source gives, or `none`, and `now` and `later` are the two readings of the clock.
  unfoldable pub register_present :
      Codec
      → Device
      → Option Bytes
      → Time
      → Time
      → AdmissibilityServer
      → RevocationRequest
      → Result RpcError RevocationResponse × AdmissibilityServer
  unfolding store_event publish_event
  register_present json d random now later s req = elim s.monitor [
    | none ↦ (err server_not_ready, s)
    | some monitor ↦
        if not (length req.memory_id == 16) then (err invalid_argument, s) else elim random [
          | none ↦ (err random_error, s)
          | some event_id ↦
              let event = event_of req event_id now in
              publish_event later event monitor (store_event json d event s.ledger)
        ]
  ]

  unfoldable pub register_revocation_event :
      Codec
      → Device
      → Bool
      → Option Bytes
      → Time
      → Time
      → Option AdmissibilityServer
      → Option RevocationRequest
      → Result RpcError RevocationResponse × Option AdmissibilityServer
  unfolding register_present
  register_revocation_event json d true random now later s req = (err context_error, s)
  register_revocation_event json d false random now later none req = (err server_not_ready, none)
  register_revocation_event json d false random now later (some s) none = elim s.monitor [
    | none ↦ (err server_not_ready, some s)
    | some m ↦ (err invalid_argument, some s)
  ]
  register_revocation_event json d false random now later (some s) (some req) =
      let (result, after) = register_present json d random now later s req in (result, some after)
