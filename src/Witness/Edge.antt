-- ===== src/Witness/Edge.antt =====
-- The handlers of the network edge.
use veraxis_memory_admissibi.Prelude.{◌≡◌, refl, some, none, [], ◌∷◌, ◌++◌, arith, true, false}
use veraxis_memory_admissibi.Prelude.Bytes.{text}
use veraxis_memory_admissibi.Prelude.Int.{pos}
use veraxis_memory_admissibi.Prelude.Result.{ok, err}
use veraxis_memory_admissibi.Platform.{Platform}
use veraxis_memory_admissibi.Evaluate.{delete_requested}
use veraxis_memory_admissibi.Quarantine.Event.{EventType}
use veraxis_memory_admissibi.Quarantine.Snapshot.{compile_snapshot}
use veraxis_memory_admissibi.Quarantine.Monitor.{RuntimeMonitor, next_version}
use veraxis_memory_admissibi.Quarantine.Ledger.{
  FileLedger, Codec, healthy, closed, replay_genesis, append_event,
}
use veraxis_memory_admissibi.Quarantine.Ledger.RoundTrip.{IsStored}
use veraxis_memory_admissibi.Rpc.{
  event_of, decide_candidate, register_present, store_event, publish_event,
}
use veraxis_memory_admissibi.Rpc.Types.{
  RuntimeContext, MemoryCandidate, RevocationRequest, RevocationResponse, ledger_error,
}
use veraxis_memory_admissibi.Rpc.Deleted.{decide_candidate_deleted}
use veraxis_memory_admissibi.Rpc.Durable.{register_failed, register_durable}
use veraxis_memory_admissibi.Witness.Toy.{toy}
use veraxis_memory_admissibi.Witness.Sample.{id_a, id_b, hash_of, event, codec}

instance here : Platform
here = toy

abbrev request : RevocationRequest
request = record {
  memory_id = id_a;
  event_type = 2;
  reason_code = 3;
  operator_id = text "op";
  source = text "test";
}

abbrev idle : RuntimeMonitor
idle = record { snapshot = none; ledger = [] }

abbrev open_ledger : FileLedger
open_ledger = record { is_open = true; content = [] }

abbrev closed_ledger : FileLedger
closed_ledger = record { is_open = false; content = [] }

-- A codec of the events of one request at one time.
abbrev request_codec : Codec
request_codec = record {
  marshal = λ e. ok e.event_id;
  unmarshal = λ b. ok (event_of request b (pos 0));
}

request-IsStored : IsStored request_codec (event_of request id_b (pos 0))
request-IsStored = record {
  payload = id_b;
  encoded = refl;
  fits = (omega arith, omega arith);
  decoded = refl;
}

register_durable_example :
    (m' : RuntimeMonitor) × (l' : FileLedger) × (response : RevocationResponse) × (register_present
        request_codec healthy
        (some id_b)
        (pos 0)
        (pos 1)
        (record { monitor = some idle; ledger = some open_ledger })
        request
      ≡ (ok response, record { monitor = some m'; ledger = some l' }))
    × (m'.ledger ≡ [] ++ event_of request id_b (pos 0) ∷ [])
    × (replay_genesis request_codec l' ≡ ok m'.ledger)
    × (m'.snapshot ≡ some (compile_snapshot m'.ledger (next_version idle) (pos 1)))
register_durable_example =
    register_durable request_codec (pos 0) (pos 1) request id_b idle open_ledger refl refl refl
      request-IsStored

closed_register :
    (register_present codec healthy
      (some id_b)
      (pos 0)
      (pos 1)
      (record { monitor = some idle; ledger = some closed_ledger })
      request).0
    ≡ err (ledger_error closed)
unfolding register_present store_event publish_event append_event
closed_register = refl

register_failed_example :
    (register_present codec healthy
      (some id_b)
      (pos 0)
      (pos 1)
      (record { monitor = some idle; ledger = some closed_ledger })
      request).1.monitor
    ≡ some idle
register_failed_example =
    register_failed codec healthy (some id_b) (pos 0) (pos 1) idle (some closed_ledger) request
      (ledger_error closed) closed_register

abbrev context : RuntimeContext
context = record {
  tenant_hash = hash_of 6;
  domain_hash = hash_of 7;
  required_lifecycle = 0;
  prohibited_safety = 0;
  allowed_use_classes = 512;
  prohibited_use_blocks = 0;
}

abbrev candidate : MemoryCandidate
candidate = record { memory_id = id_a; memory_hash = hash_of 3; memory_flags = 512 }

decide_candidate_deleted_example :
    (decide_candidate
      (compile_snapshot
        (event id_b EventType.revoke_memory
          ∷ event id_a EventType.delete_requested
          ∷ event id_b EventType.clear_quarantine
          ∷ [])
        1
        (pos 0))
      context
      candidate).0
    ≡ delete_requested
decide_candidate_deleted_example =
    decide_candidate_deleted (event id_b EventType.revoke_memory ∷ [])
      (event id_b EventType.clear_quarantine ∷ []) (event id_a EventType.delete_requested) 1 (pos 0)
      context candidate refl refl
