-- ===== src/Witness/Drift.antt =====
-- Drift checks and queries of the vector store at concrete inputs. The floats are natural numbers,
-- with a subtraction that stops at 0.
use veraxis_memory_admissibi.Prelude.{
  ℕ, ◌+◌, ◌-◌, ◌*◌, ◌%◌, ◌^◌, ◌≡◌, ◌++◌, ◌≢◌, ◌↔◌, refl, true, false, some, none, List, [], ◌∷◌,
  replicate, ltb, ◌==◌, inl,
}
use veraxis_memory_admissibi.Prelude.Bytes.{Bytes, text}
use veraxis_memory_admissibi.Prelude.Int.{pos}
use veraxis_memory_admissibi.Prelude.Result.{ok}
use veraxis_memory_admissibi.Platform.{Platform}
use veraxis_memory_admissibi.Evaluate.{use_memory}
use veraxis_memory_admissibi.Quarantine.Event.{EventType}
use veraxis_memory_admissibi.Quarantine.Monitor.{RuntimeMonitor, new_runtime_monitor, lookup}
use veraxis_memory_admissibi.Quarantine.Ledger.{healthy}
use veraxis_memory_admissibi.Quarantine.Ledger.Recovery.{publish_each}
use veraxis_memory_admissibi.Axis.{
  cosine_similarity, evaluate_drift, similarity, sum_products, run_checks, check_similarity,
}
use veraxis_memory_admissibi.Axis.Types.{Floats, default_dimensions}
use veraxis_memory_admissibi.Axis.Drift.{evaluate_drift-preserved}
use veraxis_memory_admissibi.Axis.Reference.{Within, codes}
use veraxis_memory_admissibi.Axis.Worker.{
  MemoryTransformationJob, DriftMonitorCoordinator, new_drift_monitor_coordinator, process_job,
  event_for_drift, quarantine_drifted, after_store, store_drift,
}
use veraxis_memory_admissibi.Axis.Worker.Loop.{Inputs, worker_loop}
use veraxis_memory_admissibi.Axis.Worker.Drained.{worker-drains}
use veraxis_memory_admissibi.Axis.Worker.Blocking.{process_job-blocks}
use veraxis_memory_admissibi.Vectorstore.{
  VectorRecord, InterceptorWrapper, new_interceptor_wrapper, intercept_query_results,
}
use veraxis_memory_admissibi.Vectorstore.Accounts.{total, intercept-accounts}
use veraxis_memory_admissibi.Witness.Toy.{toy}
use veraxis_memory_admissibi.Witness.Sample.{id_a, id_b, hash_of, codec, event}

instance here : Platform
here = toy

instance abbrev whole : Floats
whole = record {
  Single = ℕ;
  Double = ℕ;
  mul_single = λ a b. a * b;
  widen = λ a. a;
  nought = 0;
  one = 1;
  plus = λ a b. a + b;
  minus = λ a b. a - b;
  times = λ a b. a * b;
  over = λ a b. a;
  sqrt = λ a. a;
  equal = λ a b. a == b;
  gt = λ a b. ltb b a;
}

abbrev ones : List ℕ
ones = replicate 128 1

abbrev zeroes : List ℕ
zeroes = replicate 128 0

evaluate_drift-preserved_example :
    (((evaluate_drift ones zeroes default_dimensions 0).axis_preserved ≡ true) ↔ (
      Within ones zeroes 0 (pos 0) (pos 23)
      × Within ones zeroes 0 (pos 24) (pos 47)
      × Within ones zeroes 0 (pos 48) (pos 71)
      × Within ones zeroes 0 (pos 72) (pos 95)
      × Within ones zeroes 0 (pos 96) (pos 127)))
    × ((evaluate_drift ones zeroes default_dimensions 0).reason_codes
        ≡ codes ones zeroes 0 (pos 0) (pos 23) (text "TEMPORARITY_DRIFT_DETECTED")
          ++ (codes ones zeroes 0 (pos 24) (pos 47) (text "EPISTEMIC_MODAL_SHIFT")
              ++ (codes ones zeroes 0 (pos 48) (pos 71) (text "SCOPE_EXPANSION_VIOLATION")
                  ++ (codes ones zeroes 0 (pos 72) (pos 95) (text "SOURCE_TRUST_COLLAPSE")
                      ++ (codes ones zeroes 0
                          (pos 96)
                          (pos 127)
                          (text "PREFERENCE_PROMOTED_TO_AUTHORITY"))))))
evaluate_drift-preserved_example = evaluate_drift-preserved ones zeroes default_dimensions 0

abbrev job : MemoryTransformationJob
job = record {
  memory_id = id_a;
  anchor_vector = ones;
  mutated_vector = zeroes;
  operator_id = text "op";
  source_pipeline = text "pipe";
  policy_snapshot = hash_of 4;
}

abbrev coordinator : DriftMonitorCoordinator
coordinator =
    new_drift_monitor_coordinator none (some (new_runtime_monitor (pos 0))) default_dimensions 0
      (pos 1)

drifts : (evaluate_drift ones zeroes default_dimensions 0).axis_preserved ≡ false
unfolding evaluate_drift run_checks check_similarity cosine_similarity sum_products similarity
drifts = refl

processed : (process_job codec healthy (some id_b) (pos 1) (pos 2) job coordinator).0 ≡ ok tt
unfolding process_job quarantine_drifted event_for_drift after_store store_drift
    new_drift_monitor_coordinator
processed = rw drifts refl

process_job-blocks_example :
    (after : RuntimeMonitor) × ((process_job codec healthy
        (some id_b)
        (pos 1)
        (pos 2)
        job
        coordinator).1.monitor
      ≡ some after)
    × ((lookup
          (publish_each ((event id_b EventType.revoke_memory, pos 3) ∷ []) after)
          id_a).decision
        ≢ use_memory)
unfolding new_drift_monitor_coordinator
process_job-blocks_example =
    process_job-blocks codec healthy id_b (pos 1) (pos 2) job coordinator
      (new_runtime_monitor (pos 0)) ((event id_b EventType.revoke_memory, pos 3) ∷ []) refl drifts
      processed (inl (λ e. cc), tt)

abbrev vector_record : Bytes → VectorRecord
vector_record id = record { memory_id = id; embedding = ones; payload_text = [] }

abbrev wrapper : InterceptorWrapper
wrapper = new_interceptor_wrapper (some coordinator) (text "op") (text "pipe") (hash_of 4)

abbrev anchors : List VectorRecord
anchors = vector_record id_a ∷ vector_record id_a ∷ vector_record id_a ∷ []

abbrev retrieved : List VectorRecord
retrieved = vector_record id_a ∷ vector_record id_b ∷ vector_record id_a ∷ []

intercept-accounts_example :
    (w' : InterceptorWrapper) × (intercept_query_results
        (λ n c. c)
        false
        (some wrapper)
        anchors
        retrieved
      ≡ some (retrieved, none, some w'))
    × (total w'.stats ≡ (total wrapper.stats + 3) % 2 ^ 64)
unfolding new_interceptor_wrapper new_drift_monitor_coordinator
intercept-accounts_example =
    intercept-accounts (λ n c. c) wrapper coordinator anchors retrieved (λ n c h. h) refl refl refl

abbrev closing : DriftMonitorCoordinator
closing = record coordinator { job_queue = job ∷ job ∷ []; closed = true }

-- A world without faults.
abbrev calm : ℕ → Inputs
calm n = record { device = healthy; random = some id_b; now = pos 1; later = pos 2; done = false }

worker-drains_example :
    (d : DriftMonitorCoordinator) × (worker_loop codec calm 3 closing ≡ some d)
    × (d.job_queue ≡ [])
    × (d.stats.processed % 2 ^ 64 ≡ (closing.stats.processed + 2) % 2 ^ 64)
worker-drains_example = worker-drains codec calm (job ∷ job ∷ []) closing (λ n. refl) refl refl
