-- ===== src/Vectorstore.antt =====
-- pkg/integrations/vectorstore/interceptor.go: the hook behind a query of the vector store. Between
-- two submissions the workers and other submitters may change the coordinator in any way: what they
-- do is an argument. `none` is a panic of the runtime.
pub mod Accounts
use veraxis_memory_admissibi.Prelude.{
  ℕ, suc, Bool, true, false, ◌==◌, not, Option, none, some, List, [], ◌∷◌, length, if◌then◌else◌,
}
use veraxis_memory_admissibi.Prelude.Bytes.{Bytes, GoString, bytes_eq}
use veraxis_memory_admissibi.Axis.{StructuralVector}
use veraxis_memory_admissibi.Axis.Types.{Floats}
use veraxis_memory_admissibi.Axis.Worker.{
  MemoryTransformationJob, DriftMonitorCoordinator, count_up, submit_non_blocking,
}

pub record InterceptorStats : Type 0 where
  pub submitted : ℕ
  pub dropped : ℕ
  pub skipped : ℕ

pub data InterceptorError : Type 0 where
  nil_coordinator length_mismatch context_error : InterceptorError

abbrev pub no_stats : InterceptorStats
no_stats = record { submitted = 0; dropped = 0; skipped = 0 }

module _ ⦃f : Floats⦄ where
  pub record VectorRecord : Type 0 where
    pub memory_id : Bytes
    pub embedding : StructuralVector
    pub payload_text : GoString

  pub record InterceptorWrapper : Type 0 where
    pub coordinator : Option DriftMonitorCoordinator
    pub operator_id : GoString
    pub pipeline_id : GoString
    pub policy_hash : Bytes
    pub stats : InterceptorStats

  unfoldable pub new_interceptor_wrapper :
      Option DriftMonitorCoordinator → GoString → GoString → Bytes → InterceptorWrapper
  new_interceptor_wrapper coordinator operator pipeline policy = record {
    coordinator = coordinator;
    operator_id = operator;
    pipeline_id = pipeline;
    policy_hash = policy;
    stats = no_stats;
  }

  -- `cloneVector`: a copy has the elements of the vector.
  abbrev pub clone_vector : StructuralVector → StructuralVector
  clone_vector v = v

  unfoldable pub job_of : InterceptorWrapper → VectorRecord → VectorRecord → MemoryTransformationJob
  job_of w anchor retrieved = record {
    memory_id = retrieved.memory_id;
    anchor_vector = clone_vector anchor.embedding;
    mutated_vector = clone_vector retrieved.embedding;
    operator_id = w.operator_id;
    source_pipeline = w.pipeline_id;
    policy_snapshot = w.policy_hash;
  }

  -- The counter that a submission adds to.
  unfoldable pub count_submission :
      InterceptorStats
      → Option (Bool × DriftMonitorCoordinator)
      → Option (InterceptorStats × DriftMonitorCoordinator)
  count_submission s none = none
  count_submission s (some (true, c)) = some (record s { submitted = count_up s.submitted }, c)
  count_submission s (some (false, c)) = some (record s { dropped = count_up s.dropped }, c)

  -- One round of the loop, at a coordinator.
  unfoldable pub intercept_record :
      InterceptorWrapper
      → VectorRecord
      → VectorRecord
      → InterceptorStats × DriftMonitorCoordinator
      → Option (InterceptorStats × DriftMonitorCoordinator)
  unfolding count_submission job_of
  intercept_record w anchor retrieved (s, c) =
      if not (bytes_eq anchor.memory_id retrieved.memory_id)
      then some (record s { skipped = count_up s.skipped }, c)
      else count_submission s (submit_non_blocking (job_of w anchor retrieved) c)

  -- `others n` is what the others do to the coordinator before round `n`.
  abbrev pub Others : Type 0
  Others = ℕ → DriftMonitorCoordinator → DriftMonitorCoordinator

  unfoldable pub intercept_records :
      InterceptorWrapper
      → Others
      → List VectorRecord
      → List VectorRecord
      → InterceptorStats × DriftMonitorCoordinator
      → Option (InterceptorStats × DriftMonitorCoordinator)
  unfolding intercept_record
  intercept_records w others (a ∷ anchors) (r ∷ retrieved) (s, c) =
      elim (intercept_record w a r (s, others 0 c)) [
        | none ↦ none
        | some next ↦ intercept_records w (λ n. others (suc n)) anchors retrieved next
      ]
  intercept_records w others _ _ state = some state

  -- What the hook answers, behind the loop.
  abbrev pub answer :
      InterceptorWrapper
      → List VectorRecord
      → Option (InterceptorStats × DriftMonitorCoordinator)
      → Option (List VectorRecord × Option InterceptorError × Option InterceptorWrapper)
  answer w retrieved none = none
  answer w retrieved (some (s, c)) =
      some (retrieved, none, some (record w { coordinator = some c; stats = s }))

  -- `InterceptQueryResults`; `cancelled` says whether `ctx.Err()` is not nil.
  unfoldable pub intercept_query_results :
      Others
      → Bool
      → Option InterceptorWrapper
      → List VectorRecord
      → List VectorRecord
      → Option (List VectorRecord × Option InterceptorError × Option InterceptorWrapper)
  unfolding intercept_records
  intercept_query_results others cancelled none anchors retrieved =
      some (retrieved, some nil_coordinator, none)
  intercept_query_results others cancelled (some w) anchors retrieved = elim w.coordinator [
    | none ↦ some (retrieved, some nil_coordinator, some w)
    | some c ↦
        if not (length anchors == length retrieved)
        then some (retrieved, some length_mismatch, some w)
        else if cancelled
        then some (retrieved, some context_error, some w)
        else answer w retrieved (intercept_records w others anchors retrieved (w.stats, c))
  ]

  -- `Stats`
  unfoldable pub interceptor_stats : Option InterceptorWrapper → InterceptorStats
  interceptor_stats none = no_stats
  interceptor_stats (some w) = w.stats
