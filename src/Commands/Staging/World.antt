-- ===== src/Commands/Staging/World.antt =====
-- What the world gives to a run of cmd/staging-verify/main.go: readings of the clock, outcomes of files
-- and devices, and how its goroutines are scheduled.
use veraxis_memory_admissibi.Prelude.{Bool, Option}
use veraxis_memory_admissibi.Prelude.Bytes.{Bytes, GoString, text}
use veraxis_memory_admissibi.Prelude.Result.{Result}
use veraxis_memory_admissibi.Prelude.Time.{Time}
use veraxis_memory_admissibi.Platform.{Platform}
use veraxis_memory_admissibi.Quarantine.Ledger.{Device}
use veraxis_memory_admissibi.Quarantine.Ledger.ErrorText.{FileTexts}
use veraxis_memory_admissibi.Gateway.Inference.Types.{Context}
use veraxis_memory_admissibi.Axis.Types.{Floats}
use veraxis_memory_admissibi.Axis.{StructuralVector}
use veraxis_memory_admissibi.Axis.Worker.{MemoryTransformationJob}
use veraxis_memory_admissibi.Axis.Worker.Loop.{Inputs}
use veraxis_memory_admissibi.Commands.Staging.{VectorFloats}
use veraxis_memory_admissibi.Commands.Staging.Fixture.{poison_memory_id, staging_policy}

-- What the drill uses of the floats: the constants of the vectors, -3.5, 0.35 and 0.92, `<=`, and
-- the verb %.4f.
pub record DrillFloats ⦃f : Floats⦄ : Type 0 where
  pub vectors : VectorFloats
  pub factor : f.Single
  pub threshold : f.Double
  pub blindspot : f.Double
  pub at_most : f.Double → f.Double → Bool
  pub four_digits : f.Double → GoString

module _ ⦃f : Floats⦄ where
  abbrev pub drill_job : StructuralVector → StructuralVector → MemoryTransformationJob
  drill_job anchor mutated = record {
    memory_id = poison_memory_id;
    anchor_vector = anchor;
    mutated_vector = mutated;
    operator_id = text "staging_monitor";
    source_pipeline = text "staging_poison_drill";
    policy_snapshot = staging_policy;
  }

  module _ ⦃p : Platform⦄ where
    -- What becomes of the submitted job: a worker ends it before the last look at the counters, or after
    -- that look and before the poisoned handoff, or no worker takes it in time.
    pub data Worker : Type 0 where
      in_time late : Inputs → Worker
      never : Worker

    -- Everything that the run does not decide. A handoff has the looks at its context and its reading of
    -- the clock; `blocked_waits` says that the handoff of the other goroutine has taken the slot and waits
    -- at its provider when the main goroutine starts its own.
    pub record World : Type 0 where
      pub started_at : Time
      pub notes : Option Bytes
      pub tag : Option Bytes
      pub readme : Option Bytes
      pub opened : Result GoString Bytes
      pub seed_device : Device
      pub file_texts : FileTexts
      pub context_text : GoString
      pub monitor_at : Time
      pub readiness_at : Time
      pub generated_key : Result GoString Bytes
      pub handoff_looks : Context
      pub handoff_at : Time
      pub blocked_waits : Bool
      pub blocked_looks : Context
      pub overflow_looks : Context
      pub overflow_at : Time
      pub worker : Worker
      pub drill_looks : Context
      pub drill_at : Time
      pub report_written : Bool
