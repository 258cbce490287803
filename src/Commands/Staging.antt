-- ===== src/Commands/Staging.antt =====
-- The parts of cmd/staging-verify/main.go beside its main function: the provider that records its
-- calls, the report and its verdict, the reference hash and the test vectors.
pub mod Verdict
pub mod Fixture
pub mod World
pub mod Checks
pub mod Run
pub mod Gates
pub mod Stopped
pub mod Seeded
pub mod Turns
pub mod Overflow
pub mod Drilled
pub mod Sanitised
pub mod Accepted
pub mod Poisoned
pub mod Passing
use Prim.Native.Nat.{ℕ, zero, suc, ◌+◌, ◌%◌}
use veraxis_memory_admissibi.Prelude.{
  replicate, take, drop, length, Bool, true, false, ◌&&◌, ◌||◌, not, leb, Option, none, some, List,
  [], ◌∷◌, ◌++◌, if◌then◌else◌,
}
use veraxis_memory_admissibi.Prelude.Bytes.{Bytes, GoString, text, bytes_eq}
use veraxis_memory_admissibi.Prelude.Int.{ℤ, pos, ltb_ℤ, leb_ℤ}
use veraxis_memory_admissibi.Prelude.Result.{Result, ok, err}
use veraxis_memory_admissibi.Prelude.Time.{Time}
use veraxis_memory_admissibi.Platform.{Platform}
use veraxis_memory_admissibi.Gateway.{LlmMessage}
use veraxis_memory_admissibi.Gateway.Inference.Types.{
  ProviderResponse, ProviderError, provider_context_error,
}
use veraxis_memory_admissibi.Orchestrator.{hex_byte}
use veraxis_memory_admissibi.Axis.Types.{Floats}
use veraxis_memory_admissibi.Axis.{StructuralVector}
use veraxis_memory_admissibi.Commands.{any_contains}

pub record StagingVerificationReport : Type 0 where
  pub release_tag : GoString
  pub reference_hash : GoString
  pub wal_replay_result : GoString
  pub runtime_snapshot_hash : GoString
  pub runtime_snapshot_version : ℕ
  pub readiness_result : GoString
  pub handoff_result : GoString
  pub backpressure_result : GoString
  pub poison_drill_result : GoString
  pub session_map_id : GoString
  pub session_map_merkle_root : GoString
  pub mcr_id : GoString
  pub mcr_lineage_digest : GoString
  pub audit_replay_result : GoString
  pub raw_context_bypass_detected : Bool
  pub final_status : GoString
  pub verified_at : Time

-- `calls` and `messages` of the provider.
pub record ControlledProvider : Type 0 where
  pub calls : ℕ
  pub messages : List (List LlmMessage)

-- The select before the answer: the provider has no channel or finds it open, or its context ends.
pub data Gate : Type 0 where
  passes context_ends : Gate

-- `Invoke`
unfoldable pub controlled_invoke :
    Gate
    → List LlmMessage
    → ControlledProvider
    → Result ProviderError ProviderResponse × ControlledProvider
controlled_invoke context_ends messages p = (err provider_context_error, p)
controlled_invoke passes messages p = (
  ok (record {
    response = text "staging sub-agent processed sanitized supervisor constraints";
    tokens = record { prompt_tokens = pos 32; completion_tokens = pos 8; total_tokens = pos 40 };
  }),
  record { calls = p.calls + 1; messages = p.messages ++ messages ∷ [] },
)

unfoldable pub batches_contain : List (List LlmMessage) → GoString → Bool
unfolding any_contains
batches_contain [] raw = false
batches_contain (batch ∷ batches) raw = any_contains batch raw || batches_contain batches raw

unfoldable pub raw_bypass_detected : ControlledProvider → GoString → Bool
unfolding batches_contain
raw_bypass_detected p raw = batches_contain p.messages raw

abbrev pub pass : GoString
pass = text "pass"

unfoldable pub all_pass : StagingVerificationReport → Bool
all_pass r =
    bytes_eq r.wal_replay_result pass
    && (bytes_eq r.readiness_result pass
        && (bytes_eq r.handoff_result pass
            && (bytes_eq r.backpressure_result pass
                && (bytes_eq r.poison_drill_result pass
                    && (bytes_eq r.audit_replay_result pass
                        && not r.raw_context_bypass_detected)))))

-- The end of `main`: the final status and the exit code, where the report could be written or not.
unfoldable pub conclude_staging : Bool → StagingVerificationReport → StagingVerificationReport × ℕ
unfolding all_pass
conclude_staging written r =
    let status = if all_pass r then text "STAGING_ACCEPTED" else text "STAGING_REJECTED" in
    let report = record r { final_status = status } in
    if not written
    then (report, 1)
    else if not (bytes_eq status (text "STAGING_ACCEPTED"))
    then (report, 1)
    else (report, 0)

-- `hex.EncodeToString`
unfoldable pub hex_string : Bytes → GoString
hex_string [] = []
hex_string (b ∷ bytes) = hex_byte b ++ hex_string bytes

-- What `computeReferenceHash` writes into the hash for the files; `none` is one that cannot be read.
unfoldable pub write_files : List (GoString × Option Bytes) → Bytes
write_files [] = []
write_files ((path, none) ∷ files) = write_files files
write_files ((path, some content) ∷ files) =
    path ++ ((0 ∷ []) ++ (content ++ ((0 ∷ []) ++ write_files files)))

-- The files of the candidates, in order: what reading each one answers.
abbrev pub candidates : Option Bytes → Option Bytes → Option Bytes → List (GoString × Option Bytes)
candidates notes tag readme =
    (text "RELEASE_NOTES_v0.1.0.md", notes)
    ∷ (text "REFERENCE_TAG", tag)
    ∷ (text "README.md", readme)
    ∷ []

unfoldable pub compute_reference_hash :
    ⦃p : Platform⦄ → Option Bytes → Option Bytes → Option Bytes → GoString
unfolding write_files hex_string
compute_reference_hash ⦃p⦄ notes tag readme =
    let sum = p.sha256 (write_files (candidates notes tag readme)) in
    elim sum as (λ x. GoString) [
      | [] ↦ text "sha256:unavailable"
      | b ∷ rest ↦ text "sha256:" ++ hex_string sum
    ]

-- What the test vectors use of the floats beyond the drift check: three constants and two conversions.
pub record VectorFloats ⦃f : Floats⦄ : Type 0 where
  pub three_hundredths : f.Single
  pub three_tenths : f.Single
  pub of_int : ℕ → f.Single
  pub narrow : f.Double → f.Single
  pub nought_single : f.Single

module _ ⦃f : Floats⦄ (v : VectorFloats) where
  -- The sum of the squares, added up from the front.
  unfoldable pub sum_squares : f.Double → StructuralVector → f.Double
  sum_squares mag [] = mag
  sum_squares mag (x ∷ xs) = sum_squares (f.plus mag (f.widen (f.mul_single x x))) xs

  unfoldable pub scale_down : f.Double → StructuralVector → StructuralVector
  scale_down mag [] = []
  scale_down mag (x ∷ xs) = v.narrow (f.over (f.widen x) mag) ∷ scale_down mag xs

  abbrev pub within : ℤ → ℤ → ℕ → Bool
  within start end i = leb_ℤ start (pos i) && leb_ℤ (pos i) end

  -- The elements from index `i` on, `n` of them.
  unfoldable pub base_elements : ℤ → ℤ → ℕ → ℕ → StructuralVector
  base_elements start end zero i = []
  base_elements start end (suc n) i =
      f.mul_single (if within start end i then v.three_hundredths else v.three_tenths)
        (v.of_int (i % 5 + 1))
      ∷ base_elements start end n (suc i)

  abbrev pub normalised : StructuralVector → StructuralVector
  normalised xs = scale_down (f.sqrt (sum_squares f.nought xs)) xs

  unfoldable pub staging_base_vector_for_target : ℤ → ℤ → StructuralVector
  unfolding base_elements sum_squares scale_down
  staging_base_vector_for_target start end = normalised (base_elements start end 128 0)

  -- `copy` of a vector into one of 128 zeros.
  abbrev pub copy_vector : StructuralVector → StructuralVector
  copy_vector base = take 128 base ++ drop (length base) (replicate 128 v.nought_single)

  unfoldable pub scale_range : ℤ → ℤ → f.Single → ℕ → StructuralVector → StructuralVector
  scale_range start end factor i [] = []
  scale_range start end factor i (x ∷ xs) =
      (if within start end i then f.mul_single x factor else x)
      ∷ scale_range start end factor (suc i) xs

  -- `none` is the panic of a loop that leaves the vector.
  unfoldable pub staging_mutate_subspace :
      StructuralVector → ℤ → ℤ → f.Single → Option StructuralVector
  unfolding scale_range sum_squares scale_down
  staging_mutate_subspace base start end factor =
      if not (ltb_ℤ end start) && (ltb_ℤ start (pos 0) || leb_ℤ (pos 128) end)
      then none
      else some (normalised (scale_range start end factor 0 (copy_vector base)))
