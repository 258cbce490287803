-- ===== src/Witness/Staging.antt =====
-- A staging verification at concrete inputs. The floats are natural numbers, with a division that
-- keeps the numerator; the drill's factor is 0.
use veraxis_memory_admissibi.Prelude.{
  ℕ, ◌+◌, ◌-◌, ◌*◌, ◌≡◌, ◌≢◌, refl, true, false, Option, some, none, [], ◌∷◌, replicate, leb, ltb,
  ◌==◌, if◌then◌else◌, arith, ap, get_elem?,
}
use veraxis_memory_admissibi.Prelude.Bytes.{Bytes, text, bytes_eq, zeros, big_endian}
use veraxis_memory_admissibi.Prelude.Int.{pos}
use veraxis_memory_admissibi.Prelude.Result.{ok}
use veraxis_memory_admissibi.Platform.{Platform}
use veraxis_memory_admissibi.Quarantine.Snapshot.{compile_snapshot, compute_snapshot_hash}
use veraxis_memory_admissibi.Quarantine.Ledger.{Codec, healthy}
use veraxis_memory_admissibi.Quarantine.Ledger.RoundTrip.{IsStored}
use veraxis_memory_admissibi.Gateway.Inference.Types.{background}
use veraxis_memory_admissibi.Axis.Types.{Floats, default_dimensions}
use veraxis_memory_admissibi.Axis.{
  StructuralVector, cosine_similarity, evaluate_drift, run_checks, check_similarity, sum_products,
  similarity,
}
use veraxis_memory_admissibi.Axis.Worker.{drift_event}
use veraxis_memory_admissibi.Axis.Worker.Loop.{Inputs}
use veraxis_memory_admissibi.Commands.{id_of}
use veraxis_memory_admissibi.Commands.Staging.{
  raw_bypass_detected, normalised, scale_range, copy_vector, staging_mutate_subspace,
  staging_base_vector_for_target, base_elements, sum_squares, scale_down,
}
use veraxis_memory_admissibi.Commands.Staging.Fixture.{pre_seed_event, raw_poison}
use veraxis_memory_admissibi.Commands.Staging.World.{DrillFloats, World, in_time}
use veraxis_memory_admissibi.Commands.Staging.Checks.{or_zero}
use veraxis_memory_admissibi.Commands.Staging.Run.{staging_main}
use veraxis_memory_admissibi.Commands.Staging.Seeded.{seed_snapshot}
use veraxis_memory_admissibi.Commands.Staging.Stopped.{PoisonBlocked, staging-stops_poison}
use veraxis_memory_admissibi.Commands.Staging.Passing.{
  anchor, accepted_event, Accepts, staging_main-Accepts,
}
use veraxis_memory_admissibi.Witness.Toy.{toy}
use veraxis_memory_admissibi.Witness.Sample.{id_b}

instance here : Platform
here = toy

instance abbrev whole : Floats
whole = record {
  Single = ℕ;
  Double = ℕ;
  mul_single = λ a b. a * b;
  widen = λ a. a;
  nought = 0;
  one = 1;
  plus = λ a b. a + b;
  minus = λ a b. a - b;
  times = λ a b. a * b;
  over = λ a b. a;
  sqrt = λ a. a;
  equal = λ a b. a == b;
  gt = λ a b. ltb b a;
}

abbrev drill : DrillFloats
drill = record {
  vectors = record {
    three_hundredths = 1;
    three_tenths = 10;
    of_int = λ n. n;
    narrow = λ a. a;
    nought_single = 0;
  };
  factor = 0;
  threshold = 0;
  blindspot = 0;
  at_most = λ a b. leb a b;
  four_digits = λ a. text "0.0000";
}

abbrev mutated : StructuralVector
mutated =
    normalised (drill.vectors) (
      scale_range (drill.vectors) (pos 0) (pos 23) 0 0 (copy_vector (drill.vectors) (anchor drill)))

-- A worker on a device without faults.
abbrev calm : Inputs
calm = record { device = healthy; random = some id_b; now = pos 1; later = pos 2; done = false }

-- A codec of the two events.
abbrev codec : Codec
codec = record {
  marshal = λ e. ok (if bytes_eq e.event_id (id_of 1) then 1 ∷ [] else 2 ∷ []);
  unmarshal = λ b.
      ok (if bytes_eq b (1 ∷ []) then pre_seed_event else accepted_event drill mutated calm id_b);
}

abbrev key : Bytes
key = replicate 64 9

abbrev world : World
world = record {
  started_at = pos 0;
  notes = none;
  tag = none;
  readme = none;
  opened = ok [];
  seed_device = healthy;
  file_texts = record { device_text = text "disk"; read_text = text "EOF" };
  context_text = text "done";
  monitor_at = pos 0;
  readiness_at = pos 0;
  generated_key = ok key;
  handoff_looks = background;
  handoff_at = pos 3;
  blocked_waits = true;
  blocked_looks = background;
  overflow_looks = background;
  overflow_at = pos 4;
  worker = in_time calm;
  drill_looks = background;
  drill_at = pos 5;
  report_written = true;
}

seeded : IsStored codec pre_seed_event
unfolding bytes_eq
seeded = record {
  payload = 1 ∷ [];
  encoded = refl;
  fits = (omega arith, omega arith);
  decoded = refl;
}

drilled : IsStored codec (accepted_event drill mutated calm id_b)
unfolding bytes_eq drift_event
drilled = record {
  payload = 2 ∷ [];
  encoded = refl;
  fits = (omega arith, omega arith);
  decoded = refl;
}

hashed : seed_snapshot.snapshot_hash ≢ zeros 32
unfolding here compile_snapshot compute_snapshot_hash big_endian zeros
hashed e = let eighth : ◌≡◌ {A = Option ℕ} (some 200) (some 0) = ap (λ h. get_elem? h 7) e in cc

mutates : staging_mutate_subspace (drill.vectors) (anchor drill) (pos 0) (pos 23) 0 ≡ some mutated
unfolding staging_mutate_subspace
mutates = refl

alike : leb (or_zero (cosine_similarity (anchor drill) mutated (pos 0) (pos 127))) 0 ≡ false
unfolding cosine_similarity sum_products similarity staging_base_vector_for_target base_elements
    sum_squares scale_down scale_range
alike = refl

drifts : (evaluate_drift (anchor drill) mutated default_dimensions 0).axis_preserved ≡ false
unfolding evaluate_drift run_checks check_similarity cosine_similarity sum_products similarity
    staging_base_vector_for_target base_elements sum_squares scale_down scale_range
drifts = refl

staging_main-Accepts_example : Accepts (staging_main codec drill world)
staging_main-Accepts_example =
    staging_main-Accepts codec drill world key mutated calm id_b seeded refl refl hashed refl refl
      (λ n. refl) (λ n. refl) (λ n. refl) (λ n. refl) refl mutates alike drifts refl refl refl
      drilled refl

-- The same run, for the theorem on accepted runs.
accepted : Accepts (staging_main codec drill world)
accepted =
    staging_main-Accepts codec drill world key mutated calm id_b seeded refl refl hashed refl refl
      (λ n. refl) (λ n. refl) (λ n. refl) (λ n. refl) refl mutates alike drifts refl refl refl
      drilled refl

staging-stops_poison_example :
    (world.report_written ≡ true)
    × PoisonBlocked (accepted.2)
    × (raw_bypass_detected (accepted.1) raw_poison ≡ false)
staging-stops_poison_example =
    staging-stops_poison codec drill world (accepted.0) (accepted.1) (accepted.2) (accepted.3)
