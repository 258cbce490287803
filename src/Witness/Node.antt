-- ===== src/Witness/Node.antt =====
-- Readiness of a node and the payloads of the providers.
use veraxis_memory_admissibi.Prelude.{
  ◌+◌, ◌≡◌, ◌≢◌, ◌≤◌, ◌↔◌, ◌⊎◌, inr, refl, true, false, List, [], ◌∷◌,
}
use veraxis_memory_admissibi.Prelude.Bytes.{text, zeros}
use veraxis_memory_admissibi.Prelude.Int.{pos}
use veraxis_memory_admissibi.Prelude.Time.{zero_time}
use veraxis_memory_admissibi.Gateway.{LlmMessage}
use veraxis_memory_admissibi.Ops.{SnapshotTelemetry, HealthConfig, evaluate_readiness}
use veraxis_memory_admissibi.Ops.Readiness.{IsRecent, ready_iff}
use veraxis_memory_admissibi.Witness.Sample.{hash_of, message}

abbrev telemetry : SnapshotTelemetry
telemetry = record {
  node_id = text "n";
  snapshot_version = 5;
  snapshot_hash = hash_of 1;
  last_applied_at = pos 0;
  wal_readable = true;
  pub_sub_reachable = false;
  cooling_since = pos 3;
}

abbrev config : HealthConfig
config = record {
  cluster_baseline_version = 7;
  max_version_lag = 2;
  max_snapshot_lag = pos 10;
  max_cooling_lock = pos 10;
  now = pos 8;
}

ready_iff_example : ((evaluate_readiness (pos 8) telemetry config).ready ≡ true) ↔ (
    (telemetry.snapshot_version ≢ 0)
    × (hash_of 1 ≢ zeros 32)
    × (true ≡ true)
    × ((config.max_version_lag ≡ 0)
        ⊎ (config.cluster_baseline_version ≤ telemetry.snapshot_version + config.max_version_lag))
    × ((pos 0 ≡ zero_time) ⊎ IsRecent (pos 8) (pos 0) config.max_snapshot_lag)
    × ((false ≡ true) ⊎ ((pos 3 ≡ zero_time) ⊎ IsRecent (pos 8) (pos 3) config.max_cooling_lock)))
ready_iff_example = ready_iff (pos 8) (pos 8) telemetry config (inr (λ e. cc, refl))

abbrev chat : List LlmMessage
chat = record { role = text "system"; content = text "rules" } ∷ message (text "hello") ∷ []
