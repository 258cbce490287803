-- ===== src/Ops.antt =====
-- pkg/ops/health.go: readiness of a node, and the check of what a boot replayed. `clock` is what
-- `time.Now()` answers.
pub mod Readiness
use veraxis_memory_admissibi.Prelude.{
  ℕ, ◌-◌, ◌==◌, ltb, Bool, true, false, ◌&&◌, ◌||◌, not, Option, none, some, if◌then◌else◌,
}
use veraxis_memory_admissibi.Prelude.Bytes.{Bytes, GoString, text, bytes_eq, zeros}
use veraxis_memory_admissibi.Prelude.Int.{pos, ltb_ℤ}
use veraxis_memory_admissibi.Prelude.Result.{Result, ok, err}
use veraxis_memory_admissibi.Prelude.Time.{Time, Duration, is_zero, time_sub}

pub record SnapshotTelemetry : Type 0 where
  pub node_id : GoString
  pub snapshot_version : ℕ
  pub snapshot_hash : Bytes
  pub last_applied_at : Time
  pub wal_readable : Bool
  pub pub_sub_reachable : Bool
  pub cooling_since : Time

pub record HealthConfig : Type 0 where
  pub cluster_baseline_version : ℕ
  pub max_version_lag : ℕ
  pub max_snapshot_lag : Duration
  pub max_cooling_lock : Duration
  pub now : Time

pub record ReadinessResult : Type 0 where
  pub ready : Bool
  pub reason : GoString

abbrev pub not_ready : GoString → ReadinessResult
not_ready r = record { ready = false; reason = r }

abbrev pub is_ready : GoString → ReadinessResult
is_ready r = record { ready = true; reason = r }

-- `version == 0 || hash == [32]byte{}`
abbrev pub is_unset : ℕ → Bytes → Bool
is_unset version hash = version == 0 || bytes_eq hash (zeros 32)

abbrev pub current_time : Time → HealthConfig → Time
current_time clock cfg = if is_zero cfg.now then clock else cfg.now

-- The tests of the version and of the time since the last snapshot.
abbrev pub version_behind : SnapshotTelemetry → HealthConfig → Bool
version_behind t cfg =
    ltb t.snapshot_version cfg.cluster_baseline_version
    && (ltb 0 cfg.max_version_lag
        && ltb cfg.max_version_lag (cfg.cluster_baseline_version - t.snapshot_version))

abbrev pub snapshot_late : Time → SnapshotTelemetry → HealthConfig → Bool
snapshot_late clock t cfg =
    not (is_zero t.last_applied_at)
    && (ltb_ℤ (pos 0) cfg.max_snapshot_lag
        && ltb_ℤ cfg.max_snapshot_lag (time_sub (current_time clock cfg) t.last_applied_at))

abbrev pub cooled_too_long : Time → SnapshotTelemetry → HealthConfig → Bool
cooled_too_long clock t cfg =
    ltb_ℤ (pos 0) cfg.max_cooling_lock
    && ltb_ℤ cfg.max_cooling_lock (time_sub (current_time clock cfg) t.cooling_since)

unfoldable pub evaluate_readiness : Time → SnapshotTelemetry → HealthConfig → ReadinessResult
evaluate_readiness clock t cfg =
    if is_unset t.snapshot_version t.snapshot_hash
    then not_ready (text "MAM_RUNTIME_SNAPSHOT_ZERO")
    else if not t.wal_readable
    then not_ready (text "MAM_WAL_UNREADABLE")
    else if version_behind t cfg
    then not_ready (text "MAM_SNAPSHOT_OUT_OF_SYNC")
    else if snapshot_late clock t cfg
    then not_ready (text "MAM_SNAPSHOT_LAG_EXCEEDED")
    else if not t.pub_sub_reachable
    then (if is_zero t.cooling_since
        then is_ready (text "MAM_PUBSUB_COOLING_LOCK")
        else if cooled_too_long clock t cfg
        then not_ready (text "MAM_PUBSUB_UNREACHABLE")
        else is_ready (text "MAM_PUBSUB_COOLING_LOCK"))
    else is_ready (text "MAM_READY")

pub data BootError : Type 0 where
  replay_failed invalid_snapshot : BootError

-- `failed` says whether `replayErr` is not nil.
unfoldable pub validate_boot_replay : ℕ → Bytes → Bool → Result BootError (Unit {0})
validate_boot_replay version hash failed =
    if failed
    then err replay_failed
    else if is_unset version hash
    then err invalid_snapshot
    else ok tt
