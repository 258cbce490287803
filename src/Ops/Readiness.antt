-- ===== src/Ops/Readiness.antt =====
-- When a node is ready.
use mathlib.Core.Path.{subst}
use veraxis_memory_admissibi.Prelude.{
  ℕ, ◌+◌, ◌≡◌, sym, ◌≢◌, ◌≤◌, ◌↔◌, ◌⊎◌, inl, inr, refl, Bool, true, false, not, ◌&&◌, arith,
  if◌then◌else◌,
}
use veraxis_memory_admissibi.Prelude.Bytes.{Bytes, GoString, bytes_eq_iff, zeros}
use veraxis_memory_admissibi.Prelude.Result.{ok}
use veraxis_memory_admissibi.Prelude.Int.{pos, ltb_ℤ, eqb_ℤ_iff, ◌≤ℤ◌}
use veraxis_memory_admissibi.Prelude.Time.{Time, Duration, zero_time, is_zero, time_sub}
use veraxis_memory_admissibi.Ops.{
  SnapshotTelemetry, HealthConfig, evaluate_readiness, validate_boot_replay, is_unset, current_time,
  version_behind, snapshot_late, cooled_too_long, not_ready, is_ready,
}

not-false : {b : Bool} → not b ≡ false → b ≡ true
not-false h = ground arith

ready_chain :
    (unset unreadable behind late unreachable zero_cooling long : Bool) (a b c d e f g : GoString)
    → ((if unset
          then not_ready a
          else if unreadable
          then not_ready b
          else if behind
          then not_ready c
          else if late
          then not_ready d
          else if unreachable
          then (if zero_cooling then is_ready e else if long then not_ready f else is_ready e)
          else is_ready g).ready
        ≡ true)
      ↔ ((unset ≡ false)
          × (unreadable ≡ false)
          × (behind ≡ false)
          × (late ≡ false)
          × ((unreachable && (not zero_cooling && long)) ≡ false))
ready_chain unset unreadable behind late unreachable zero_cooling long a b c d e f g = ground arith

not_unset_iff :
    (version : ℕ) (hash : Bytes)
    → (is_unset version hash ≡ false) ↔ ((version ≢ 0) × (hash ≢ zeros 32))
not_unset_iff version hash = ground (arith, bytes_eq_iff hash (zeros 32))

not_behind_iff :
    (t : SnapshotTelemetry) (cfg : HealthConfig)
    → (version_behind t cfg ≡ false) ↔ (
        (cfg.max_version_lag ≡ 0)
        ⊎ (cfg.cluster_baseline_version ≤ t.snapshot_version + cfg.max_version_lag))
not_behind_iff t cfg = ground arith

-- `now` is the time that the configuration gives, or the clock's where it gives none.
abbrev pub IsNow : Time → HealthConfig → Time → Type 0
IsNow clock cfg now =
    ((cfg.now ≡ zero_time) × (now ≡ clock)) ⊎ ((cfg.now ≢ zero_time) × (now ≡ cfg.now))

current_time-IsNow :
    (clock now : Time) (cfg : HealthConfig) → IsNow clock cfg now → current_time clock cfg ≡ now
current_time-IsNow clock now cfg h = ground (arith, eqb_ℤ_iff cfg.now zero_time)

-- A bound that is not positive is none; otherwise no more than the bound has passed since then.
abbrev pub IsRecent : Time → Time → Duration → Type 0
IsRecent now since bound = (bound ≤ℤ pos 0) ⊎ (time_sub now since ≤ℤ bound)

guarded_iff :
    {A B : Type 0} (z b : Bool)
    → (z ≡ true) ↔ A
    → (b ≡ false) ↔ B
    → ((not z && b) ≡ false) ↔ (A ⊎ B)
guarded_iff true b a_iff b_iff = (λ h. inl (a_iff.0 refl), λ h. refl)
guarded_iff false b a_iff b_iff =
    (λ h. inr (b_iff.0 h), λ h. elim h [ inl a ↦ absurd (cc (a_iff.1 a)) | inr r ↦ b_iff.1 r ])

IsRecent-iff :
    (now since : Time) (bound : Duration)
    → ((ltb_ℤ (pos 0) bound && ltb_ℤ bound (time_sub now since)) ≡ false) ↔ IsRecent now since bound
IsRecent-iff now since bound = ground arith

-- The code's tests of a time: it is set, the bound is positive, and more than the bound has passed.
overdue_iff :
    (clock now since : Time) (cfg : HealthConfig) (bound : Duration)
    → IsNow clock cfg now
    → ((not (is_zero since)
          && (ltb_ℤ (pos 0) bound && ltb_ℤ bound (time_sub (current_time clock cfg) since)))
        ≡ false)
      ↔ ((since ≡ zero_time) ⊎ IsRecent now since bound)
overdue_iff clock now since cfg bound h =
    guarded_iff (is_zero since) _ (eqb_ℤ_iff since zero_time) (
      subst
        (λ n.
          ((ltb_ℤ (pos 0) bound && ltb_ℤ bound (time_sub n since)) ≡ false)
          ↔ IsRecent now since bound)
        (sym (current_time-IsNow clock now cfg h)) (IsRecent-iff now since bound))

-- A node is ready exactly when its snapshot has a version and a hash, its log is readable, no version
-- lag is set or its version is within the lag of the cluster's baseline, its snapshot was never
-- applied or recently, and it reaches the bus, or has no cooling time or a recent one. A time is
-- recent when its bound is not positive or no more than the bound has passed since.
pub ready_iff :
    (clock now : Time) (t : SnapshotTelemetry) (cfg : HealthConfig)
    → IsNow clock cfg now
    → ((evaluate_readiness clock t cfg).ready ≡ true) ↔ (
        (t.snapshot_version ≢ 0)
        × (t.snapshot_hash ≢ zeros 32)
        × (t.wal_readable ≡ true)
        × ((cfg.max_version_lag ≡ 0)
            ⊎ (cfg.cluster_baseline_version ≤ t.snapshot_version + cfg.max_version_lag))
        × ((t.last_applied_at ≡ zero_time) ⊎ IsRecent now t.last_applied_at cfg.max_snapshot_lag)
        × ((t.pub_sub_reachable ≡ true)
            ⊎ ((t.cooling_since ≡ zero_time) ⊎ IsRecent now t.cooling_since cfg.max_cooling_lock)))
unfolding evaluate_readiness
ready_iff clock now t cfg h =
    let chain =
      ready_chain (is_unset t.snapshot_version t.snapshot_hash) (not t.wal_readable)
        (version_behind t cfg) (snapshot_late clock t cfg) (not t.pub_sub_reachable)
        (is_zero t.cooling_since) (cooled_too_long clock t cfg) _ _ _ _ _ _ _ in
    let set = not_unset_iff t.snapshot_version t.snapshot_hash in
    let behind = not_behind_iff t cfg in
    let late = overdue_iff clock now t.last_applied_at cfg cfg.max_snapshot_lag h in
    let cooling =
      guarded_iff t.pub_sub_reachable _ (λ x. x, λ x. x)
        (overdue_iff clock now t.cooling_since cfg cfg.max_cooling_lock h) in
    (
      λ ready.
          let (a, b, c, d, e) = chain.0 ready in
          let (version, hash) = set.0 a in
          (version, hash, not-false b, behind.0 c, late.0 d, cooling.0 e),
      λ (version, hash, readable, lag, recent, reached).
          chain.1 (
            set.1 (version, hash),
            rw readable refl,
            behind.1 lag,
            late.1 recent,
            cooling.1 reached,
          ),
    )

-- A boot replay that is accepted did not fail and gives a snapshot that readiness does not take for
-- an unset one, and every such replay is accepted.
pub boot_replay_iff :
    (version : ℕ) (hash : Bytes) (failed : Bool)
    → (validate_boot_replay version hash failed ≡ ok tt)
      ↔ ((failed ≡ false) × (version ≢ 0) × (hash ≢ zeros 32))
unfolding validate_boot_replay
boot_replay_iff version hash failed =
    let unset = not_unset_iff version hash in (λ h. ground arith, λ h. ground arith)
