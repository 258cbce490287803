-- ===== src/Vectorstore/Accounts.antt =====
-- What the hook counts, and when it panics.
use veraxis_memory_admissibi.Prelude.{
  ℕ, suc, ◌+◌, ◌%◌, ◌^◌, ◌≡◌, ◌==◌, ==_iff, refl, Bool, true, false, none, some, List, [], ◌∷◌,
  ◌++◌, length, arith, Bool-cases, inl, inr, ltb,
}
use veraxis_memory_admissibi.Prelude.Bytes.{bytes_eq}
use veraxis_memory_admissibi.Axis.Types.{Floats}
use veraxis_memory_admissibi.Axis.Worker.{
  MemoryTransformationJob, DriftMonitorCoordinator, count_up, submit_non_blocking,
}
use veraxis_memory_admissibi.Vectorstore.{
  InterceptorStats, VectorRecord, InterceptorWrapper, job_of, count_submission, intercept_record,
  Others, intercept_records, intercept_query_results,
}

-- The sum of the three counters, up to the wrap of 64 bits.
abbrev pub total : InterceptorStats → ℕ
total s = (s.submitted + s.dropped + s.skipped) % 2 ^ 64

module _ ⦃f : Floats⦄ where
  -- The others never close the queue.
  abbrev pub KeepOpen : Others → Type 0
  KeepOpen others =
      (n : ℕ) (c : DriftMonitorCoordinator) → c.closed ≡ false → (others n c).closed ≡ false

  submit-open :
      (job : MemoryTransformationJob) (c : DriftMonitorCoordinator)
      → c.closed ≡ false
      → (b : Bool) × (c' : DriftMonitorCoordinator) × (submit_non_blocking job c ≡ some (b, c'))
        × (c'.closed ≡ false)
  unfolding submit_non_blocking
  submit-open job c opened = elim (Bool-cases (ltb (length c.job_queue) c.capacity)) [
    | inl room ↦
        (true, record c { job_queue = c.job_queue ++ job ∷ [] }, simp (opened, room) refl, opened)
    | inr full ↦ (
      false,
      record c { stats = record (c.stats) { dropped = count_up c.stats.dropped } },
      simp (opened, full) refl,
      opened,
    )
  ]

  count_submission-total :
      (s : InterceptorStats) (b : Bool) (c : DriftMonitorCoordinator)
      → (s' : InterceptorStats) × (count_submission s (some (b, c)) ≡ some (s', c))
        × (total s' ≡ (total s + 1) % 2 ^ 64)
  unfolding count_submission
  count_submission-total s true c = (_, refl, omega arith)
  count_submission-total s false c = (_, refl, omega arith)

  intercept_record-counts :
      (w : InterceptorWrapper) (a r : VectorRecord) (s : InterceptorStats)
      (c : DriftMonitorCoordinator)
      → c.closed ≡ false
      → (s' : InterceptorStats) × (c' : DriftMonitorCoordinator) × (intercept_record w a r (s, c)
          ≡ some (s', c'))
        × (c'.closed ≡ false)
        × (total s' ≡ (total s + 1) % 2 ^ 64)
  unfolding intercept_record
  intercept_record-counts w a r s c opened = elim (Bool-cases (bytes_eq a.memory_id r.memory_id)) [
    | inl same ↦
        let (b, c', sent, still) = submit-open (job_of w a r) c opened in
        let (s', counted, sum) = count_submission-total s b c' in
        (s', c', rw (same, sent) counted, still, sum)
    | inr other ↦ (record s { skipped = count_up s.skipped }, c, rw other refl, opened, omega arith)
  ]

  intercept_records-count :
      (w : InterceptorWrapper) (others : Others) (anchors retrieved : List VectorRecord)
      (s : InterceptorStats) (c : DriftMonitorCoordinator)
      → KeepOpen others
      → length anchors ≡ length retrieved
      → c.closed ≡ false
      → (s' : InterceptorStats) × (c' : DriftMonitorCoordinator) × (intercept_records w others
            anchors retrieved
            (s, c)
          ≡ some (s', c'))
        × (total s' ≡ (total s + length retrieved) % 2 ^ 64)
  unfolding intercept_records
  intercept_records-count w others [] [] s c keep same opened = (s, c, refl, omega arith)
  intercept_records-count w others [] (r ∷ rs) s c keep same opened = absurd (omega (arith, same))
  intercept_records-count w others (a ∷ as_) [] s c keep same opened = absurd (omega (arith, same))
  intercept_records-count w others (a ∷ as_) (r ∷ rs) s c keep same opened =
      let (s₁, c₁, done, still, one_more) =
        intercept_record-counts w a r s (others 0 c) (keep 0 c opened) in
      let (s', c', rest, sum) =
        intercept_records-count w (λ n. others (suc n)) as_ rs s₁ c₁ (λ n. keep (suc n))
          (omega (arith, same)) still in
      (s', c', rw (intercept_records, done) rest, omega (arith, sum, one_more))

  -- On a coordinator whose queue is open, and that others leave open, a query with a context that is
  -- not done and as many anchors as records returns the retrieved records as they are and no error,
  -- whatever the others do between its submissions, and the counters of the submitted, dropped and
  -- skipped records gain together the number of the retrieved records, up to the wrap of 64 bits.
  pub intercept-accounts :
      (others : Others) (w : InterceptorWrapper) (c : DriftMonitorCoordinator)
      (anchors retrieved : List VectorRecord)
      → KeepOpen others
      → w.coordinator ≡ some c
      → c.closed ≡ false
      → length anchors ≡ length retrieved
      → (w' : InterceptorWrapper) × (intercept_query_results others false (some w) anchors retrieved
          ≡ some (retrieved, none, some w'))
        × (total w'.stats ≡ (total w.stats + length retrieved) % 2 ^ 64)
  unfolding intercept_query_results
  intercept-accounts others w c anchors retrieved keep held opened same =
      let (s', c', looped, sum) =
        intercept_records-count w others anchors retrieved w.stats c keep same opened in
      let sized : (length anchors == length retrieved) ≡ true = (==_iff _ _).1 same in
      (record w { coordinator = some c'; stats = s' }, simp (held, sized, looped) refl, sum)
