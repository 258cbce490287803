-- ===== src/Commands/Staging/Gates.antt =====
-- What the report of a staging verification says that finished with exit code 0.
use mathlib.Core.Path.{subst}
use veraxis_memory_admissibi.Prelude.{
  ◌≡◌, refl, ap, ◌∙◌, Bool, true, false, ◌||◌, not, Option, none, some, [], get_elem?, Bool-cases,
  inl, inr, arith,
}
use veraxis_memory_admissibi.Prelude.Bytes.{GoString, text, bytes_eq}
use veraxis_memory_admissibi.Prelude.Result.{Result, ok, err}
use veraxis_memory_admissibi.Platform.{Platform}
use veraxis_memory_admissibi.Quarantine.Monitor.{RuntimeMonitor}
use veraxis_memory_admissibi.Gateway.{LlmMessage, tombstone_quarantine}
use veraxis_memory_admissibi.Orchestrator.Types.{HandoffCoordinator, HandoffError, HandoffResult}
use veraxis_memory_admissibi.Axis.Types.{Floats}
use veraxis_memory_admissibi.Axis.Worker.{DriftMonitorCoordinator}
use veraxis_memory_admissibi.Commands.Staging.{
  StagingVerificationReport, ControlledProvider, raw_bypass_detected, pass, all_pass,
  conclude_staging,
}
use veraxis_memory_admissibi.Commands.Staging.Verdict.{exit_code, gates_iff}
use veraxis_memory_admissibi.Commands.Staging.Fixture.{raw_poison}
use veraxis_memory_admissibi.Commands.Staging.World.{World}
use veraxis_memory_admissibi.Commands.Staging.Checks.{judge_payload, drill_report}
use veraxis_memory_admissibi.Commands.Staging.Run.{finished, fill_in, finish_staging, after_drill}

-- A result that is a pass once the gaps are filled in was a pass before.
fill_in-pass :
    (r : StagingVerificationReport)
    → (fill_in r).poison_drill_result ≡ pass
    → r.poison_drill_result ≡ pass
unfolding fill_in bytes_eq text
fill_in-pass r h = elim (Bool-cases (bytes_eq r.poison_drill_result [])) [
  | inl empty ↦ absurd (cc (rw empty at h))
  | inr set ↦ rw set at h
]

fill_in-clean :
    (r : StagingVerificationReport)
    → (fill_in r).raw_context_bypass_detected ≡ false
    → r.raw_context_bypass_detected ≡ false
unfolding fill_in
fill_in-clean r h = h

clean_test :
    (before tombstoned leaked : Bool)
    → (before || (not tombstoned || leaked)) ≡ false
    → (tombstoned ≡ true) × (leaked ≡ false)
clean_test before tombstoned leaked h = ground arith

module _ ⦃p : Platform⦄ where
  judged-pass :
      (leaked : Bool) (h : HandoffResult) (r : StagingVerificationReport) (m : LlmMessage)
      → (judge_payload leaked h r m).poison_drill_result ≡ pass
      → (judge_payload leaked h r m).raw_context_bypass_detected ≡ false
      → (leaked ≡ false) × (r.poison_drill_result ≡ pass)
  judged-pass leaked h r m passed clean =
      let (tombstoned, none_leaked) =
        clean_test r.raw_context_bypass_detected (bytes_eq m.content tombstone_quarantine) leaked
          clean in
      (none_leaked, rw tombstoned at passed)

module _ ⦃p : Platform⦄ ⦃f : Floats⦄ (w : World) where
  payload-pass :
      (leaked : Bool) (h : HandoffResult) (r r' : StagingVerificationReport) (o : Option LlmMessage)
      → elim o [ none ↦ none | some m ↦ some (judge_payload leaked h r m) ] ≡ some r'
      → r'.poison_drill_result ≡ pass
      → r'.raw_context_bypass_detected ≡ false
      → (leaked ≡ false) × (r.poison_drill_result ≡ pass)
  payload-pass leaked h r r' none made passed clean = absurd (cc)
  payload-pass leaked h r r' (some m) made passed clean =
      let same : judge_payload leaked h r m ≡ r' = cc in
      judged-pass leaked h r m (ap (λ q. q.poison_drill_result) same ∙ passed)
        (ap (λ q. q.raw_context_bypass_detected) same ∙ clean)

  -- The report of the drill passes, and no raw text was seen, only when the handoff succeeded and its
  -- result stood there before.
  drill_report-pass :
      (leaked : Bool) (res : Result HandoffError HandoffResult) (r r' : StagingVerificationReport)
      → drill_report w leaked res r ≡ some r'
      → r'.poison_drill_result ≡ pass
      → r'.raw_context_bypass_detected ≡ false
      → (leaked ≡ false) × (r.poison_drill_result ≡ pass)
  unfolding drill_report
  drill_report-pass leaked (err e) r r' made passed clean = absurd (cc)
  drill_report-pass leaked (ok h) r r' made passed clean =
      payload-pass leaked h r r' (get_elem? h.sanitized_payload 0) made passed clean

  -- A run that ends with exit code 0 has a report whose gates are open.
  finished-gates :
      (provider seen : ControlledProvider) (monitor m : Option RuntimeMonitor)
      (o : Option StagingVerificationReport) (report : StagingVerificationReport)
      → finish_staging w provider monitor o ≡ finished report 0 seen m
      → (r : StagingVerificationReport) × (o ≡ some r)
        × (all_pass (fill_in r) ≡ true)
        × (w.report_written ≡ true)
        × (provider ≡ seen)
        × (monitor ≡ m)
  unfolding finish_staging
  finished-gates provider seen monitor m none report e = absurd (cc)
  finished-gates provider seen monitor m (some r) report e =
      let code : (conclude_staging w.report_written (fill_in r)).1 ≡ 0 = cc in
      let (written, good) =
        (exit_code w.report_written (all_pass (fill_in r)) (fill_in r) refl).0 code in
      (r, refl, good, written, cc, cc)

  -- What the run says behind the drill, when it ends with exit code 0.
  pub after_drill-finished :
      (coordinator : Option HandoffCoordinator) (provider seen : ControlledProvider)
      (r report : StagingVerificationReport) (o : Option (GoString × DriftMonitorCoordinator))
      (m : Option RuntimeMonitor)
      → after_drill w coordinator provider r o ≡ finished report 0 seen m
      → (c : DriftMonitorCoordinator) × (o ≡ some (pass, c))
        × (c.monitor ≡ m)
        × (raw_bypass_detected seen raw_poison ≡ false)
        × (w.report_written ≡ true)
  unfolding after_drill
  after_drill-finished coordinator provider seen r report none m e = absurd (cc)
  after_drill-finished coordinator provider seen r report (some (t, c)) m e =
      let (r', made, good, written, same_seen, same_monitor) =
        finished-gates _ seen c.monitor m _ report e in
      let (_, _, _, _, passed, _, clean) = (gates_iff (fill_in r')).0 good in
      let (leak, before) =
        drill_report-pass _ _ _ r' made (fill_in-pass r' passed) (fill_in-clean r' clean) in
      (
        c,
        ap (λ u. some (u, c)) before,
        same_monitor,
        subst (λ q. raw_bypass_detected q raw_poison ≡ false) same_seen leak,
        written,
      )
