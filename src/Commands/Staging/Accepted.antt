-- ===== src/Commands/Staging/Accepted.antt =====
-- When the staging verification is accepted.
use veraxis_memory_admissibi.Prelude.{
  ◌≡◌, refl, ap, ◌∙◌, Bool, true, false, Option, none, some, get_elem?, List, [], ◌∷◌,
}
use veraxis_memory_admissibi.Prelude.Bytes.{text, bytes_eq}
use veraxis_memory_admissibi.Prelude.Result.{ok}
use veraxis_memory_admissibi.Platform.{Platform}
use veraxis_memory_admissibi.Quarantine.Monitor.{RuntimeMonitor}
use veraxis_memory_admissibi.Audit.Lineage.{verify_lineage_record}
use veraxis_memory_admissibi.Gateway.{LlmMessage, tombstone_quarantine}
use veraxis_memory_admissibi.Orchestrator.Types.{HandoffResult}
use veraxis_memory_admissibi.Axis.Types.{Floats}
use veraxis_memory_admissibi.Commands.Staging.{
  StagingVerificationReport, ControlledProvider, pass, all_pass, conclude_staging,
}
use veraxis_memory_admissibi.Commands.Staging.Verdict.{gates_iff}
use veraxis_memory_admissibi.Commands.Staging.Fixture.{user}
use veraxis_memory_admissibi.Commands.Staging.Checks.{judge_payload, drill_report}
use veraxis_memory_admissibi.Commands.Staging.World.{World}
use veraxis_memory_admissibi.Commands.Staging.Run.{finished, fill_in, finish_staging}

module _ ⦃p : Platform⦄ ⦃f : Floats⦄ (w : World) where
  -- The report that an accepted run ends with.
  abbrev pub accepted_report : StagingVerificationReport → StagingVerificationReport
  accepted_report r = record (fill_in r) { final_status = text "STAGING_ACCEPTED" }

  conclude-accepted :
      (written : Bool) (r : StagingVerificationReport)
      → written ≡ true
      → all_pass r ≡ true
      → conclude_staging written r ≡ (record r { final_status = text "STAGING_ACCEPTED" }, 0)
  unfolding conclude_staging bytes_eq text
  conclude-accepted written r stored good = simp (stored, good) refl

  finish-accepted :
      (provider : ControlledProvider) (monitor : Option RuntimeMonitor)
      (r : StagingVerificationReport)
      → w.report_written ≡ true
      → r.wal_replay_result ≡ pass
      → r.readiness_result ≡ pass
      → r.handoff_result ≡ pass
      → r.backpressure_result ≡ pass
      → r.poison_drill_result ≡ pass
      → r.audit_replay_result ≡ pass
      → r.raw_context_bypass_detected ≡ false
      → finish_staging w provider monitor (some r) ≡ finished (accepted_report r) 0 provider monitor
  unfolding finish_staging fill_in bytes_eq text
  finish-accepted provider monitor r written wal ready handed pressed drilled audited clean =
      let good : all_pass (fill_in r) ≡ true =
        (gates_iff (fill_in r)).1
          (wal, ready, handed, pressed, rw drilled refl, rw audited refl, clean) in
      ap (λ q. finished q.0 q.1 provider monitor)
        (conclude-accepted w.report_written (fill_in r) written good)

  -- What the report of the drill says of a handoff whose token verifies and whose payload is the
  -- tombstone.
  abbrev pub drilled_report : HandoffResult → StagingVerificationReport → StagingVerificationReport
  drilled_report h r = judge_payload false h r (user tombstone_quarantine)

  abbrev read_first :
      HandoffResult → StagingVerificationReport → List LlmMessage → Option StagingVerificationReport
  read_first h r payload = elim (get_elem? payload 0) [
    | none ↦ none
    | some m ↦ some (judge_payload false h r m)
  ]

  pub drill_report-tombstoned :
      (leaked : Bool) (h : HandoffResult) (r : StagingVerificationReport)
      → leaked ≡ false
      → h.sanitized_payload ≡ user tombstone_quarantine ∷ []
      → drill_report w leaked (ok h) r ≡ some (drilled_report h r)
  unfolding drill_report
  drill_report-tombstoned leaked h r clean payload =
      ap (λ v. drill_report w v (ok h) r) clean ∙ ap (read_first h r) payload

  pub drilled-accepted :
      (provider : ControlledProvider) (monitor : Option RuntimeMonitor) (h : HandoffResult)
      (r : StagingVerificationReport)
      → w.report_written ≡ true
      → verify_lineage_record h.consequence_token h.inference_block.session_map ≡ true
      → r.wal_replay_result ≡ pass
      → r.readiness_result ≡ pass
      → r.handoff_result ≡ pass
      → r.backpressure_result ≡ pass
      → r.poison_drill_result ≡ pass
      → r.raw_context_bypass_detected ≡ false
      → finish_staging w provider monitor (some (drilled_report h r))
        ≡ finished (accepted_report (drilled_report h r)) 0 provider monitor
  unfolding bytes_eq text
  drilled-accepted provider monitor h r written verified wal ready handed pressed drilled clean =
      finish-accepted provider monitor (drilled_report h r) written wal ready handed pressed drilled
        (rw verified refl) (rw clean refl)
