-- ===== src/Quarantine/Ledger/ErrorText.antt =====
-- The texts of the ledger's errors (pkg/quarantine/persistence.go). The texts of the errors that come
-- from the operating system and from package io are arguments.
use veraxis_memory_admissibi.Prelude.{[], ◌++◌}
use veraxis_memory_admissibi.Prelude.Bytes.{GoString, text}
use veraxis_memory_admissibi.Quarantine.Ledger.{
  LedgerError, closed, empty_payload, payload_too_long, write_failed, sync_failed, bad_length,
  zero_length, missing_magic, bad_magic, torn_payload, torn_checksum, tampered, bad_json, stuck,
}
use veraxis_memory_admissibi.Quarantine.Ledger.Recovery.{RecoveryError, open_failed, replay_failed}

-- What a failed write or sync answers, and what a read answers that ends within a number.
pub record FileTexts : Type 0 where
  pub device_text : GoString
  pub read_text : GoString

abbrev pub corruption_prefix : GoString
corruption_prefix = text "PERSISTENCE_CORRUPTION"

abbrev pub alert_prefix : GoString
alert_prefix = text "SECURITY_ALERT"

module _ (t : FileTexts) where
  -- `err.Error()`; the model's own error has no text.
  unfoldable pub ledger_error_text : LedgerError → GoString
  ledger_error_text closed = text "PERSISTENCE_CLOSED: file ledger is closed"
  ledger_error_text empty_payload = text "INVALID_LEDGER_EVENT: empty payload"
  ledger_error_text payload_too_long = text "INVALID_LEDGER_EVENT: payload exceeds uint32 length"
  ledger_error_text write_failed = t.device_text
  ledger_error_text sync_failed = t.device_text
  ledger_error_text bad_length =
      corruption_prefix ++ (text ": failed reading record length: " ++ t.read_text)
  ledger_error_text zero_length = corruption_prefix ++ text ": zero-length log packet"
  ledger_error_text missing_magic = corruption_prefix ++ text ": missing log packet boundary magic"
  ledger_error_text bad_magic =
      corruption_prefix ++ text ": invalid log packet initialization signature"
  ledger_error_text torn_payload =
      corruption_prefix ++ text ": truncated or partial write encountered mid-stream"
  ledger_error_text torn_checksum =
      corruption_prefix ++ text ": truncated validation signature segment"
  ledger_error_text tampered =
      alert_prefix ++ text ": cryptographic record tampering detected during log parsing"
  ledger_error_text (bad_json e) = e
  ledger_error_text stuck = []

  unfoldable pub recovery_error_text : RecoveryError → GoString
  unfolding ledger_error_text
  recovery_error_text (open_failed e) = e
  recovery_error_text (replay_failed e) = ledger_error_text e
