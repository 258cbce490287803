-- ===== src/Quarantine/Ledger.antt =====
-- pkg/quarantine/persistence.go: the write-ahead ledger. The file is its bytes; `Codec` stands for
-- encoding/json on events.
pub mod Frames
pub mod RoundTrip
pub mod Torn
pub mod Sound
pub mod Exact
pub mod Recovery
pub mod ErrorText
use veraxis_memory_admissibi.Prelude.{
  ℕ, zero, suc, ◌+◌, ◌-◌, ◌^◌, Bool, true, false, not, Option, none, some, List, [], ◌∷◌, ◌++◌,
  length, take, drop, leb, ltb, ◌==◌, if◌then◌else◌,
}
use veraxis_memory_admissibi.Prelude.Bytes.{Bytes, GoString, bytes_eq, big_endian, from_big_endian}
use veraxis_memory_admissibi.Prelude.Result.{Result, ok, err, ◌>>=◌, ◌>>◌, reject}
use veraxis_memory_admissibi.Platform.{Platform}
use veraxis_memory_admissibi.Quarantine.Event.{RevocationEvent}

-- `stuck` is no error of the source: the model's fuel ran out.
pub data LedgerError : Type 0 where
  closed empty_payload payload_too_long write_failed sync_failed : LedgerError
  bad_length zero_length missing_magic bad_magic torn_payload torn_checksum tampered : LedgerError
  bad_json : GoString → LedgerError
  stuck : LedgerError

-- json.Marshal and json.Unmarshal on a RevocationEvent.
pub record Codec : Type 0 where
  pub marshal : RevocationEvent → Result GoString Bytes
  pub unmarshal : Bytes → Result GoString RevocationEvent

abbrev pub from_json {ℓ} : {A : Type ℓ} → Result GoString A → Result LedgerError A
from_json (ok a) = ok a
from_json (err e) = err (bad_json e)

abbrev pub log_magic_number : ℕ
log_magic_number = 0x564D

-- `is_open` is `file != nil`; `content` is what the file holds.
pub record FileLedger : Type 0 where
  pub is_open : Bool
  pub content : Bytes

-- What the device does with one write: all of it, or some bytes and then an error.
pub data WriteOutcome : Type 0 where
  whole : WriteOutcome
  partial : ℕ → WriteOutcome

-- The outcomes of the four writes of a record and of the sync.
pub record Device : Type 0 where
  pub length_write : WriteOutcome
  pub magic_write : WriteOutcome
  pub payload_write : WriteOutcome
  pub checksum_write : WriteOutcome
  pub sync_ok : Bool

abbrev pub healthy : Device
healthy = record {
  length_write = whole;
  magic_write = whole;
  payload_write = whole;
  checksum_write = whole;
  sync_ok = true;
}

-- The file after the writes from here on, and whether they all succeeded. A failed write ends them.
unfoldable pub write_all : List (WriteOutcome × Bytes) → Bytes → Bytes × Bool
write_all [] content = (content, true)
write_all ((whole, b) ∷ rest) content = write_all rest (content ++ b)
write_all ((partial n, b) ∷ rest) content = (content ++ take n b, false)

abbrev pub payload_error : Bytes → Option LedgerError
payload_error payload =
    if length payload == 0
    then some empty_payload
    else if ltb (2 ^ 32 - 1) (length payload)
    then some payload_too_long
    else none

-- `io.ReadFull` and `binary.Read` of n bytes.
unfoldable pub read_full : ℕ → LedgerError → Bytes → Result LedgerError (Bytes × Bytes)
read_full n e input = if leb n (length input) then ok (take n input, drop n input) else err e

module _ ⦃p : Platform⦄ where
  unfoldable pub record_checksum : ℕ → ℕ → Bytes → Bytes
  record_checksum size magic payload =
      p.sha256 (big_endian 4 size ++ (big_endian 2 magic ++ payload))

  -- The four writes of `AppendEvent` and their bytes.
  abbrev pub record_writes : Device → Bytes → List (WriteOutcome × Bytes)
  record_writes d payload =
      (d.length_write, big_endian 4 (length payload))
      ∷ (d.magic_write, big_endian 2 log_magic_number)
      ∷ (d.payload_write, payload)
      ∷ (d.checksum_write, record_checksum (length payload) log_magic_number payload)
      ∷ []

  -- The end of `AppendEvent`, on what the writes left.
  abbrev pub finish_append :
      FileLedger → Bool → Bytes × Bool → Result LedgerError (Unit {0}) × FileLedger
  finish_append l synced (content, false) = (err write_failed, record l { content = content })
  finish_append l true (content, true) = (ok tt, record l { content = content })
  finish_append l false (content, true) = (err sync_failed, record l { content = content })

  abbrev pub append_payload :
      Device → Bytes → Option LedgerError → FileLedger → Result LedgerError (Unit {0}) × FileLedger
  append_payload d payload (some e) l = (err e, l)
  append_payload d payload none l =
      finish_append l d.sync_ok (write_all (record_writes d payload) l.content)

  abbrev pub append_marshalled :
      Device → Result GoString Bytes → FileLedger → Result LedgerError (Unit {0}) × FileLedger
  append_marshalled d (err e) l = (err (bad_json e), l)
  append_marshalled d (ok payload) l = append_payload d payload (payload_error payload) l

  -- `AppendEvent`: the result, and the ledger with what was written of the record.
  unfoldable pub append_event :
      Codec → Device → RevocationEvent → FileLedger → Result LedgerError (Unit {0}) × FileLedger
  unfolding write_all
  append_event json d event l =
      if not l.is_open then (err closed, l) else append_marshalled d (json.marshal event) l

  -- The body of the loop of `replayFrom`, behind the test for the end of the file.
  unfoldable pub read_record : Codec → Bytes → Result LedgerError (RevocationEvent × Bytes)
  unfolding record_checksum
  read_record json input = do
    (size_bytes, after_size) ← read_full 4 bad_length input
    let size = from_big_endian 0 size_bytes
    reject (size == 0) zero_length
    (magic_bytes, after_magic) ← read_full 2 missing_magic after_size
    reject (not (from_big_endian 0 magic_bytes == log_magic_number)) bad_magic
    (payload, after_payload) ← read_full size torn_payload after_magic
    (checksum, rest) ← read_full 32 torn_checksum after_payload
    reject (not (bytes_eq (record_checksum size log_magic_number payload) checksum)) tampered
    event ← from_json (json.unmarshal payload)
    ok (event, rest)

  -- `replayFrom`, from the events read so far. Reading no byte where a length should stand ends it.
  unfoldable pub replay_loop :
      Codec → ℕ → Bytes → List RevocationEvent → Result LedgerError (List RevocationEvent)
  replay_loop json fuel [] events = ok events
  replay_loop json zero (b ∷ input) events = err stuck
  replay_loop json (suc fuel) (b ∷ input) events = do
    (event, rest) ← read_record json (b ∷ input)
    replay_loop json fuel rest (events ++ event ∷ [])

  -- A record takes bytes, so the length of the file is fuel enough.
  unfoldable pub replay_from : Codec → Bytes → Result LedgerError (List RevocationEvent)
  unfolding replay_loop
  replay_from json content = replay_loop json (length content) content []

  unfoldable pub replay_genesis : Codec → FileLedger → Result LedgerError (List RevocationEvent)
  replay_genesis json l = if not l.is_open then err closed else replay_from json l.content

-- `Close`
unfoldable pub close_ledger : FileLedger → FileLedger
close_ledger l = record l { is_open = false }
