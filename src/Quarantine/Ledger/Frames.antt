-- ===== src/Quarantine/Ledger/Frames.antt =====
-- The bytes of one record, what an append leaves in the file, and what reading a record back gives.
use veraxis_memory_admissibi.Prelude.{
  ℕ, ◌+◌, ◌^◌, ◌≤◌, ◌<◌, ◌≡◌, refl, false, not, ◌++◌, length, take, drop, arith, length-append,
  take-length_append, drop-length_append, ◌==◌,
}
use mathlib.Core.List.{append_assoc}
use veraxis_memory_admissibi.Prelude.Bytes.{
  Bytes, bytes_eq, bytes_eq_refl, big_endian, length-big_endian, from_big_endian-big_endian_16,
  from_big_endian-big_endian_32,
}
use veraxis_memory_admissibi.Prelude.Result.{ok, err, ◌>>=◌, ◌>>◌, reject}
use veraxis_memory_admissibi.Platform.{Platform}
use veraxis_memory_admissibi.Quarantine.Ledger.{
  LedgerError, Codec, log_magic_number, from_json, record_checksum, read_full, read_record,
  bad_length, missing_magic, torn_payload, torn_checksum, tampered,
}

pub read_full-append :
    (n : ℕ) (e : LedgerError) (xs ys : Bytes)
    → length xs ≡ n
    → read_full n e (xs ++ ys) ≡ ok (xs, ys)
unfolding read_full
read_full-append n e xs ys size =
    let fits : n ≤ length (xs ++ ys) = omega (arith, length-append xs ys) in
    let front : take n (xs ++ ys) ≡ xs = rw (← size) (take-length_append xs ys) in
    let back : drop n (xs ++ ys) ≡ ys = rw (← size) (drop-length_append xs ys) in ground arith

pub read_full_short :
    (n : ℕ) (e : LedgerError) (xs : Bytes) → length xs < n → read_full n e xs ≡ err e
unfolding read_full
read_full_short n e xs h = ground arith

-- A payload that a record can hold.
abbrev pub IsPayload : Bytes → Type 0
IsPayload payload = (0 < length payload) × (length payload < 2 ^ 32)

module _ ⦃p : Platform⦄ where
  unfoldable pub frame : Bytes → Bytes
  frame payload =
      big_endian 4 (length payload)
      ++ (big_endian 2 log_magic_number
          ++ (payload ++ record_checksum (length payload) log_magic_number payload))

  pub frame-append :
      (payload rest : Bytes)
      → frame payload ++ rest
        ≡ big_endian 4 (length payload)
          ++ (big_endian 2 log_magic_number
              ++ (payload ++ (record_checksum (length payload) log_magic_number payload ++ rest)))
  unfolding frame
  frame-append payload rest =
      let sum = record_checksum (length payload) log_magic_number payload in
      rw (
        append_assoc (big_endian 4 (length payload)) _ rest,
        append_assoc (big_endian 2 log_magic_number) _ rest,
        append_assoc payload sum rest,
      )

  length-record_checksum :
      (n : ℕ) (payload : Bytes) → length (record_checksum n log_magic_number payload) ≡ 32
  unfolding record_checksum
  length-record_checksum n payload =
      p.length-sha256 (big_endian 4 n ++ (big_endian 2 log_magic_number ++ payload))

  pub length-frame : (payload : Bytes) → length (frame payload) ≡ length payload + 38
  unfolding frame
  length-frame payload = simp length-append (
      omega (
        arith,
        length-big_endian 4 (length payload),
        length-big_endian 2 log_magic_number,
        length-record_checksum (length payload) payload,
      ))

  read_sections :
      (json : Codec) (n : ℕ) (payload sum rest : Bytes)
      → length payload ≡ n
      → 0 < n
      → n < 2 ^ 32
      → length sum ≡ 32
      → read_record json
          (big_endian 4 n ++ (big_endian 2 log_magic_number ++ (payload ++ (sum ++ rest))))
        ≡ (reject (not (bytes_eq (record_checksum n log_magic_number payload) sum)) tampered
            >> (from_json (json.unmarshal payload) >>= λ event. ok (event, rest)))
  unfolding read_record
  read_sections json n payload sum rest size some_byte fits sum_size =
      let not_zero : (n == 0) ≡ false = ground arith in
      rw (
        read_full-append 4 bad_length (big_endian 4 n) _ (length-big_endian 4 n),
        from_big_endian-big_endian_32 n fits,
        not_zero,
        read_full-append 2 missing_magic (big_endian 2 log_magic_number) _
            (length-big_endian 2 log_magic_number),
        from_big_endian-big_endian_16 log_magic_number (omega arith),
        read_full-append n torn_payload payload _ size,
        read_full-append 32 torn_checksum sum _ sum_size,
      )

  -- Reading at the start of a record gives its event and leaves what follows the record.
  pub read_record-frame :
      (json : Codec) (payload rest : Bytes)
      → IsPayload payload
      → read_record json (frame payload ++ rest)
        ≡ (from_json (json.unmarshal payload) >>= λ event. ok (event, rest))
  read_record-frame json payload rest (some_byte, fits) =
      let sum = record_checksum (length payload) log_magic_number payload in
      rw (
        frame-append payload rest,
        read_sections json (length payload) payload sum rest refl some_byte fits
            (length-record_checksum (length payload) payload),
        bytes_eq_refl sum,
      )
