-- ===== src/Quarantine/Ledger/Sound.antt =====
-- The inversion of a record that was read, and the rounds of a replay.
use veraxis_memory_admissibi.Prelude.{
  ℕ, zero, suc, ◌≤◌, ◌<◌, ◌≡◌, ◌≢◌, refl, sym, ◌∙◌, Bool, true, false, not, List, [], ◌∷◌, ◌++◌,
  length, arith, take-append-drop, length-take, length-append, All-split, ◌==◌, All,
}
use veraxis_memory_admissibi.Prelude.Bytes.{
  Bytes, GoString, IsByte, bytes_eq, bytes_eq_iff, big_endian, from_big_endian,
  big_endian-from_big_endian_32, big_endian-from_big_endian_16, from_big_endian-lt_32,
}
use veraxis_memory_admissibi.Prelude.Result.{
  Result, ok, err, ◌>>=◌, reject, >>=-ok_elim, reject-ok_elim,
}
use veraxis_memory_admissibi.Platform.{Platform}
use veraxis_memory_admissibi.Quarantine.Event.{RevocationEvent}
use veraxis_memory_admissibi.Quarantine.Ledger.{
  LedgerError, stuck, bad_length, missing_magic, torn_payload, torn_checksum, zero_length,
  bad_magic, tampered, Codec, log_magic_number, from_json, record_checksum, read_full, read_record,
  replay_loop, replay_from,
}
use veraxis_memory_admissibi.Quarantine.Ledger.Frames.{frame, frame-append, IsPayload}

read_full-inv :
    (n : ℕ) (e : LedgerError) (xs : Bytes) (a b : Bytes)
    → read_full n e xs ≡ ok (a, b)
    → (xs ≡ a ++ b) × (length a ≡ n)
unfolding read_full
read_full-inv n e xs a b h = ground (arith, take-append-drop n xs, length-take n xs)

from_json-inv : {A : Type 0} (r : Result _ A) (a : A) → from_json r ≡ ok a → r ≡ ok a
from_json-inv (ok b) a h = cc
from_json-inv (err e) a h = cc

-- A step that is not out of fuel, and a chain of such steps.
record IsRun {A : Type 0} (m : Result LedgerError A) : Type 0 where
  runs : m ≢ err stuck

bind-IsRun :
    {A B : Type 0} (m : Result LedgerError A) (f : A → Result LedgerError B)
    → IsRun m
    → ((a : A) → m ≡ ok a → IsRun (f a))
    → IsRun (m >>= f)
bind-IsRun (ok a) f h k = k a refl
bind-IsRun {B = B} (err e) f h k = record { runs = λ q. h.runs (cc) }

ok-IsRun : {A : Type 0} (a : A) → IsRun (ok a)
ok-IsRun a = record { runs = λ q. cc }

reject-IsRun : (bad : Bool) (e : LedgerError) → e ≢ stuck → IsRun (reject bad e)
reject-IsRun true e h = record { runs = λ q. h (cc) }
reject-IsRun false e h = ok-IsRun tt

read_full-IsRun : (n : ℕ) (e : LedgerError) (xs : Bytes) → e ≢ stuck → IsRun (read_full n e xs)
unfolding read_full
read_full-IsRun n e xs h = record { runs = λ q. ground arith }

from_json-IsRun : {A : Type 0} (r : Result GoString A) → IsRun (from_json r)
from_json-IsRun (ok a) = ok-IsRun a
from_json-IsRun (err e) = record { runs = λ q. cc }

-- The pieces of a record that was read.
pub record Pieces ⦃p : Platform⦄ (json : Codec) (input : Bytes) (event : RevocationEvent)
    (rest : Bytes) : Type 0 where
  pub size_bytes : Bytes
  pub magic_bytes : Bytes
  pub payload : Bytes
  pub sum : Bytes
  pub whole : input ≡ size_bytes ++ (magic_bytes ++ (payload ++ (sum ++ rest)))
  pub size_width : length size_bytes ≡ 4
  pub magic_width : length magic_bytes ≡ 2
  pub some_byte : from_big_endian 0 size_bytes ≢ 0
  pub magic : from_big_endian 0 magic_bytes ≡ log_magic_number
  pub payload_width : length payload ≡ from_big_endian 0 size_bytes
  pub checked : record_checksum (from_big_endian 0 size_bytes) log_magic_number payload ≡ sum
  pub decoded : json.unmarshal payload ≡ ok event

module _ ⦃p : Platform⦄ (json : Codec) where
  Pieces-of :
      (input : Bytes) (event : RevocationEvent)
      (rest size_bytes r1 magic_bytes r2 payload r3 sum r4 : Bytes) (ev : RevocationEvent)
      → read_full 4 bad_length input ≡ ok (size_bytes, r1)
      → read_full 2 missing_magic r1 ≡ ok (magic_bytes, r2)
      → read_full (from_big_endian 0 size_bytes) torn_payload r2 ≡ ok (payload, r3)
      → read_full 32 torn_checksum r3 ≡ ok (sum, r4)
      → from_json (json.unmarshal payload) ≡ ok ev
      → (from_big_endian 0 size_bytes == 0) ≡ false
      → not (from_big_endian 0 magic_bytes == log_magic_number) ≡ false
      → not (bytes_eq (record_checksum (from_big_endian 0 size_bytes) log_magic_number payload) sum)
        ≡ false
      → ◌≡◌ {A = Result LedgerError (RevocationEvent × Bytes)} (ok (ev, r4)) (ok (event, rest))
      → Pieces json input event rest
  Pieces-of input event rest size_bytes r1 magic_bytes r2 payload r3 sum r4 ev e1 e2 e3 e4 e5
        nonzero right untampered h =
      let same_event : ev ≡ event = cc in
      let same_rest : r4 ≡ rest = cc in
      let (w1, s1) = read_full-inv 4 _ input size_bytes r1 e1 in
      let (w2, s2) = read_full-inv 2 _ r1 magic_bytes r2 e2 in
      let (w3, s3) = read_full-inv _ _ r2 payload r3 e3 in
      let (w4, s4) = read_full-inv 32 _ r3 sum r4 e4 in
      record {
        size_bytes = size_bytes;
        magic_bytes = magic_bytes;
        payload = payload;
        sum = sum;
        whole = cc;
        size_width = s1;
        magic_width = s2;
        some_byte = ground arith;
        magic = ground arith;
        payload_width = s3;
        checked = (bytes_eq_iff _ _).0 (ground arith);
        decoded = rw (← same_event) (from_json-inv (json.unmarshal payload) ev e5);
      }

  pub read_record-Pieces :
      (input : Bytes) (event : RevocationEvent) (rest : Bytes)
      → read_record json input ≡ ok (event, rest)
      → Pieces json input event rest
  unfolding read_record
  read_record-Pieces input event rest h =
      >>=-ok_elim (read_full 4 _ input) _ h λ (size_bytes, r1) e1 h1.
        reject-ok_elim _ _ _ h1 λ nonzero h2.
          >>=-ok_elim (read_full 2 _ r1) _ h2 λ (magic_bytes, r2) e2 h3.
            reject-ok_elim _ _ _ h3 λ right h4.
              >>=-ok_elim (read_full _ _ r2) _ h4 λ (payload, r3) e3 h5.
                >>=-ok_elim (read_full 32 _ r3) _ h5 λ (sum, r4) e4 h6.
                  reject-ok_elim _ _ _ h6 λ untampered h7.
                    >>=-ok_elim (from_json (json.unmarshal payload)) _ h7 λ ev e5 h8.
                      Pieces-of input event rest size_bytes r1 magic_bytes r2 payload r3 sum r4 ev
                        e1 e2 e3 e4 e5 nonzero right untampered h8

  -- The bytes that a record takes.
  pub read_record-shrinks :
      (input : Bytes) (event : RevocationEvent) (rest : Bytes)
      → read_record json input ≡ ok (event, rest)
      → length rest < length input
  read_record-shrinks input event rest h =
      let q = read_record-Pieces input event rest h in
      rw q.whole (simp length-append (omega (arith, q.size_width)))

  read_record-IsRun : (input : Bytes) → IsRun (read_record json input)
  unfolding read_record
  read_record-IsRun input =
      bind-IsRun (read_full 4 bad_length input) _ (read_full-IsRun 4 _ input (λ q. cc))
        λ (size_bytes, r1) _.
          let size = from_big_endian 0 size_bytes in
          bind-IsRun (reject (size == 0) zero_length) _ (reject-IsRun _ _ (λ q. cc)) λ _ _.
            bind-IsRun (read_full 2 missing_magic r1) _ (read_full-IsRun 2 _ r1 (λ q. cc))
              λ (magic_bytes, r2) _.
                bind-IsRun
                  (reject (not (from_big_endian 0 magic_bytes == log_magic_number)) bad_magic) _
                  (reject-IsRun _ _ (λ q. cc))
                  λ _ _.
                    bind-IsRun (read_full size torn_payload r2) _ (read_full-IsRun _ _ r2 (λ q. cc))
                      λ (payload, r3) _.
                        bind-IsRun (read_full 32 torn_checksum r3) _
                          (read_full-IsRun 32 _ r3 (λ q. cc))
                          λ (sum, r4) _.
                            bind-IsRun
                              (reject
                                (not (bytes_eq (record_checksum size log_magic_number payload) sum))
                                tampered)
                              _ (reject-IsRun _ _ (λ q. cc))
                              λ _ _.
                                bind-IsRun (from_json (json.unmarshal payload)) _
                                  (from_json-IsRun (json.unmarshal payload))
                                  λ event _. ok-IsRun (event, r4)

  replay_loop-IsRun :
      (fuel : ℕ) (input : Bytes) (acc : List RevocationEvent)
      → length input ≤ fuel
      → IsRun (replay_loop json fuel input acc)
  unfolding replay_loop
  replay_loop-IsRun fuel [] acc h = ok-IsRun acc
  replay_loop-IsRun zero (b ∷ bs) acc h = absurd (omega arith)
  replay_loop-IsRun (suc fuel) (b ∷ bs) acc h =
      bind-IsRun (read_record json (b ∷ bs)) _ (read_record-IsRun (b ∷ bs)) λ (event, rest) e.
        let less = read_record-shrinks (b ∷ bs) event rest e in
        replay_loop-IsRun fuel rest (acc ++ event ∷ []) (omega arith)

  -- A replay ends on every file, with events or with one of the errors of the source.
  pub replay-ends : (content : Bytes) → replay_from json content ≢ err stuck
  unfolding replay_from
  replay-ends content = (replay_loop-IsRun (length content) content [] (omega arith)).runs

  -- The pieces of a record of bytes are the record of its payload.
  pub frame_of_Pieces :
      (input : Bytes) (event : RevocationEvent) (rest : Bytes)
      → All IsByte input
      → (q : Pieces json input event rest) → (input ≡ frame q.payload ++ rest) × IsPayload q.payload
  frame_of_Pieces input event rest bytes q =
      let (size_ok, after) =
        All-split IsByte q.size_bytes (q.magic_bytes ++ (q.payload ++ (q.sum ++ rest)))
          (rw (← q.whole) bytes) in
      let (magic_ok, _) = All-split IsByte q.magic_bytes (q.payload ++ (q.sum ++ rest)) after in
      let size_eq : big_endian 4 (length q.payload) ≡ q.size_bytes =
        rw q.payload_width (big_endian-from_big_endian_32 q.size_bytes q.size_width size_ok) in
      let magic_eq : big_endian 2 log_magic_number ≡ q.magic_bytes =
        rw (← q.magic) (big_endian-from_big_endian_16 q.magic_bytes q.magic_width magic_ok) in
      let sum_eq : record_checksum (length q.payload) log_magic_number q.payload ≡ q.sum =
        rw q.payload_width q.checked in
      let glued : big_endian 4 (length q.payload)
            ++ (big_endian 2 log_magic_number
                ++ (q.payload
                    ++ (record_checksum (length q.payload) log_magic_number q.payload ++ rest)))
          ≡ q.size_bytes ++ (q.magic_bytes ++ (q.payload ++ (q.sum ++ rest))) =
        cc in
      let bound = from_big_endian-lt_32 q.size_bytes q.size_width size_ok in
      let width = q.payload_width in
      let positive = q.some_byte in
      (q.whole ∙ sym (frame-append q.payload rest ∙ glued), (omega arith, omega arith))
