-- ===== src/Witness/Crash.antt =====
-- An append that stops in the middle of its first write.
use veraxis_memory_admissibi.Prelude.{◌≡◌, ◌⊎◌, refl, true, List, [], ◌∷◌, ◌++◌, All, arith}
use veraxis_memory_admissibi.Prelude.Bytes.{IsByte}
use veraxis_memory_admissibi.Prelude.Result.{ok}
use veraxis_memory_admissibi.Platform.{Platform}
use veraxis_memory_admissibi.Quarantine.Event.{RevocationEvent, EventType}
use veraxis_memory_admissibi.Quarantine.Ledger.{
  FileLedger, Device, whole, partial, write_all, append_event, replay_genesis, replay_from,
  replay_loop,
}
use veraxis_memory_admissibi.Quarantine.Ledger.RoundTrip.{IsStored}
use veraxis_memory_admissibi.Quarantine.Ledger.Torn.{append_torn}
use veraxis_memory_admissibi.Witness.Toy.{toy}
use veraxis_memory_admissibi.Witness.Sample.{id_a, event, codec}

instance here : Platform
here = toy

abbrev faulty : Device
faulty = record {
  length_write = partial 0;
  magic_write = whole;
  payload_write = whole;
  checksum_write = whole;
  sync_ok = true;
}

abbrev ledger : FileLedger
ledger = record { is_open = true; content = [] }

revoked-IsStored : IsStored codec (event id_a EventType.revoke_memory)
revoked-IsStored = record {
  payload = id_a;
  encoded = refl;
  fits = (omega arith, omega arith);
  decoded = refl;
}

left_bytes :
    All IsByte (append_event codec faulty (event id_a EventType.revoke_memory) ledger).1.content
unfolding append_event write_all
left_bytes = tt

left_replays :
    replay_genesis codec (append_event codec faulty (event id_a EventType.revoke_memory) ledger).1
    ≡ ok []
unfolding append_event write_all replay_genesis replay_from replay_loop
left_replays = refl

append_torn_example :
    (◌≡◌ {A = List RevocationEvent} [] []) ⊎ ([] ≡ [] ++ event id_a EventType.revoke_memory ∷ [])
append_torn_example =
    append_torn codec faulty (event id_a EventType.revoke_memory) ledger [] [] refl revoked-IsStored
      refl left_bytes left_replays
