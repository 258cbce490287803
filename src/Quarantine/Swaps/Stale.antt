-- ===== src/Quarantine/Swaps/Stale.antt =====
-- What interleaved swaps keep, and what they lose.
use veraxis_memory_admissibi.Prelude.{◌≡◌, sym, ap, ◌∙◌, some, List, [], ◌∷◌, ◌++◌}
use veraxis_memory_admissibi.Prelude.Bytes.{Bytes}
use veraxis_memory_admissibi.Prelude.Time.{Time}
use veraxis_memory_admissibi.Platform.{Platform}
use veraxis_memory_admissibi.Quarantine.Event.{RevocationEvent}
use veraxis_memory_admissibi.Quarantine.Snapshot.{
  compile_snapshot, lookup_blocks, apply_events, no_blocks,
}
use veraxis_memory_admissibi.Quarantine.Monitor.{
  RuntimeMonitor, append_event, swap_active_snapshot, next_version, lookup,
}
use veraxis_memory_admissibi.Quarantine.Ledger.Recovery.{UpToDate, UpToDate-lookup}
use veraxis_memory_admissibi.Quarantine.Swaps.{
  copied, appends, copies, loads, stores, Reach, start, later,
}

module _ ⦃p : Platform⦄ where
  -- When a call of CompileAndSwap has copied the events and then another one, with an event of its
  -- own, runs from beginning to end before the first one goes on, both calls end, the event is in the
  -- monitor's ledger, and yet every lookup answers as before the event.
  pub swap_stale :
      (m : RuntimeMonitor) (es : List RevocationEvent) (e : RevocationEvent) (now later_on : Time)
      → UpToDate m es
      → (t : RuntimeMonitor) × Reach
          (record { monitor = m; calls = [] })
          (record { monitor = t; calls = [] })
        × (t.ledger ≡ es ++ e ∷ [])
        × ((id : Bytes) → lookup t id ≡ lookup m id)
  unfolding append_event swap_active_snapshot lookup compile_snapshot
  swap_stale m es e now later_on i =
      let m₁ = append_event e m in
      let v = next_version m₁ in
      let m₂ = swap_active_snapshot (some (compile_snapshot m₁.ledger v now)) m₁ in
      let w = next_version m₂ in
      let t = swap_active_snapshot (some (compile_snapshot m.ledger w later_on)) m₂ in
      let run =
        later
          (later
            (later
              (later
                (later (later (later start (copies m [])) (appends m (copied m.ledger ∷ []) e))
                  (copies m₁ (copied m.ledger ∷ [])))
                (loads m₁ [] m₁.ledger (copied m.ledger ∷ [])))
              (stores m₁ [] m₁.ledger v (copied m.ledger ∷ []) now))
            (loads m₂ [] m.ledger []))
          (stores m₂ [] m.ledger w [] later_on) in
      (
        t,
        run,
        ap (λ fs. fs ++ e ∷ []) i.events,
        λ id.
            ap (λ fs. lookup_blocks (apply_events no_blocks fs) id) i.events
            ∙ sym (UpToDate-lookup m es id i),
      )
