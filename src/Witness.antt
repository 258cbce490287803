-- ===== src/Witness.antt =====
-- Concrete inputs at which the hypotheses of the theorems hold, with a concrete platform: a digest
-- that keeps the first bytes, an insertion sort, and a signature that is made of the message.
mod Toy
mod Sample
mod Memory
mod Trail
mod Window
mod Node
mod Edge
mod Crash
mod Turn
mod Handoff
mod Drift
mod Staging
