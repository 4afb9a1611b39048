-- ===== src/Tests.antt =====
-- Runs of the model at concrete inputs, and each theorem at an input that meets its hypotheses.
mod Base
mod Chain
mod Tamper
mod Attestations
mod Proofs
mod Calendar
mod Upgrades
mod Program
mod Reading
mod Insertion
