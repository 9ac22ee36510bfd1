-- ===== src/Tests.antt =====
-- Runs of the model at concrete inputs, and each result applied where its hypotheses hold.
mod Scenario
mod Engine
mod Arriving
mod Wire
mod Rounds
mod Packets
mod Blocks
mod Batches
mod Streams
mod Publishing
mod Reports
mod Figures
