-- ===== src/Samples.antt =====
-- Runs of the definitions at concrete inputs, and the theorems at inputs that meet their hypotheses.
mod Inputs
mod Glob
mod Canon
mod Value
mod Decimal
mod Instant
mod Evaluate
mod Walk
mod Snapshot
mod Expr
mod Rulebook
mod Gate
mod Authorization
mod Schema
mod Store
mod Receipt
mod Runner
