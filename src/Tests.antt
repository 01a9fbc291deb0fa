-- ===== src/Tests.antt =====
-- Runs of the model at concrete inputs, and the theorems applied at inputs that meet their
-- hypotheses.
mod World
mod Served
mod Database
mod Witnesses
mod ReadSide
mod PostgresLog
mod ViewDatabase
mod Opening
mod Rivals
mod Items
mod Relaying
