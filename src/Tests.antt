-- ===== src/Tests.antt =====
-- Inputs, test runs, and the theorems at concrete inputs.
mod Data
mod Rollup
mod Worker
mod Ingest
mod Batch
mod Query
mod Route
mod Board
mod Period
mod Fits
mod Url
mod Faults
mod Agreement
mod Health
mod Consumers
mod Unary
mod Redis
mod Loop
mod Listen
mod Nightly
mod Counted
mod Json
mod Points
mod App
mod Schema
mod Again
