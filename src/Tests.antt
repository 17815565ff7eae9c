-- ===== src/Tests.antt =====
-- Runs at concrete inputs, and the theorems applied to them.
mod Data
mod Store
mod Events
mod Api
mod Http
mod Start
mod Config
mod Worker
mod Attempts
mod Counts
mod Publisher
mod Pipeline
mod System
