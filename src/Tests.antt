-- ===== src/Tests.antt =====
-- The theorems at concrete inputs, and runs of the definitions.
mod Fixtures
mod Texts
mod Dispatchers
mod Hardware
mod Service
mod Program
mod Demand
mod Network
mod Sampling
mod EventText
mod Board
mod Reports
