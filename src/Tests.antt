-- ===== src/Tests.antt =====
-- The theorems at concrete inputs, and runs of the definitions.
mod Fixtures
mod Network
mod Picking
mod Storage
mod Structures
mod Tables
mod Stores
mod Crashes
mod Hashed
mod Names
