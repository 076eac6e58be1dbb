-- ===== src/Tests.antt =====
-- Concrete packages and a concrete store, and the theorems at concrete inputs.
mod Packages
mod Sessions
mod Formats
mod Rebases
mod Branches
mod Commits
mod DataTypes
mod Ranges
mod Keys
mod Collecting
mod Caches
mod Checkouts
