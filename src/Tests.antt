-- ===== src/Tests.antt =====
-- The theorems at work on concrete data, and runs of the program on it.
mod Sample
mod Validator
mod Merging
mod Deriving
mod Limiting
mod Fetching
mod Building
mod Filing
mod Querying
