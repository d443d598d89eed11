-- ===== src/Validate.antt =====
-- tools/validate.py: the layers of the validator, one module each.
pub mod Temporal
pub mod Unique
pub mod Semantic
pub mod Arithmetic
pub mod References
pub mod ActionId
pub mod Load
pub mod Run
