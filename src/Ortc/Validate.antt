-- ===== src/Ortc/Validate.antt =====
-- The validators of src/ortc.cpp, each by its rules.
pub mod Codec
pub mod Extension
pub mod Params
pub mod Sctp
pub mod Ice
pub mod Options
pub mod Idempotent
pub mod Typed
pub mod Kind
pub mod Stream
