-- ===== src/Ortc.antt =====
-- src/ortc.cpp: RTP capabilities and parameters.
pub mod Rule
pub mod Mime
pub mod Validate
pub mod Match
pub mod Extended
pub mod Recv
pub mod Send
pub mod Receive
pub mod Reduce
