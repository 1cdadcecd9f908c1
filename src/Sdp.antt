-- ===== src/Sdp.antt =====
-- The session descriptions of src/sdp: MediaSection.cpp, RemoteSdp.cpp and part of Utils.cpp.
pub mod MediaSection
pub mod RemoteSdp
pub mod Utils
pub mod Slots
pub mod Shown
pub mod Refines
