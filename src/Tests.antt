-- ===== src/Tests.antt =====
-- Runs of the modelled code on small inputs, and the theorems applied to them.
mod Data
mod Validators
mod Matching
mod Lifecycle
mod Loaded
mod Sdp
mod Streams
mod Handlers
mod Sections
mod Sending
mod Connecting
mod PeerConnections
mod Layers
mod Transports
