-- ===== src/Peer.antt =====
-- common/peer: who is trusted, and the validation of signed messages.
pub mod Store
pub mod Admission
pub mod Trust
pub mod Sample
mod Tests
