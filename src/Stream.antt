-- ===== src/Stream.antt =====
-- minion/message: routing of signed messages between open streams, and the stream handler.
pub mod Router
pub mod Handler
pub mod Basic
mod Tests
