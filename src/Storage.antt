-- ===== src/Storage.antt =====
-- common/storage: block storage, the static sorted index, tree rotations and hash functions.
pub mod Block
pub mod StaticIndex
pub mod Rotation
mod Tests
