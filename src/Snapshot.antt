-- ===== src/Snapshot.antt =====
-- pkg/snapshot: the backups of etcd.
pub mod Varint
pub mod Streams
pub mod Sealed
pub mod Backup
pub mod Restored
pub mod Url
pub mod Bucket
pub mod Kept
mod Tests
