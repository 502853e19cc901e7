-- ===== src/Manager.antt =====
-- pkg/manager: the manager of an embedded etcd server.
pub mod Membership
pub mod Peers
pub mod Gossip
pub mod Cleanup
pub mod Config
pub mod Server
pub mod Snapshotter
pub mod Join
pub mod Bootstrap
pub mod Run
pub mod New
