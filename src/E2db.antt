-- ===== src/E2db.antt =====
-- pkg/e2db: tables of structs over the key-value store of etcd.
pub mod Key
pub mod Values
pub mod Crypto
pub mod Db
pub mod Model
pub mod Matcher
pub mod Rows
pub mod Types
pub mod Table
pub mod Query
pub mod Samples
pub mod Tx
pub mod Methods
