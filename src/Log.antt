-- ===== src/Log.antt =====
-- pkg/log: the encoder of log lines, and the loggers.
pub mod Utf8
pub mod Escape
pub mod Lines
pub mod Reader
pub mod Reads
pub mod RoundTrip
pub mod Encoder
pub mod EntryEncoder
pub mod Literal
pub mod Entries
pub mod Loggers
pub mod Shown
mod Tests
