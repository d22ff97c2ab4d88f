-- ===== src/Storage.antt =====
-- engine/internal/storage/files.go: the segments, the write-ahead log and their frames.
pub mod Endian
pub mod Codec
pub mod Framing
pub mod RoundTrip
pub mod Torn
pub mod Segments
pub mod Prefixes
pub mod Appends
pub mod Lookups
pub mod ReadBack
pub mod Logs
pub mod Recovering
pub mod Growth
pub mod Failures
pub mod Losses
pub mod Writing
pub mod LogFiles
pub mod Snapshots
pub mod Keeping
pub mod Counting
pub mod Reading
pub mod Reopening
