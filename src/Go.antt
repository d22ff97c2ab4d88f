-- ===== src/Go.antt =====
-- What the engine uses of Go's maps and slices and of the packages `sort`, `encoding/hex` and
-- `encoding/json`.
pub mod Maps
pub mod Directory
pub mod IntMaps
pub mod Sort
pub mod Hex
pub mod Strings
pub mod Decimals
pub mod Slices
pub mod Json
pub mod Sha256
