-- ===== src/Go/Slices.antt =====
-- `[]byte` where the program can tell a nil slice from an empty one: `encoding/json` writes `null`
-- for the first and `""` for the second.
use agidb_on_chain.Base.{[], Bytes}

pub data Slice : Type 0 where
  nil_slice : Slice
  slice : Bytes → Slice

-- the bytes, `append([]byte{}, s...)`
abbrev pub contents : Slice → Bytes
contents nil_slice = []
contents (slice bs) = bs
