-- ===== src/Storage/Codec.antt =====
-- What the storage calls of other packages: `hash/crc32`, `compress/zlib` and `encoding/gob`.
use agidb_on_chain.Base.{ℕ, ◌^◌, ◌<◌, ◌≡◌, Option, some, [], ◌∷◌, map, Bytes, length}
use agidb_on_chain.Go.Slices.{Slice, nil_slice, slice}
use agidb_on_chain.Model.{Operation, Transaction, Block}

-- `crc32.Checksum(p, crcTable)`, `compressPayload` (zlib at its best speed), and `zlib.NewReader` with
-- `io.ReadAll`; a call that fails is `none`. What a writer has compressed a reader gives back.
pub record Codec : Type 0 where
  pub crc32c : Bytes → ℕ
  pub deflate : Bytes → Option Bytes
  pub inflate : Bytes → Option Bytes
  pub crc32c-lt : (p : Bytes) → crc32c p < 2 ^ 32
  pub inflate-deflate : (p z : Bytes) → deflate p ≡ some z → inflate z ≡ some p
  pub deflate_nonempty : (p z : Bytes) → deflate p ≡ some z → 0 < length z

-- gob leaves out a field that is empty, and so an empty slice is read back as nil
abbrev pub gob_slice : Slice → Slice
gob_slice nil_slice = nil_slice
gob_slice (slice bs) = elim bs [ [] ↦ nil_slice | b ∷ rest ↦ slice (b ∷ rest) ]

unfoldable pub gob_operation : Operation → Operation
gob_operation op = record op { value = gob_slice op.value }

unfoldable pub gob_transaction : Transaction → Transaction
gob_transaction tx = record tx { ops = map gob_operation tx.ops; payload = gob_slice tx.payload }

-- the block that is read back
unfoldable pub gob_block : Block → Block
gob_block b = record b { transactions = map gob_transaction b.transactions }

-- `encodeBlock` and `decodeBlock`
pub record Gob : Type 0 where
  pub encode : Block → Option Bytes
  pub decode : Bytes → Option Block
  pub decode-encode : (b : Block) (p : Bytes) → encode b ≡ some p → decode p ≡ some (gob_block b)
  pub encode_nonempty : (b : Block) (p : Bytes) → encode b ≡ some p → 0 < length p
