-- ===== src/Storage/Framing.antt =====
-- `frame` and `readFrame` of files.go: a payload behind a header of 16 bytes, its magic number, the
-- length, the CRC-32C and the schema.
use agidb_on_chain.Base.{
  ℕ, ◌+◌, ◌*◌, ◌%◌, ◌^◌, ◌||◌, not, Option, none, some, [], ◌∷◌, ◌++◌, Bytes, length, take, ltb,
  leb, ◌==◌, if◌then◌else◌, zero, suc,
}
use agidb_on_chain.Result.{
  Error, eof, unexpected_eof, invalid_magic, invalid_record_size, crc_mismatch, bad_zlib,
}
use agidb_on_chain.Storage.Endian.{put_uint32, uint32_at}
use agidb_on_chain.Storage.Codec.{Codec}

abbrev pub magic : ℕ
magic = 0x41474932

abbrev pub max_record_size : ℕ
max_record_size = 256 * 2 ^ 20

-- `s[n:]`
abbrev pub drop : ℕ → Bytes → Bytes
drop zero s = s
drop (suc n) [] = []
drop (suc n) (x ∷ s) = drop n s

-- what `readFrame` returns: the payload and the bytes read, or the bytes read and an error
pub data Read : Type 0 where
  payload : Bytes → ℕ → Read
  stopped : ℕ → Error → Read

-- `io.ReadFull(r, buf)` of a reader that has the bytes `s` left: its error, if it cannot fill `buf`
unfoldable pub read_full_error : Bytes → Error
read_full_error [] = eof
read_full_error (_ ∷ _) = unexpected_eof

module _ ⦃C : Codec⦄ where
  -- `encoded` of `frame`: the shorter one of the payload and its compression
  unfoldable pub encoded_of : Bytes → Option Bytes → Bytes
  encoded_of p none = p
  encoded_of p (some z) = if leb (length p) (length z) then p else z

  -- the header of a frame
  unfoldable pub frame_header : Bytes → ℕ → Bytes
  frame_header encoded schema =
      put_uint32 magic
      ++ (put_uint32 (length encoded % 2 ^ 32)
          ++ (put_uint32 (C.crc32c encoded) ++ put_uint32 schema))

  unfoldable pub frame : Bytes → Bytes
  unfolding encoded_of frame_header
  frame p =
      let encoded = encoded_of p (C.deflate p) in
      let schema = if length encoded == length p then 1 else 2 in
      frame_header encoded schema ++ encoded

  -- the payload of a frame whose checksum is right
  unfoldable pub read_schema : ℕ → ℕ → Bytes → Read
  read_schema schema n p =
      if schema == 2
      then elim (C.inflate p) [ none ↦ stopped n bad_zlib | some q ↦ payload q n ]
      else payload p n

  -- from the header `h` on, with `s` left to read
  unfoldable pub read_body : Bytes → Bytes → Read
  unfolding read_full_error read_schema
  read_body h s =
      let l = uint32_at h 4 in
      let p = take l s in
      let n = (16 + l) % 2 ^ 32 in
      if not (uint32_at h 0 == magic)
      then stopped 16 invalid_magic
      else if l == 0 || ltb max_record_size l
      then stopped 16 (invalid_record_size l)
      else if ltb (length s) l
      then stopped (16 + length s) (read_full_error s)
      else if not (C.crc32c p == uint32_at h 8)
      then stopped n crc_mismatch
      else read_schema (uint32_at h 12) n p

  unfoldable pub read_frame : Bytes → Read
  unfolding read_body read_full_error
  read_frame s =
      if length s == 0
      then stopped 0 eof
      else if ltb (length s) 16
      then stopped (length s) unexpected_eof
      else read_body (take 16 s) (drop 16 s)
