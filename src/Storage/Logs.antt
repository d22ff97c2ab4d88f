-- ===== src/Storage/Logs.antt =====
-- What appends and a crash in the last of them leave in the directory `data`, and the index that
-- belongs to it.
use agidb_on_chain.Base.{
  map, ℕ, ◌+◌, ◌%◌, ◌^◌, ◌≤◌, ◌<◌, ◌≡◌, some, List, [], ◌∷◌, ◌++◌, Bytes, All, length, take, ltb,
  ◌==◌, if◌then◌else◌,
}
use agidb_on_chain.Go.IntMaps.{IntMap, put}
use agidb_on_chain.Model.{Block}
use agidb_on_chain.Storage.Codec.{Codec, Gob, gob_block}
use agidb_on_chain.Storage.Framing.{max_record_size, frame}
use agidb_on_chain.Storage.Segments.{Location}

-- a block with what gob makes of it
pub record Entry : Type 0 where
  pub block : Block
  pub encoded : Bytes

-- a segment: its entries, and the first `left` bytes of a frame whose write a crash cut short
pub record Segment : Type 0 where
  pub id : ℕ
  pub entries : List Entry
  pub lost : Bytes
  pub left : ℕ

module _ ⦃C : Codec⦄ where
  unfoldable pub entry_bytes : List Entry → Bytes
  entry_bytes [] = []
  entry_bytes (e ∷ es) = frame e.encoded ++ entry_bytes es

  -- the entries from the offset `off` on, put into the index
  unfoldable pub entry_index : ℕ → ℕ → List Entry → IntMap Location → IntMap Location
  entry_index id off [] m = m
  entry_index id off (e ∷ es) m = entry_index id (off + length (frame e.encoded)) es (
      put m e.block.header.height
        record { segment = id; offset = off; length = length (frame e.encoded) % 2 ^ 32 })

  abbrev pub file_bytes : Segment → Bytes
  file_bytes s = entry_bytes s.entries ++ take s.left (frame s.lost)

  -- the bytes that recovery keeps: a torn frame goes, but not one of which just the header is left
  abbrev pub kept_bytes : Segment → Bytes
  kept_bytes s = if s.left == 16 then file_bytes s else entry_bytes s.entries

  unfoldable pub segment_index : List Segment → IntMap Location → IntMap Location
  segment_index [] m = m
  segment_index (s ∷ ss) m = segment_index ss (entry_index s.id 0 s.entries m)

  abbrev pub last_id : List Segment → ℕ → ℕ
  last_id [] active = active
  last_id (s ∷ ss) active = last_id ss (if ltb active s.id then s.id else active)

  -- the same as a list of entries of the index
  abbrev pub entry_locations : ℕ → ℕ → List Entry → IntMap Location
  entry_locations id off [] = []
  entry_locations id off (e ∷ es) =
      (
        e.block.header.height,
        record { segment = id; offset = off; length = length (frame e.encoded) % 2 ^ 32 },
      )
      ∷ entry_locations id (off + length (frame e.encoded)) es

  abbrev pub segment_locations : List Segment → IntMap Location
  segment_locations [] = []
  segment_locations (s ∷ ss) = entry_locations s.id 0 s.entries ++ segment_locations ss

  -- a payload that is not empty, in a frame that `readFrame` does not take for too large
  abbrev pub IsPayload : Bytes → Type 0
  IsPayload p = (0 < length p) × (length (frame p) ≤ 16 + max_record_size)

  module _ ⦃G : Gob⦄ where
    abbrev pub IsEntry : Entry → Type 0
    IsEntry e =
        (G.encode e.block ≡ some e.encoded) × (length (frame e.encoded) ≤ 16 + max_record_size)

    -- what a crash in an append can leave of a segment
    abbrev pub IsTorn : Segment → Type 0
    IsTorn s = All IsEntry s.entries × IsPayload s.lost × (s.left < length (frame s.lost))

-- the heights of the blocks are `n`, `n + 1` and so on
abbrev pub IsNumbered : ℕ → List Entry → Type 0
IsNumbered n [] = Unit
IsNumbered n (e ∷ es) = (e.block.header.height ≡ n) × IsNumbered (n + 1) es

abbrev pub AreNumbered : ℕ → List Segment → Type 0
AreNumbered n [] = Unit
AreNumbered n (s ∷ ss) = IsNumbered n s.entries × AreNumbered (n + length s.entries) ss

-- the numbers of the segments rise, from `k` on
abbrev pub AreOrdered : ℕ → List Segment → Type 0
AreOrdered k [] = Unit
AreOrdered k (s ∷ ss) = (k ≤ s.id) × AreOrdered (s.id + 1) ss

-- the blocks as gob gives them back
abbrev pub entry_blocks : List Entry → List Block
entry_blocks es = map (λ e. gob_block e.block) es

abbrev pub segment_blocks : List Segment → List Block
segment_blocks [] = []
segment_blocks (s ∷ ss) = entry_blocks s.entries ++ segment_blocks ss
