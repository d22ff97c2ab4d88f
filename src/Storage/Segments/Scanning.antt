-- ===== src/Storage/Segments/Scanning.antt =====
-- The files of files.go on disk and in memory, and the loop of recovery over the segments.
use agidb_on_chain.Base.{
  ℕ, zero, suc, ◌+◌, ◌%◌, ◌^◌, ◌*◌, Bool, true, false, Option, none, some, [], ◌∷◌, Bytes, length,
  take, ltb, if◌then◌else◌,
}
use agidb_on_chain.Go.Maps.{GoMap}
use agidb_on_chain.Go.IntMaps.{IntMap, put}
use agidb_on_chain.Result.{Error, eof, bad_gob}
use agidb_on_chain.Storage.Codec.{Codec, Gob}
use agidb_on_chain.Storage.Framing.{payload, stopped, drop, read_frame}

pub record Location : Type 0 where
  pub segment : ℕ
  pub offset : ℕ
  pub length : ℕ

pub record Disk : Type 0 where
  pub segments : IntMap Bytes
  pub wal : Option Bytes
  pub snapshots : GoMap Bytes
  pub locked : Bool

pub record Files : Type 0 where
  pub disk : Disk
  pub segment_size : ℕ
  pub active_id : ℕ
  pub active_size : ℕ
  pub index : IntMap Location

abbrev pub default_segment_size : ℕ
default_segment_size = 256 * 2 ^ 20

-- `errors.Is(err, io.EOF)`
unfoldable pub is_eof : Error → Bool
is_eof e = elim e [ eof ↦ true | _ ↦ false ]

-- how the loop over the frames of one segment ends: the index and the bytes that the file keeps, or
-- the error of a block that cannot be decoded
pub data Scan : Type 0 where
  scanned : IntMap Location → ℕ → Scan
  unreadable : IntMap Location → Error → Scan

module _ ⦃C : Codec⦄ ⦃G : Gob⦄ where
  -- the loop of `recoverSegments` over a segment, with the bytes from `off` on left to read
  unfoldable pub scan_segment : ℕ → ℕ → ℕ → Bytes → IntMap Location → Scan
  scan_segment zero id off s index = scanned index (off + length s)
  scan_segment (suc fuel) id off s index = elim (read_frame s) [
    | stopped n e ↦ scanned index (if is_eof e then off + length s else off)
    | payload p n ↦ elim (G.decode p) [
      | none ↦ unreadable index bad_gob
      | some b ↦
          scan_segment fuel id (off + n) (drop n s)
            (put index b.header.height record { segment = id; offset = off; length = n % 2 ^ 32 })
    ]
  ]

  -- what `recoverSegments` leaves: the segments, the index, the last segment's number, and its error
  pub record Recovery : Type 0 where
    pub segments : IntMap Bytes
    pub index : IntMap Location
    pub active_id : ℕ
    pub failure : Option Error

  unfoldable pub recover_segments : IntMap Bytes → IntMap Location → ℕ → Recovery
  recover_segments [] index active = record {
    segments = [];
    index = index;
    active_id = active;
    failure = none;
  }
  recover_segments ((id, s) ∷ rest) index active =
      elim (scan_segment (suc (length s)) id 0 s index) [
        | unreadable index' e ↦ record {
          segments = (id, s) ∷ rest;
          index = index';
          active_id = active;
          failure = some e;
        }
        | scanned index' keep ↦
            let r = recover_segments rest index' (if ltb active id then id else active) in
            record r { segments = (id, take keep s) ∷ r.segments }
      ]
