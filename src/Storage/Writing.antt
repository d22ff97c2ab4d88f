-- ===== src/Storage/Writing.antt =====
-- The writes of `Commit` over the files of files.go.
use agidb_on_chain.Base.{
  ◌≤◌, ◌≡◌, refl, false, none, some, Bytes, length, ltb, if◌then◌else◌, ◌+◌, arith,
}
use agidb_on_chain.Model.{Block}
use agidb_on_chain.Engine.{Engine}
use agidb_on_chain.Engine.Progress.{IsWritable}
use agidb_on_chain.Storage.Codec.{Codec, Gob}
use agidb_on_chain.Storage.Framing.{frame}
use agidb_on_chain.Storage.Segments.{
  Files, append_block, append_payload, append_frame, write_wal, clear_wal, files_store, rotate,
}

module _ ⦃C : Codec⦄ ⦃G : Gob⦄ where
  append_block_fits :
      (f : Files) (b : Block) (p : Bytes)
      → G.encode b ≡ some p
      → length (frame p) ≤ f.segment_size
      → (g : Files) × (append_block f b ≡ (g, none))
  unfolding append_block append_payload
  append_block_fits f b p e fits =
      let short : ltb f.segment_size (length (frame p)) ≡ false = ground arith in
      (
        append_frame (if ltb f.segment_size (f.active_size + length (frame p)) then rotate f else f)
            b.header.height (frame p),
        rw (append_block, e) (rw (append_payload, short) refl),
      )

  -- A block that gob encodes, and whose frame is no longer than a segment, is written by all three.
  files_store-IsWritable :
      (e : Engine Files) (b : Block) (p : Bytes)
      → G.encode b ≡ some p
      → length (frame p) ≤ e.store.segment_size
      → IsWritable ⦃S = files_store⦄ e b
  unfolding write_wal clear_wal
  files_store-IsWritable e b p g fits =
      let logged : Files = record e.store { disk = record e.store.disk { wal = some (frame p) } } in
      let (files, added) = append_block_fits logged b p g fits in
      record {
        files = files;
        written = record { logged = logged; log = rw (write_wal, g) refl; append = added };
        cleared = refl;
      }
