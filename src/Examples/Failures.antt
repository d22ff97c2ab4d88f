-- ===== src/Examples/Failures.antt =====
-- A failed append, and the one after it, at concrete blocks.
use agidb_on_chain.Base.{some, none, ◌≡◌, refl, true, [], ◌∷◌, length, arith}
use agidb_on_chain.Go.IntMaps.{find, put}
use agidb_on_chain.Result.{ok, io_failure}
use agidb_on_chain.Storage.Framing.{
  frame, frame_header, encoded_of, read_frame, read_body, read_schema,
}
use agidb_on_chain.Storage.Endian.{put_uint32, uint32_at}
use agidb_on_chain.Storage.Segments.{
  recover_segments, Files, append_block, append_payload, append_frame, segment_of, read_block,
  read_at, decode_read,
}
use agidb_on_chain.Storage.Appends.{IsSized}
use agidb_on_chain.Storage.Failures.{
  fail_frame, fail_payload, fail_append, HasRefused, fail_append-HasRefused,
}
use agidb_on_chain.Storage.Counting.{segment_count, storage_bytes}
use agidb_on_chain.Storage.Logs.{entry_bytes}
use agidb_on_chain.Storage.Losses.{recover_segments-fail_append}
use agidb_on_chain.Examples.Codecs.{toy_codec, toy_gob, bare, tail_of}

abbrev roomy_files : Files
roomy_files = record {
  disk = record { segments = (1, []) ∷ []; wal = none; snapshots = []; locked = true };
  segment_size = 60;
  active_id = 1;
  active_size = 0;
  index = [];
}

roomy-IsSized : IsSized roomy_files
unfolding segment_of find
roomy-IsSized = (λ h. cc, refl)

third_frame : length (frame (3 ∷ 0 ∷ 7 ∷ [])) ≡ 19
unfolding frame encoded_of frame_header put_uint32
third_frame = refl

fourth_frame : length (frame (4 ∷ 0 ∷ 7 ∷ [])) ≡ 19
unfolding frame encoded_of frame_header put_uint32
fourth_frame = refl

fail_append-HasRefused_example : HasRefused 19 roomy_files (bare 3) (bare 4)
fail_append-HasRefused_example =
    fail_append-HasRefused 19 roomy_files (bare 3) (bare 4) (3 ∷ 0 ∷ 7 ∷ []) (4 ∷ 0 ∷ 7 ∷ [])
      roomy-IsSized (omega arith) refl refl (omega (arith, third_frame))
      (omega (arith, third_frame)) (omega (arith, fourth_frame))

-- the refused block 3 is what is read at the height of block 4
third_read :
    read_block (append_block (fail_append 19 roomy_files (bare 3)).0 (bare 4)).0 4 ≡ ok (bare 3)
unfolding append_block append_payload append_frame fail_append fail_payload fail_frame segment_of
    find put frame encoded_of frame_header put_uint32 read_block read_at decode_read read_frame
    read_body read_schema uint32_at
third_read = refl

no_bytes : roomy_files.disk.segments ≡ (1, entry_bytes []) ∷ []
unfolding entry_bytes
no_bytes = refl

ninth_frame : length (frame (9 ∷ 0 ∷ 7 ∷ tail_of 9)) ≡ 37
unfolding frame encoded_of frame_header put_uint32
ninth_frame = refl

recover_segments-fail_append_example :
    ((fail_append 16 roomy_files (bare 9)).1 ≡ some io_failure)
    × ((append_block (fail_append 16 roomy_files (bare 9)).0 (bare 4)).1 ≡ none)
    × (recover_segments
          (append_block (fail_append 16 roomy_files (bare 9)).0 (bare 4)).0.disk.segments
          []
          0
        ≡ recover_segments roomy_files.disk.segments [] 0)
recover_segments-fail_append_example =
    recover_segments-fail_append 16 roomy_files (bare 9) (bare 4) (9 ∷ 0 ∷ 7 ∷ tail_of 9)
      (4 ∷ 0 ∷ 7 ∷ []) [] tt no_bytes refl refl (omega (arith, ninth_frame))
      (omega (arith, ninth_frame)) (omega (arith, fourth_frame)) (omega arith)
      (omega (arith, ninth_frame, fourth_frame))

-- a segment without blocks counts, and so do the bytes of a torn frame
roomy_count : segment_count roomy_files ≡ 1
unfolding segment_count
roomy_count = refl

failed_bytes : storage_bytes (fail_append 16 roomy_files (bare 9)).0 ≡ 16
unfolding storage_bytes fail_append fail_payload fail_frame segment_of find put frame encoded_of
    frame_header put_uint32
failed_bytes = refl
