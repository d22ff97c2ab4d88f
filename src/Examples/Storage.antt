-- ===== src/Examples/Storage.antt =====
-- Tests of the storage over the codecs of `Examples/Codecs`, and its theorems at concrete inputs.
use agidb_on_chain.Base.{
  ℕ, ◌+◌, ◌*◌, ◌^◌, ◌≤◌, ◌≡◌, refl, true, false, none, [], ◌∷◌, ◌++◌, length, arith,
}
use agidb_on_chain.Go.IntMaps.{find, put}
use agidb_on_chain.Result.{eof, ok}
use agidb_on_chain.Storage.Framing.{
  payload, stopped, frame, frame_header, encoded_of, read_frame, read_body, read_schema,
}
use agidb_on_chain.Storage.Endian.{put_uint32, uint32_at}
use agidb_on_chain.Storage.RoundTrip.{read_frame-frame}
use agidb_on_chain.Storage.Torn.{torn}
use agidb_on_chain.Storage.Segments.{
  Disk, Files, read_all, read_heights, read_block, read_at, decode_read, append_block,
  append_payload, append_frame, recover_segments, segment_of, open_segment, open_active, rotate,
}
use agidb_on_chain.Storage.Appends.{IsSized}
use agidb_on_chain.Storage.Growth.{IsBelow, IsGrown, append_block-read_all}
use agidb_on_chain.Storage.ReadBack.{HasAppended, append_block-HasAppended}
use agidb_on_chain.Storage.Logs.{
  IsTorn, Segment, file_bytes, kept_bytes, segment_index, last_id, entry_bytes,
}
use agidb_on_chain.Storage.Reopening.{IsReopened, recovered, open_files-IsReopened}
use agidb_on_chain.Storage.Recovering.{recover_segments-torn}
use agidb_on_chain.Examples.Codecs.{toy_codec, toy_gob, zeros, bare}

-- twelve zeros are framed in their short form, behind schema 2
packed_frame : length (frame (zeros 12)) ≡ 18
unfolding frame encoded_of frame_header put_uint32
packed_frame = refl

read_frame-frame_example :
    read_frame (frame (zeros 12) ++ (5 ∷ [])) ≡ payload (zeros 12) (length (frame (zeros 12)))
read_frame-frame_example =
    read_frame-frame (zeros 12) (5 ∷ []) (omega arith) (omega (arith, packed_frame))

plain_frame : length (frame (1 ∷ 2 ∷ 3 ∷ [])) ≡ 19
unfolding frame encoded_of frame_header put_uint32
plain_frame = refl

-- the header alone is taken for the end of the file
header_alone : torn 16 ≡ stopped 16 eof
unfolding torn
header_alone = refl

abbrev empty_disk : Disk
empty_disk = record { segments = []; wal = none; snapshots = []; locked = false }

abbrev small_files : Files
small_files = record {
  disk = record { segments = (1, []) ∷ []; wal = none; snapshots = []; locked = true };
  segment_size = 30;
  active_id = 1;
  active_size = 0;
  index = [];
}

abbrev one_block : Files
one_block = (append_block small_files (bare 3)).0

second_appended : append_block one_block (bare 4) ≡ ((append_block one_block (bare 4)).0, none)
unfolding append_block append_payload frame encoded_of frame_header put_uint32
second_appended = refl

one_IsSized : IsSized one_block
unfolding append_block append_payload append_frame segment_of find put frame encoded_of frame_header
    put_uint32
one_IsSized = (λ h. cc, refl)

one_size : one_block.segment_size ≤ 16 + 256 * 2 ^ 20
unfolding append_block append_payload append_frame frame encoded_of frame_header put_uint32
one_size = omega arith

append_block-HasAppended_example :
    HasAppended one_block (bare 4) (append_block one_block (bare 4)).0
append_block-HasAppended_example =
    append_block-HasAppended one_block (append_block one_block (bare 4)).0 (bare 4) one_IsSized
      one_size second_appended

-- the second block went to a new segment, as two frames exceed the segment size of 30
second_rotated : (append_block one_block (bare 4)).0.active_id ≡ 2
unfolding append_block append_payload append_frame rotate open_active open_segment frame encoded_of
    frame_header put_uint32
second_rotated = refl

-- a segment with a block, and a cut frame behind it
abbrev cut_segment : ℕ → Segment
cut_segment left = record {
  id = 1;
  entries = record { block = bare 1; encoded = 1 ∷ 0 ∷ 7 ∷ [] } ∷ [];
  lost = 2 ∷ 0 ∷ 7 ∷ [];
  left = left;
}

entry_size : length (frame (1 ∷ 0 ∷ 7 ∷ [])) ≡ 19
unfolding frame encoded_of frame_header put_uint32
entry_size = refl

lost_size : length (frame (2 ∷ 0 ∷ 7 ∷ [])) ≡ 19
unfolding frame encoded_of frame_header put_uint32
lost_size = refl

recover_segments-torn_example :
    recover_segments ((1, file_bytes (cut_segment 18)) ∷ []) [] 0 ≡ record {
      segments = (1, kept_bytes (cut_segment 18)) ∷ [];
      index = segment_index (cut_segment 18 ∷ []) [];
      active_id = last_id (cut_segment 18 ∷ []) 0;
      failure = none;
    }
recover_segments-torn_example = recover_segments-torn (cut_segment 18 ∷ []) [] 0 (
  (
    ((refl, omega (arith, entry_size)), tt),
    (omega arith, omega (arith, lost_size)),
    omega (arith, lost_size),
  ),
  tt,
)

-- the lost frame goes at 18 of its 19 bytes, and stays at 16
cut_back : length (kept_bytes (cut_segment 18)) ≡ 19
unfolding entry_bytes frame encoded_of frame_header put_uint32
cut_back = refl

header_stays : length (kept_bytes (cut_segment 16)) ≡ 35
unfolding entry_bytes frame encoded_of frame_header put_uint32
header_stays = refl

one_log : read_all one_block ≡ ok (bare 3 ∷ [])
unfolding read_all read_heights read_block read_at decode_read read_frame read_body read_schema
    uint32_at append_block append_payload append_frame segment_of find put frame encoded_of
    frame_header put_uint32
one_log = refl

one-IsBelow : IsBelow 4 one_block.index
unfolding append_block append_payload append_frame put frame encoded_of frame_header put_uint32
one-IsBelow = (omega arith, tt)

append_block-read_all_example :
    IsGrown one_block (bare 3 ∷ []) (bare 4) (append_block one_block (bare 4)).0
append_block-read_all_example =
    append_block-read_all one_block (append_block one_block (bare 4)).0 (bare 4) (bare 3 ∷ [])
      one_IsSized one_size one-IsBelow one_log second_appended

abbrev crashed : Disk
crashed = record {
  segments = (1, file_bytes (cut_segment 18)) ∷ [];
  wal = none;
  snapshots = [];
  locked = false;
}

cut-IsTorn : IsTorn (cut_segment 18)
cut-IsTorn = (
  ((refl, omega (arith, entry_size)), tt),
  (omega arith, omega (arith, lost_size)),
  omega (arith, lost_size),
)

open_files-IsReopened_example :
    IsReopened crashed (cut_segment 18 ∷ []) (open_active (recovered crashed (cut_segment 18 ∷ [])))
open_files-IsReopened_example =
    open_files-IsReopened crashed (cut_segment 18 ∷ []) refl refl (cut-IsTorn, tt) (omega arith, tt)
      ((refl, tt), tt)
