-- ===== src/Storage/Counting.antt =====
-- `SegmentCount`, `StorageBytes` and `SnapshotCount` of files.go, where no directory fails to be read.
use agidb_on_chain.Base.{
  ℕ, ◌+◌, Bool, false, ◌&&◌, ◌||◌, List, [], ◌∷◌, Bytes, codes, beq, length, ltb, ◌==◌,
  if◌then◌else◌,
}
use agidb_on_chain.Go.Maps.{GoMap}
use agidb_on_chain.Go.IntMaps.{IntMap}
use agidb_on_chain.Storage.Segments.{Location, Files}
use agidb_on_chain.Engine.Status.{Counts}

-- `seen[l.Segment] = struct{}{}` over the index: the segments, each once
abbrev seen_in : List ℕ → ℕ → Bool
seen_in [] id = false
seen_in (j ∷ seen) id = (j == id) || seen_in seen id

unfoldable pub seen_segments : List ℕ → IntMap Location → List ℕ
seen_segments seen [] = seen
seen_segments seen ((h, loc) ∷ rest) =
    seen_segments (if seen_in seen loc.segment then seen else loc.segment ∷ seen) rest

-- `SegmentCount`
unfoldable pub segment_count : Files → ℕ
unfolding seen_segments
segment_count f =
    let n = length (seen_segments [] f.index) in if (n == 0) && ltb 0 f.active_id then 1 else n

-- the sizes of the files in `data`
unfoldable pub bytes_in : IntMap Bytes → ℕ
bytes_in [] = 0
bytes_in ((id, s) ∷ rest) = length s + bytes_in rest

-- `StorageBytes`
unfoldable pub storage_bytes : Files → ℕ
unfolding bytes_in
storage_bytes f = bytes_in f.disk.segments

-- `strings.HasSuffix(s, p)`: is one of the ends of `s` equal to `p`?
unfoldable pub has_suffix : Bytes → Bytes → Bool
has_suffix [] p = beq [] p
has_suffix (c ∷ s) p = beq (c ∷ s) p || has_suffix s p

unfoldable pub snapshots_in : GoMap Bytes → ℕ
snapshots_in [] = 0
snapshots_in ((name, s) ∷ rest) =
    (if has_suffix name (codes ".agsnap") then 1 else 0) + snapshots_in rest

-- `SnapshotCount`
unfoldable pub snapshot_count : Files → ℕ
unfolding snapshots_in
snapshot_count f = snapshots_in f.disk.snapshots

abbrev pub files_counts : Counts Files
files_counts = record {
  segment_count = segment_count;
  storage_bytes = storage_bytes;
  snapshot_count = snapshot_count;
}
