-- ===== src/Examples/Snapshots.antt =====
-- Snapshots that are written, read and verified.
use agidb_on_chain.Base.{
  ℕ, ◌+◌, ◌≤◌, ◌<◌, ◌≡◌, ◌↔◌, refl, sym, subst, ◌∙◌, ap, Bool, true, false, ◌&&◌, Option, none,
  some, inl, inr, [], ◌∷◌, Bytes, codes, beq, beq_eq, length, ◌==◌, if◌then◌else◌, Bool-cases,
  arith,
}
use agidb_on_chain.Model.{Snapshot}
use agidb_on_chain.Result.{ok, err, not_exist}
use agidb_on_chain.Engine.{Engine, new_engine}
use agidb_on_chain.Engine.Roots.{clone_state}
use agidb_on_chain.Engine.Snapshots.{
  SnapshotStore, IsGenuine, taken_checksum, summarise, new_snapshot, take_snapshot, verify_snapshot,
  verify_snapshot_iff,
}
use agidb_on_chain.Storage.Endian.{put_uint32}
use agidb_on_chain.Storage.Framing.{frame, encoded_of, frame_header, max_record_size}
use agidb_on_chain.Storage.Segments.{Files}
use agidb_on_chain.Storage.Snapshots.{
  SnapshotGob, Place, snapshot_path, write_snapshot, files_snapshots,
}
use agidb_on_chain.Storage.Keeping.{IsTaken, take_snapshot-IsTaken}
use agidb_on_chain.Examples.Toys.{toy_sha256, toy_json}
use agidb_on_chain.Examples.Codecs.{toy_codec, is_nil, nil_of}
use agidb_on_chain.Examples.Sessions.{program}

-- a storage in memory that keeps the last snapshot
instance abbrev last_snapshot : SnapshotStore (Option Snapshot)
last_snapshot = record {
  write_snapshot = λ f s. (some s, ok (codes "s"));
  read_snapshot = λ f path. elim f [ none ↦ err not_exist | some s ↦ ok s ];
}

abbrev empty : Engine (Option Snapshot)
empty = new_engine none false

abbrev after : Engine (Option Snapshot)
after = new_engine (some (new_snapshot 5 empty)) false

verify_snapshot_iff_example :
    (verify_snapshot after (codes "s") ≡ ok (new_snapshot 5 empty))
    ↔ ((ok (new_snapshot 5 empty) ≡ ok (new_snapshot 5 empty)) × IsGenuine (new_snapshot 5 empty))
verify_snapshot_iff_example = verify_snapshot_iff after (codes "s") (new_snapshot 5 empty)

-- a directory without files
abbrev no_snapshots : Files
no_snapshots = record {
  disk = record { segments = []; wal = none; snapshots = []; locked = true };
  segment_size = 30;
  active_id = 1;
  active_size = 0;
  index = [];
}

abbrev unwritten : Engine Files
unwritten = new_engine no_snapshots false

abbrev first : Snapshot
first = new_snapshot 5 unwritten

-- the first snapshot at another height
abbrev form : ℕ → Snapshot
form h = record first { height = h; state = [] }

abbrev is_form : Snapshot → Bool
is_form s =
    beq s.format first.format
    && (beq s.latest_hash first.latest_hash
        && (beq s.state_root first.state_root
            && (is_nil s.state
                && (beq s.checksum first.checksum
                    && ((s.created_at == first.created_at)
                        && ((s.block_count == first.block_count)
                            && (s.tx_count == first.tx_count)))))))

form_of : (s : Snapshot) → is_form s ≡ true → s ≡ form s.height
form_of s t = grind (
  arith,
  nil_of,
  beq_eq s.format first.format,
  beq_eq s.latest_hash first.latest_hash,
  beq_eq s.state_root first.state_root,
  beq_eq s.checksum first.checksum,
)

abbrev snapshot_bytes : Snapshot → Option Bytes
snapshot_bytes s = if is_form s then some (s.height ∷ 9 ∷ []) else none

abbrev read_bytes : Bytes → Option Snapshot
read_bytes [] = none
read_bytes (h ∷ rest) = some (form h)

read_bytes-snapshot_bytes :
    (s : Snapshot) (p : Bytes) → snapshot_bytes s ≡ some p → read_bytes p ≡ some s
read_bytes-snapshot_bytes s p h = elim (Bool-cases (is_form s)) [
  | inl only ↦
      let same : p ≡ s.height ∷ 9 ∷ [] = ground (arith, h) in
      ap read_bytes same ∙ ap (λ t. some t) (sym (form_of s only))
  | inr more ↦ ground (arith, h)
]

snapshot_bytes_nonempty : (s : Snapshot) (p : Bytes) → snapshot_bytes s ≡ some p → 0 < length p
snapshot_bytes_nonempty s p h = elim (Bool-cases (is_form s)) [
  | inl only ↦ let same : p ≡ s.height ∷ 9 ∷ [] = ground (arith, h) in omega (arith, ap length same)
  | inr more ↦ ground (arith, h)
]

instance abbrev toy_snapshot_gob : SnapshotGob
toy_snapshot_gob = record {
  encode = snapshot_bytes;
  decode = read_bytes;
  decode-encode = read_bytes-snapshot_bytes;
  encode_nonempty = snapshot_bytes_nonempty;
}

instance abbrev toy_place : Place
toy_place = record { directory = codes "db/snapshots"; outside = λ path. none }

first_bytes : snapshot_bytes first ≡ some (0 ∷ 9 ∷ [])
unfolding program new_snapshot summarise taken_checksum clone_state
first_bytes = refl

first_frame : length (frame (0 ∷ 9 ∷ [])) ≡ 18
unfolding frame encoded_of frame_header put_uint32
first_frame = refl

small_frame : (p : Bytes) → snapshot_bytes first ≡ some p → length (frame p) ≤ 16 + max_record_size
small_frame p h =
    let same : 0 ∷ 9 ∷ [] ≡ p = cc (first_bytes, h) in
    subst (λ q. length (frame q) ≤ 16 + max_record_size) same (omega (arith, first_frame))

first_written : (take_snapshot 5 unwritten).1.0 ≡ ok (snapshot_path 0)
unfolding program take_snapshot write_snapshot new_snapshot summarise taken_checksum clone_state
first_written = refl

take_snapshot-IsTaken_example :
    IsTaken unwritten
      (take_snapshot 5 unwritten).0
      (snapshot_path 0)
      (take_snapshot 5 unwritten).1.1
take_snapshot-IsTaken_example =
    take_snapshot-IsTaken 5 unwritten (snapshot_path 0) tt small_frame first_written
