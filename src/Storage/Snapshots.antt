-- ===== src/Storage/Snapshots.antt =====
-- `WriteSnapshot` and `ReadSnapshot` of files.go, where no system call fails.
use agidb_on_chain.Base.{
  ℕ, ◌<◌, ◌≡◌, Option, none, some, List, [], ◌∷◌, ◌++◌, Bytes, codes, beq, has_prefix, length,
  if◌then◌else◌,
}
use agidb_on_chain.Go.Maps.{lookup}
use agidb_on_chain.Go.Directory.{Call, create, write, sync, close, rename, run_all, temporary}
use agidb_on_chain.Go.Strings.{padded, trim_prefix}
use agidb_on_chain.Model.{Snapshot}
use agidb_on_chain.Result.{Result, ok, err, bad_gob, not_exist, snapshot_path_required}
use agidb_on_chain.Engine.Snapshots.{SnapshotStore}
use agidb_on_chain.Storage.Codec.{Codec}
use agidb_on_chain.Storage.Framing.{Read, payload, stopped, frame, read_frame}
use agidb_on_chain.Storage.Segments.{Files}

-- gob on a `model.Snapshot`: what is written is read back
pub record SnapshotGob : Type 0 where
  pub encode : Snapshot → Option Bytes
  pub decode : Bytes → Option Snapshot
  pub decode-encode : (s : Snapshot) (p : Bytes) → encode s ≡ some p → decode p ≡ some s
  pub encode_nonempty : (s : Snapshot) (p : Bytes) → encode s ≡ some p → 0 < length p

-- `filepath.Join(f.Dir, "snapshots")`, and the files of the host that are not in this directory. A path
-- that spells the directory in another way is taken for one of those.
pub record Place : Type 0 where
  pub directory : Bytes
  pub outside : Bytes → Option Bytes

-- `snapshot-%020d.agsnap`
unfoldable pub snapshot_name : ℕ → Bytes
unfolding padded
snapshot_name height = codes "snapshot-" ++ (padded 20 height ++ codes ".agsnap")

-- the system calls of `WriteSnapshot` on the file of a name
unfoldable pub snapshot_calls : Bytes → Bytes → List Call
snapshot_calls name fr =
    let tmp = temporary name in
    create tmp ∷ write tmp fr ∷ sync tmp ∷ close tmp ∷ rename tmp name ∷ []

module _ ⦃P : Place⦄ where
  -- the directory with its slash, and a file in it
  abbrev pub base : Bytes
  base = P.directory ++ (47 ∷ [])

  unfoldable pub snapshot_path : ℕ → Bytes
  unfolding snapshot_name
  snapshot_path height = base ++ snapshot_name height

  -- `os.Open` and what is read
  unfoldable pub file_at : Files → Bytes → Option Bytes
  file_at f path =
      if has_prefix path base
      then lookup f.disk.snapshots (trim_prefix path base)
      else P.outside path

module _ ⦃C : Codec⦄ ⦃G : SnapshotGob⦄ ⦃P : Place⦄ where
  unfoldable pub write_snapshot : Files → Snapshot → Files × Result Bytes
  unfolding run_all snapshot_calls snapshot_path
  write_snapshot f s = elim (G.encode s) [
    | none ↦ (f, err bad_gob)
    | some p ↦ (
      record f {
        disk = record f.disk {
          snapshots = run_all (snapshot_calls (snapshot_name s.height) (frame p)) f.disk.snapshots;
        };
      },
      ok (snapshot_path s.height),
    )
  ]

  unfoldable pub decode_snapshot : Read → Result Snapshot
  decode_snapshot (stopped n e) = err e
  decode_snapshot (payload p n) = elim (G.decode p) [ none ↦ err bad_gob | some s ↦ ok s ]

  unfoldable pub read_snapshot : Files → Bytes → Result Snapshot
  unfolding decode_snapshot file_at
  read_snapshot f path =
      if beq path []
      then err snapshot_path_required
      else elim (file_at f path) [ none ↦ err not_exist | some s ↦ decode_snapshot (read_frame s) ]

  instance abbrev pub files_snapshots : SnapshotStore Files
  files_snapshots = record { write_snapshot = write_snapshot; read_snapshot = read_snapshot }
