-- ===== src/Storage/Segments.antt =====
-- `Files` of files.go: the segments with their index and the write-ahead log, where no system call
-- fails. A file is the list of its bytes; `Disk` is what a crash leaves.
mod Scanning
unfoldable pub use Scanning.*
use agidb_on_chain.Base.{
  ℕ, zero, suc, ◌+◌, ◌%◌, ◌^◌, ◌*◌, Bool, true, false, Option, none, some, List, [], ◌∷◌, ◌++◌,
  Bytes, length, take, ltb, ◌==◌, if◌then◌else◌,
}
use agidb_on_chain.Go.Maps.{GoMap}
use agidb_on_chain.Go.IntMaps.{IntMap, find, put}
use agidb_on_chain.Model.{Block}
use agidb_on_chain.Result.{
  Error, Result, ok, err, ◌>>=◌, eof, bad_gob, not_exist, lock_unavailable, record_exceeds_segment,
}
use agidb_on_chain.Engine.{Store}
use agidb_on_chain.Storage.Codec.{Codec, Gob}
use agidb_on_chain.Storage.Framing.{Read, payload, stopped, drop, frame, read_frame}

-- the bytes of a segment, none if there is no such file
unfoldable pub segment_of : IntMap Bytes → ℕ → Bytes
segment_of m id = elim (find m id) [ none ↦ [] | some s ↦ s ]

-- `os.OpenFile` with `O_CREATE`
unfoldable pub create : IntMap Bytes → ℕ → IntMap Bytes
create m id = elim (find m id) [ none ↦ put m id [] | some s ↦ m ]

-- `openActive`, with `f.activeID` set to `id`
unfoldable pub open_segment : Files → ℕ → Files
unfolding create segment_of
open_segment f id =
    let segments = create f.disk.segments id in
    record f {
      disk = record f.disk { segments = segments };
      active_id = id;
      active_size = length (segment_of segments id);
    }

unfoldable pub open_active : Files → Files
unfolding open_segment
open_active f = open_segment f (if f.active_id == 0 then 1 else f.active_id)

-- `rotate`: the active segment is already on disk
unfoldable pub rotate : Files → Files
unfolding open_active
rotate f = open_active (record f { active_id = (f.active_id + 1) % 2 ^ 64 })

-- the write of a frame behind the active segment, and its entry in the index
unfoldable pub append_frame : Files → ℕ → Bytes → Files
append_frame f height fr = record f {
  disk = record f.disk {
    segments = put f.disk.segments f.active_id (segment_of f.disk.segments f.active_id ++ fr);
  };
  active_size = f.active_size + length fr;
  index =
      put f.index height
        record { segment = f.active_id; offset = f.active_size; length = length fr % 2 ^ 32 };
}

module _ ⦃C : Codec⦄ ⦃G : Gob⦄ where
  -- `Open` after `recoverSegments`; the lock stays where it failed
  unfoldable pub after_recovery : Disk → Recovery → Disk × Result Files
  unfolding open_active
  after_recovery d r =
      let d' : Disk = record d { segments = r.segments; locked = true } in
      let f = open_active record {
        disk = d';
        segment_size = default_segment_size;
        active_id = r.active_id;
        active_size = 0;
        index = r.index;
      } in
      elim r.failure [ some e ↦ (d', err e) | none ↦ (f.disk, ok f) ]

  -- `Open`: the directory after it, and the files or an error
  unfoldable pub open_files : Disk → Disk × Result Files
  unfolding after_recovery
  open_files d =
      let r = recover_segments d.segments [] 0 in
      if d.locked then (d, err lock_unavailable) else after_recovery d r

  -- `AppendBlock`
  unfoldable pub append_payload : Files → ℕ → Bytes → Files × Option Error
  unfolding append_frame
  append_payload f height fr =
      if ltb f.segment_size (length fr) then (f, some record_exceeds_segment) else (
        append_frame (if ltb f.segment_size (f.active_size + length fr) then rotate f else f) height
            fr,
        none,
      )

  unfoldable pub append_block : Files → Block → Files × Option Error
  unfolding append_payload
  append_block f b = elim (G.encode b) [
    | none ↦ (f, some bad_gob)
    | some p ↦ append_payload f b.header.height (frame p)
  ]

  -- the block that a reader of a frame decodes
  unfoldable pub decode_read : Read → Result Block
  decode_read (stopped n e) = err e
  decode_read (payload p n) = elim (G.decode p) [ none ↦ err bad_gob | some b ↦ ok b ]

  -- the block at a location, of the segments on disk
  unfoldable pub read_at : IntMap Bytes → Location → Result Block
  unfolding decode_read
  read_at m loc = elim (find m loc.segment) [
    | none ↦ err not_exist
    | some s ↦ decode_read (read_frame (drop loc.offset s))
  ]

  unfoldable pub read_block : Files → ℕ → Result Block
  unfolding read_at
  read_block f height = elim (find f.index height) [
    | none ↦ err not_exist
    | some loc ↦ read_at f.disk.segments loc
  ]

  -- the loop of `ReadAll` over the heights
  unfoldable pub read_heights : Files → IntMap Location → Result (List Block)
  read_heights f [] = ok []
  read_heights f ((h, loc) ∷ rest) =
      read_block f h >>= λ b. read_heights f rest >>= λ bs. ok (b ∷ bs)

  unfoldable pub read_all : Files → Result (List Block)
  read_all f = read_heights f f.index

  unfoldable pub write_wal : Files → Block → Files × Option Error
  write_wal f b = elim (G.encode b) [
    | none ↦ (f, some bad_gob)
    | some p ↦ (record f { disk = record f.disk { wal = some (frame p) } }, none)
  ]

  unfoldable pub read_wal : Files → Result (Option Block)
  read_wal f = elim f.disk.wal [
    | none ↦ ok none
    | some s ↦ decode_read (read_frame s) >>= λ b. ok (some b)
  ]

-- the file's absence is no error
unfoldable pub clear_wal : Files → Files × Option Error
clear_wal f = (record f { disk = record f.disk { wal = none } }, none)

-- `Close`: what stays on disk
unfoldable pub close_files : Files → Disk
close_files f = record f.disk { locked = false }

module _ ⦃C : Codec⦄ ⦃G : Gob⦄ where
  -- the storage as the engine uses it
  abbrev pub files_store : Store Files
  files_store = record {
    write_wal = write_wal;
    append_block = append_block;
    clear_wal = clear_wal;
    read_all = read_all;
    read_wal = read_wal;
  }
