-- ===== src/Storage/Reopening.antt =====
-- `Open` of files.go on a directory that a crash in an append has left.
use agidb_on_chain.Base.{
  ℕ, ◌+◌, ◌≤◌, ◌≡◌, refl, sym, ◌∙◌, ap, subst, true, false, some, List, [], ◌∷◌, ◌++◌, map,
  append_assoc, Bytes, All, length, length-append, length-map, if◌then◌else◌, arith,
}
use mathlib.Core.List.{append-nil}
use agidb_on_chain.Go.IntMaps.{IntMap, find}
use agidb_on_chain.Model.{Block}
use agidb_on_chain.Result.{ok, err, lock_unavailable, ◌>>=◌, links_of_ok}
use agidb_on_chain.Storage.Codec.{Codec, Gob, gob_block}
use agidb_on_chain.Storage.Segments.{
  Location, Disk, Files, default_segment_size, Recovery, after_recovery, recover_segments,
  open_segment, open_active, open_files, read_block, read_heights, read_all,
}
use agidb_on_chain.Storage.Appends.{IsSized, Extends, open_segment-IsSized, open_segment-Extends}
use agidb_on_chain.Storage.Growth.{IsBelow, IsBelow-snoc, read_heights-cons}
use agidb_on_chain.Storage.Lookups.{read_at-Extends, read_block_at, read_block-ok}
use agidb_on_chain.Storage.Recovering.{recover_segments-torn}
use agidb_on_chain.Storage.LogFiles.{IsLogFiles}
use agidb_on_chain.Storage.Logs.{
  Segment, entry_locations, segment_locations, segment_index, last_id, file_bytes, kept_bytes,
  IsTorn, AreNumbered, AreOrdered, segment_blocks, entry_blocks,
}
use agidb_on_chain.Storage.Reading.{find_middle, entry_index-append, read_segments}

IsBelow-mono {ℓ} : {V : Type ℓ} (m : IntMap V) (j k : ℕ) → j ≤ k → IsBelow j m → IsBelow k m
IsBelow-mono [] j k le i = tt
IsBelow-mono (e ∷ m) j k le i = (omega (arith, i.0), IsBelow-mono m j k le i.1)

module _ ⦃C : Codec⦄ ⦃G : Gob⦄ where
  segment_index-append :
      (n : ℕ) (ss : List Segment) (m : IntMap Location)
      → IsBelow n m
      → AreNumbered n ss
      → (segment_index ss m ≡ m ++ segment_locations ss)
        × IsBelow (n + length (segment_blocks ss)) (m ++ segment_locations ss)
  unfolding segment_index
  segment_index-append n [] m below num = (
    sym (append-nil m),
    subst (IsBelow (n + 0)) (sym (append-nil m)) (subst (λ k. IsBelow k m) (omega arith) below),
  )
  segment_index-append n (s ∷ ss) m below num =
      let locs = entry_locations s.id 0 s.entries in
      let first = entry_index-append s.id 0 n s.entries m below num.0 in
      let rest = segment_index-append (n + length s.entries) ss (m ++ locs) first.1 num.1 in
      let assoc = append_assoc m locs (segment_locations ss) in
      let size : n + length s.entries + length (segment_blocks ss)
          ≡ n + length (segment_blocks (s ∷ ss)) =
        omega (
          arith,
          length-append (entry_blocks s.entries) (segment_blocks ss),
          length-map (λ e. gob_block e.block) s.entries,
        ) in
      (
        ap (segment_index ss) first.0 ∙ rest.0 ∙ assoc,
        subst (λ k. IsBelow k (m ++ segment_locations (s ∷ ss))) size
            (subst (IsBelow (n + length s.entries + length (segment_blocks ss))) assoc rest.1),
      )

  -- each recovered segment is found under its number
  find_kept :
      (k : ℕ) (ss : List Segment) (pre : IntMap Bytes)
      → IsBelow k pre
      → AreOrdered k ss
      → All (λ s. find (pre ++ map (λ x. (x.id, kept_bytes x)) ss) s.id ≡ some (kept_bytes s)) ss
  find_kept k [] pre below o = tt
  find_kept k (s ∷ ss) pre below o =
      let under = IsBelow-mono pre k s.id o.0 below in
      let rest = map (λ (x : Segment). (x.id, kept_bytes x)) ss in
      (
        find_middle pre rest s.id (kept_bytes s) under,
        subst
            (λ (files : IntMap Bytes).
              All (λ (x : Segment). find files x.id ≡ some (kept_bytes x)) ss)
            (append_assoc pre ((s.id, kept_bytes s) ∷ []) rest)
            (find_kept (s.id + 1) ss (pre ++ ((s.id, kept_bytes s) ∷ []))
              (IsBelow-snoc pre s.id (kept_bytes s) under) o.1),
      )

  read_heights-Extends :
      (f f' : Files) (m : IntMap Location) (bs : List Block)
      → f'.index ≡ f.index
      → Extends f.disk.segments f'.disk.segments
      → read_heights f m ≡ ok bs
      → read_heights f' m ≡ ok bs
  unfolding read_heights
  read_heights-Extends f f' [] bs same more r = r
  read_heights-Extends f f' ((h, loc) ∷ m) bs same more r =
      let (c, first, rest) =
        links_of_ok (read_block f h) (λ b. read_heights f m >>= λ cs. ok (b ∷ cs)) r in
      let (cs, others, last) = links_of_ok (read_heights f m) (λ l. ok (c ∷ l)) rest in
      let (at, found) = read_block-ok f h c first in
      let still : read_block f' h ≡ ok c =
        read_block_at f' h at (ap (λ i. find i h) same ∙ found)
        ∙ read_at-Extends f.disk.segments f'.disk.segments at c more
            (sym (read_block_at f h at found) ∙ first) in
      read_heights-cons f' h loc m c cs still (read_heights-Extends f f' m cs same more others)
      ∙ last

  -- the files before the active segment is opened
  abbrev pub recovered : Disk → List Segment → Files
  recovered d ss = record {
    disk = record d { segments = map (λ (s : Segment). (s.id, kept_bytes s)) ss; locked = true };
    segment_size = default_segment_size;
    active_id = last_id ss 0;
    active_size = 0;
    index = segment_index ss [];
  }

  open_recovered :
      (d : Disk) (ss : List Segment)
      → d.segments ≡ map (λ s. (s.id, file_bytes s)) ss
      → d.locked ≡ false
      → All IsTorn ss
      → (open_files d).1 ≡ ok (open_active (recovered d ss))
  unfolding open_files after_recovery
  open_recovered d ss files free torn =
      let r = ap (λ m. recover_segments m [] 0) files ∙ recover_segments-torn ss [] 0 torn in
      ap
        (λ b.
          (if b
            then (d, err lock_unavailable)
            else after_recovery d (recover_segments d.segments [] 0)).1)
        free
      ∙ ap (λ (x : Recovery). (after_recovery d x).1) r

  -- what `Open` promises of a directory: it succeeds, and its files hold the log of the blocks that were
  -- written whole, with the write-ahead log that was there
  pub record IsReopened (d : Disk) (ss : List Segment) (f : Files) : Type 0 where
    pub opens : (open_files d).1 ≡ ok f
    pub log : IsLogFiles f (segment_blocks ss)
    pub wal : f.disk.wal ≡ d.wal

  active_index :
      (f : Files)
      → ((open_active f).index ≡ f.index)
        × ((open_active f).disk.wal ≡ f.disk.wal)
        × ((open_active f).segment_size ≡ f.segment_size)
  unfolding open_active open_segment
  active_index f = (refl, refl, refl)

  active-IsSized : (f : Files) → IsSized (open_active f)
  unfolding open_active
  active-IsSized f = open_segment-IsSized f _

  active-Extends : (f : Files) → Extends f.disk.segments (open_active f).disk.segments
  unfolding open_active
  active-Extends f = open_segment-Extends f _

  -- On an unlocked directory whose segments, numbered in ascending order, hold whole frames of blocks of
  -- the heights 1, 2 and so on, and behind those the first bytes of a frame whose write was cut short,
  -- `Open` succeeds: its files hold the log of exactly the blocks that were written whole, as gob gives
  -- them back, ready for the next height, and the write-ahead log that was there.
  pub open_files-IsReopened :
      (d : Disk) (ss : List Segment)
      → d.segments ≡ map (λ s. (s.id, file_bytes s)) ss
      → d.locked ≡ false
      → All IsTorn ss
      → AreOrdered 0 ss
      → AreNumbered 1 ss
      → IsReopened d ss (open_active (recovered d ss))
  unfolding read_all
  open_files-IsReopened d ss files free torn ordered numbered =
      let f = recovered d ss in
      let (index, wal, limit) = active_index f in
      let (all, below) = segment_index-append 1 ss [] tt numbered in
      let read = read_segments f 1 ss [] all (find_kept 0 ss [] tt ordered) tt numbered torn in
      let size : 1 + length (segment_blocks ss) ≡ length (segment_blocks ss) + 1 = omega arith in
      let grown = subst (λ n. IsBelow n (segment_locations ss)) size below in
      record {
        opens = open_recovered d ss files free torn;
        log = record {
          sized = active-IsSized f;
          limit = omega (arith, limit);
          below = subst (IsBelow (length (segment_blocks ss) + 1)) (sym (index ∙ all)) grown;
          log =
              ap (read_heights (open_active f)) (index ∙ all)
              ∙ read_heights-Extends f (open_active f) (segment_locations ss) (segment_blocks ss)
                  index (active-Extends f) read;
        };
        wal = wal;
      }
