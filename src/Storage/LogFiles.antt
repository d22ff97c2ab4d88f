-- ===== src/Storage/LogFiles.antt =====
-- The files of files.go as a store that holds a log of blocks.
use agidb_on_chain.Base.{
  ◌+◌, ◌≤◌, ◌≡◌, refl, sym, ◌∙◌, ap, subst, Option, none, some, inl, inr, List, [], ◌∷◌, ◌++◌,
  Bytes, length, length-append, Option-cases, arith,
}
use mathlib.Core.List.{append-nil}
use agidb_on_chain.Go.IntMaps.{IntMap}
use agidb_on_chain.Model.{Block}
use agidb_on_chain.Result.{ok, ◌>>=◌}
use agidb_on_chain.Engine.Opening.{LogStore}
use agidb_on_chain.Storage.Codec.{Codec, Gob, gob_block}
use agidb_on_chain.Storage.Framing.{max_record_size, payload, frame, read_frame}
use agidb_on_chain.Storage.RoundTrip.{read_frame-frame}
use agidb_on_chain.Storage.Segments.{
  Location, Files, append_block, read_block, read_heights, read_all, write_wal, read_wal, clear_wal,
  decode_read, files_store,
}
use agidb_on_chain.Storage.Appends.{IsSized}
use agidb_on_chain.Storage.Growth.{IsBelow, append_block-read_all}

-- the same files with another write-ahead log
abbrev with_wal : Files → Option Bytes → Files
with_wal f w = record f { disk = record f.disk { wal = w } }

module _ ⦃C : Codec⦄ ⦃G : Gob⦄ where
  read_heights-with_wal :
      (f : Files) (w : Option Bytes) (m : IntMap Location)
      → read_heights (with_wal f w) m ≡ read_heights f m
  unfolding read_heights read_block
  read_heights-with_wal f w [] = refl
  read_heights-with_wal f w ((h, loc) ∷ m) =
      ap (λ r. read_block f h >>= λ b. r >>= λ bs. ok (b ∷ bs)) (read_heights-with_wal f w m)

  -- the files hold the blocks, of heights up to their number
  pub record IsLogFiles (f : Files) (bs : List Block) : Type 0 where
    pub sized : IsSized f
    pub limit : f.segment_size ≤ 16 + max_record_size
    pub below : IsBelow (length bs + 1) f.index
    pub log : read_all f ≡ ok bs

  -- gob transmits the block as it is, and its frame holds no more than the largest record
  pub record IsStoredBlock (b : Block) : Type 0 where
    pub exact : gob_block b ≡ b
    pub fits : (p : Bytes) → G.encode b ≡ some p → length (frame p) ≤ 16 + max_record_size

  with_wal-IsLogFiles :
      (f : Files) (w : Option Bytes) (bs : List Block)
      → IsLogFiles f bs
      → IsLogFiles (with_wal f w) bs
  unfolding read_all
  with_wal-IsLogFiles f w bs i = record {
    sized = i.sized;
    limit = i.limit;
    below = i.below;
    log = read_heights-with_wal f w f.index ∙ i.log;
  }

  read_wal-frame :
      (f : Files) (b : Block) (p : Bytes)
      → IsStoredBlock b
      → G.encode b ≡ some p
      → read_wal (with_wal f (some (frame p))) ≡ ok (some b)
  unfolding read_wal decode_read
  read_wal-frame f b p s e =
      let whole : read_frame (frame p) ≡ payload p (length (frame p)) =
        ap read_frame (sym (append-nil (frame p)))
        ∙ read_frame-frame p [] (G.encode_nonempty b p e) (s.fits p e) in
      let decoded : decode_read (payload p (length (frame p))) ≡ ok b =
        rw (decode_read, G.decode-encode b p e) (ap (λ c. ok c) s.exact) in
      ap (λ r. decode_read r >>= λ c. ok (some c)) whole ∙ ap (λ r. r >>= λ c. ok (some c)) decoded

  files_log_wal :
      (f f' : Files) (bs : List Block) (b : Block)
      → IsLogFiles f bs
      → IsStoredBlock b
      → write_wal f b ≡ (f', none)
      → IsLogFiles f' bs × (read_wal f' ≡ ok (some b))
  unfolding write_wal
  files_log_wal f f' bs b i s h = elim (Option-cases (G.encode b)) [
    | inl bad ↦ absurd (ground arith)
    | inr (p, good) ↦
        let same : with_wal f (some (frame p)) ≡ f' = ground arith in
        subst (λ g. IsLogFiles g bs × (read_wal g ≡ ok (some b))) same
          (with_wal-IsLogFiles f (some (frame p)) bs i, read_wal-frame f b p s good)
  ]

  read_wal_congr : (f f' : Files) → f'.disk.wal ≡ f.disk.wal → read_wal f' ≡ read_wal f
  unfolding read_wal
  read_wal_congr f f' h = rw (read_wal, h) refl

  files_log_append :
      (f f' : Files) (bs : List Block) (b : Block)
      → IsLogFiles f bs
      → IsStoredBlock b
      → b.header.height ≡ length bs + 1
      → append_block f b ≡ (f', none)
      → IsLogFiles f' (bs ++ (b ∷ [])) × (read_wal f' ≡ read_wal f)
  files_log_append f f' bs b i s height h =
      let below = subst (λ n. IsBelow n f.index) (sym height) i.below in
      let g = append_block-read_all f f' b bs i.sized i.limit below i.log h in
      let next : b.header.height + 1 ≡ length (bs ++ (b ∷ [])) + 1 =
        omega (arith, height, length-append bs (b ∷ [])) in
      (
        record {
          sized = g.sized;
          limit = omega (arith, g.limit, i.limit);
          below = subst (λ n. IsBelow n f'.index) next g.below;
          log = g.log ∙ ap (λ c. ok (bs ++ (c ∷ []))) s.exact;
        },
        read_wal_congr f f' g.wal,
      )

  files_log_clear :
      (f f' : Files) (bs : List Block)
      → IsLogFiles f bs
      → clear_wal f ≡ (f', none)
      → IsLogFiles f' bs × (read_wal f' ≡ ok none)
  unfolding clear_wal read_wal
  files_log_clear f f' bs i h =
      let same : with_wal f none ≡ f' = ap (λ r. r.0) h in
      subst (λ g. IsLogFiles g bs × (read_wal g ≡ ok none)) same
        (with_wal-IsLogFiles f none bs i, refl)

  -- Over these files `LogStore` holds: a log is what `ReadAll` returns, and a block is stored as it is
  -- where gob transmits it unchanged and its frame holds no more than the largest record.
  pub files_log_store : LogStore Files ⦃S = files_store⦄
  files_log_store = record {
    IsLog = IsLogFiles;
    IsStored = IsStoredBlock;
    read_log = λ f bs i. i.log;
    log_wal = files_log_wal;
    log_append = files_log_append;
    log_clear = files_log_clear;
  }
