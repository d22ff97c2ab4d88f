-- ===== src/Storage/Growth.antt =====
-- `ReadAll` after `AppendBlock`.
use agidb_on_chain.Base.{
  ℕ, ◌+◌, ◌≤◌, ◌<◌, ◌≡◌, refl, sym, ◌∙◌, ap, subst, none, List, [], ◌∷◌, ◌++◌, All, arith,
}
use agidb_on_chain.Go.IntMaps.{IntMap, put}
use agidb_on_chain.Model.{Block}
use agidb_on_chain.Result.{ok, ◌>>=◌, links_of_ok, ok_injective}
use agidb_on_chain.Storage.Codec.{Codec, Gob, gob_block}
use agidb_on_chain.Storage.Framing.{max_record_size}
use agidb_on_chain.Storage.Segments.{
  Location, Files, append_block, read_block, read_heights, read_all,
}
use agidb_on_chain.Storage.Appends.{IsSized}
use agidb_on_chain.Storage.ReadBack.{HasAppended, append_block-HasAppended}

-- every height of the index is below `n`
abbrev pub IsBelow {ℓ} : {V : Type ℓ} → ℕ → IntMap V → Type 0
IsBelow n m = All (λ e. e.0 < n) m

pub put_last :
    (m : IntMap Location) (n : ℕ) (loc : Location)
    → IsBelow n m
    → put m n loc ≡ m ++ ((n, loc) ∷ [])
unfolding put
put_last [] n loc i = refl
put_last ((j, l) ∷ m) n loc i = ground (arith, i.0, put_last m n loc i.1)

pub IsBelow-snoc {ℓ} :
    {V : Type ℓ} (m : IntMap V) (n : ℕ) (loc : V)
    → IsBelow n m
    → IsBelow (n + 1) (m ++ ((n, loc) ∷ []))
IsBelow-snoc [] n loc i = (omega arith, tt)
IsBelow-snoc ((j, l) ∷ m) n loc i = (omega (arith, i.0), IsBelow-snoc m n loc i.1)

module _ ⦃C : Codec⦄ ⦃G : Gob⦄ where
  pub read_heights-cons :
      (f : Files) (h : ℕ) (loc : Location) (m : IntMap Location) (b : Block) (bs : List Block)
      → read_block f h ≡ ok b
      → read_heights f m ≡ ok bs
      → read_heights f ((h, loc) ∷ m) ≡ ok (b ∷ bs)
  unfolding read_heights
  read_heights-cons f h loc m b bs r rest = rw (read_heights, r) (rw rest refl)

  read_heights-HasAppended :
      (f f' : Files) (b : Block) (m : IntMap Location) (loc : Location) (bs : List Block)
      → HasAppended f b f'
      → IsBelow b.header.height m
      → read_heights f m ≡ ok bs
      → read_heights f' (m ++ ((b.header.height, loc) ∷ [])) ≡ ok (bs ++ (gob_block b ∷ []))
  unfolding read_heights
  read_heights-HasAppended f f' b [] loc bs a i r =
      let nothing : [] ≡ bs = ok_injective [] bs r in
      subst (λ l. read_heights f' ((b.header.height, loc) ∷ []) ≡ ok (l ++ (gob_block b ∷ [])))
        nothing (read_heights-cons f' b.header.height loc [] (gob_block b) [] a.own refl)
  read_heights-HasAppended f f' b ((h, l) ∷ m) loc bs a i r =
      let (c, first, more) =
        links_of_ok (read_block f h) (λ c. read_heights f m >>= λ cs. ok (c ∷ cs)) r in
      let (cs, others, last) = links_of_ok (read_heights f m) (λ cs. ok (c ∷ cs)) more in
      let same : c ∷ cs ≡ bs = ok_injective (c ∷ cs) bs last in
      let still = a.others h c (λ e. absurd (omega (arith, i.0))) first in
      subst
        (λ x.
          read_heights f' ((h, l) ∷ (m ++ ((b.header.height, loc) ∷ [])))
          ≡ ok (x ++ (gob_block b ∷ [])))
        same
        (read_heights-cons f' h l (m ++ ((b.header.height, loc) ∷ [])) c (cs ++ (gob_block b ∷ []))
          still (read_heights-HasAppended f f' b m loc cs a i.1 others))

  -- what the files promise of the whole log: it has grown by the block
  pub record IsGrown (f : Files) (bs : List Block) (b : Block) (f' : Files) : Type 0 where
    pub sized : IsSized f'
    pub below : IsBelow (b.header.height + 1) f'.index
    pub limit : f'.segment_size ≡ f.segment_size
    pub wal : f'.disk.wal ≡ f.disk.wal
    pub log : read_all f' ≡ ok (bs ++ (gob_block b ∷ []))

  -- Where `AppendBlock` succeeds for a block that is higher than all those of the index, `ReadAll`
  -- returns the blocks that it returned before and behind them that block, with empty slices as nil,
  -- what it needed of the files holds again for the next height, and the segment size and the
  -- write-ahead log are as they were.
  pub append_block-read_all :
      (f f' : Files) (b : Block) (bs : List Block)
      → IsSized f
      → f.segment_size ≤ 16 + max_record_size
      → IsBelow b.header.height f.index
      → read_all f ≡ ok bs
      → append_block f b ≡ (f', none)
      → IsGrown f bs b f'
  unfolding read_all
  append_block-read_all f f' b bs sized small below all_read done =
      let a = append_block-HasAppended f f' b sized small done in
      let (loc, put_in) = a.grown in
      let index = put_in ∙ put_last f.index b.header.height loc below in
      record {
        sized = a.sized;
        below =
            subst (IsBelow (b.header.height + 1)) (sym index)
              (IsBelow-snoc f.index b.header.height loc below);
        limit = a.limit;
        wal = a.wal;
        log =
            ap (read_heights f') index
            ∙ read_heights-HasAppended f f' b f.index loc bs a below all_read;
      }
