-- ===== src/Storage/ReadBack.antt =====
-- `AppendBlock`, then `ReadBlock`.
use agidb_on_chain.Base.{
  ℕ, ◌+◌, ◌%◌, ◌^◌, ◌≤◌, ◌≡◌, ◌≢◌, refl, sym, ◌∙◌, ap, subst, none, some, inl, inr, [], ◌++◌, Bytes,
  length, ltb, ==_iff, Bool-cases, Option-cases, arith,
}
use agidb_on_chain.Go.IntMaps.{find, put}
use agidb_on_chain.Model.{Block}
use agidb_on_chain.Result.{ok}
use agidb_on_chain.Storage.Codec.{Codec, Gob, gob_block}
use agidb_on_chain.Storage.Framing.{max_record_size, drop, frame, read_frame}
use agidb_on_chain.Storage.RoundTrip.{read_frame-frame}
use agidb_on_chain.Storage.Prefixes.{drop_front}
use agidb_on_chain.Storage.Segments.{
  Location, Files, segment_of, rotate, open_active, open_segment, append_frame, append_payload,
  append_block, decode_read, read_block,
}
use agidb_on_chain.Storage.Appends.{
  IsSized, rotate-IsSized, rotate-Extends, append_frame-Extends, append_frame-found,
  append_frame-IsSized, append_nothing, append_frame-index,
}
use agidb_on_chain.Storage.Lookups.{read_at_found, read_at-Extends, read_block_at, read_block-ok}

module _ ⦃C : Codec⦄ ⦃G : Gob⦄ where
  -- what the files promise after an append: the block is read back, as gob transmits it, and every
  -- other block that could be read still can
  pub record HasAppended (f : Files) (b : Block) (f' : Files) : Type 0 where
    pub sized : IsSized f'
    pub limit : f'.segment_size ≡ f.segment_size
    pub wal : f'.disk.wal ≡ f.disk.wal
    pub grown : (loc : Location) × (f'.index ≡ put f.index b.header.height loc)
    pub own : read_block f' b.header.height ≡ ok (gob_block b)
    pub others :
        (h : ℕ) (c : Block) → h ≢ b.header.height → read_block f h ≡ ok c → read_block f' h ≡ ok c

  append_frame-others :
      (f : Files) (height : ℕ) (fr : Bytes) (h : ℕ) (c : Block)
      → IsSized f
      → h ≢ height
      → read_block f h ≡ ok c
      → read_block (append_frame f height fr) h ≡ ok c
  append_frame-others f height fr h c sized other e =
      let (loc, found) = read_block-ok f h c e in
      let f' = append_frame f height fr in
      let still : find f'.index h ≡ some loc = ground (
        arith,
        append_frame-index f height fr h,
        ==_iff height h,
        λ (q : height ≡ h). other (sym q),
      ) in
      read_block_at f' h loc still
      ∙ read_at-Extends f.disk.segments f'.disk.segments loc c
          (append_frame-Extends f height fr sized) (sym (read_block_at f h loc found) ∙ e)

  append_frame-own :
      (f : Files) (b : Block) (p : Bytes)
      → IsSized f
      → G.encode b ≡ some p
      → length (frame p) ≤ 16 + max_record_size
      → read_block (append_frame f b.header.height (frame p)) b.header.height ≡ ok (gob_block b)
  unfolding decode_read
  append_frame-own f b p sized e fits =
      let f' = append_frame f b.header.height (frame p) in
      let s = segment_of f.disk.segments f.active_id in
      let loc : Location = record {
        segment = f.active_id;
        offset = f.active_size;
        length = length (frame p) % 2 ^ 32;
      } in
      let here : find f'.index b.header.height ≡ some loc =
        ground (arith, append_frame-index f b.header.height (frame p) b.header.height) in
      let rest : drop f.active_size (s ++ frame p) ≡ frame p ++ [] =
        ap (λ n. drop n (s ++ frame p)) sized.1
        ∙ drop_front s (frame p)
        ∙ sym (append_nothing (frame p)) in
      read_block_at f' b.header.height loc here
      ∙ read_at_found f'.disk.segments loc (s ++ frame p)
          (append_frame-found f b.header.height (frame p))
      ∙ ap (λ r. decode_read (read_frame r)) rest
      ∙ ap decode_read (read_frame-frame p [] (G.encode_nonempty b p e) fits)
      ∙ rw (decode_read, G.decode-encode b p e) refl

  rotate-others :
      (f : Files) (h : ℕ) (c : Block) → read_block f h ≡ ok c → read_block (rotate f) h ≡ ok c
  unfolding rotate
  rotate-others f h c e =
      let (loc, found) = read_block-ok f h c e in
      read_block_at (rotate f) h loc found
      ∙ read_at-Extends f.disk.segments (rotate f).disk.segments loc c (rotate-Extends f)
          (sym (read_block_at f h loc found) ∙ e)

  append_frame_keeps :
      (f : Files) (height : ℕ) (fr : Bytes)
      → ((append_frame f height fr).segment_size ≡ f.segment_size)
        × ((append_frame f height fr).disk.wal ≡ f.disk.wal)
  unfolding append_frame
  append_frame_keeps f height fr = (refl, refl)

  rotate_keeps :
      (f : Files) → ((rotate f).segment_size ≡ f.segment_size) × ((rotate f).disk.wal ≡ f.disk.wal)
  unfolding rotate open_active open_segment
  rotate_keeps f = (refl, refl)

  append_frame-grown :
      (f : Files) (height : ℕ) (fr : Bytes)
      → (loc : Location) × ((append_frame f height fr).index ≡ put f.index height loc)
  unfolding append_frame
  append_frame-grown f height fr = (_, refl)

  after_rotate-grown :
      (f f' : Files) (b : Block)
      → (loc : Location) × (f'.index ≡ put (rotate f).index b.header.height loc)
      → (loc : Location) × (f'.index ≡ put f.index b.header.height loc)
  unfolding rotate
  after_rotate-grown f f' b g = g

  append_frame-HasAppended :
      (f : Files) (b : Block) (p : Bytes)
      → IsSized f
      → G.encode b ≡ some p
      → length (frame p) ≤ 16 + max_record_size
      → HasAppended f b (append_frame f b.header.height (frame p))
  append_frame-HasAppended f b p sized e fits = record {
    sized = append_frame-IsSized f b.header.height (frame p) sized;
    limit = (append_frame_keeps f b.header.height (frame p)).0;
    wal = (append_frame_keeps f b.header.height (frame p)).1;
    grown = append_frame-grown f b.header.height (frame p);
    own = append_frame-own f b p sized e fits;
    others = λ h c. append_frame-others f b.header.height (frame p) h c sized;
  }

  after_rotate : (f f' : Files) (b : Block) → HasAppended (rotate f) b f' → HasAppended f b f'
  after_rotate f f' b r = record {
    sized = r.sized;
    limit = r.limit ∙ (rotate_keeps f).0;
    wal = r.wal ∙ (rotate_keeps f).1;
    grown = after_rotate-grown f f' b r.grown;
    own = r.own;
    others = λ h c other e. r.others h c other (rotate-others f h c e);
  }

  append_payload-HasAppended :
      (f f' : Files) (b : Block) (p : Bytes)
      → IsSized f
      → f.segment_size ≤ 16 + max_record_size
      → G.encode b ≡ some p
      → append_payload f b.header.height (frame p) ≡ (f', none)
      → HasAppended f b f'
  unfolding append_payload
  append_payload-HasAppended f f' b p sized small e r =
      elim (Bool-cases (ltb f.segment_size (length (frame p)))) [
        | inl long ↦ absurd (ground arith)
        | inr short ↦
            let fits : length (frame p) ≤ 16 + max_record_size = ground arith in
            elim (Bool-cases (ltb f.segment_size (f.active_size + length (frame p)))) [
              | inl full ↦
                  let same : append_frame (rotate f) b.header.height (frame p) ≡ f' =
                    ground arith in
                  after_rotate f f' b (
                    subst (HasAppended (rotate f) b) same
                      (append_frame-HasAppended (rotate f) b p (rotate-IsSized f) e fits))
              | inr room ↦
                  let same : append_frame f b.header.height (frame p) ≡ f' = ground arith in
                  subst (HasAppended f b) same (append_frame-HasAppended f b p sized e fits)
            ]
      ]

  -- Where `AppendBlock` succeeds, its block is read back, with empty slices as nil, whether or not
  -- it rotated to a new segment, and the index has grown by its height alone; each block of another height that could be read is read as
  -- before, and the remembered size of the active segment is right again. It must be right before,
  -- and the segment size must leave a record within the largest one that is read.
  pub append_block-HasAppended :
      (f f' : Files) (b : Block)
      → IsSized f
      → f.segment_size ≤ 16 + max_record_size
      → append_block f b ≡ (f', none)
      → HasAppended f b f'
  unfolding append_block
  append_block-HasAppended f f' b sized small r = elim (Option-cases (G.encode b)) [
    | inl bad ↦ absurd (ground arith)
    | inr (p, good) ↦ append_payload-HasAppended f f' b p sized small good (ground arith)
  ]
