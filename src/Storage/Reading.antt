-- ===== src/Storage/Reading.antt =====
-- `ReadAll` over the index that recovery builds.
use agidb_on_chain.Base.{
  ℕ, zero, suc, ◌+◌, ◌%◌, ◌^◌, ◌≡◌, refl, sym, ◌∙◌, ap, subst, some, inl, inr, List, [], ◌∷◌, ◌++◌,
  append_assoc, Bytes, All, length, take, ◌==◌, Bool-cases, arith,
}
use mathlib.Core.List.{append-nil}
use agidb_on_chain.Go.IntMaps.{IntMap, find}
use agidb_on_chain.Model.{Block}
use agidb_on_chain.Result.{ok, ◌>>=◌, links_of_ok, ok_injective}
use agidb_on_chain.Storage.Codec.{Codec, Gob, gob_block}
use agidb_on_chain.Storage.Framing.{drop, frame, read_frame}
use agidb_on_chain.Storage.RoundTrip.{read_frame-frame}
use agidb_on_chain.Storage.Prefixes.{drop_front}
use agidb_on_chain.Storage.Segments.{Location, Files, read_block, read_heights, decode_read}
use agidb_on_chain.Storage.Growth.{IsBelow, put_last, IsBelow-snoc, read_heights-cons}
use agidb_on_chain.Storage.Lookups.{read_at_found, read_block_at}
use agidb_on_chain.Storage.Logs.{
  Entry, Segment, entry_bytes, entry_index, entry_locations, segment_locations, kept_bytes, IsEntry,
  IsTorn, IsNumbered, AreNumbered, entry_blocks, segment_blocks,
}

pub find_middle {ℓ} :
    {V : Type ℓ} (pre post : IntMap V) (n : ℕ) (v : V)
    → IsBelow n pre
    → find (pre ++ ((n, v) ∷ post)) n ≡ some v
unfolding find
find_middle [] post n v i = ground arith
find_middle ((j, w) ∷ pre) post n v i = ground (arith, i.0, find_middle pre post n v i.1)

drop_more : (a b : ℕ) (s : Bytes) → drop (a + b) s ≡ drop b (drop a s)
drop_more zero b s = ap (λ n. drop n s) (omega arith)
drop_more (suc a) b [] =
    let more : suc a + b ≡ suc (a + b) = omega arith in ap (λ n. drop n []) more ∙ sym (drop_none b)
  where
    drop_none : (b : ℕ) → drop b [] ≡ []
    drop_none zero = refl
    drop_none (suc b) = refl
drop_more (suc a) b (x ∷ s) =
    let more : suc a + b ≡ suc (a + b) = omega arith in
    ap (λ n. drop n (x ∷ s)) more ∙ drop_more a b s

module _ ⦃C : Codec⦄ ⦃G : Gob⦄ where
  pub entry_index-append :
      (id off n : ℕ) (es : List Entry) (m : IntMap Location)
      → IsBelow n m
      → IsNumbered n es
      → (entry_index id off es m ≡ m ++ entry_locations id off es)
        × IsBelow (n + length es) (m ++ entry_locations id off es)
  unfolding entry_index
  entry_index-append id off n [] m below num = (
    sym (append-nil m),
    subst (IsBelow (n + 0)) (sym (append-nil m)) (subst (λ k. IsBelow k m) (omega arith) below),
  )
  entry_index-append id off n (e ∷ es) m below num =
      let loc : Location = record {
        segment = id;
        offset = off;
        length = length (frame e.encoded) % 2 ^ 32;
      } in
      let h = e.block.header.height in
      let here = subst (λ k. IsBelow k m) (sym num.0) below in
      let snoc = put_last m h loc here in
      let more =
        subst (λ k. IsBelow k (m ++ ((h, loc) ∷ []))) (ap (λ k. k + 1) num.0)
          (IsBelow-snoc m h loc here) in
      let rest =
        entry_index-append id (off + length (frame e.encoded)) (n + 1) es (m ++ ((h, loc) ∷ []))
          more num.1 in
      let assoc =
        append_assoc m ((h, loc) ∷ []) (entry_locations id (off + length (frame e.encoded)) es) in
      let count : n + 1 + length es ≡ n + suc (length es) = omega arith in
      (
        ap (entry_index id (off + length (frame e.encoded)) es) snoc ∙ rest.0 ∙ assoc,
        subst (λ k. IsBelow k (m ++ entry_locations id off (e ∷ es))) count
            (subst (IsBelow (n + 1 + length es)) assoc rest.1),
      )

  read_entry :
      (f : Files) (h : ℕ) (loc : Location) (e : Entry) (s rest : Bytes)
      → find f.index h ≡ some loc
      → find f.disk.segments loc.segment ≡ some s
      → drop loc.offset s ≡ frame e.encoded ++ rest
      → IsEntry e
      → read_block f h ≡ ok (gob_block e.block)
  unfolding decode_read
  read_entry f h loc e s rest found file at i =
      read_block_at f h loc found
      ∙ read_at_found f.disk.segments loc s file
      ∙ ap (λ r. decode_read (read_frame r)) at
      ∙ ap decode_read
          (read_frame-frame e.encoded rest (G.encode_nonempty e.block e.encoded i.0) i.1)
      ∙ rw (decode_read, G.decode-encode e.block e.encoded i.0) refl

  -- the entries of one segment, whose index stands between `pre` and `post`
  read_entries :
      (f : Files) (id off n : ℕ) (es : List Entry) (pre post : IntMap Location) (s tail : Bytes)
      → f.index ≡ pre ++ (entry_locations id off es ++ post)
      → find f.disk.segments id ≡ some s
      → drop off s ≡ entry_bytes es ++ tail
      → IsBelow n pre
      → IsNumbered n es
      → All IsEntry es
      → read_heights f (entry_locations id off es) ≡ ok (entry_blocks es)
  unfolding read_heights entry_bytes
  read_entries f id off n [] pre post s tail index file at below num i = refl
  read_entries f id off n (e ∷ es) pre post s tail index file at below num i =
      let k = length (frame e.encoded) in
      let loc : Location = record { segment = id; offset = off; length = k % 2 ^ 32 } in
      let h = e.block.header.height in
      let here = subst (λ m. IsBelow m pre) (sym num.0) below in
      let found : find f.index h ≡ some loc =
        ap (λ m. find m h) index
        ∙ find_middle pre (entry_locations id (off + k) es ++ post) h loc here in
      let front = at ∙ append_assoc (frame e.encoded) (entry_bytes es) tail in
      let first = read_entry f h loc e s (entry_bytes es ++ tail) found file front i.0 in
      let index' : f.index ≡ (pre ++ ((h, loc) ∷ [])) ++ (entry_locations id (off + k) es ++ post) =
        index ∙ sym (append_assoc pre ((h, loc) ∷ []) (entry_locations id (off + k) es ++ post)) in
      let behind : drop (off + k) s ≡ entry_bytes es ++ tail =
        drop_more off k s
        ∙ ap (drop k) front
        ∙ drop_front (frame e.encoded) (entry_bytes es ++ tail) in
      let more =
        subst (λ m. IsBelow m (pre ++ ((h, loc) ∷ []))) (ap (λ m. m + 1) num.0)
          (IsBelow-snoc pre h loc here) in
      read_heights-cons f h loc (entry_locations id (off + k) es) (gob_block e.block)
        (entry_blocks es) first
        (read_entries f id (off + k) (n + 1) es (pre ++ ((h, loc) ∷ [])) post s tail index' file
          behind more num.1 i.1)

  read_heights-append :
      (f : Files) (m m' : IntMap Location) (bs bs' : List Block)
      → read_heights f m ≡ ok bs
      → read_heights f m' ≡ ok bs'
      → read_heights f (m ++ m') ≡ ok (bs ++ bs')
  unfolding read_heights
  read_heights-append f [] m' bs bs' r r' = r' ∙ ap (λ l. ok (l ++ bs')) (ok_injective [] bs r)
  read_heights-append f ((h, loc) ∷ m) m' bs bs' r r' =
      let (c, first, more) =
        links_of_ok (read_block f h) (λ b. read_heights f m >>= λ cs. ok (b ∷ cs)) r in
      let (cs, others, last) = links_of_ok (read_heights f m) (λ l. ok (c ∷ l)) more in
      read_heights-cons f h loc (m ++ m') c (cs ++ bs') first
        (read_heights-append f m m' cs bs' others r')
      ∙ ap (λ l. ok (l ++ bs')) (ok_injective (c ∷ cs) bs last)

  -- a segment after its recovery holds its whole frames, with or without a header behind them
  kept_bytes-entries :
      (s : Segment) → (tail : Bytes) × (kept_bytes s ≡ entry_bytes s.entries ++ tail)
  kept_bytes-entries s = elim (Bool-cases (s.left == 16)) [
    | inl header ↦ (take s.left (frame s.lost), ground arith)
    | inr other ↦ ([], ground (arith, append-nil (entry_bytes s.entries)))
  ]

  -- the segments of the files are those after recovery
  abbrev pub AreKept : Files → List Segment → Type 0
  AreKept f ss = All (λ s. find f.disk.segments s.id ≡ some (kept_bytes s)) ss

  pub read_segments :
      (f : Files) (n : ℕ) (ss : List Segment) (pre : IntMap Location)
      → f.index ≡ pre ++ segment_locations ss
      → AreKept f ss
      → IsBelow n pre
      → AreNumbered n ss
      → All IsTorn ss
      → read_heights f (segment_locations ss) ≡ ok (segment_blocks ss)
  unfolding read_heights
  read_segments f n [] pre index kept below num i = refl
  read_segments f n (s ∷ ss) pre index kept below num i =
      let locs = entry_locations s.id 0 s.entries in
      let (tail, bytes) = kept_bytes-entries s in
      let grown = entry_index-append s.id 0 n s.entries pre below num.0 in
      let index' = index ∙ sym (append_assoc pre locs (segment_locations ss)) in
      read_heights-append f locs (segment_locations ss) (entry_blocks s.entries) (segment_blocks ss)
        (read_entries f s.id 0 n s.entries pre (segment_locations ss) (kept_bytes s) tail index
          kept.0 bytes below num.0 i.0.0)
        (read_segments f (n + length s.entries) ss (pre ++ locs) index' kept.1 grown.1 num.1 i.1)
