-- ===== src/Storage/Recovering.antt =====
-- `recoverSegments` on what appends and a crash leave.
use agidb_on_chain.Base.{
  ℕ, zero, suc, ◌+◌, ◌%◌, ◌^◌, ◌<◌, ◌≡◌, refl, ◌∙◌, ap, ap₂, ◌||◌, none, some, inl, inr, List, [],
  ◌∷◌, ◌++◌, map, append_assoc, Bytes, All, length, take, take_all, take-append, length-append, ltb,
  ◌==◌, if◌then◌else◌, Bool-cases, arith,
}
use agidb_on_chain.Go.IntMaps.{IntMap, put}
use agidb_on_chain.Model.{Block}
use agidb_on_chain.Result.{Error, eof, unexpected_eof}
use agidb_on_chain.Storage.Codec.{Codec, Gob, gob_block}
use agidb_on_chain.Storage.Framing.{payload, stopped, drop, frame, read_frame}
use agidb_on_chain.Storage.RoundTrip.{frame_size, read_frame-frame}
use agidb_on_chain.Storage.Torn.{torn, read_frame-torn, length-take}
use agidb_on_chain.Storage.Prefixes.{drop_front}
use agidb_on_chain.Storage.Segments.{
  Location, scanned, is_eof, scan_segment, Recovery, recover_segments,
}
use agidb_on_chain.Storage.Logs.{
  Entry, Segment, entry_bytes, entry_index, file_bytes, kept_bytes, segment_index, last_id, IsEntry,
  IsTorn,
}

module _ ⦃C : Codec⦄ ⦃G : Gob⦄ where
  scan_stopped :
      (fuel id off : ℕ) (m : IntMap Location) (s : Bytes) (n : ℕ) (e : Error)
      → read_frame s ≡ stopped n e
      → scan_segment (suc fuel) id off s m ≡ scanned m (if is_eof e then off + length s else off)
  unfolding scan_segment
  scan_stopped fuel id off m s n e h = rw (scan_segment, h) refl

  scan_torn :
      (fuel id off : ℕ) (m : IntMap Location) (t : Bytes) (n : ℕ)
      → length t ≡ n
      → read_frame t ≡ torn n
      → scan_segment (suc fuel) id off t m ≡ scanned m (if n == 0 || n == 16 then off + n else off)
  unfolding torn is_eof
  scan_torn fuel id off m t n size r =
      scan_stopped fuel id off m t n (if n == 0 || n == 16 then eof else unexpected_eof) r
      ∙ ground (arith, size)

  scan_payload :
      (fuel id off : ℕ) (m : IntMap Location) (s p : Bytes) (n : ℕ) (b : Block)
      → read_frame s ≡ payload p n
      → G.decode p ≡ some b
      → scan_segment (suc fuel) id off s m
        ≡ scan_segment fuel id
            (off + n)
            (drop n s)
            (put m b.header.height record { segment = id; offset = off; length = n % 2 ^ 32 })
  unfolding scan_segment
  scan_payload fuel id off m s p n b h d = rw (scan_segment, h) (rw d refl)

  scan_entry :
      (fuel id off : ℕ) (m : IntMap Location) (e : Entry) (s : Bytes)
      → IsEntry e
      → scan_segment (suc fuel) id off (frame e.encoded ++ s) m
        ≡ scan_segment fuel id (off + length (frame e.encoded)) s (
            put m e.block.header.height
              record { segment = id; offset = off; length = length (frame e.encoded) % 2 ^ 32 })
  unfolding gob_block
  scan_entry fuel id off m e s i =
      let n = length (frame e.encoded) in
      let r = read_frame-frame e.encoded s (G.encode_nonempty e.block e.encoded i.0) i.1 in
      scan_payload fuel id off m (frame e.encoded ++ s) e.encoded n (gob_block e.block) r
        (G.decode-encode e.block e.encoded i.0)
      ∙ ap
          (λ t. scan_segment fuel id (off + n) t (
            put m e.block.header.height record { segment = id; offset = off; length = n % 2 ^ 32 }))
          (drop_front (frame e.encoded) s)

  -- the whole loop, over entries that are followed by a torn frame
  pub scan_log :
      (fuel id off : ℕ) (m : IntMap Location) (es : List Entry) (t : Bytes) (n : ℕ)
      → All IsEntry es
      → length (entry_bytes es ++ t) < fuel
      → length t ≡ n
      → read_frame t ≡ torn n
      → scan_segment fuel id off (entry_bytes es ++ t) m
        ≡ scanned (entry_index id off es m) (
            if n == 0 || n == 16
            then off + length (entry_bytes es) + n
            else off + length (entry_bytes es))
  unfolding entry_bytes entry_index
  scan_log zero id off m es t n i enough size r = absurd (omega arith)
  scan_log (suc fuel) id off m [] t n i enough size r =
      scan_torn fuel id off m t n size r ∙ ground arith
  scan_log (suc fuel) id off m (e ∷ es) t n i enough size r =
      let whole = append_assoc (frame e.encoded) (entry_bytes es) t in
      let both = length-append (frame e.encoded) (entry_bytes es ++ t) in
      let front = length-append (frame e.encoded) (entry_bytes es) in
      let more = frame_size e.encoded in
      let k = length (frame e.encoded) in
      let keep : (if n == 0 || n == 16
            then off + k + length (entry_bytes es) + n
            else off + k + length (entry_bytes es))
          ≡ (if n == 0 || n == 16
              then off + length (frame e.encoded ++ entry_bytes es) + n
              else off + length (frame e.encoded ++ entry_bytes es)) =
        ground (arith, front) in
      ap (λ s. scan_segment (suc fuel) id off s m) whole
      ∙ scan_entry fuel id off m e (entry_bytes es ++ t) i.0
      ∙ scan_log fuel id (off + length (frame e.encoded)) _ es t n i.1
          (omega (arith, ap length whole)) size r
      ∙ ap (scanned (entry_index id off (e ∷ es) m)) keep

  -- the length that the loop over a torn segment returns
  kept_size : Segment → ℕ
  kept_size s =
      if s.left == 0 || s.left == 16
      then 0 + length (entry_bytes s.entries) + s.left
      else 0 + length (entry_bytes s.entries)

  take_kept : (s : Segment) → IsTorn s → take (kept_size s) (file_bytes s) ≡ kept_bytes s
  unfolding kept_size
  take_kept s i =
      let shift : 0 + length (entry_bytes s.entries) ≡ length (entry_bytes s.entries) =
        omega arith in
      let whole = length-append (entry_bytes s.entries) (take s.left (frame s.lost)) in
      let part = length-take s.left (frame s.lost) (omega arith) in
      let all_of =
        take_all (length (entry_bytes s.entries) + s.left) (file_bytes s) (omega arith) in
      let front =
        take-append (length (entry_bytes s.entries)) (entry_bytes s.entries)
          (take s.left (frame s.lost)) (omega arith)
        ∙ take_all (length (entry_bytes s.entries)) (entry_bytes s.entries) (omega arith) in
      rw shift (elim (Bool-cases (s.left == 16)) [
        | inl header ↦ ground (arith, all_of)
        | inr other ↦ elim (Bool-cases (s.left == 0)) [
          | inl none_left ↦
              let size : length (entry_bytes s.entries) + s.left ≡ length (entry_bytes s.entries) =
                ground arith in
              let cut = ap (λ n. take n (file_bytes s)) size ∙ front in ground (arith, cut)
          | inr some_left ↦ ground (arith, front)
        ]
      ])

  recover_scanned :
      (s : Segment) (rest : IntMap Bytes) (m m' : IntMap Location) (active keep : ℕ)
      → scan_segment (suc (length (file_bytes s))) s.id 0 (file_bytes s) m ≡ scanned m' keep
      → recover_segments ((s.id, file_bytes s) ∷ rest) m active ≡ (
          let r = recover_segments rest m' (if ltb active s.id then s.id else active) in
          record r { segments = (s.id, take keep (file_bytes s)) ∷ r.segments })
  unfolding recover_segments
  recover_scanned s rest m m' active keep h = rw (recover_segments, h) refl

  -- `recoverSegments` over segments that hold whole frames and, behind them, the first bytes of a frame
  -- whose write was cut short: it succeeds, its index holds exactly the blocks of the whole frames at
  -- their offsets, the active segment is the one with the greatest number, and each file is cut back to
  -- its whole frames, unless exactly the sixteen bytes of a header are left, which stay.
  pub recover_segments-torn :
      (ss : List Segment) (m : IntMap Location) (active : ℕ)
      → All IsTorn ss
      → recover_segments (map (λ s. (s.id, file_bytes s)) ss) m active ≡ record {
        segments = map (λ s. (s.id, kept_bytes s)) ss;
        index = segment_index ss m;
        active_id = last_id ss active;
        failure = none;
      }
  unfolding recover_segments segment_index kept_size
  recover_segments-torn [] m active i = refl
  recover_segments-torn (s ∷ ss) m active i =
      let size = length-take s.left (frame s.lost) (omega (arith, i.0)) in
      let scan =
        scan_log (suc (length (file_bytes s))) s.id 0 m s.entries (take s.left (frame s.lost))
          s.left i.0.0 (omega arith) size (read_frame-torn s.lost s.left i.0.1.0 i.0.1.1 i.0.2) in
      recover_scanned s (map (λ x. (x.id, file_bytes x)) ss) m (entry_index s.id 0 s.entries m)
        active (kept_size s) scan
      ∙ ap₂ (λ (bytes : Bytes) (r : Recovery). record r { segments = (s.id, bytes) ∷ r.segments })
          (take_kept s i.0)
          (recover_segments-torn ss (entry_index s.id 0 s.entries m)
            (if ltb active s.id then s.id else active) i.1)
