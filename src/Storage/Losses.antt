-- ===== src/Storage/Losses.antt =====
-- `AppendBlock` behind the torn frame of an append that failed, and the recovery of such a segment.
use agidb_on_chain.Base.{
  ℕ, suc, true, false, ◌+◌, ◌-◌, ◌≤◌, ◌<◌, ◌≡◌, ◌≢◌, ◌==◌, ◌||◌, refl, sym, ◌∙◌, ap, subst, none,
  some, List, [], ◌∷◌, ◌++◌, Bytes, All, length, take, take_all, take-append, length-append,
  append_assoc, ltb, if◌then◌else◌, arith,
}
use agidb_on_chain.Go.IntMaps.{IntMap, find, put}
use agidb_on_chain.Model.{Block}
use agidb_on_chain.Result.{io_failure}
use agidb_on_chain.Storage.Codec.{Codec, Gob}
use agidb_on_chain.Storage.Framing.{max_record_size, frame, read_frame, frame_header}
use agidb_on_chain.Storage.RoundTrip.{
  IsFrame, frame-IsFrame, length-IsFrame, IsEncoded-bounds, read_frame-frame_header, frame_size,
}
use agidb_on_chain.Storage.Torn.{
  torn, length-take, take_frame, read_body_short, read_full_error-torn,
}
use agidb_on_chain.Storage.Segments.{
  Location, Files, segment_of, scanned, scan_segment, recover_segments, append_frame, append_block,
}
use agidb_on_chain.Storage.Appends.{append_nothing, segment_of_found}
use agidb_on_chain.Storage.Failures.{fail_frame, fail_append, fail_append_room, append_block_room}
use agidb_on_chain.Storage.Logs.{Entry, entry_bytes, entry_index, IsEntry}
use agidb_on_chain.Storage.Recovering.{scan_log}

-- a write behind the bytes of a segment, and that to the only segment there is
abbrev write_behind : ℕ → Bytes → IntMap Bytes → IntMap Bytes
write_behind id fr m = put m id (segment_of m id ++ fr)

write_behind_one : (id : ℕ) (s fr : Bytes) → write_behind id fr ((id, s) ∷ []) ≡ (id, s ++ fr) ∷ []
unfolding put segment_of find
write_behind_one id s fr =
    let here : (id == id) ≡ true = ground arith in
    let level : ltb id id ≡ false = ground arith in
    let old : segment_of ((id, s) ∷ []) id ≡ s =
      segment_of_found ((id, s) ∷ []) id s (rw (find, here) refl) in
    rw old (rw (put, level) (rw here refl))

module _ ⦃C : Codec⦄ where
  read_frame_swallow_from :
      {p f : Bytes} (i : IsFrame p f) (n : ℕ) (s : Bytes)
      → 0 < length p
      → length f ≤ 16 + max_record_size
      → 16 + n + length s < length f
      → read_frame (take (16 + n) f ++ s) ≡ torn (16 + n + length s)
  read_frame_swallow_from {p} {f} i n s h fits cut =
      let b = IsEncoded-bounds i.encodes h in
      let size = length-IsFrame i in
      let t = take n i.encoded ++ s in
      let all : length t ≡ n + length s =
        omega (arith, length-append (take n i.encoded) s, length-take n i.encoded (omega arith)) in
      ap (λ x. read_frame (x ++ s)) (take_frame i n)
      ∙ ap read_frame (append_assoc (frame_header i.encoded i.schema) (take n i.encoded) s)
      ∙ read_frame-frame_header i.encoded t i.schema
      ∙ read_body_short i.encoded t i.schema (omega arith) (omega arith)
      ∙ read_full_error-torn t
      ∙ ap torn (omega (arith, all))

  -- bytes behind a torn frame are taken for the rest of it
  read_frame_swallow :
      (p s : Bytes) (n : ℕ)
      → 0 < length p
      → length (frame p) ≤ 16 + max_record_size
      → 16 ≤ n
      → n + length s < length (frame p)
      → read_frame (take n (frame p) ++ s) ≡ torn (n + length s)
  read_frame_swallow p s n h fits header cut =
      let split : 16 + (n - 16) ≡ n = omega arith in
      subst (λ m. read_frame (take m (frame p) ++ s) ≡ torn (m + length s)) split
        (read_frame_swallow_from (frame-IsFrame p) (n - 16) s h fits (omega arith))

module _ ⦃C : Codec⦄ ⦃G : Gob⦄ where
  recover_one :
      (id keep : ℕ) (s : Bytes) (m : IntMap Location)
      → scan_segment (suc (length s)) id 0 s [] ≡ scanned m keep
      → recover_segments ((id, s) ∷ []) [] 0 ≡ record {
        segments = (id, take keep s) ∷ [];
        index = m;
        active_id = (if ltb 0 id then id else 0);
        failure = none;
      }
  unfolding recover_segments
  recover_one id keep s m h = rw (recover_segments, h) refl

  -- a segment of whole frames and what is read as one torn frame, of more than a header
  recover_cut :
      (id : ℕ) (es : List Entry) (t : Bytes)
      → All IsEntry es
      → length t ≢ 16
      → read_frame t ≡ torn (length t)
      → recover_segments ((id, entry_bytes es ++ t) ∷ []) [] 0 ≡ record {
        segments = (id, entry_bytes es) ∷ [];
        index = entry_index id 0 es [];
        active_id = (if ltb 0 id then id else 0);
        failure = none;
      }
  recover_cut id es t i header r =
      let n = length t in
      let keep =
        (if n == 0 || n == 16
          then 0 + length (entry_bytes es) + n
          else 0 + length (entry_bytes es)) in
      let scan =
        scan_log (suc (length (entry_bytes es ++ t))) id 0 [] es t n i (omega arith) refl r in
      let size : keep ≡ length (entry_bytes es) = ground (arith, header) in
      let kept : take keep (entry_bytes es ++ t) ≡ entry_bytes es =
        ap (λ k. take k (entry_bytes es ++ t)) size
        ∙ take-append (length (entry_bytes es)) (entry_bytes es) t (omega arith)
        ∙ take_all (length (entry_bytes es)) (entry_bytes es) (omega arith) in
      recover_one id keep (entry_bytes es ++ t) (entry_index id 0 es []) scan
      ∙ ap
          (λ (x : Bytes). record {
            segments = (id, x) ∷ [];
            index = entry_index id 0 es [];
            active_id = (if ltb 0 id then id else 0);
            failure = none;
          })
          kept

  -- the segment after both appends
  lost_bytes :
      (n : ℕ) (f : Files) (s fr fr' : Bytes) (height : ℕ)
      → f.disk.segments ≡ (f.active_id, s) ∷ []
      → (append_frame (fail_frame n f fr) height fr').disk.segments
        ≡ (f.active_id, s ++ (take n fr ++ fr')) ∷ []
  unfolding append_frame fail_frame
  lost_bytes n f s fr fr' height h =
      ap (write_behind f.active_id fr')
        (ap (write_behind f.active_id (take n fr)) h ∙ write_behind_one f.active_id s (take n fr))
      ∙ write_behind_one f.active_id (s ++ take n fr) fr'
      ∙ ap (λ x. (f.active_id, x) ∷ []) (append_assoc s (take n fr) fr')

  -- Let the disk hold one segment, of whole frames, and let the write of `AppendBlock` for `b` stop
  -- behind `n` bytes of its frame, sixteen or more, so that it reports the failure. Where the segment
  -- has room for the frame of `c`, the next `AppendBlock` succeeds for `c`. But if this frame is shorter
  -- than what is missing of the one of `b`, recovery makes of the disk what it made of it before both:
  -- the block `c`, which was acknowledged, is gone.
  pub recover_segments-fail_append :
      (n : ℕ) (f : Files) (b c : Block) (p q : Bytes) (es : List Entry)
      → All IsEntry es
      → f.disk.segments ≡ (f.active_id, entry_bytes es) ∷ []
      → G.encode b ≡ some p
      → G.encode c ≡ some q
      → length (frame p) ≤ 16 + max_record_size
      → f.active_size + length (frame p) ≤ f.segment_size
      → f.active_size + length (frame q) ≤ f.segment_size
      → 16 ≤ n
      → n + length (frame q) < length (frame p)
      → ((fail_append n f b).1 ≡ some io_failure)
        × ((append_block (fail_append n f b).0 c).1 ≡ none)
        × (recover_segments (append_block (fail_append n f b).0 c).0.disk.segments [] 0
            ≡ recover_segments f.disk.segments [] 0)
  unfolding torn read_frame fail_frame
  recover_segments-fail_append n f b c p q es i one e e' fits room room' header short =
      let t = take n (frame p) ++ frame q in
      let more = frame_size q in
      let size : length t ≡ n + length (frame q) = omega (
        arith,
        length-append (take n (frame p)) (frame q),
        length-take n (frame p) (omega arith),
      ) in
      let swallowed : read_frame t ≡ torn (length t) =
        read_frame_swallow p (frame q) n (G.encode_nonempty b p e) fits header short
        ∙ ap torn (sym size) in
      let after =
        ap (λ m. recover_segments m [] 0)
          (lost_bytes n f (entry_bytes es) (frame p) (frame q) c.header.height one)
        ∙ recover_cut f.active_id es t i (λ x. omega (arith, x, size)) swallowed in
      let before =
        ap (λ m. recover_segments m [] 0)
          (one ∙ ap (λ x. (f.active_id, x) ∷ []) (sym (append_nothing (entry_bytes es))))
        ∙ recover_cut f.active_id es [] i (λ x. omega (arith, x)) refl in
      let refused = fail_append_room n f b p e room in
      rw refused (
        refl,
        ap (λ x. x.1) (append_block_room (fail_frame n f (frame p)) c q e' room'),
        ap (λ x. recover_segments x.0.disk.segments [] 0)
              (append_block_room (fail_frame n f (frame p)) c q e' room')
            ∙ after
            ∙ sym before,
      )
