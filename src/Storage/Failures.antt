-- ===== src/Storage/Failures.antt =====
-- `AppendBlock` of files.go where the operating system refuses to write the frame or to sync it: the
-- segment keeps the bytes that were written, and the method returns before it counts them.
use agidb_on_chain.Base.{
  ℕ, ◌+◌, ◌%◌, ◌^◌, ◌≤◌, ◌≡◌, refl, sym, ◌∙◌, ap, false, Option, none, some, ◌++◌, Bytes, length,
  take, take_all, ltb, if◌then◌else◌, append_assoc, arith,
}
use agidb_on_chain.Go.IntMaps.{find, put}
use agidb_on_chain.Model.{Block}
use agidb_on_chain.Result.{Error, ok, bad_gob, io_failure, record_exceeds_segment}
use agidb_on_chain.Storage.Codec.{Codec, Gob, gob_block}
use agidb_on_chain.Storage.Framing.{max_record_size, drop, frame, read_frame}
use agidb_on_chain.Storage.RoundTrip.{read_frame-frame}
use agidb_on_chain.Storage.Prefixes.{drop_front}
use agidb_on_chain.Storage.Segments.{
  Location, Files, segment_of, rotate, append_frame, append_payload, append_block, decode_read,
  read_block,
}
use agidb_on_chain.Storage.Appends.{
  IsSized, Extends, append_frame-Extends, append_frame-found, append_frame-index, segment_of_found,
}
use agidb_on_chain.Storage.Lookups.{read_at_found, read_at-Extends, read_block_at, read_block-ok}

-- the write of a frame that stops behind `n` bytes, or behind all of them where the `Sync` fails
unfoldable pub fail_frame : ℕ → Files → Bytes → Files
fail_frame n f fr = record f {
  disk = record f.disk {
    segments =
        put f.disk.segments f.active_id (segment_of f.disk.segments f.active_id ++ take n fr);
  };
}

module _ ⦃C : Codec⦄ ⦃G : Gob⦄ where
  unfoldable pub fail_payload : ℕ → Files → Bytes → Files × Option Error
  unfolding fail_frame
  fail_payload n f fr =
      if ltb f.segment_size (length fr) then (f, some record_exceeds_segment) else (
        fail_frame n (if ltb f.segment_size (f.active_size + length fr) then rotate f else f) fr,
        some io_failure,
      )

  -- `AppendBlock` with a write that fails
  unfoldable pub fail_append : ℕ → Files → Block → Files × Option Error
  unfolding fail_payload
  fail_append n f b = elim (G.encode b) [
    | none ↦ (f, some bad_gob)
    | some p ↦ fail_payload n f (frame p)
  ]

  pub fail_append_room :
      (n : ℕ) (f : Files) (b : Block) (p : Bytes)
      → G.encode b ≡ some p
      → f.active_size + length (frame p) ≤ f.segment_size
      → fail_append n f b ≡ (fail_frame n f (frame p), some io_failure)
  unfolding fail_append fail_payload
  fail_append_room n f b p e room =
      let short : ltb f.segment_size (length (frame p)) ≡ false = ground arith in
      let stays : ltb f.segment_size (f.active_size + length (frame p)) ≡ false = ground arith in
      rw (fail_append, e) (rw (fail_payload, short) (rw stays refl))

  pub append_block_room :
      (f : Files) (c : Block) (q : Bytes)
      → G.encode c ≡ some q
      → f.active_size + length (frame q) ≤ f.segment_size
      → append_block f c ≡ (append_frame f c.header.height (frame q), none)
  unfolding append_block append_payload
  append_block_room f c q e room =
      let short : ltb f.segment_size (length (frame q)) ≡ false = ground arith in
      let stays : ltb f.segment_size (f.active_size + length (frame q)) ≡ false = ground arith in
      rw (append_block, e) (rw (append_payload, short) (rw stays refl))

  -- the segment grows as by an append, and nothing else changes
  fail_frame-Extends :
      (n : ℕ) (f : Files) (fr : Bytes)
      → IsSized f
      → Extends f.disk.segments (fail_frame n f fr).disk.segments
  unfolding fail_frame append_frame
  fail_frame-Extends n f fr sized = append_frame-Extends f 0 (take n fr) sized

  fail_frame-others :
      (n : ℕ) (f : Files) (fr : Bytes) (h : ℕ) (x : Block)
      → IsSized f
      → read_block f h ≡ ok x
      → read_block (fail_frame n f fr) h ≡ ok x
  unfolding fail_frame
  fail_frame-others n f fr h x sized e =
      let (loc, found) = read_block-ok f h x e in
      read_block_at (fail_frame n f fr) h loc found
      ∙ read_at-Extends f.disk.segments (fail_frame n f fr).disk.segments loc x
          (fail_frame-Extends n f fr sized) (sym (read_block_at f h loc found) ∙ e)

  fail_frame-whole :
      (n : ℕ) (f : Files) (fr : Bytes)
      → length fr ≤ n
      → segment_of (fail_frame n f fr).disk.segments f.active_id
        ≡ segment_of f.disk.segments f.active_id ++ fr
  unfolding fail_frame append_frame
  fail_frame-whole n f fr h =
      segment_of_found (fail_frame n f fr).disk.segments f.active_id _
        (append_frame-found f 0 (take n fr))
      ∙ ap (λ x. segment_of f.disk.segments f.active_id ++ x) (take_all n fr h)

  -- the next frame is entered where the refused one begins
  append_frame-refused :
      (n : ℕ) (f : Files) (b : Block) (p fr : Bytes) (height : ℕ)
      → IsSized f
      → G.encode b ≡ some p
      → length (frame p) ≤ n
      → length (frame p) ≤ 16 + max_record_size
      → read_block (append_frame (fail_frame n f (frame p)) height fr) height ≡ ok (gob_block b)
  unfolding decode_read fail_frame
  append_frame-refused n f b p fr height sized e whole fits =
      let f₁ = fail_frame n f (frame p) in
      let f₂ = append_frame f₁ height fr in
      let s = segment_of f.disk.segments f.active_id in
      let loc : Location = record {
        segment = f.active_id;
        offset = f.active_size;
        length = length fr % 2 ^ 32;
      } in
      let here : find f₂.index height ≡ some loc =
        ground (arith, append_frame-index f₁ height fr height) in
      let bytes : find f₂.disk.segments f.active_id ≡ some ((s ++ frame p) ++ fr) =
        append_frame-found f₁ height fr
        ∙ ap (λ x. some (x ++ fr)) (fail_frame-whole n f (frame p) whole) in
      let rest : drop f.active_size ((s ++ frame p) ++ fr) ≡ frame p ++ fr =
        ap (drop f.active_size) (append_assoc s (frame p) fr)
        ∙ ap (λ k. drop k (s ++ (frame p ++ fr))) sized.1
        ∙ drop_front s (frame p ++ fr) in
      read_block_at f₂ height loc here
      ∙ read_at_found f₂.disk.segments loc ((s ++ frame p) ++ fr) bytes
      ∙ ap (λ r. decode_read (read_frame r)) rest
      ∙ ap decode_read (read_frame-frame p fr (G.encode_nonempty b p e) fits)
      ∙ rw (decode_read, G.decode-encode b p e) refl

  -- `b` was refused, and `c` appended after it
  pub record HasRefused (n : ℕ) (f : Files) (b c : Block) : Type 0 where
    pub refused : (fail_append n f b).1 ≡ some io_failure
    pub others :
        (h : ℕ) (x : Block) → read_block f h ≡ ok x → read_block (fail_append n f b).0 h ≡ ok x
    pub appended : (append_block (fail_append n f b).0 c).1 ≡ none
    pub mistaken :
        read_block (append_block (fail_append n f b).0 c).0 c.header.height ≡ ok (gob_block b)

  refused_frame :
      (n : ℕ) (f : Files) (b c : Block) (f₁ f₂ : Files)
      → fail_append n f b ≡ (f₁, some io_failure)
      → append_block f₁ c ≡ (f₂, none)
      → ((h : ℕ) (x : Block) → read_block f h ≡ ok x → read_block f₁ h ≡ ok x)
      → read_block f₂ c.header.height ≡ ok (gob_block b)
      → HasRefused n f b c
  refused_frame n f b c f₁ f₂ first second others mistaken = record {
    refused = ap (λ x. x.1) first;
    others = λ h x e. rw (ap (λ x. x.0) first) (others h x e);
    appended = rw (ap (λ x. x.0) first) (ap (λ x. x.1) second);
    mistaken = rw (ap (λ x. x.0) first) (rw (ap (λ x. x.0) second) mistaken);
  }

  -- Let the `Sync` of `AppendBlock` for `b` fail behind a frame that was written as a whole, to a segment
  -- with room for it. The failure is reported, and every block that could be read is read as before.
  -- Where the segment has room for the frame of `c` by the size that is remembered, the next
  -- `AppendBlock` succeeds for `c`, and the block that is read back at the height of `c` is the refused
  -- `b`, with empty slices as nil. The remembered size must be right before, and the segment size must
  -- leave a record within the largest one that is read.
  pub fail_append-HasRefused :
      (n : ℕ) (f : Files) (b c : Block) (p q : Bytes)
      → IsSized f
      → f.segment_size ≤ 16 + max_record_size
      → G.encode b ≡ some p
      → G.encode c ≡ some q
      → length (frame p) ≤ n
      → f.active_size + length (frame p) ≤ f.segment_size
      → f.active_size + length (frame q) ≤ f.segment_size
      → HasRefused n f b c
  unfolding fail_frame
  fail_append-HasRefused n f b c p q sized small e e' whole room room' =
      refused_frame n f b c (fail_frame n f (frame p)) _ (fail_append_room n f b p e room)
        (append_block_room (fail_frame n f (frame p)) c q e' room')
        (λ h x. fail_frame-others n f (frame p) h x sized)
        (append_frame-refused n f b p (frame q) c.header.height sized e whole (omega arith))
