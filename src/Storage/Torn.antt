-- ===== src/Storage/Torn.antt =====
-- `readFrame` at a frame of which only the first bytes were written, as a crash in a write leaves it.
use agidb_on_chain.Base.{
  subst, ℕ, zero, suc, ◌+◌, ◌-◌, ◌≤◌, ◌<◌, ◌≡◌, refl, ◌∙◌, ap, subst, true, false, ◌||◌, inl, inr,
  [], ◌∷◌, ◌++◌, Bytes, length, take, ltb, ◌==◌, if◌then◌else◌, Bool-cases, arith,
}
use agidb_on_chain.Result.{eof, unexpected_eof}
use agidb_on_chain.Storage.Codec.{Codec}
use agidb_on_chain.Storage.Framing.{
  Read, stopped, max_record_size, frame_header, frame, read_full_error, read_body, read_frame,
}
use agidb_on_chain.Storage.RoundTrip.{
  IsFrame, frame-IsFrame, length-IsFrame, IsEncoded-bounds, read_frame-frame_header,
  magic-frame_header, header_size, length-frame_header,
}

pub length-take : (n : ℕ) (s : Bytes) → n ≤ length s → length (take n s) ≡ n
length-take zero s h = refl
length-take (suc n) [] h = absurd (omega arith)
length-take (suc n) (x ∷ s) h = ap suc (length-take n s (omega arith))

take_past : (h s : Bytes) (k : ℕ) (n : ℕ) → length h ≡ k → take (k + n) (h ++ s) ≡ h ++ take n s
take_past [] s zero n e = ap (λ m. take m s) (omega arith)
take_past [] s (suc k) n e = absurd (omega arith)
take_past (x ∷ h) s zero n e = absurd (omega arith)
take_past (x ∷ h) s (suc k) n e =
    let more : suc k + n ≡ suc (k + n) = omega arith in
    ap (λ m. take m (x ∷ (h ++ s))) more ∙ ap (λ l. x ∷ l) (take_past h s k n (omega arith))

-- what is read where `n` bytes of a frame are left
unfoldable pub torn : ℕ → Read
torn n = stopped n (if n == 0 || n == 16 then eof else unexpected_eof)

pub read_full_error-torn :
    (s : Bytes) → stopped (16 + length s) (read_full_error s) ≡ torn (16 + length s)
unfolding read_full_error torn
read_full_error-torn [] = refl
read_full_error-torn (x ∷ s) = ground arith

module _ ⦃C : Codec⦄ where
  read_frame_short : (s : Bytes) → length s < 16 → read_frame s ≡ torn (length s)
  unfolding read_frame torn
  read_frame_short s h = elim (Bool-cases (length s == 0)) [
    | inl e ↦ let z : length s ≡ 0 = ground arith in rw z refl
    | inr e ↦
        let f : ltb (length s) 16 ≡ true = ground arith in
        let g : (length s == 16) ≡ false = ground arith in rw e (rw f (rw g refl))
  ]

  pub read_body_short :
      (e s : Bytes) (k : ℕ)
      → length s < length e
      → length e ≤ max_record_size
      → read_body (frame_header e k) s ≡ stopped (16 + length s) (read_full_error s)
  unfolding read_body
  read_body_short e s k h fits =
      let m = magic-frame_header e k in
      let l = length-frame_header e k (omega arith) in
      let a : ltb (length s) (length e) ≡ true = ground arith in
      let b : (length e == 0) ≡ false = ground arith in
      let c : ltb max_record_size (length e) ≡ false = ground arith in
      rw m (rw l (rw a (rw b (rw c refl))))

  pub take_frame :
      {p f : Bytes} (i : IsFrame p f) (n : ℕ)
      → take (16 + n) f ≡ frame_header i.encoded i.schema ++ take n i.encoded
  unfolding frame_header
  take_frame i n =
      ap (take (16 + n)) i.same
      ∙ take_past (frame_header i.encoded i.schema) i.encoded 16 n (header_size i.encoded i.schema)

  read_frame_cut :
      {p f : Bytes} (i : IsFrame p f) (n : ℕ)
      → 0 < length p
      → length f ≤ 16 + max_record_size
      → 16 + n < length f
      → read_frame (take (16 + n) f) ≡ torn (16 + n)
  read_frame_cut {p} {f} i n h fits cut =
      let b = IsEncoded-bounds i.encodes h in
      let size = length-IsFrame i in
      let short = length-take n i.encoded (omega arith) in
      ap read_frame (take_frame i n)
      ∙ read_frame-frame_header i.encoded (take n i.encoded) i.schema
      ∙ read_body_short i.encoded (take n i.encoded) i.schema (omega arith) (omega arith)
      ∙ read_full_error-torn (take n i.encoded)
      ∙ ap (λ m. torn (16 + m)) short

  read_frame-torn_from :
      {p f : Bytes} (i : IsFrame p f) (n : ℕ)
      → 0 < length p
      → length f ≤ 16 + max_record_size
      → n < length f
      → read_frame (take n f) ≡ torn n
  read_frame-torn_from {p} {f} i n h fits cut = elim (Bool-cases (ltb n 16)) [
    | inl low ↦
        let short : length (take n f) ≡ n = length-take n f (omega arith) in
        read_frame_short (take n f) (ground arith) ∙ ap torn short
    | inr high ↦
        let split : 16 + (n - 16) ≡ n = ground arith in
        subst (λ m. read_frame (take m f) ≡ torn m) split
          (read_frame_cut i (n - 16) h fits (omega arith))
  ]

  -- Of a frame that is cut short, `readFrame` reads all the bytes that are left and stops, with the
  -- error `io.EOF` if no byte or exactly the sixteen of the header are left, and with
  -- `io.ErrUnexpectedEOF` at every other length; the payload is not empty and the frame holds no more than
  -- the largest record.
  pub read_frame-torn :
      (p : Bytes) (n : ℕ)
      → 0 < length p
      → length (frame p) ≤ 16 + max_record_size
      → n < length (frame p)
      → read_frame (take n (frame p)) ≡ torn n
  read_frame-torn p n = read_frame-torn_from (frame-IsFrame p) n
