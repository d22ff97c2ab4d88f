-- ===== src/Storage/RoundTrip.antt =====
-- `readFrame` on what `frame` makes.
use agidb_on_chain.Base.{
  append_assoc, ℕ, ◌+◌, ◌%◌, ◌^◌, ◌≤◌, ◌<◌, ◌≡◌, refl, sym, ◌∙◌, ap, ap₂, subst, false, Option,
  none, some, inl, inr, ◌++◌, Bytes, length, take, take_all, take-append, length-append, ltb, leb,
  ◌==◌, if◌then◌else◌, Bool-cases, arith,
}
use agidb_on_chain.Storage.Endian.{uint32_at, put_uint32, put_uint32_digits}
use agidb_on_chain.Storage.Codec.{Codec}
use agidb_on_chain.Storage.Framing.{
  payload, magic, max_record_size, drop, encoded_of, frame_header, frame, read_schema, read_body,
  read_frame,
}

module _ ⦃C : Codec⦄ where
  pub magic-frame_header : (e : Bytes) (k : ℕ) → uint32_at (frame_header e k) 0 ≡ magic
  unfolding frame_header uint32_at put_uint32
  magic-frame_header e k = refl

  pub length-frame_header :
      (e : Bytes) (k : ℕ) → length e < 2 ^ 32 → uint32_at (frame_header e k) 4 ≡ length e
  unfolding frame_header uint32_at put_uint32
  length-frame_header e k h = put_uint32_digits (length e % 2 ^ 32) (omega arith) ∙ omega arith

  crc-frame_header : (e : Bytes) (k : ℕ) → uint32_at (frame_header e k) 8 ≡ C.crc32c e
  unfolding frame_header uint32_at put_uint32
  crc-frame_header e k = put_uint32_digits (C.crc32c e) (C.crc32c-lt e)

  schema-frame_header : (e : Bytes) (k : ℕ) → k < 2 ^ 32 → uint32_at (frame_header e k) 12 ≡ k
  unfolding frame_header uint32_at put_uint32
  schema-frame_header e k h = put_uint32_digits k h

  pub take-frame_header :
      (e : Bytes) (k : ℕ) (s : Bytes) → take 16 (frame_header e k ++ s) ≡ frame_header e k
  unfolding frame_header put_uint32
  take-frame_header e k s = refl

  pub drop-frame_header : (e : Bytes) (k : ℕ) (s : Bytes) → drop 16 (frame_header e k ++ s) ≡ s
  unfolding frame_header put_uint32
  drop-frame_header e k s = refl

  pub header_size : (e : Bytes) (k : ℕ) → length (frame_header e k) ≡ 16
  unfolding frame_header put_uint32
  header_size e k = refl

  pub frame_header_size :
      (e : Bytes) (k : ℕ) (s : Bytes) → length (frame_header e k ++ s) ≡ 16 + length s
  unfolding frame_header put_uint32
  frame_header_size e k s = omega arith

  take_front : (e rest : Bytes) → take (length e) (e ++ rest) ≡ e
  take_front e rest =
      take-append (length e) e rest (omega arith) ∙ take_all (length e) e (omega arith)

  -- a header of a frame, followed by what was framed
  read_body-frame_header :
      (e rest : Bytes) (k : ℕ)
      → k < 2 ^ 32
      → 0 < length e
      → length e ≤ max_record_size
      → read_body (frame_header e k) (e ++ rest) ≡ read_schema k (16 + length e) e
  unfolding read_body
  read_body-frame_header e rest k small some_bytes fits =
      let m = magic-frame_header e k in
      let l = length-frame_header e k (omega arith) in
      let c = crc-frame_header e k in
      let s = schema-frame_header e k small in
      let t = take_front e rest in
      let n = length-append e rest in
      let w : (16 + length e) % 2 ^ 32 ≡ 16 + length e = omega arith in
      rw m (rw l (rw c (rw s (rw t (ground (arith, w, n))))))

  -- what is written after the header is the payload, or its compression if that is shorter
  pub data IsEncoded (p : Bytes) : Bytes → ℕ → Type 0 where
    plain : IsEncoded p p 1
    packed : (z : Bytes) → C.deflate p ≡ some z → length z < length p → IsEncoded p z 2

  schema_of : Bytes → Bytes → ℕ
  schema_of p e = if length e == length p then 1 else 2

  schema_of_lem : (p : Bytes) → schema_of p p ≡ 1
  unfolding schema_of
  schema_of_lem p = ground arith

  schema_of-packed : (p z : Bytes) → length z < length p → schema_of p z ≡ 2
  unfolding schema_of
  schema_of-packed p z h = ground arith

  encoded_of-IsEncoded :
      (p : Bytes) (o : Option Bytes)
      → C.deflate p ≡ o
      → IsEncoded p (encoded_of p o) (schema_of p (encoded_of p o))
  unfolding encoded_of
  encoded_of-IsEncoded p none h = subst (IsEncoded p p) (sym (schema_of_lem p)) plain
  encoded_of-IsEncoded p (some z) h = elim (Bool-cases (leb (length p) (length z))) [
    | inl big ↦ rw big (subst (IsEncoded p p) (sym (schema_of_lem p)) plain)
    | inr small ↦
        let lt : length z < length p = ground arith in
        rw small (subst (IsEncoded p z) (sym (schema_of-packed p z lt)) (packed z h lt))
  ]

  read_schema-IsEncoded :
      (p e : Bytes) (k n : ℕ) → IsEncoded p e k → read_schema k n e ≡ payload p n
  unfolding read_schema
  read_schema-IsEncoded p e k n plain = refl
  read_schema-IsEncoded p e k n (packed z d lt) = rw (C.inflate-deflate p z d) refl

  -- its bounds
  pub IsEncoded-bounds :
      {p e : Bytes} {k : ℕ}
      → IsEncoded p e k
      → 0 < length p
      → (k < 2 ^ 32) × (0 < length e) × (length e ≤ length p)
  IsEncoded-bounds plain h = (omega arith, h, omega arith)
  IsEncoded-bounds {p} (packed z d lt) h = (omega arith, C.deflate_nonempty p z d, omega arith)

  -- a frame is a header and the encoded payload
  pub record IsFrame (p f : Bytes) : Type 0 where
    pub encoded : Bytes
    pub schema : ℕ
    pub same : f ≡ frame_header encoded schema ++ encoded
    pub encodes : IsEncoded p encoded schema

  pub frame-IsFrame : (p : Bytes) → IsFrame p (frame p)
  unfolding frame schema_of
  frame-IsFrame p = record {
    encoded = encoded_of p (C.deflate p);
    schema = schema_of p (encoded_of p (C.deflate p));
    same = refl;
    encodes = encoded_of-IsEncoded p (C.deflate p) refl;
  }

  pub length-IsFrame : {p f : Bytes} (i : IsFrame p f) → length f ≡ 16 + length i.encoded
  length-IsFrame i = ap length i.same ∙ frame_header_size i.encoded i.schema i.encoded

  -- sixteen bytes or more: the header is read, then the body
  pub read_frame_long :
      (s : Bytes) → 16 ≤ length s → read_frame s ≡ read_body (take 16 s) (drop 16 s)
  unfolding read_frame
  read_frame_long s h =
      let e : (length s == 0) ≡ false = ground arith in
      let f : ltb (length s) 16 ≡ false = ground arith in rw e (rw f refl)

  pub read_frame-frame_header :
      (e s : Bytes) (k : ℕ) → read_frame (frame_header e k ++ s) ≡ read_body (frame_header e k) s
  read_frame-frame_header e s k =
      let n = frame_header_size e k s in
      read_frame_long (frame_header e k ++ s) (omega arith)
      ∙ ap₂ read_body (take-frame_header e k s) (drop-frame_header e k s)

  pub read_frame-IsFrame :
      {p f : Bytes} (i : IsFrame p f) (rest : Bytes)
      → 0 < length p
      → length f ≤ 16 + max_record_size
      → read_frame (f ++ rest) ≡ payload p (length f)
  read_frame-IsFrame {p} {f} i rest h fits =
      let b = IsEncoded-bounds i.encodes h in
      ap (λ g. read_frame (g ++ rest)) i.same
      ∙ ap read_frame (append_assoc (frame_header i.encoded i.schema) i.encoded rest)
      ∙ read_frame-frame_header i.encoded (i.encoded ++ rest) i.schema
      ∙ read_body-frame_header i.encoded rest i.schema b.0 b.1 (omega (arith, length-IsFrame i))
      ∙ read_schema-IsEncoded p i.encoded i.schema (16 + length i.encoded) i.encodes
      ∙ ap (payload p) (sym (length-IsFrame i))

  -- Whatever follows it, a frame is read back as the payload it was made of, compressed or not, and the
  -- number of bytes read is the length of the frame, if the payload is not empty and the frame holds
  -- no more than the largest record.
  pub read_frame-frame :
      (p rest : Bytes)
      → 0 < length p
      → length (frame p) ≤ 16 + max_record_size
      → read_frame (frame p ++ rest) ≡ payload p (length (frame p))
  read_frame-frame p rest h fits = read_frame-IsFrame (frame-IsFrame p) rest h fits

  pub frame_size : (p : Bytes) → 16 ≤ length (frame p)
  frame_size p = omega (arith, length-IsFrame (frame-IsFrame p))
