-- ===== src/Storage/Prefixes.antt =====
-- `readFrame` on a file and on the same file with more bytes behind it.
use agidb_on_chain.Base.{
  ℕ, zero, suc, ◌≤◌, ◌≡◌, refl, sym, ◌∙◌, ap, ap₂, false, inl, inr, [], ◌∷◌, ◌++◌, Bytes, length,
  take, take-append, length-append, ltb, Bool-cases, arith,
}
use agidb_on_chain.Storage.Codec.{Codec}
use agidb_on_chain.Storage.Framing.{payload, drop, read_body, read_frame}
use agidb_on_chain.Storage.RoundTrip.{read_frame_long}
use agidb_on_chain.Storage.Endian.{uint32_at}

pub drop-append : (n : ℕ) (s t : Bytes) → n ≤ length s → drop n (s ++ t) ≡ drop n s ++ t
drop-append zero s t h = refl
drop-append (suc n) [] t h = absurd (omega arith)
drop-append (suc n) (x ∷ s) t h = drop-append n s t (omega arith)

drop_beyond : (n : ℕ) (s : Bytes) → length s ≤ n → drop n s ≡ []
drop_beyond zero [] h = refl
drop_beyond zero (x ∷ s) h = absurd (omega arith)
drop_beyond (suc n) [] h = refl
drop_beyond (suc n) (x ∷ s) h = drop_beyond n s (omega arith)

pub drop_front : (s t : Bytes) → drop (length s) (s ++ t) ≡ t
drop_front [] t = refl
drop_front (x ∷ s) t = drop_front s t

module _ ⦃C : Codec⦄ where
  -- a body that is read needs only its own bytes
  read_body-append :
      (h s t p : Bytes) (n : ℕ) → read_body h s ≡ payload p n → read_body h (s ++ t) ≡ payload p n
  unfolding read_body
  read_body-append h s t p n r = elim (Bool-cases (ltb (length s) (uint32_at h 4))) [
    | inl short ↦ absurd (ground arith)
    | inr long ↦
        let more : ltb (length (s ++ t)) (uint32_at h 4) ≡ false =
          ground (arith, length-append s t) in
        let same : take (uint32_at h 4) (s ++ t) ≡ take (uint32_at h 4) s =
          take-append (uint32_at h 4) s t (ground arith) in
        rw more (rw same (ground (arith, r)))
  ]

  whole_header : (s p : Bytes) (n : ℕ) → read_frame s ≡ payload p n → 16 ≤ length s
  unfolding read_frame
  whole_header s p n r = elim (Bool-cases (ltb (length s) 16)) [
    | inl short ↦ absurd (ground arith)
    | inr long ↦ ground arith
  ]

  -- What is read of a frame stays the same when more bytes are written behind it.
  pub read_frame-append :
      (s t p : Bytes) (n : ℕ) → read_frame s ≡ payload p n → read_frame (s ++ t) ≡ payload p n
  read_frame-append s t p n r =
      let long = whole_header s p n r in
      let longer = length-append s t in
      let body =
        read_body-append (take 16 s) (drop 16 s) t p n (sym (read_frame_long s long) ∙ r) in
      read_frame_long (s ++ t) (omega arith)
      ∙ ap₂ read_body (take-append 16 s t long) (drop-append 16 s t long)
      ∙ body

  -- a frame that can be read begins inside the file
  pub drop_inside :
      (n : ℕ) (s p : Bytes) (m : ℕ) → read_frame (drop n s) ≡ payload p m → n ≤ length s
  drop_inside n s p m r =
      let long = whole_header (drop n s) p m r in
      elim (Bool-cases (ltb n (length s))) [
        | inl inside ↦ ground arith
        | inr outside ↦
            let nothing : drop n s ≡ [] = drop_beyond n s (ground arith) in
            absurd (omega (arith, ap length nothing))
      ]
