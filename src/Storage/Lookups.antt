-- ===== src/Storage/Lookups.antt =====
-- `ReadBlock`: a block at its place in a segment, and the same segment with more bytes behind it.
use agidb_on_chain.Base.{
  ℕ, ◌≡◌, refl, sym, ◌∙◌, ap, some, inl, inr, ◌++◌, Bytes, Option-cases, arith,
}
use agidb_on_chain.Go.IntMaps.{IntMap, find}
use agidb_on_chain.Model.{Block}
use agidb_on_chain.Result.{ok}
use agidb_on_chain.Storage.Codec.{Codec, Gob}
use agidb_on_chain.Storage.Framing.{Read, payload, stopped, drop, read_frame}
use agidb_on_chain.Storage.Prefixes.{drop-append, read_frame-append, drop_inside}
use agidb_on_chain.Storage.Segments.{Location, Files, decode_read, read_at, read_block}
use agidb_on_chain.Storage.Appends.{Extends}

module _ ⦃C : Codec⦄ ⦃G : Gob⦄ where
  decode_read-ok :
      (r : Read) (c : Block) → decode_read r ≡ ok c → (p : Bytes) × (n : ℕ) × (r ≡ payload p n)
  unfolding decode_read
  decode_read-ok (stopped n e) c h = cc
  decode_read-ok (payload p n) c h = (p, n, refl)

  pub read_at_found :
      (m : IntMap Bytes) (loc : Location) (s : Bytes)
      → find m loc.segment ≡ some s
      → read_at m loc ≡ decode_read (read_frame (drop loc.offset s))
  unfolding read_at
  read_at_found m loc s h = rw (read_at, h) refl

  -- a block that can be read can still be read where files have grown
  pub read_at-Extends :
      (m m' : IntMap Bytes) (loc : Location) (c : Block)
      → Extends m m'
      → read_at m loc ≡ ok c
      → read_at m' loc ≡ ok c
  unfolding read_at
  read_at-Extends m m' loc c more h = elim (Option-cases (find m loc.segment)) [
    | inl gone ↦ absurd (ground arith)
    | inr (s, found) ↦
        let old : decode_read (read_frame (drop loc.offset s)) ≡ ok c =
          sym (read_at_found m loc s found) ∙ h in
        let (p, n, whole) = decode_read-ok (read_frame (drop loc.offset s)) c old in
        let (t, grown) = more loc.segment s found in
        let inside = drop_inside loc.offset s p n whole in
        let same : read_frame (drop loc.offset (s ++ t)) ≡ payload p n =
          ap read_frame (drop-append loc.offset s t inside)
          ∙ read_frame-append (drop loc.offset s) t p n whole in
        read_at_found m' loc (s ++ t) grown ∙ ap decode_read (same ∙ sym whole) ∙ old
  ]

  pub read_block_at :
      (f : Files) (h : ℕ) (loc : Location)
      → find f.index h ≡ some loc
      → read_block f h ≡ read_at f.disk.segments loc
  unfolding read_block
  read_block_at f h loc e = rw (read_block, e) refl

  pub read_block-ok :
      (f : Files) (h : ℕ) (c : Block)
      → read_block f h ≡ ok c
      → (loc : Location) × (find f.index h ≡ some loc)
  unfolding read_block
  read_block-ok f h c e = elim (Option-cases (find f.index h)) [
    | inl gone ↦ absurd (ground arith)
    | inr (loc, found) ↦ (loc, found)
  ]
