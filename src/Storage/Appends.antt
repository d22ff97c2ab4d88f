-- ===== src/Storage/Appends.antt =====
-- `openActive`, `rotate` and the write of `AppendBlock`: what they do to the segments and the index.
use agidb_on_chain.Base.{
  length-append, append_assoc, ℕ, ◌%◌, ◌^◌, ◌≡◌, ◌≢◌, refl, sym, ◌∙◌, ap, none, some, inl, inr, [],
  ◌∷◌, ◌++◌, Bytes, length, ◌==◌, ==_iff, if◌then◌else◌, Bool-cases, Option-cases, arith,
}
use agidb_on_chain.Go.IntMaps.{IntMap, find, find-put}
use agidb_on_chain.Storage.Segments.{
  Files, segment_of, create, open_segment, open_active, rotate, append_frame,
}

-- the size that the files remember is the size of the active segment, which exists
abbrev pub IsSized : Files → Type 0
IsSized f =
    find f.disk.segments f.active_id ≢ none
    × (f.active_size ≡ length (segment_of f.disk.segments f.active_id))

-- one set of segments extends another: a file that was there is there, with bytes added at its end
abbrev pub Extends : IntMap Bytes → IntMap Bytes → Type 0
Extends m m' =
    (id : ℕ) (s : Bytes) → find m id ≡ some s → (t : Bytes) × (find m' id ≡ some (s ++ t))

pub append_nothing : (s : Bytes) → s ++ [] ≡ s
append_nothing [] = refl
append_nothing (x ∷ s) = ap (λ l. x ∷ l) (append_nothing s)

pub Extends-refl : (m : IntMap Bytes) → Extends m m
Extends-refl m id s h = ([], h ∙ ap some (sym (append_nothing s)))

pub Extends-trans : (m n o : IntMap Bytes) → Extends m n → Extends n o → Extends m o
Extends-trans m n o p q id s h =
    let (t, h') = p id s h in
    let (u, h'') = q id (s ++ t) h' in (t ++ u, h'' ∙ ap some (append_assoc s t u))

create_old : (m : IntMap Bytes) (id : ℕ) (u : Bytes) → find m id ≡ some u → create m id ≡ m
unfolding create
create_old m id u h = rw (create, h) refl

pub segment_of_found :
    (m : IntMap Bytes) (id : ℕ) (s : Bytes) → find m id ≡ some s → segment_of m id ≡ s
unfolding segment_of
segment_of_found m id s h = rw (segment_of, h) refl

-- a new, empty file
pub create-Extends : (m : IntMap Bytes) (id : ℕ) → Extends m (create m id)
unfolding create
create-Extends m id i s h = elim (Option-cases (find m id)) [
  | inl new ↦ ([], ground (arith, find-put m id [] i, append_nothing s, ==_iff id i))
  | inr (u, old) ↦ rw (create_old m id u old) (Extends-refl m i s h)
]

create-found : (m : IntMap Bytes) (id : ℕ) → find (create m id) id ≢ none
unfolding create
create-found m id h = elim (Option-cases (find m id)) [
  | inl new ↦ ground (arith, find-put m id [] id)
  | inr (u, old) ↦ ground arith
]

module _ (f : Files) where
  pub open_segment-IsSized : (id : ℕ) → IsSized (open_segment f id)
  unfolding open_segment
  open_segment-IsSized id = (create-found f.disk.segments id, refl)

  pub open_segment-Extends : (id : ℕ) → Extends f.disk.segments (open_segment f id).disk.segments
  unfolding open_segment
  open_segment-Extends id = create-Extends f.disk.segments id

  pub rotate-IsSized : IsSized (rotate f)
  unfolding rotate open_active
  rotate-IsSized = open_segment-IsSized _

  pub rotate-Extends : Extends f.disk.segments (rotate f).disk.segments
  unfolding rotate open_active
  rotate-Extends = open_segment-Extends _

  pub append_frame-Extends :
      (height : ℕ) (fr : Bytes)
      → IsSized f
      → Extends f.disk.segments (append_frame f height fr).disk.segments
  unfolding append_frame
  append_frame-Extends height fr sized id s h =
      let found =
        find-put f.disk.segments f.active_id (segment_of f.disk.segments f.active_id ++ fr) id in
      elim (Bool-cases (f.active_id == id)) [
        | inl same ↦
            let here : find f.disk.segments f.active_id ≡ some s =
              ap (find f.disk.segments) ((==_iff f.active_id id).0 same) ∙ h in
            (fr, ground (arith, found, segment_of_found f.disk.segments f.active_id s here))
        | inr other ↦ ([], ground (arith, found, append_nothing s))
      ]

  pub append_frame-found :
      (height : ℕ) (fr : Bytes)
      → find (append_frame f height fr).disk.segments f.active_id
        ≡ some (segment_of f.disk.segments f.active_id ++ fr)
  unfolding append_frame
  append_frame-found height fr = ground (
    arith,
    find-put f.disk.segments f.active_id (segment_of f.disk.segments f.active_id ++ fr) f.active_id,
  )

  pub append_frame-IsSized :
      (height : ℕ) (fr : Bytes) → IsSized f → IsSized (append_frame f height fr)
  unfolding append_frame
  append_frame-IsSized height fr sized =
      let found = append_frame-found height fr in
      (
        λ h. cc (h, found),
        omega (
          arith,
          sized.1,
          length-append (segment_of f.disk.segments f.active_id) fr,
          ap length (segment_of_found (append_frame f height fr).disk.segments f.active_id _ found),
        ),
      )

  pub append_frame-index :
      (height : ℕ) (fr : Bytes) (i : ℕ)
      → find (append_frame f height fr).index i ≡ (
          if height == i
          then some (record {
            segment = f.active_id;
            offset = f.active_size;
            length = length fr % 2 ^ 32;
          })
          else find f.index i)
  unfolding append_frame
  append_frame-index height fr i = find-put f.index height _ i
