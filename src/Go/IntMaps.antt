-- ===== src/Go/IntMaps.antt =====
-- `map[uint64]V`, and the files of a directory by their number: the entries in ascending order of
-- their keys, which is the order that the program sorts them into wherever it goes through them.
use agidb_on_chain.Base.{
  ℕ, ◌≡◌, refl, Option, none, some, List, [], ◌∷◌, ltb, ◌==◌, if◌then◌else◌, arith,
}

abbrev pub IntMap {ℓ} : Type ℓ → Type ℓ
IntMap V = List (ℕ × V)

module _ {ℓ} {V : Type ℓ} where
  -- `v, ok := m[k]`
  unfoldable pub find : IntMap V → ℕ → Option V
  find [] k = none
  find ((j, v) ∷ m) k = if j == k then some v else find m k

  -- `m[k] = v`
  unfoldable pub put : IntMap V → ℕ → V → IntMap V
  put [] k v = (k, v) ∷ []
  put ((j, w) ∷ m) k v =
      let rest = put m k v in
      if ltb k j then (k, v) ∷ (j, w) ∷ m else if j == k then (k, v) ∷ m else (j, w) ∷ rest

  pub find-put :
      (m : IntMap V) (k : ℕ) (v : V) (i : ℕ)
      → find (put m k v) i ≡ (if k == i then some v else find m i)
  unfolding find put
  find-put [] k v i = refl
  find-put ((j, w) ∷ m) k v i = ground (arith, find-put m k v i)
