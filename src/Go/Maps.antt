-- ===== src/Go/Maps.antt =====
-- `map[string]V`: an association list with distinct keys. Go leaves the order of an iteration open;
-- here it is the order of the list.
use agidb_on_chain.Base.{
  ◌≡◌, refl, Bool, true, false, Option, none, some, List, [], ◌∷◌, map, arith, Bytes, beq, beq_iff,
  if◌then◌else◌,
}

abbrev pub GoMap {ℓ} : Type ℓ → Type ℓ
GoMap V = List (Bytes × V)

-- `k` is among the keys `ks`
unfoldable pub contains : List Bytes → Bytes → Bool
contains [] k = false
contains (j ∷ ks) k = if beq j k then true else contains ks k

-- no key stands twice
abbrev pub Distinct : List Bytes → Type 0
Distinct [] = Unit
Distinct (k ∷ ks) = (contains ks k ≡ false) × Distinct ks

module _ {ℓ} {V : Type ℓ} where
  abbrev pub keys : GoMap V → List Bytes
  keys m = map (λ e. e.0) m

  -- `v, ok := m[k]`
  unfoldable pub lookup : GoMap V → Bytes → Option V
  lookup [] k = none
  lookup ((j, v) ∷ m) k = if beq j k then some v else lookup m k

  -- `m[k] = v`
  unfoldable pub insert : GoMap V → Bytes → V → GoMap V
  insert [] k v = (k, v) ∷ []
  insert ((j, w) ∷ m) k v = if beq j k then (k, v) ∷ m else (j, w) ∷ insert m k v

  -- `delete(m, k)`
  unfoldable pub remove : GoMap V → Bytes → GoMap V
  remove [] k = []
  remove ((j, w) ∷ m) k = let rest = remove m k in if beq j k then rest else (j, w) ∷ rest

  abbrev pub is_some : Option V → Bool
  is_some none = false
  is_some (some v) = true

  pub lookup-insert :
      (m : GoMap V) (k : Bytes) (v : V) (j : Bytes)
      → lookup (insert m k v) j ≡ (if beq k j then some v else lookup m j)
  unfolding lookup insert
  lookup-insert [] k v j = refl
  lookup-insert ((i, w) ∷ m) k v j =
      ground (arith, beq_iff i k, beq_iff i j, beq_iff k j, lookup-insert m k v j)

  pub lookup-remove :
      (m : GoMap V) (k j : Bytes) → lookup (remove m k) j ≡ (if beq k j then none else lookup m j)
  unfolding lookup remove
  lookup-remove [] k j = ground arith
  lookup-remove ((i, w) ∷ m) k j =
      ground (arith, beq_iff i k, beq_iff i j, beq_iff k j, lookup-remove m k j)

  pub contains-keys : (m : GoMap V) (k : Bytes) → contains (keys m) k ≡ is_some (lookup m k)
  unfolding contains lookup
  contains-keys [] k = refl
  contains-keys ((j, v) ∷ m) k = ground (arith, contains-keys m k)

  contains-keys-insert :
      (m : GoMap V) (k : Bytes) (v : V) (j : Bytes)
      → contains (keys (insert m k v)) j ≡ (if beq k j then true else contains (keys m) j)
  contains-keys-insert m k v j = simp (contains-keys, lookup-insert) (ground arith)

  contains-keys-remove :
      (m : GoMap V) (k j : Bytes)
      → contains (keys (remove m k)) j ≡ (if beq k j then false else contains (keys m) j)
  contains-keys-remove m k j = simp (contains-keys, lookup-remove) (ground arith)

  pub insert-Distinct :
      (m : GoMap V) (k : Bytes) (v : V) → Distinct (keys m) → Distinct (keys (insert m k v))
  unfolding contains insert
  insert-Distinct [] k v d = (refl, tt)
  insert-Distinct ((j, w) ∷ m) k v d =
      ground
        (arith, beq_iff j k, beq_iff k j, contains-keys-insert m k v j, insert-Distinct m k v d.1)

  pub remove-Distinct : (m : GoMap V) (k : Bytes) → Distinct (keys m) → Distinct (keys (remove m k))
  unfolding contains remove
  remove-Distinct [] k d = tt
  remove-Distinct ((j, w) ∷ m) k d =
      ground (arith, contains-keys-remove m k j, remove-Distinct m k d.1)

pub ruleset map_laws = (lookup-insert, lookup-remove)
