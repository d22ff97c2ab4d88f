-- ===== src/Merkle/Order.antt =====
-- The roots of merkle.go and the order in which Go iterates over a map.
use mathlib.Core.Path.{ap₂}
use agidb_on_chain.Base.{
  ◌≡◌, refl, ap, fun_ext, Bool, ◌&&◌, ◌||◌, List, [], ◌∷◌, map, Bytes, beq, beq_iff, has_prefix,
  arith,
}
use agidb_on_chain.Go.Sha256.{Sha256}
use agidb_on_chain.Go.Maps.{GoMap, keys, lookup, Distinct, contains, contains-keys}
use agidb_on_chain.Go.Sort.{
  sort_strings, contains-sort_strings, sort_strings-IsAscending, IsAscending-unique,
}
use agidb_on_chain.Merkle.{keys_under, value_of, root, leaf, prefix_root}

-- the keys that a root under the prefix covers
abbrev under : Bytes → Bytes → Bool
under p k = beq p [] || has_prefix k p

contains-keys_under :
    (ks : List Bytes) (p k : Bytes) → contains (keys_under ks p) k ≡ (contains ks k && under p k)
unfolding contains keys_under
contains-keys_under [] p k = refl
contains-keys_under (j ∷ ks) p k = ground (arith, contains-keys_under ks p k, beq_iff j k)

keys_under-Distinct : (ks : List Bytes) (p : Bytes) → Distinct ks → Distinct (keys_under ks p)
unfolding keys_under
keys_under-Distinct [] p d = tt
keys_under-Distinct (j ∷ ks) p d =
    ground (arith, contains-keys_under ks p j, keys_under-Distinct ks p d.1)

-- two maps hold the same values
abbrev pub SameMap {ℓ} : {V : Type ℓ} → GoMap V → GoMap V → Type ℓ
SameMap s t = (k : Bytes) → lookup s k ≡ lookup t k

pub value_of_congr : (s t : GoMap Bytes) → SameMap s t → (k : Bytes) → value_of s k ≡ value_of t k
unfolding value_of
value_of_congr s t same k = rw (same k, value_of)

sorted_keys_congr :
    (s t : GoMap Bytes) (p : Bytes)
    → Distinct (keys s)
    → Distinct (keys t)
    → SameMap s t
    → sort_strings (keys_under (keys s) p) ≡ sort_strings (keys_under (keys t) p)
sorted_keys_congr s t p ds dt same =
    IsAscending-unique _ _ (sort_strings-IsAscending _ (keys_under-Distinct (keys s) p ds))
      (sort_strings-IsAscending _ (keys_under-Distinct (keys t) p dt))
      λ k. simp (contains-sort_strings, contains-keys_under, contains-keys, same)

module _ ⦃H : Sha256⦄ where
  -- Two maps with distinct keys that hold the same values have the same root under every prefix,
  -- whatever the order of their entries.
  pub prefix_root_congr :
      (s t : GoMap Bytes) (p : Bytes)
      → Distinct (keys s)
      → Distinct (keys t)
      → SameMap s t
      → prefix_root s p ≡ prefix_root t p
  unfolding prefix_root
  prefix_root_congr s t p ds dt same =
      ap₂ (λ f ks. root (map f ks)) (fun_ext (λ k. ap (leaf k) (value_of_congr s t same k)))
        (sorted_keys_congr s t p ds dt same)
