-- ===== src/Engine/Roots.antt =====
-- `cloneState` and `contractAggregateRoot` of engine.go. Both walk over a map in Go's order and build
-- another.
use agidb_on_chain.Base.{
  ◌≡◌, refl, sym, ◌∙◌, ap, Bool, ◌||◌, Option, none, some, [], ◌∷◌, Bytes, codes, beq_iff,
  has_prefix, if◌then◌else◌, arith,
}
use agidb_on_chain.Go.Maps.{
  GoMap, keys, lookup, insert, Distinct, contains-keys, lookup-insert, insert-Distinct,
}
use agidb_on_chain.Go.Sha256.{Sha256}
use agidb_on_chain.Merkle.{state_root}
use agidb_on_chain.Merkle.Order.{SameMap, prefix_root_congr}

-- `for k, v := range src { dst[k] = append([]byte{}, v...) }`
clone_into : GoMap Bytes → GoMap Bytes → GoMap Bytes
clone_into dst [] = dst
clone_into dst ((k, v) ∷ src) = clone_into (insert dst k v) src

unfoldable pub clone_state : GoMap Bytes → GoMap Bytes
unfolding clone_into
clone_state src = clone_into [] src

-- the keys of accounts and contracts
unfoldable pub is_contract_key : Bytes → Bool
is_contract_key k =
    has_prefix k (codes "contract/")
    || has_prefix k (codes "contract-storage/")
    || has_prefix k (codes "account/")

merge_into : GoMap Bytes → GoMap Bytes → GoMap Bytes
merge_into merged [] = merged
merge_into merged ((k, v) ∷ s) =
    merge_into (if is_contract_key k then insert merged k v else merged) s

module _ ⦃H : Sha256⦄ where
  unfoldable pub contract_aggregate_root : GoMap Bytes → Bytes
  unfolding merge_into is_contract_key
  contract_aggregate_root s = state_root (merge_into [] s)

-- the first value that is there
abbrev or_else : Option Bytes → Option Bytes → Option Bytes
or_else none q = q
or_else (some v) q = some v

lookup-clone_into :
    (dst src : GoMap Bytes) (k : Bytes)
    → Distinct (keys src)
    → lookup (clone_into dst src) k ≡ or_else (lookup src k) (lookup dst k)
unfolding clone_into lookup
lookup-clone_into dst [] k d = refl
lookup-clone_into dst ((j, v) ∷ src) k d = ground (
  arith,
  lookup-clone_into (insert dst j v) src k d.1,
  lookup-insert dst j v k,
  contains-keys src j,
  beq_iff j k,
)

clone_into-Distinct :
    (dst src : GoMap Bytes) → Distinct (keys dst) → Distinct (keys (clone_into dst src))
unfolding clone_into
clone_into-Distinct dst [] d = d
clone_into-Distinct dst ((k, v) ∷ src) d =
    clone_into-Distinct (insert dst k v) src (insert-Distinct dst k v d)

pub clone_state-SameMap : (s : GoMap Bytes) → Distinct (keys s) → SameMap (clone_state s) s
unfolding clone_state lookup
clone_state-SameMap s d k = lookup-clone_into [] s k d ∙ ground arith

pub clone_state-Distinct : (s : GoMap Bytes) → Distinct (keys (clone_state s))
unfolding clone_state
clone_state-Distinct s = clone_into-Distinct [] s tt

lookup-merge_into :
    (m s : GoMap Bytes) (k : Bytes)
    → Distinct (keys s)
    → lookup (merge_into m s) k
      ≡ (if is_contract_key k then or_else (lookup s k) (lookup m k) else lookup m k)
unfolding merge_into lookup
lookup-merge_into m [] k d = ground arith
lookup-merge_into m ((j, v) ∷ s) k d = ground (
  arith,
  lookup-merge_into (if is_contract_key j then insert m j v else m) s k d.1,
  lookup-insert m j v k,
  contains-keys s j,
  beq_iff j k,
)

merge_into-Distinct : (m s : GoMap Bytes) → Distinct (keys m) → Distinct (keys (merge_into m s))
unfolding merge_into
merge_into-Distinct m [] d = d
merge_into-Distinct m ((k, v) ∷ s) d =
    merge_into-Distinct (if is_contract_key k then insert m k v else m) s
      (ground (arith, insert-Distinct m k v d))

module _ ⦃H : Sha256⦄ where
  -- The aggregate root depends only on what the map holds.
  pub contract_aggregate_root_congr :
      (s t : GoMap Bytes)
      → Distinct (keys s)
      → Distinct (keys t)
      → SameMap s t
      → contract_aggregate_root s ≡ contract_aggregate_root t
  unfolding contract_aggregate_root state_root
  contract_aggregate_root_congr s t ds dt same =
      prefix_root_congr _ _ [] (merge_into-Distinct [] s tt) (merge_into-Distinct [] t tt) λ k.
        lookup-merge_into [] s k ds
        ∙ ap
            (λ o.
              if is_contract_key k
              then or_else o (lookup {V = Bytes} [] k)
              else lookup {V = Bytes} [] k)
            (same k)
        ∙ sym (lookup-merge_into [] t k dt)
