-- ===== src/Merkle/Ambiguity.antt =====
-- The encoding of leaves and levels in merkle.go, where keys have NUL bytes and where a level has an
-- odd number of nodes.
use mathlib.Core.List.{append_assoc, map-append}
use agidb_on_chain.Base.{
  ℕ, suc, ◌%◌, ◌≤◌, ◌<◌, ◌≡◌, ◌≢◌, refl, sym, ◌∙◌, ap, List, [], ◌∷◌, ◌++◌, map, Bytes, beq,
  beq_iff, length, length-append, length-map, arith,
}
use agidb_on_chain.Go.Sha256.{Sha256}
use agidb_on_chain.Go.Maps.{GoMap, lookup}
use agidb_on_chain.Go.Sort.{sort_strings}
use agidb_on_chain.Merkle.{
  Proof, node, pair_level, reduce, root, leaf, value_of, state_root, verify_proof,
}
use agidb_on_chain.Merkle.Levels.{length-pair_level, reduce-reduce_fuel}
use agidb_on_chain.Merkle.Order.{SameMap}

-- the separator may be read at either of two places
leaf-append : (k r v : Bytes) → leaf (k ++ (0 ∷ r)) v ≡ leaf k (r ++ (0 ∷ v))
unfolding leaf
leaf-append k r v = simp append_assoc

-- a key with a NUL in it, or the key before the NUL with the rest in the value
abbrev pub long_key : Bytes → Bytes → Bytes → GoMap Bytes
long_key k r v = (k ++ (0 ∷ r), v) ∷ []

abbrev pub long_value : Bytes → Bytes → Bytes → GoMap Bytes
long_value k r v = (k, r ++ (0 ∷ v)) ∷ []

append-ne_self : (k r : Bytes) → k ++ (0 ∷ r) ≢ k
append-ne_self k r e = omega (arith, ap length e, length-append k (0 ∷ r))

states_differ : (k r v : Bytes) → ¬ SameMap (long_key k r v) (long_value k r v)
unfolding lookup
states_differ k r v same =
    ground (arith, same k, beq_iff (k ++ (0 ∷ r)) k, beq_iff k k, append-ne_self k r)

value_of_single : (k v : Bytes) → value_of ((k, v) ∷ []) k ≡ v
unfolding value_of lookup
value_of_single k v = ground (arith, beq_iff k k)

module _ ⦃H : Sha256⦄ where
  state_root_single : (k v : Bytes) → state_root ((k, v) ∷ []) ≡ root (leaf k v ∷ [])
  unfolding state_root sort_strings beq
  state_root_single k v = ap (λ w. root (leaf k w ∷ [])) (value_of_single k v)

  -- For all `k`, `r` and `v` the state that holds `v` under the key `k NUL r` and the state that holds
  -- `r NUL v` under the key `k` are different and have the same state root.
  pub state_root_ambiguous :
      (k r v : Bytes)
      → (state_root (long_key k r v) ≡ state_root (long_value k r v))
        × ¬ SameMap (long_key k r v) (long_value k r v)
  state_root_ambiguous k r v = (
    state_root_single (k ++ (0 ∷ r)) v
        ∙ ap (λ l. root (l ∷ [])) (leaf-append k r v)
        ∙ sym (state_root_single k (r ++ (0 ∷ v))),
    states_differ k r v,
  )

  -- A proof for the key `k NUL r` and the value `v` is accepted exactly when it is accepted with the
  -- key cut to `k` and `r NUL` moved in front of the value.
  pub verify_proof_ambiguous :
      (p : Proof) (k r v : Bytes)
      → verify_proof (record p { key = k ++ (0 ∷ r); value = v })
        ≡ verify_proof (record p { key = k; value = r ++ (0 ∷ v) })
  unfolding verify_proof
  verify_proof_ambiguous p k r v = rw (leaf-append k r v)

  pair_level-append :
      (hs js : List Bytes)
      → length hs % 2 ≡ 0
      → pair_level (hs ++ js) ≡ pair_level hs ++ pair_level js
  unfolding pair_level
  pair_level-append [] js h = refl
  pair_level-append (a ∷ []) js h = absurd (omega arith)
  pair_level-append (a ∷ b ∷ hs) js h =
      ap (λ t. node a b ∷ t) (pair_level-append hs js (omega arith))

  pair_level_twice :
      (hs : List Bytes) (a : Bytes)
      → length hs % 2 ≡ 0
      → pair_level (hs ++ (a ∷ [])) ≡ pair_level (hs ++ (a ∷ a ∷ []))
  unfolding pair_level
  pair_level_twice hs a h =
      pair_level-append hs (a ∷ []) h ∙ sym (pair_level-append hs (a ∷ a ∷ []) h)

  -- After an even number of nodes, at least two, a last node counts as much as that node twice.
  reduce_twice :
      (f g : ℕ) (hs : List Bytes) (a : Bytes)
      → length hs % 2 ≡ 0
      → 0 < length hs
      → length hs ≤ f
      → suc (length hs) ≤ g
      → reduce (suc f) (hs ++ (a ∷ [])) ≡ reduce (suc g) (hs ++ (a ∷ a ∷ []))
  unfolding reduce
  reduce_twice f g hs a h pos hf hg = ground (
    arith,
    length-append hs (a ∷ []),
    length-append hs (a ∷ a ∷ []),
    pair_level_twice hs a h,
    length-pair_level (hs ++ (a ∷ a ∷ [])),
    reduce-reduce_fuel f g (pair_level (hs ++ (a ∷ a ∷ []))),
  )

  -- With an even number of leaves before it, at least two, a last leaf may be repeated without a change
  -- of the root: lists of leaves of different lengths share a root.
  pub root_repeats_last :
      (leaves : List Bytes) (a : Bytes)
      → length leaves % 2 ≡ 0
      → 0 < length leaves
      → root (leaves ++ (a ∷ [])) ≡ root (leaves ++ (a ∷ a ∷ []))
  unfolding root
  root_repeats_last leaves a h pos =
      let hs = map H.sum256 leaves in
      let n : length hs ≡ length leaves = length-map H.sum256 leaves in
      rw (map-append, map-append, length-append leaves (a ∷ []), length-append leaves (a ∷ a ∷ []))
        (ground (arith, reduce_twice (length leaves) (suc (length leaves)) hs (H.sum256 a)))
