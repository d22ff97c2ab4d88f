-- ===== src/Examples/Trees.antt =====
-- The theorems on Merkle roots and proofs at a state of three keys.
use agidb_on_chain.Base.{
  ℕ, ◌≡◌, ◌⊎◌, refl, true, false, List, [], ◌∷◌, ◌++◌, map, Bytes, codes, beq, beq_iff, ne_of_beq,
  bytes_ltb, has_prefix, arith,
}
use agidb_on_chain.Go.Maps.{GoMap, keys, lookup, Distinct, contains, is_some}
use agidb_on_chain.Go.Sort.{sort_strings, search_strings}
use agidb_on_chain.Go.Hex.{encode_to_string, decode_string}
use agidb_on_chain.Merkle.{
  Proof, root, pair_level, node, state_root, state_proof, verify_proof, value_of, keys_under, leaf,
  sibling, proof_path, climb, hash,
}
use agidb_on_chain.Merkle.Shape.{width, IsHeight, tree_node, root-tree_node}
use agidb_on_chain.Merkle.Completeness.{verify_proof-state_proof}
use agidb_on_chain.Merkle.Binding.{Collision, IsNulFree, verify_proof_sound}
use agidb_on_chain.Merkle.Order.{SameMap}
use agidb_on_chain.Merkle.Ambiguity.{
  long_key, long_value, state_root_ambiguous, verify_proof_ambiguous,
}
use agidb_on_chain.Examples.Toys.{toy_sha256}

abbrev three : GoMap Bytes
three =
    (codes "account/b", codes "2") ∷ (codes "account/a", codes "1") ∷ (codes "zk/c", codes "3") ∷ []

-- the same values in another order
abbrev other : GoMap Bytes
other =
    (codes "zk/c", codes "3") ∷ (codes "account/b", codes "2") ∷ (codes "account/a", codes "1") ∷ []

three-Distinct : Distinct (keys three)
unfolding contains beq
three-Distinct = (refl, (refl, (refl, tt)))

other-Distinct : Distinct (keys other)
unfolding contains beq
other-Distinct = (refl, (refl, (refl, tt)))

three-other : SameMap three other
unfolding lookup beq
three-other k = ground (
  arith,
  beq_iff (codes "account/b") k,
  beq_iff (codes "account/a") k,
  beq_iff (codes "zk/c") k,
  ne_of_beq (codes "account/b") (codes "account/a") refl,
  ne_of_beq (codes "account/b") (codes "zk/c") refl,
  ne_of_beq (codes "account/a") (codes "zk/c") refl,
)

-- everything that a test of a proof runs
program : Unit {0}
unfolding state_proof state_root verify_proof value_of sort_strings search_strings bytes_ltb lookup
    beq encode_to_string decode_string pair_level node keys_under leaf sibling proof_path climb hash
    root has_prefix
program = tt

absent_rejected : verify_proof (state_proof three (codes "zk/d")) ≡ false
unfolding program
absent_rejected = refl

three_accepted : verify_proof (state_proof three (codes "account/b")) ≡ true
unfolding program
three_accepted = refl

verify_proof-state_proof_example :
    (verify_proof (state_proof three (codes "account/b"))
      ≡ is_some (lookup three (codes "account/b")))
    × ((state_proof three (codes "account/b")).value ≡ value_of three (codes "account/b"))
    × ((state_proof three (codes "account/b")).root ≡ state_root three)
verify_proof-state_proof_example = verify_proof-state_proof three (codes "account/b") three-Distinct

account_b-IsNulFree : IsNulFree (codes "account/b")
account_b-IsNulFree = omega arith

abbrev claim : Proof
claim = state_proof three (codes "account/b")

verify_proof_sound_example :
    ((claim.key ≡ codes "account/b") × (claim.value ≡ value_of three (codes "account/b")))
    ⊎ Collision
unfolding program
verify_proof_sound_example =
    verify_proof_sound three (codes "account/b") claim three-Distinct refl account_b-IsNulFree
      account_b-IsNulFree refl refl refl

state_root_ambiguous_example :
    (state_root (long_key (codes "a") (codes "b") (codes "c"))
      ≡ state_root (long_value (codes "a") (codes "b") (codes "c")))
    × ¬ SameMap
        (long_key (codes "a") (codes "b") (codes "c"))
        (long_value (codes "a") (codes "b") (codes "c"))
state_root_ambiguous_example = state_root_ambiguous (codes "a") (codes "b") (codes "c")

verify_proof_ambiguous_example :
    verify_proof (record claim { key = codes "a" ++ (0 ∷ codes "b"); value = codes "c" })
    ≡ verify_proof (record claim { key = codes "a"; value = codes "b" ++ (0 ∷ codes "c") })
verify_proof_ambiguous_example = verify_proof_ambiguous claim (codes "a") (codes "b") (codes "c")

abbrev three_leaves : List Bytes
three_leaves = codes "a" ∷ codes "b" ∷ codes "c" ∷ []

root-tree_node_example :
    (k : ℕ) × IsHeight k 3
    × (root three_leaves ≡ encode_to_string (tree_node (map toy_sha256.sum256 three_leaves) k 0))
root-tree_node_example = root-tree_node three_leaves (omega arith)

-- the third leaf is paired with itself
third_twice :
    tree_node (codes "a" ∷ codes "b" ∷ codes "c" ∷ []) 2 0
    ≡ node (node (codes "a") (codes "b")) (node (codes "c") (codes "c"))
unfolding tree_node width
third_twice = refl
