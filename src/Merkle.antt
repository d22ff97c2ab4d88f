-- ===== src/Merkle.antt =====
-- engine/internal/merkle/merkle.go: the Merkle roots of a state, and the proofs that a key is in it.
-- A loop over levels of the tree takes the number of leaves as fuel.
pub mod Levels
pub mod Climb
pub mod Completeness
pub mod Binding
pub mod Order
pub mod Ambiguity
pub mod Shape
use Prim.Native.Nat.{bit_xor}
use agidb_on_chain.Base.{
  ℕ, zero, suc, ◌+◌, ◌/◌, ◌≡◌, Bool, true, false, ◌&&◌, ◌||◌, not, Option, none, some, List, [],
  ◌∷◌, ◌++◌, map, Bytes, beq, has_prefix, length, get_or, ltb, leb, ◌==◌, if◌then◌else◌,
}
use agidb_on_chain.Go.Maps.{GoMap, keys, lookup}
use agidb_on_chain.Go.Sort.{sort_strings, search_strings}
use agidb_on_chain.Go.Hex.{encode_to_string, decode_string}
use agidb_on_chain.Go.Sha256.{Sha256}

-- the value under a key, empty if there is none, as `s[k]` is
unfoldable pub value_of : GoMap Bytes → Bytes → Bytes
value_of s k = elim (lookup s k) [ none ↦ [] | some v ↦ v ]

-- `append([]byte(k+"\x00"), v...)`
unfoldable pub leaf : Bytes → Bytes → Bytes
leaf k v = (k ++ (0 ∷ [])) ++ v

-- `k == "" || HasPrefix(k, p)` for each key of an iteration
unfoldable pub keys_under : List Bytes → Bytes → List Bytes
keys_under [] p = []
keys_under (k ∷ ks) p =
    let rest = keys_under ks p in if beq p [] || has_prefix k p then k ∷ rest else rest

unfoldable pub prefix_count : GoMap Bytes → Bytes → ℕ
prefix_count [] p = 0
prefix_count ((k, v) ∷ s) p = (if has_prefix k p then 1 else 0) + prefix_count s p

-- `sib := pos ^ 1; if sib >= len(level) { sib = pos }`
unfoldable pub sibling : ℕ → ℕ → ℕ
sibling pos size = let sib = bit_xor pos 1 in if leb size sib then pos else sib

pub record ProofStep : Type 0 where
  pub hash : Bytes
  pub left : Bool

pub record Proof : Type 0 where
  pub key : Bytes
  pub value : Bytes
  pub exists : Bool
  pub leaf_hash : Bytes
  pub root : Bytes
  pub index : ℕ
  pub total : ℕ
  pub path : List ProofStep

module _ ⦃H : Sha256⦄ where
  -- `Hash`
  unfoldable pub hash : Bytes → Bytes
  hash b = encode_to_string (H.sum256 b)

  -- the digest of two siblings
  unfoldable pub node : Bytes → Bytes → Bytes
  node l r = H.sum256 (l ++ r)

  -- one round of the loop over levels: a last node without a sibling is paired with itself
  unfoldable pub pair_level : List Bytes → List Bytes
  pair_level [] = []
  pair_level (a ∷ []) = node a a ∷ []
  pair_level (a ∷ b ∷ hs) = node a b ∷ pair_level hs

  -- `for len(hs) > 1 { … }`
  unfoldable pub reduce : ℕ → List Bytes → List Bytes
  reduce zero hs = hs
  reduce (suc fuel) hs =
      let rest = reduce fuel (pair_level hs) in if ltb 1 (length hs) then rest else hs

  unfoldable pub root : List Bytes → Bytes
  unfolding reduce hash
  root leaves =
      if length leaves == 0
      then hash []
      else encode_to_string (get_or (reduce (length leaves) (map H.sum256 leaves)) 0 [])

  unfoldable pub prefix_root : GoMap Bytes → Bytes → Bytes
  unfolding keys_under leaf value_of
  prefix_root s p = root (map (λ k. leaf k (value_of s k)) (sort_strings (keys_under (keys s) p)))

  unfoldable pub state_root : GoMap Bytes → Bytes
  unfolding prefix_root
  state_root s = prefix_root s []

  -- the loop of `StateProof` over levels
  unfoldable pub proof_path : ℕ → ℕ → List Bytes → List ProofStep
  unfolding sibling pair_level
  proof_path zero pos level = []
  proof_path (suc fuel) pos level =
      let rest = proof_path fuel (pos / 2) (pair_level level) in
      let sib = sibling pos (length level) in
      if ltb 1 (length level)
      then record { hash = encode_to_string (get_or level sib []); left = ltb sib pos } ∷ rest
      else []

  unfoldable pub state_proof : GoMap Bytes → Bytes → Proof
  unfolding value_of
  state_proof s key =
      let ks = sort_strings (keys s) in
      let idx = search_strings ks key in
      let exists = ltb idx (length ks) && beq (get_or ks idx []) key in
      let leaves = map (λ k. H.sum256 (leaf k (value_of s k))) ks in
      if exists
      then record {
        key = key;
        value = value_of s key;
        exists = true;
        leaf_hash = encode_to_string (get_or leaves idx []);
        root = state_root s;
        index = idx;
        total = length ks;
        path = proof_path (length ks) idx leaves;
      }
      else record {
        key = key;
        value = [];
        exists = false;
        leaf_hash = [];
        root = state_root s;
        index = idx;
        total = length ks;
        path = [];
      }

  -- the loop of `VerifyProof`: the digest that the steps lead to, `none` at a bad hash
  unfoldable pub climb : Bytes → List ProofStep → Option Bytes
  climb cur [] = some cur
  climb cur (st ∷ path) = elim (decode_string st.hash) [
    | none ↦ none
    | some sib ↦ climb (if st.left then node sib cur else node cur sib) path
  ]

  unfoldable pub verify_proof : Proof → Bool
  verify_proof p =
      let cur = H.sum256 (leaf p.key p.value) in
      if not p.exists
      then false
      else if not (beq (encode_to_string cur) p.leaf_hash)
      then false
      else elim (climb cur p.path) [ none ↦ false | some top ↦ beq (encode_to_string top) p.root ]
