-- ===== src/Merkle/Shape.antt =====
-- `Root` beside the tree that it stands for, node by node.
use agidb_on_chain.Base.{
  ℕ, zero, suc, ◌+◌, ◌*◌, ◌/◌, ◌≤◌, ◌<◌, ◌≡◌, refl, sym, subst, ◌∙◌, ap, ap₂, true, false, List, [],
  ◌∷◌, map, Bytes, length, get_or, length-map, ltb, ◌==◌, if◌then◌else◌, Bool-cases, inl, inr,
  arith,
}
use agidb_on_chain.Go.Hex.{encode_to_string}
use agidb_on_chain.Go.Sha256.{Sha256}
use agidb_on_chain.Merkle.{node, pair_level, reduce, root}
use agidb_on_chain.Merkle.Levels.{length-pair_level}

-- how many nodes stand `k` levels above `n` leaves
unfoldable pub width : ℕ → ℕ → ℕ
width zero n = n
width (suc k) n = (width k n + 1) / 2

-- one node is left `k` levels above the leaves, and more than one on each level below
pub record IsHeight (k n : ℕ) : Type 0 where
  pub single : width k n ≡ 1
  pub more : (j : ℕ) → j < k → 1 < width j n

module _ ⦃H : Sha256⦄ where
  -- the node at place `i`, `k` levels above the leaves: the digest of the nodes below it at the places
  -- `2 * i` and `2 * i + 1`, or of the first one twice where there is no second one
  unfoldable pub tree_node : List Bytes → ℕ → ℕ → Bytes
  tree_node hs zero i = get_or hs i []
  tree_node hs (suc k) i =
      let l = tree_node hs k (2 * i) in
      let r = tree_node hs k (2 * i + 1) in
      node l (if ltb (2 * i + 1) (width k (length hs)) then r else l)

  width_up : (k n : ℕ) → width (suc k) n ≡ width k ((n + 1) / 2)
  unfolding width
  width_up zero n = refl
  width_up (suc k) n = ap (λ w. (w + 1) / 2) (width_up k n)

  -- the first level
  tree_node-pair_level :
      (hs : List Bytes) (i : ℕ)
      → i < (length hs + 1) / 2
      → tree_node hs 1 i ≡ get_or (pair_level hs) i []
  unfolding tree_node pair_level width
  tree_node-pair_level [] i h = absurd (omega arith)
  tree_node-pair_level (a ∷ []) zero h = refl
  tree_node-pair_level (a ∷ []) (suc i) h = absurd (omega arith)
  tree_node-pair_level (a ∷ b ∷ hs) zero h =
      let second : ltb 1 (length (a ∷ b ∷ hs)) ≡ true = ground arith in rw second refl
  tree_node-pair_level (a ∷ b ∷ hs) (suc i) h =
      let left : 2 * suc i ≡ suc (suc (2 * i)) = omega arith in
      let right : suc (suc (2 * i)) + 1 ≡ suc (suc (2 * i + 1)) = omega arith in
      let same : ltb (suc (suc (2 * i + 1))) (length (a ∷ b ∷ hs)) ≡ ltb (2 * i + 1) (length hs) =
        ground arith in
      rw left (rw right (rw same (tree_node-pair_level hs i (omega arith))))

  -- the tree over a level is the tree over the leaves, one level lower
  tree_node_up :
      (hs : List Bytes) (k i : ℕ)
      → i < width (suc k) (length hs)
      → tree_node hs (suc k) i ≡ tree_node (pair_level hs) k i
  unfolding tree_node width
  tree_node_up hs zero i h = tree_node-pair_level hs i h
  tree_node_up hs (suc k) i h =
      let w = width (suc k) (length hs) in
      let same : width k (length (pair_level hs)) ≡ w =
        ap (width k) (length-pair_level hs) ∙ sym (width_up k (length hs)) in
      let left = tree_node_up hs k (2 * i) (omega (arith, h)) in
      elim (Bool-cases (ltb (2 * i + 1) w)) [
        | inl both ↦
            let right = tree_node_up hs k (2 * i + 1) (ground (arith, both)) in
            let both' : ltb (2 * i + 1) (width k (length (pair_level hs))) ≡ true =
              ap (ltb (2 * i + 1)) same ∙ both in
            rw (both, both') (ap₂ node left right)
        | inr alone ↦
            let alone' : ltb (2 * i + 1) (width k (length (pair_level hs))) ≡ false =
              ap (ltb (2 * i + 1)) same ∙ alone in
            rw (alone, alone') (ap₂ node left left)
      ]

  alone-IsHeight : (n : ℕ) → n ≡ 1 → IsHeight 0 n
  unfolding width
  alone-IsHeight n h = record { single = h; more = λ j below. absurd (omega (arith, below)) }

  up-IsHeight :
      (k : ℕ) (hs : List Bytes)
      → 1 < length hs
      → IsHeight k (length (pair_level hs))
      → IsHeight (suc k) (length hs)
  unfolding width
  up-IsHeight k hs many h = record {
    single = width_up k (length hs) ∙ ap (width k) (sym (length-pair_level hs)) ∙ h.single;
    more = more;
  }
    where
      more : (j : ℕ) → j < suc k → 1 < width j (length hs)
      more zero below = many
      more (suc j) below =
          subst (λ w. 1 < w) (ap (width j) (length-pair_level hs) ∙ sym (width_up j (length hs)))
            (h.more j (omega (arith, below)))

  reduce-tree_node :
      (fuel : ℕ) (hs : List Bytes)
      → 0 < length hs
      → length hs ≤ suc fuel
      → (k : ℕ) × IsHeight k (length hs) × (get_or (reduce fuel hs) 0 [] ≡ tree_node hs k 0)
  unfolding reduce tree_node
  reduce-tree_node zero hs h b = (0, alone-IsHeight (length hs) (omega arith), refl)
  reduce-tree_node (suc fuel) hs h b = elim (Bool-cases (ltb 1 (length hs))) [
    | inl many ↦
        let size = length-pair_level hs in
        let more : 1 < length hs = ground (arith, many) in
        let (k, ht, e) =
          reduce-tree_node fuel (pair_level hs) (omega (arith, size, more))
            (omega (arith, size, more)) in
        let up = up-IsHeight k hs more ht in
        (suc k, up, rw many (e ∙ sym (tree_node_up hs k 0 (omega (arith, up.single)))))
    | inr one ↦ (0, alone-IsHeight (length hs) (ground (arith, one)), rw one refl)
  ]

  -- The root of leaves, at least one, is the top of the tree over their digests: for the number `k` of
  -- levels above which a single node is left for the first time, it is the node at place 0 on level
  -- `k`, where each node is the digest of the two below it, or of the last one twice on a level of odd
  -- width. The fuel of the loop is enough to get there.
  pub root-tree_node :
      (leaves : List Bytes)
      → 0 < length leaves
      → (k : ℕ) × IsHeight k (length leaves)
        × (root leaves ≡ encode_to_string (tree_node (map H.sum256 leaves) k 0))
  unfolding root
  root-tree_node leaves h =
      let size : length (map H.sum256 leaves) ≡ length leaves = length-map H.sum256 leaves in
      let some_leaf : (length leaves == 0) ≡ false = ground (arith, h) in
      let (k, ht, e) =
        reduce-tree_node (length leaves) (map H.sum256 leaves) (omega (arith, size))
          (omega (arith, size)) in
      (k, subst (IsHeight k) size ht, rw some_leaf (ap encode_to_string e))
