-- ===== src/Merkle/Climb.antt =====
-- The path that `StateProof` builds, step by step, and the loop of `VerifyProof` over it.
use native.Mathlib.Decide.{dec_lt}
use agidb_on_chain.Base.{
  ℕ, zero, suc, ◌+◌, ◌-◌, ◌/◌, ◌%◌, ◌≤◌, ◌<◌, ◌≡◌, sym, ◌∙◌, some, List, [], ◌∷◌, Bytes, IsByte,
  All, All-get_or, length, get_or, ltb, leb, ◌==◌, if◌then◌else◌, arith,
}
use agidb_on_chain.Go.Sha256.{Sha256}
use agidb_on_chain.Go.Hex.{encode_to_string, decode_string, decode_string-encode_to_string}
use agidb_on_chain.Merkle.{ProofStep, node, pair_level, reduce, sibling, proof_path, climb}
use agidb_on_chain.Merkle.Levels.{length-pair_level, bit_xor-one}

sibling_lem :
    (pos size : ℕ)
    → sibling pos size ≡ (
        if pos % 2 == 0
        then (if leb size (pos + 1) then pos else pos + 1)
        else (if leb size (pos - 1) then pos else pos - 1))
unfolding sibling
sibling_lem pos size = ground (arith, bit_xor-one pos)

sibling-suc :
    (pos size : ℕ) → sibling (suc (suc pos)) (suc (suc size)) ≡ suc (suc (sibling pos size))
sibling-suc pos size =
    ground (arith, sibling_lem pos size, sibling_lem (suc (suc pos)) (suc (suc size)))

module _ ⦃H : Sha256⦄ where
  -- the parent of a node, from the node and its sibling
  abbrev parent : List Bytes → ℕ → Bytes
  parent hs pos =
      let sib = sibling pos (length hs) in
      if ltb sib pos
      then node (get_or hs sib []) (get_or hs pos [])
      else node (get_or hs pos []) (get_or hs sib [])

  parent-cons_cons :
      (a b : Bytes) (hs : List Bytes) (pos : ℕ)
      → parent (a ∷ b ∷ hs) (suc (suc pos)) ≡ parent hs pos
  parent-cons_cons a b hs pos = rw (sibling-suc pos (length hs)) (ground arith)

  get_or-pair_level :
      (hs : List Bytes) (pos : ℕ)
      → pos < length hs
      → get_or (pair_level hs) (pos / 2) [] ≡ parent hs pos
  unfolding pair_level
  get_or-pair_level [] pos h = absurd (omega arith)
  get_or-pair_level (a ∷ []) zero h = rw (sibling_lem 0 1)
  get_or-pair_level (a ∷ []) (suc pos) h = absurd (omega arith)
  get_or-pair_level (a ∷ b ∷ hs) zero h = rw (sibling_lem 0 (suc (suc (length hs)))) (ground arith)
  get_or-pair_level (a ∷ b ∷ hs) (suc zero) h =
      rw (sibling_lem 1 (suc (suc (length hs)))) (ground arith)
  get_or-pair_level (a ∷ b ∷ hs) (suc (suc pos)) h =
      let half : suc (suc pos) / 2 ≡ suc (pos / 2) = omega arith in
      rw half (get_or-pair_level hs pos (omega arith) ∙ sym (parent-cons_cons a b hs pos))

  pub sibling-lt-length : (pos size : ℕ) → pos < size → sibling pos size < size
  sibling-lt-length pos size h = ground (arith, sibling_lem pos size)

  node-IsByte : (l r : Bytes) → All IsByte (node l r)
  unfolding node
  node-IsByte l r = H.sum256-IsByte _

  pair_level-IsByte : (hs : List Bytes) → All (All IsByte) (pair_level hs)
  unfolding pair_level
  pair_level-IsByte [] = tt
  pair_level-IsByte (a ∷ []) = (node-IsByte a a, tt)
  pair_level-IsByte (a ∷ b ∷ hs) = (node-IsByte a b, pair_level-IsByte hs)

  decode-get_or :
      (hs : List Bytes) (i : ℕ)
      → All (All IsByte) hs
      → i < length hs
      → decode_string (encode_to_string (get_or hs i [])) ≡ some (get_or hs i [])
  decode-get_or hs i bytes h =
      decode_string-encode_to_string (get_or hs i []) (All-get_or (All IsByte) hs i [] bytes h)

  pub climb-cons :
      (cur : Bytes) (st : ProofStep) (path : List ProofStep) (sib : Bytes)
      → decode_string st.hash ≡ some sib
      → climb cur (st ∷ path) ≡ climb (if st.left then node sib cur else node cur sib) path
  unfolding climb
  climb-cons cur st path sib e = rw (e, climb)

  proof_path-cons :
      (fuel pos : ℕ) (hs : List Bytes)
      → 1 < length hs
      → proof_path (suc fuel) pos hs
        ≡ record {
          hash = encode_to_string (get_or hs (sibling pos (length hs)) []);
          left = ltb (sibling pos (length hs)) pos;
        }
          ∷ proof_path fuel (pos / 2) (pair_level hs)
  unfolding proof_path
  proof_path-cons fuel pos hs h = ground arith

  reduce-suc :
      (fuel : ℕ) (hs : List Bytes)
      → 1 < length hs
      → reduce (suc fuel) hs ≡ reduce fuel (pair_level hs)
  unfolding reduce
  reduce-suc fuel hs h = ground arith

  climb-single :
      (fuel pos : ℕ) (hs : List Bytes)
      → pos < length hs
      → length hs ≤ 1
      → climb (get_or hs pos []) (proof_path fuel pos hs) ≡ some (get_or (reduce fuel hs) 0 [])
  unfolding climb proof_path reduce
  climb-single zero pos hs h b = let first : pos ≡ 0 = omega arith in rw first
  climb-single (suc fuel) pos hs h b = let first : pos ≡ 0 = omega arith in rw first (ground arith)

  -- From a node of a level the steps of its path lead to the last node that the levels leave.
  pub climb-proof_path :
      (fuel pos : ℕ) (hs : List Bytes)
      → All (All IsByte) hs
      → pos < length hs
      → length hs ≤ suc fuel
      → climb (get_or hs pos []) (proof_path fuel pos hs) ≡ some (get_or (reduce fuel hs) 0 [])
  climb-proof_path zero pos hs bytes h b = climb-single zero pos hs h b
  climb-proof_path (suc fuel) pos hs bytes h b = elim (dec_lt 1 (length hs)) [
    | no last ↦ climb-single (suc fuel) pos hs h (omega arith)
    | yes more ↦
        let up : climb (get_or (pair_level hs) (pos / 2) [])
              (proof_path fuel (pos / 2) (pair_level hs))
            ≡ some (get_or (reduce fuel (pair_level hs)) 0 []) =
          climb-proof_path fuel (pos / 2) (pair_level hs) (pair_level-IsByte hs)
            (omega (arith, length-pair_level hs)) (omega (arith, length-pair_level hs)) in
        rw (proof_path-cons fuel pos hs more, reduce-suc fuel hs more)
          (climb-cons (get_or hs pos []) _ (proof_path fuel (pos / 2) (pair_level hs))
              (get_or hs (sibling pos (length hs)) [])
              (decode-get_or hs (sibling pos (length hs)) bytes
                (sibling-lt-length pos (length hs) h))
            ∙ rw (← get_or-pair_level hs pos h) up)
  ]
