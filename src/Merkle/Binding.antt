-- ===== src/Merkle/Binding.antt =====
-- `VerifyProof` of merkle.go against proofs that `StateProof` did not build.
use agidb_on_chain.Base.{
  ◌≡◌, ◌≢◌, refl, sym, ◌∙◌, ap, Bool, true, false, ◌⊎◌, inl, inr, none, some, List, [], ◌∷◌, ◌++◌,
  map, Bytes, Bytes-discrete, IsByte, All, length, length-append, if◌then◌else◌, Option-cases,
  arith,
}
use agidb_on_chain.Go.Sha256.{Sha256}
use agidb_on_chain.Go.Hex.{encode_to_string, decode_string, decode_string-encode_to_string}
use agidb_on_chain.Merkle.{
  Proof, ProofStep, node, climb, leaf, value_of, state_root, state_proof, verify_proof,
}
use agidb_on_chain.Go.Maps.{GoMap, keys, lookup, Distinct, is_some}
use mathlib.Core.Option.{some-injective}
use agidb_on_chain.Merkle.Climb.{climb-cons}
use agidb_on_chain.Merkle.Completeness.{
  verify_proof_elim, key-state_proof, verify_proof-state_proof,
}

-- the sides on which the siblings of a path stand
abbrev pub sides : List ProofStep → List Bool
sides path = map (λ st. st.left) path

append_parts : (a b c d : Bytes) → length a ≡ length b → a ++ c ≡ b ++ d → (a ≡ b) × (c ≡ d)
append_parts [] [] c d h e = (refl, e)
append_parts [] (y ∷ b) c d h e = absurd (omega arith)
append_parts (x ∷ a) [] c d h e = absurd (omega arith)
append_parts (x ∷ a) (y ∷ b) c d h e = ground (arith, append_parts a b c d)

append_parts_right : (a b c d : Bytes) → length c ≡ length d → a ++ c ≡ b ++ d → (a ≡ b) × (c ≡ d)
append_parts_right a b c d h e =
    append_parts a b c d (omega (arith, ap length e, length-append a c, length-append b d)) e

-- no byte of a key is the separator
abbrev pub IsNulFree : Bytes → Type 0
IsNulFree k = All (λ b. b ≢ 0) k

pub leaf_injective :
    (k j v w : Bytes) → IsNulFree k → IsNulFree j → leaf k v ≡ leaf j w → (k ≡ j) × (v ≡ w)
unfolding leaf
leaf_injective [] [] v w a b e = (refl, ground arith)
leaf_injective [] (y ∷ j) v w a b e = absurd (ground (arith, b.0))
leaf_injective (x ∷ k) [] v w a b e = absurd (ground (arith, a.0))
leaf_injective (x ∷ k) (y ∷ j) v w a b e = ground (arith, leaf_injective k j v w a.1 b.1)

module _ ⦃H : Sha256⦄ where
  -- two different inputs with one digest
  abbrev pub Collision : Type 0
  Collision = (x : Bytes) × (y : Bytes) × (x ≢ y) × (H.sum256 x ≡ H.sum256 y)

  same_input : (x y : Bytes) → H.sum256 x ≡ H.sum256 y → (x ≡ y) ⊎ Collision
  same_input x y e = elim (Bytes-discrete x y) [ yes p ↦ inl p | no n ↦ inr (x, y, n, e) ]

  -- the parent of a node, with its sibling on the given side
  abbrev up : Bool → Bytes → Bytes → Bytes
  up left sib cur = if left then node sib cur else node cur sib

  up_injective :
      (left : Bool) (s t c d : Bytes)
      → length c ≡ length d
      → up left s c ≡ up left t d
      → (c ≡ d) ⊎ Collision
  unfolding node
  up_injective true s t c d h e = elim (same_input (s ++ c) (t ++ d) e) [
    | inl p ↦ inl (append_parts_right s t c d h p).1
    | inr q ↦ inr q
  ]
  up_injective false s t c d h e = elim (same_input (c ++ s) (d ++ t) e) [
    | inl p ↦ inl (append_parts c d s t h p).0
    | inr q ↦ inr q
  ]

  length-up : (left : Bool) (s c : Bytes) → length (up left s c) ≡ 32
  unfolding node
  length-up true s c = H.length-sum256 (s ++ c)
  length-up false s c = H.length-sum256 (c ++ s)

  up-IsByte : (left : Bool) (s c : Bytes) → All IsByte (up left s c)
  unfolding node
  up-IsByte true s c = H.sum256-IsByte (s ++ c)
  up-IsByte false s c = H.sum256-IsByte (c ++ s)

  climb-bad :
      (cur : Bytes) (st : ProofStep) (path : List ProofStep)
      → decode_string st.hash ≡ none
      → climb cur (st ∷ path) ≡ none
  unfolding climb
  climb-bad cur st path e = rw (e, climb)

  -- what a climb that succeeds did first
  climb_inv :
      (cur : Bytes) (st : ProofStep) (path : List ProofStep) (top : Bytes)
      → climb cur (st ∷ path) ≡ some top
      → (sib : Bytes) × (climb (up st.left sib cur) path ≡ some top)
  climb_inv cur st path top e = elim (Option-cases (decode_string st.hash)) [
    | inl bad ↦ cc (climb-bad cur st path bad)
    | inr (sib, good) ↦ (sib, sym (climb-cons cur st path sib good) ∙ e)
  ]

  climb-IsByte :
      (cur : Bytes) (path : List ProofStep) (top : Bytes)
      → All IsByte cur
      → climb cur path ≡ some top
      → All IsByte top
  unfolding climb
  climb-IsByte cur [] top h e = ground arith
  climb-IsByte cur (st ∷ path) top h e =
      let (sib, next) = climb_inv cur st path top e in
      climb-IsByte (up st.left sib cur) path top (up-IsByte st.left sib cur) next

  climb_injective :
      (c d : Bytes) (p q : List ProofStep) (top : Bytes)
      → sides p ≡ sides q
      → length c ≡ length d
      → climb c p ≡ some top
      → climb d q ≡ some top
      → (c ≡ d) ⊎ Collision
  climb_injective c d [] [] top s h e f = inl (unfold climb in cc)
  climb_injective c d [] (u ∷ q) top s h e f = cc
  climb_injective c d (t ∷ p) [] top s h e f = cc
  climb_injective c d (t ∷ p) (u ∷ q) top s h e f =
      let (sib, next) = climb_inv c t p top e in
      let (sib', next') = climb_inv d u q top f in
      let side : t.left ≡ u.left = cc in
      elim (climb_injective (up t.left sib c) (up u.left sib' d) p q top (cc)
        (length-up t.left sib c ∙ sym (length-up u.left sib' d)) next next') [
          | inl same ↦ up_injective u.left sib sib' c d h (rw side at same)
          | inr collision ↦ inr collision
        ]

  encode_injective :
      (a b : Bytes) → All IsByte a → All IsByte b → encode_to_string a ≡ encode_to_string b → a ≡ b
  encode_injective a b ha hb e = some-injective a b (
      sym (decode_string-encode_to_string a ha)
      ∙ ap decode_string e
      ∙ decode_string-encode_to_string b hb)

  same_leaf :
      (p q : Proof)
      → verify_proof p ≡ true
      → verify_proof q ≡ true
      → p.root ≡ q.root
      → sides p.path ≡ sides q.path
      → (leaf p.key p.value ≡ leaf q.key q.value) ⊎ Collision
  same_leaf p q hp hq r s =
      let (t, _, climbed, at_root) = verify_proof_elim p hp in
      let (u, _, climbed', at_root') = verify_proof_elim q hq in
      let c = H.sum256 (leaf p.key p.value) in
      let d = H.sum256 (leaf q.key q.value) in
      let tops : t ≡ u =
        encode_injective t u (climb-IsByte c p.path t (H.sum256-IsByte _) climbed)
          (climb-IsByte d q.path u (H.sum256-IsByte _) climbed') (at_root ∙ r ∙ sym at_root') in
      elim (climb_injective c d p.path q.path u s (H.length-sum256 _ ∙ sym (H.length-sum256 _))
        (climbed ∙ ap some tops) climbed') [
          | inl same ↦ same_input _ _ same
          | inr collision ↦ inr collision
        ]

  -- Two accepted proofs with one root and siblings on the same sides, for keys without a NUL byte,
  -- are for one key and one value, or a collision of SHA-256 is at hand.
  pub verify_proof_binding :
      (p q : Proof)
      → IsNulFree p.key
      → IsNulFree q.key
      → verify_proof p ≡ true
      → verify_proof q ≡ true
      → p.root ≡ q.root
      → sides p.path ≡ sides q.path
      → ((p.key ≡ q.key) × (p.value ≡ q.value)) ⊎ Collision
  verify_proof_binding p q np nq hp hq r s = elim (same_leaf p q hp hq r s) [
    | inl same ↦ inl (leaf_injective p.key q.key p.value q.value np nq same)
    | inr collision ↦ inr collision
  ]

  -- A proof that is accepted for the root of a state, with the siblings on the sides of the place of
  -- `key`, and for a key without a NUL byte, claims `key` and the value that the state has under it,
  -- or a collision of SHA-256 is at hand.
  pub verify_proof_sound :
      (s : GoMap Bytes) (key : Bytes) (p : Proof)
      → Distinct (keys s)
      → is_some (lookup s key) ≡ true
      → IsNulFree key
      → IsNulFree p.key
      → verify_proof p ≡ true
      → p.root ≡ state_root s
      → sides p.path ≡ sides (state_proof s key).path
      → ((p.key ≡ key) × (p.value ≡ value_of s key)) ⊎ Collision
  verify_proof_sound s key p d h nk np hp r side =
      let (accepted, value, root) = verify_proof-state_proof s key d in
      let same_key : (state_proof s key).key ≡ key = key-state_proof s key in
      elim (verify_proof_binding p (state_proof s key) np (rw same_key nk) hp (accepted ∙ h)
        (r ∙ sym root) side) [
          | inl (k, v) ↦ inl (k ∙ same_key, v ∙ value)
          | inr collision ↦ inr collision
        ]
