-- ===== src/Merkle/Completeness.antt =====
-- `VerifyProof` on what `StateProof` builds.
use agidb_on_chain.Base.{
  ◌<◌, ◌≡◌, refl, sym, ◌∙◌, ap, true, false, inl, inr, some, List, [], ◌∷◌, map, Bytes, IsByte, All,
  length, length-map, get_or, get_or-map, beq, beq_iff, Option-cases, arith,
}
use agidb_on_chain.Go.Sha256.{Sha256}
use agidb_on_chain.Go.Hex.{encode_to_string}
use agidb_on_chain.Go.Maps.{GoMap, keys, lookup, Distinct, is_some, contains, contains-keys}
use agidb_on_chain.Go.Sort.{
  sort_strings, search_strings, contains-sort_strings, sort_strings-IsAscending,
  search_strings-contains, contains-get_or,
}
use agidb_on_chain.Merkle.{
  Proof, reduce, proof_path, climb, keys_under, root, state_root, leaf, value_of, state_proof,
  verify_proof,
}
use agidb_on_chain.Merkle.Climb.{climb-proof_path}

module _ ⦃H : Sha256⦄ where
  -- When `VerifyProof` accepts.
  pub verify_proof_intro :
      (p : Proof) (top : Bytes)
      → p.exists ≡ true
      → encode_to_string (H.sum256 (leaf p.key p.value)) ≡ p.leaf_hash
      → climb (H.sum256 (leaf p.key p.value)) p.path ≡ some top
      → encode_to_string top ≡ p.root
      → verify_proof p ≡ true
  unfolding verify_proof
  verify_proof_intro p top there same path same_root = ground (
    arith,
    beq_iff (encode_to_string (H.sum256 (leaf p.key p.value))) p.leaf_hash,
    beq_iff (encode_to_string top) p.root,
  )

  pub verify_proof_elim :
      (p : Proof)
      → verify_proof p ≡ true
      → (top : Bytes) × (p.exists ≡ true)
        × (climb (H.sum256 (leaf p.key p.value)) p.path ≡ some top)
        × (encode_to_string top ≡ p.root)
  unfolding verify_proof
  verify_proof_elim p h = elim (Option-cases (climb (H.sum256 (leaf p.key p.value)) p.path)) [
    | inl bad ↦ ground arith
    | inr (top, good) ↦
        (top, ground arith, good, ground (arith, beq_iff (encode_to_string top) p.root))
  ]

  unfoldable pub leaf_digests : GoMap Bytes → List Bytes → List Bytes
  leaf_digests s ks = map (λ k. H.sum256 (leaf k (value_of s k))) ks

  leaf_digests-IsByte : (s : GoMap Bytes) (ks : List Bytes) → All (All IsByte) (leaf_digests s ks)
  unfolding leaf_digests
  leaf_digests-IsByte s [] = tt
  leaf_digests-IsByte s (k ∷ ks) = (H.sum256-IsByte _, leaf_digests-IsByte s ks)

  length-leaf_digests : (s : GoMap Bytes) (ks : List Bytes) → length (leaf_digests s ks) ≡ length ks
  unfolding leaf_digests
  length-leaf_digests s ks = length-map (λ k. H.sum256 (leaf k (value_of s k))) ks

  -- the digests that `Root` makes of the leaves are those of `StateProof`
  map-leaves :
      (s : GoMap Bytes) (ks : List Bytes)
      → map H.sum256 (map (λ k. leaf k (value_of s k)) ks) ≡ leaf_digests s ks
  unfolding leaf_digests
  map-leaves s [] = refl
  map-leaves s (k ∷ ks) = ap (λ hs. H.sum256 (leaf k (value_of s k)) ∷ hs) (map-leaves s ks)

  keys_under-nil : (ks : List Bytes) → keys_under ks [] ≡ ks
  unfolding keys_under beq
  keys_under-nil [] = refl
  keys_under-nil (k ∷ ks) = ap (λ js. k ∷ js) (keys_under-nil ks)

  state_root_lem :
      (s : GoMap Bytes)
      → 0 < length (sort_strings (keys s))
      → state_root s
        ≡ encode_to_string (
            get_or
              (reduce (length (sort_strings (keys s))) (leaf_digests s (sort_strings (keys s))))
              0
              [])
  unfolding state_root root
  state_root_lem s h =
      rw
        (
          keys_under-nil (keys s),
          map-leaves s (sort_strings (keys s)),
          length-map (λ k. leaf k (value_of s k)) (sort_strings (keys s)),
        )
        (ground arith)

  pub key-state_proof : (s : GoMap Bytes) (key : Bytes) → (state_proof s key).key ≡ key
  unfolding state_proof
  key-state_proof s key = ground arith

  module _ (s : GoMap Bytes) (key : Bytes) (distinct : Distinct (keys s)) where
    -- the sorted keys, and the place of a key that is there
    abbrev ks : List Bytes
    ks = sort_strings (keys s)

    found :
        contains (keys s) key ≡ true
        → (search_strings ks key < length ks) × (get_or ks (search_strings ks key) [] ≡ key)
    found h =
        search_strings-contains ks key (sort_strings-IsAscending (keys s) distinct)
          (rw contains-sort_strings h)

    in_range :
        search_strings ks key < length ks
        → get_or ks (search_strings ks key) [] ≡ key
        → contains (keys s) key ≡ true
    in_range h e =
        sym (contains-sort_strings (keys s) key)
        ∙ rw (← e) (contains-get_or ks (search_strings ks key) h)

    -- the place and the digest of the leaf
    digest_found :
        contains (keys s) key ≡ true
        → get_or (leaf_digests s ks) (search_strings ks key) []
          ≡ H.sum256 (leaf key (value_of s key))
    unfolding leaf_digests
    digest_found h =
        get_or-map (λ k. H.sum256 (leaf k (value_of s k))) ks (search_strings ks key) [] []
          (found h).0
        ∙ ap (λ k. H.sum256 (leaf k (value_of s k))) (found h).1

    -- what `StateProof` returns for a key of the state
    pub state_proof_found :
        contains (keys s) key ≡ true
        → state_proof s key ≡ record {
          key = key;
          value = value_of s key;
          exists = true;
          leaf_hash = encode_to_string (H.sum256 (leaf key (value_of s key)));
          root = state_root s;
          index = search_strings ks key;
          total = length ks;
          path = proof_path (length ks) (search_strings ks key) (leaf_digests s ks);
        }
    unfolding state_proof leaf_digests
    state_proof_found h =
        ground (arith, found h, digest_found h, beq_iff (get_or ks (search_strings ks key) []) key)

    climbs :
        contains (keys s) key ≡ true
        → climb
            (H.sum256 (leaf key (value_of s key)))
            (proof_path (length ks) (search_strings ks key) (leaf_digests s ks))
          ≡ some (get_or (reduce (length ks) (leaf_digests s ks)) 0 [])
    climbs h = rw (← digest_found h) (
        climb-proof_path (length ks) (search_strings ks key) (leaf_digests s ks)
          (leaf_digests-IsByte s ks) (omega (arith, (found h).0, length-leaf_digests s ks))
          (omega (arith, length-leaf_digests s ks)))

    verify_proof_found : contains (keys s) key ≡ true → verify_proof (state_proof s key) ≡ true
    verify_proof_found h = rw (state_proof_found h) (
        verify_proof_intro _ (get_or (reduce (length ks) (leaf_digests s ks)) 0 []) refl refl
          (climbs h) (sym (state_root_lem s (omega (arith, (found h).0)))))

    pub exists-state_proof : (state_proof s key).exists ≡ is_some (lookup s key)
    unfolding state_proof
    exists-state_proof = ground (
      arith,
      found,
      in_range,
      contains-keys s key,
      beq_iff (get_or ks (search_strings ks key) []) key,
    )

    root-state_proof : (state_proof s key).root ≡ state_root s
    unfolding state_proof
    root-state_proof = ground arith

    value-state_proof : (state_proof s key).value ≡ value_of s key
    unfolding state_proof value_of
    value-state_proof =
        ground
          (arith, found, contains-keys s key, beq_iff (get_or ks (search_strings ks key) []) key)

    verify_proof_absent : (p : Proof) → p.exists ≡ false → verify_proof p ≡ false
    unfolding verify_proof
    verify_proof_absent p h = ground arith

    -- On a map with distinct keys `VerifyProof` accepts the proof that `StateProof` builds exactly when
    -- the key is in the map, and the proof carries the map's value and its root.
    pub verify_proof-state_proof :
        (verify_proof (state_proof s key) ≡ is_some (lookup s key))
        × ((state_proof s key).value ≡ value_of s key)
        × ((state_proof s key).root ≡ state_root s)
    verify_proof-state_proof = (
      ground (
        arith,
        verify_proof_found,
        exists-state_proof,
        contains-keys s key,
        verify_proof_absent (state_proof s key),
      ),
      value-state_proof,
      root-state_proof,
    )
