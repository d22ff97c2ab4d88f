-- ===== src/Engine/Agreement.antt =====
-- `Commit` beside `applyLoaded`: the block that the one writes, as the other loads it.
use agidb_on_chain.Base.{
  ℕ, ◌≡◌, refl, sym, ◌∙◌, ap, ap₂, List, [], ◌∷◌, ◌++◌, Bytes, beq_refl, arith,
}
use agidb_on_chain.Go.Maps
use agidb_on_chain.Go.Maps.{GoMap, keys, Distinct}
use agidb_on_chain.Go.Json.{JsonText}
use agidb_on_chain.Go.Sha256.{Sha256}
use agidb_on_chain.Merkle.{prefix_root, state_root}
use agidb_on_chain.Merkle.Order.{SameMap, prefix_root_congr}
use agidb_on_chain.Model.{Transaction, Block}
use agidb_on_chain.Result.{ok}
use agidb_on_chain.Engine.{Engine, last_hash, apply_txs, count_txs, commit_txs, filter_txs}
use agidb_on_chain.Engine.Roots.{
  clone_state, clone_state-SameMap, clone_state-Distinct, contract_aggregate_root_congr,
}
use agidb_on_chain.Engine.Committing.{hash_block, new_header, new_block, install}
use agidb_on_chain.Engine.Loading.{check_links, check_roots, apply_loaded}
use agidb_on_chain.Engine.Effects.{
  put_txs, put_txs-Distinct, put_txs_congr, state-apply_txs, blocks-commit_txs,
  commit_txs-apply_txs,
}
use agidb_on_chain.Engine.Suppression.{IsFilteredTxs, filter_txs-IsFilteredTxs}

module _ ⦃H : Sha256⦄ ⦃J : JsonText⦄ where
  -- the record hash covers the block but for the record hash itself
  hash-new_block :
      (now : ℕ) (blocks : List Block) (next : GoMap Bytes) (txs : List Transaction)
      → hash_block (new_block now blocks next txs)
        ≡ (new_block now blocks next txs).header.record_hash
  unfolding hash_block new_block
  hash-new_block now blocks next txs = refl

  check_links-new_block :
      (now : ℕ) (blocks : List Block) (next : GoMap Bytes) (txs : List Transaction)
      → check_links blocks (new_block now blocks next txs) ≡ ok tt
  unfolding check_links
  check_links-new_block now blocks next txs =
      rw
        (
          hash-new_block now blocks next txs,
          beq_refl (new_block now blocks next txs).header.record_hash,
        )
        (unfold new_block new_header in rw (beq_refl (last_hash blocks)) (ground arith))

  -- the roots of a new block are those of every map that holds what the next state holds
  check_roots-new_block :
      (now : ℕ) (blocks : List Block) (next s : GoMap Bytes) (txs : List Transaction)
      → Distinct (keys s)
      → Distinct (keys next)
      → SameMap s next
      → check_roots s (new_block now blocks next txs).header ≡ ok tt
  unfolding check_roots new_block new_header
  check_roots-new_block now blocks next s txs ds dn same =
      let roots : (p : Bytes) → prefix_root s p ≡ prefix_root next p =
        λ p. prefix_root_congr s next p ds dn same in
      let whole : state_root s ≡ state_root next = unfold state_root in roots [] in
      simp (roots, whole, contract_aggregate_root_congr s next ds dn same, beq_refl)

  module _ {F : Type 0} where
    -- A block whose checks pass is loaded as `Commit` installs it.
    pub apply_loaded-install :
        (e : Engine F) (b : Block)
        → check_links e.blocks b ≡ ok tt
        → check_roots (put_txs e.state b.transactions) b.header ≡ ok tt
        → apply_loaded e b ≡ ok (install e b)
    unfolding apply_loaded install
    apply_loaded-install e b links roots =
        let same : commit_txs b.header.height e b.transactions
            ≡ count_txs (apply_txs b.header.height e b.transactions) b.transactions =
          commit_txs-apply_txs b.header.height e b.transactions in
        let roots' : check_roots (apply_txs b.header.height e b.transactions).state b.header
            ≡ ok tt =
          ap (λ s. check_roots s b.header) (state-apply_txs b.header.height e b.transactions)
          ∙ roots in
        rw (links, roots')
          (ap₂ (λ (d : Engine F) (bs : List Block). ok (record d { blocks = bs ++ (b ∷ []) }))
            (sym same) (sym (blocks-commit_txs b.header.height e b.transactions)))

    -- A new block over what the filter kept is loaded as it is installed.
    pub apply_loaded-new_block :
        (now : ℕ) (e : Engine F) (txs kept : List Transaction) (next : GoMap Bytes)
        → Distinct (keys e.state)
        → filter_txs (clone_state e.state) txs ≡ ok (next, kept)
        → apply_loaded e (new_block now e.blocks next kept)
          ≡ ok (install e (new_block now e.blocks next kept))
    apply_loaded-new_block now e txs kept next d h =
        let f : IsFilteredTxs (clone_state e.state) txs (next, kept) =
          filter_txs-IsFilteredTxs (clone_state e.state) txs (next, kept) h in
        let same : SameMap (put_txs e.state kept) next = λ k.
          sym (put_txs_congr (clone_state e.state) e.state kept (clone_state-SameMap e.state d) k)
          ∙ ap (λ m. Maps.lookup m k) (sym f.exact) in
        apply_loaded-install e (new_block now e.blocks next kept)
          (check_links-new_block now e.blocks next kept)
          (unfold new_block in
            check_roots-new_block now e.blocks next (put_txs e.state kept) kept
              (put_txs-Distinct e.state kept d)
              (rw f.exact
                (put_txs-Distinct (clone_state e.state) kept (clone_state-Distinct e.state)))
              same)
