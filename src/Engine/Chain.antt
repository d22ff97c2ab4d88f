-- ===== src/Engine/Chain.antt =====
-- The links of the blocks of engine.go: heights, previous hashes and record hashes.
use agidb_on_chain.Base.{
  ℕ, zero, suc, ◌+◌, ◌-◌, ◌^◌, ◌%◌, ◌≤◌, ◌<◌, ◌≡◌, refl, sym, ◌∙◌, ap, some, List, [], ◌∷◌, ◌++◌,
  Bytes, length, length-append, get_elem?, beq, beq_iff, ◌==◌, ==_iff, arith,
}
use agidb_on_chain.Go.Json.{JsonText}
use agidb_on_chain.Go.Sha256.{Sha256}
use agidb_on_chain.Model.{Block}
use agidb_on_chain.Result.{ok, require, require_ok, links_of_ok}
use agidb_on_chain.Engine.{Engine, new_engine, u64, last_hash}
use agidb_on_chain.Engine.Committing.{hash_block}
use agidb_on_chain.Engine.Loading.{check_links, apply_loaded, load_all}
use agidb_on_chain.Engine.Reading.{block_at}
use agidb_on_chain.Engine.Replay.{IsReplay, apply_loaded-inv, blocks-install}

pub last_hash-append :
    (bs : List Block) (b : Block) → last_hash (bs ++ (b ∷ [])) ≡ b.header.record_hash
unfolding last_hash
last_hash-append [] b = refl
last_hash-append (c ∷ []) b = refl
last_hash-append (c ∷ d ∷ bs) b = last_hash-append (d ∷ bs) b

module _ ⦃H : Sha256⦄ ⦃J : JsonText⦄ where
  -- blocks that follow `n` blocks, the last of which has the hash `prev`
  abbrev pub IsChain : Bytes → ℕ → List Block → Type 0
  IsChain prev n [] = Unit
  IsChain prev n (b ∷ bs) =
      (b.header.height ≡ n + 1)
      × (b.header.prev_hash ≡ prev)
      × (hash_block b ≡ b.header.record_hash)
      × IsChain b.header.record_hash (n + 1) bs

  -- what the checks of the links find
  links :
      (blocks : List Block) (b : Block)
      → length blocks + 1 < 2 ^ 64
      → check_links blocks b ≡ ok tt
      → (b.header.height ≡ length blocks + 1)
        × (b.header.prev_hash ≡ last_hash blocks)
        × (hash_block b ≡ b.header.record_hash)
  unfolding check_links
  links blocks b small h =
      let (u, first, rest) =
        links_of_ok (require (b.header.height == u64 (length blocks + 1)) _) _ h in
      let (v, second, third) =
        links_of_ok (require (beq b.header.prev_hash (last_hash blocks)) _) _ rest in
      let same : b.header.height ≡ (length blocks + 1) % 2 ^ 64 =
        (==_iff b.header.height (u64 (length blocks + 1))).0 (require_ok _ _ u first) in
      (
        omega arith,
        (beq_iff _ _).0 (require_ok _ _ v second),
        (beq_iff _ _).0 (require_ok _ _ tt third),
      )

  module _ {F : Type 0} where
    load_all-IsChain :
        (e : Engine F) (bs : List Block) (e' : Engine F)
        → length e.blocks + length bs < 2 ^ 64
        → load_all e bs ≡ ok e'
        → IsChain (last_hash e.blocks) (length e.blocks) bs
    unfolding load_all
    load_all-IsChain e [] e' small h = tt
    load_all-IsChain e (b ∷ bs) e' small h =
        let (e₁, loaded, rest) = links_of_ok (apply_loaded e b) (λ x. load_all x bs) h in
        let (checked, _, same) = apply_loaded-inv e b e₁ loaded in
        let grown : e₁.blocks ≡ e.blocks ++ (b ∷ []) =
          ap (λ (d : Engine F). d.blocks) (sym same) ∙ blocks-install e b in
        let size : length e₁.blocks ≡ length e.blocks + 1 =
          ap length grown ∙ length-append e.blocks (b ∷ []) in
        let top : last_hash e₁.blocks ≡ b.header.record_hash =
          ap last_hash grown ∙ last_hash-append e.blocks b in
        let (n, prev, own) = links e.blocks b (omega arith) checked in
        (n, prev, own, rw (← top, ← size) (load_all-IsChain e₁ bs e' (omega arith) rest))

    -- The blocks of an engine that is the replay of fewer than 2^64 of them are numbered from 1, each names
    -- the hash of the block before it, the first the empty string, and each carries its own hash.
    pub IsReplay-IsChain :
        (e : Engine F) → length e.blocks < 2 ^ 64 → IsReplay e → IsChain [] 0 e.blocks
    IsReplay-IsChain e small r =
        unfold last_hash in
        load_all-IsChain (new_engine e.store e.air_gapped) e.blocks e (omega arith) r

  height-get_elem? :
      (prev : Bytes) (n i : ℕ) (bs : List Block)
      → IsChain prev n bs
      → i < length bs
      → (b : Block) × (get_elem? bs i ≡ some b) × (b.header.height ≡ n + i + 1)
  height-get_elem? prev n i [] c h = absurd (omega arith)
  height-get_elem? prev n zero (b ∷ bs) c h = (b, refl, omega arith)
  height-get_elem? prev n (suc i) (b ∷ bs) c h =
      let (d, found, height) =
        height-get_elem? b.header.record_hash (n + 1) i bs c.3 (omega arith) in
      (d, found, omega arith)

  module _ {F : Type 0} where
    -- At a height from 1 to the number of blocks, `Block` finds a block, and the block has that height.
    pub block_at-IsReplay :
        (e : Engine F) (height : ℕ)
        → length e.blocks < 2 ^ 64
        → IsReplay e
        → 0 < height
        → height ≤ length e.blocks
        → (b : Block) × (block_at e height ≡ some b) × (b.header.height ≡ height)
    unfolding block_at
    block_at-IsReplay e height small r pos within =
        let (b, found, h) =
          height-get_elem? [] 0 (height - 1) e.blocks (IsReplay-IsChain e small r) (omega arith) in
        (b, ground arith, omega arith)
