-- ===== src/Engine/Opening.antt =====
-- What a store with a log of blocks promises the engine, and `Open` over files that hold one, with or
-- without a block in the write-ahead log.
use agidb_on_chain.Base.{
  ◌+◌, ◌≡◌, ◌≢◌, refl, ◌∙◌, ap, Bool, true, false, none, some, List, [], ◌∷◌, ◌++◌, beq_iff, length,
  length-append, arith,
}
use agidb_on_chain.Go.Json.{JsonText}
use agidb_on_chain.Go.Sha256.{Sha256}
use agidb_on_chain.Model.{Block}
use agidb_on_chain.Result.{ok}
use agidb_on_chain.Engine.{Engine, Store, new_engine, last_hash}
use agidb_on_chain.Engine.Committing.{install}
use agidb_on_chain.Engine.Loading.{
  apply_loaded, load_all, wal_pending, clear, after_load, install_wal, replay_wal, after_read,
  open_engine,
}
use agidb_on_chain.Engine.Effects.{mount}
use agidb_on_chain.Engine.Chain.{last_hash-append}
use agidb_on_chain.Engine.Replay.{IsReplay, map_ok, apply_loaded-mount, load_all-mount}

-- A store whose files hold a log of blocks: what the engine relies on. `IsLog f bs` says that `bs` are
-- the blocks of the files, `IsStored b` that the store gives the block back as it is.
pub record LogStore (F : Type 0) ⦃S : Store F⦄ : Type 1 where
  pub IsLog : F → List Block → Type 0
  pub IsStored : Block → Type 0
  pub read_log : (f : F) (bs : List Block) → IsLog f bs → S.read_all f ≡ ok bs
  pub log_wal :
      (f f' : F) (bs : List Block) (b : Block)
      → IsLog f bs
      → IsStored b
      → S.write_wal f b ≡ (f', none)
      → IsLog f' bs × (S.read_wal f' ≡ ok (some b))
  pub log_append :
      (f f' : F) (bs : List Block) (b : Block)
      → IsLog f bs
      → IsStored b
      → b.header.height ≡ length bs + 1
      → S.append_block f b ≡ (f', none)
      → IsLog f' (bs ++ (b ∷ [])) × (S.read_wal f' ≡ S.read_wal f)
  pub log_clear :
      (f f' : F) (bs : List Block)
      → IsLog f bs
      → S.clear_wal f ≡ (f', none)
      → IsLog f' bs × (S.read_wal f' ≡ ok none)

-- the last block of the log is not pending
wal_pending-append : (blocks : List Block) (b : Block) → wal_pending (blocks ++ (b ∷ [])) b ≡ false
unfolding wal_pending
wal_pending-append blocks b =
    let size = length-append blocks (b ∷ []) in
    ground (
      arith,
      size,
      last_hash-append blocks b,
      beq_iff (last_hash (blocks ++ (b ∷ []))) b.header.record_hash,
    )

wal_pending_new :
    (blocks : List Block) (b : Block)
    → last_hash blocks ≢ b.header.record_hash
    → wal_pending blocks b ≡ true
unfolding wal_pending
wal_pending_new blocks b new = ground (arith, new, beq_iff (last_hash blocks) b.header.record_hash)

module _ ⦃H : Sha256⦄ ⦃J : JsonText⦄ {F : Type 0} ⦃S : Store F⦄ where
  -- the blocks of a replay load over any files
  loads_over :
      (e : Engine F) (f : F) (air : Bool)
      → IsReplay e
      → load_all (new_engine f air) e.blocks ≡ ok (mount f air e)
  loads_over e f air r =
      load_all-mount f air (new_engine e.store e.air_gapped) e.blocks ∙ ap (map_ok (mount f air)) r

  -- `Open` where the log is read and loaded
  open_loaded :
      (f : F) (air : Bool) (bs : List Block) (e : Engine F)
      → S.read_all f ≡ ok bs
      → load_all (new_engine f air) bs ≡ ok e
      → open_engine f air ≡ replay_wal e (S.read_wal f)
  unfolding open_engine after_read
  open_loaded f air bs e r l = rw (open_engine, r) (rw l refl)

  -- `Open` where nothing is in the write-ahead log
  pub open_clean :
      (e : Engine F) (f : F) (air : Bool)
      → IsReplay e
      → S.read_all f ≡ ok e.blocks
      → S.read_wal f ≡ ok none
      → open_engine f air ≡ (f, ok (mount f air e))
  unfolding replay_wal
  open_clean e f air r log wal =
      open_loaded f air e.blocks (mount f air e) log (loads_over e f air r)
      ∙ ap (replay_wal (mount f air e)) wal

  -- `Open` where the block in the write-ahead log is the last of the log
  pub open_done :
      (e : Engine F) (b : Block) (blocks : List Block) (f f' : F) (air : Bool)
      → IsReplay e
      → e.blocks ≡ blocks ++ (b ∷ [])
      → S.read_all f ≡ ok e.blocks
      → S.read_wal f ≡ ok (some b)
      → S.clear_wal f ≡ (f', none)
      → open_engine f air ≡ (f', ok (mount f' air e))
  unfolding clear replay_wal
  open_done e b blocks f f' air r same log wal cleared =
      let idle : wal_pending e.blocks b ≡ false =
        ap (λ l. wal_pending l b) same ∙ wal_pending-append blocks b in
      open_loaded f air e.blocks (mount f air e) log (loads_over e f air r)
      ∙ ap (replay_wal (mount f air e)) wal
      ∙ rw (replay_wal, idle) (rw (clear, cleared) refl)

  -- `Open` where the block in the write-ahead log is not in the log yet
  pub open_pending :
      (e : Engine F) (b : Block) (f f₁ f₂ : F) (air : Bool)
      → IsReplay e
      → last_hash e.blocks ≢ b.header.record_hash
      → apply_loaded e b ≡ ok (install e b)
      → S.read_all f ≡ ok e.blocks
      → S.read_wal f ≡ ok (some b)
      → S.append_block f b ≡ (f₁, none)
      → S.clear_wal f₁ ≡ (f₂, none)
      → open_engine f air ≡ (f₂, ok (mount f₂ air (install e b)))
  unfolding clear replay_wal install_wal after_load
  open_pending e b f f₁ f₂ air r new loads log wal appended cleared =
      let due = wal_pending_new e.blocks b new in
      let again : apply_loaded (mount f₁ air e) b ≡ ok (mount f₁ air (install e b)) =
        apply_loaded-mount f₁ air e b ∙ ap (map_ok (mount f₁ air)) loads in
      open_loaded f air e.blocks (mount f air e) log (loads_over e f air r)
      ∙ ap (replay_wal (mount f air e)) wal
      ∙ rw (replay_wal, due) refl
      ∙ ap (install_wal (mount f air e) b) appended
      ∙ ap (after_load f₁) again
      ∙ rw (clear, cleared) refl
