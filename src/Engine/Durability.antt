-- ===== src/Engine/Durability.antt =====
-- A crash in a `Commit`: what `Open` makes of the files at each point between its writes. The storage is
-- known by the laws of `LogStore` alone.
use agidb_on_chain.Base.{
  ℕ, ◌+◌, ◌<◌, ◌^◌, ◌≡◌, ◌≢◌, sym, ◌∙◌, ap, ap₂, Bool, Option, none, List, [], ◌∷◌, Bytes, length,
}
use agidb_on_chain.Go.Json.{JsonText}
use agidb_on_chain.Go.Sha256.{Sha256}
use agidb_on_chain.Model.{Transaction, Block}
use agidb_on_chain.Result.{Error, ok}
use agidb_on_chain.Engine.{Engine, Store, last_hash, filter_txs}
use agidb_on_chain.Engine.Committing.{
  committed, install, new_block, commit, commit_filtered, write_block, after_wal, after_append,
  clear_reply,
}
use agidb_on_chain.Engine.Agreement.{apply_loaded-new_block}
use agidb_on_chain.Engine.Roots.{clone_state}
use agidb_on_chain.Go.Maps.{GoMap}
use agidb_on_chain.Engine.Loading.{apply_loaded, open_engine}
use agidb_on_chain.Engine.Effects.{mount, install-mount}
use agidb_on_chain.Engine.History.{height_of_links}
use agidb_on_chain.Engine.Replay.{
  IsReplay, IsReplay-Distinct, apply_loaded-inv, blocks-install, IsReplay-install,
}
use agidb_on_chain.Engine.Opening.{LogStore, open_clean, open_done, open_pending}

module _ ⦃H : Sha256⦄ ⦃J : JsonText⦄ {F : Type 0} ⦃S : Store F⦄ where
  -- what `Open` finds at each point where a crash can stop the writes of a block: before the block is
  -- in the write-ahead log, the old memory; from then on the new memory, with an empty log behind it
  pub record IsAtomic (e : Engine F) (b : Block) (f₁ f₂ f₃ : F) (air : Bool) : Type 0 where
    pub before : open_engine e.store air ≡ (e.store, ok (mount e.store air e))
    pub logged : open_engine f₁ air ≡ (f₃, ok (mount f₃ air (install e b)))
    pub appended : open_engine f₂ air ≡ (f₃, ok (mount f₃ air (install e b)))
    pub cleared : open_engine f₃ air ≡ (f₃, ok (mount f₃ air (install e b)))

  module _ (L : LogStore F) where
    -- `Open` at each point between the writes of a block that loads.
    open_engine-IsAtomic :
        (e : Engine F) (b : Block) (f₁ f₂ f₃ : F) (air : Bool)
        → IsReplay e
        → L.IsLog e.store e.blocks
        → S.read_wal e.store ≡ ok none
        → L.IsStored b
        → length e.blocks + 1 < 2 ^ 64
        → last_hash e.blocks ≢ b.header.record_hash
        → apply_loaded e b ≡ ok (install e b)
        → S.write_wal e.store b ≡ (f₁, none)
        → S.append_block f₁ b ≡ (f₂, none)
        → S.clear_wal f₂ ≡ (f₃, none)
        → IsAtomic e b f₁ f₂ f₃ air
    open_engine-IsAtomic e b f₁ f₂ f₃ air r log wal stored small new loads w a c =
        let (links, _, _) = apply_loaded-inv e b (install e b) loads in
        let height = height_of_links e.blocks b small links in
        let (log₁, wal₁) = L.log_wal e.store f₁ e.blocks b log stored w in
        let (log₂, wal₂) = L.log_append f₁ f₂ e.blocks b log₁ stored height a in
        let grown = blocks-install e b in
        let log₂' = L.read_log f₂ _ log₂ ∙ ap (λ l. ok l) (sym grown) in
        let (log₃, wal₃) = L.log_clear f₂ f₃ _ log₂ c in
        let log₃' = L.read_log f₃ _ log₃ ∙ ap (λ l. ok l) (sym grown) in
        let over : (f : F) → IsReplay (mount f e.air_gapped (install e b)) =
          IsReplay-install e b r loads in
        let done = mount f₂ e.air_gapped (install e b) in
        record {
          before = open_clean e e.store air r (L.read_log e.store e.blocks log) wal;
          logged = open_pending e b f₁ f₂ f₃ air r new loads (L.read_log f₁ e.blocks log₁) wal₁ a c;
          appended = open_done done b e.blocks f₂ f₃ air (over f₂) grown log₂' (wal₂ ∙ wal₁) c;
          cleared = open_clean (mount f₃ e.air_gapped (install e b)) f₃ air (over f₃) log₃' wal₃;
        }

    commit_written :
        (now : ℕ) (e : Engine F) (txs kept : List Transaction) (t : Transaction)
        (next : GoMap Bytes) (f₁ f₂ f₃ : F)
        → filter_txs (clone_state e.state) txs ≡ ok (next, t ∷ kept)
        → S.write_wal e.store (new_block now e.blocks next (t ∷ kept)) ≡ (f₁, none)
        → S.append_block f₁ (new_block now e.blocks next (t ∷ kept)) ≡ (f₂, none)
        → S.clear_wal f₂ ≡ (f₃, none)
        → commit now e txs ≡ (
          mount f₃ e.air_gapped (install e (new_block now e.blocks next (t ∷ kept))),
          committed (new_block now e.blocks next (t ∷ kept)),
        )
    unfolding commit commit_filtered write_block after_wal after_append clear_reply filter_txs
    commit_written now e [] kept t next f₁ f₂ f₃ h w a c = cc
    commit_written now e (x ∷ txs) kept t next f₁ f₂ f₃ h w a c =
        let b = new_block now e.blocks next (t ∷ kept) in
        ap (commit_filtered now e) h
        ∙ ap (after_wal e b) w
        ∙ ap (after_append e b) a
        ∙ ap
            (λ (d : Engine F × (F × Option Error)).
              (record d.0 { store = d.1.0 }, clear_reply b d.1.1))
            (ap₂ (λ d y. (d, y)) (install-mount f₂ e.air_gapped e b) c)

    -- Let an engine be the replay of the log in its files, with nothing in the write-ahead log, let the
    -- filter of `Commit` keep something of a submission, and let `f₁`, `f₂` and `f₃` be the files after
    -- the three writes of the new block, to the write-ahead log, to the segment and the clearing, none
    -- of which fails. Then `Commit` returns the block and leaves it installed over `f₃`, and whichever
    -- files a crash leaves, `Open` succeeds on them: before the first write with the memory as it was,
    -- after any of them with the block installed, and with `f₃` as its files. The block must be one that
    -- the storage gives back as it is, fewer than 2^64 - 1 blocks stand before it, and its hash is not
    -- that of the last of them.
    pub commit-IsAtomic :
        (now : ℕ) (e : Engine F) (txs kept : List Transaction) (t : Transaction)
        (next : GoMap Bytes) (f₁ f₂ f₃ : F) (air : Bool)
        → IsReplay e
        → L.IsLog e.store e.blocks
        → S.read_wal e.store ≡ ok none
        → filter_txs (clone_state e.state) txs ≡ ok (next, t ∷ kept)
        → L.IsStored (new_block now e.blocks next (t ∷ kept))
        → length e.blocks + 1 < 2 ^ 64
        → last_hash e.blocks ≢ (new_block now e.blocks next (t ∷ kept)).header.record_hash
        → S.write_wal e.store (new_block now e.blocks next (t ∷ kept)) ≡ (f₁, none)
        → S.append_block f₁ (new_block now e.blocks next (t ∷ kept)) ≡ (f₂, none)
        → S.clear_wal f₂ ≡ (f₃, none)
        → (commit now e txs ≡ (
          mount f₃ e.air_gapped (install e (new_block now e.blocks next (t ∷ kept))),
          committed (new_block now e.blocks next (t ∷ kept)),
        ))
          × IsAtomic e (new_block now e.blocks next (t ∷ kept)) f₁ f₂ f₃ air
    commit-IsAtomic now e txs kept t next f₁ f₂ f₃ air r log wal h stored small new w a c = (
      commit_written now e txs kept t next f₁ f₂ f₃ h w a c,
      open_engine-IsAtomic e _ f₁ f₂ f₃ air r log wal stored small new
          (apply_loaded-new_block now e txs (t ∷ kept) next (IsReplay-Distinct e r) h) w a c,
    )
