-- ===== src/Engine/Loading.antt =====
-- `applyLoaded`, `Verify` and `Open` of engine.go: the state is rebuilt from the blocks, and each block
-- is checked against it.
use agidb_on_chain.Base.{
  ◌+◌, Bool, false, not, ◌||◌, Option, none, some, List, [], ◌∷◌, ◌++◌, Bytes, codes, beq, length,
  leb, ◌==◌, if◌then◌else◌,
}
use agidb_on_chain.Go.Maps.{GoMap}
use agidb_on_chain.Go.Json.{JsonText}
use agidb_on_chain.Go.Sha256.{Sha256}
use agidb_on_chain.Model.{BlockHeader, Block}
use agidb_on_chain.Merkle.{state_root, prefix_root}
use agidb_on_chain.Result.{
  Error, Result, ok, err, ◌>>=◌, ◌>>◌, require, height_discontinuity, prev_hash_mismatch,
  record_hash_mismatch, state_root_mismatch, contract_root_mismatch, account_root_mismatch,
  contract_code_root_mismatch, contract_storage_root_mismatch, log_root_mismatch, zk_root_mismatch,
  receipt_root_mismatch,
}
use agidb_on_chain.Engine.{Engine, Store, new_engine, u64, last_hash, apply_txs, count_txs}
use agidb_on_chain.Engine.Roots.{contract_aggregate_root}
use agidb_on_chain.Engine.Committing.{hash_block}

-- the error that a result returns
abbrev pub error_of {ℓ} : {A : Type ℓ} → Result A → Option Error
error_of (ok a) = none
error_of (err x) = some x

-- is the block of the write-ahead log missing from the segments?
unfoldable pub wal_pending : List Block → Block → Bool
wal_pending blocks wal = (length blocks == 0) || not (beq (last_hash blocks) wal.header.record_hash)

module _ ⦃H : Sha256⦄ ⦃J : JsonText⦄ where
  -- the checks of a block on its own and on the blocks before it
  unfoldable pub check_links : List Block → Block → Result (Unit {0})
  check_links blocks b = do
    require (b.header.height == u64 (length blocks + 1))
        (height_discontinuity b.header.height (u64 (length blocks + 1)))
    require (beq b.header.prev_hash (last_hash blocks)) (prev_hash_mismatch b.header.height)
    require (beq (hash_block b) b.header.record_hash) (record_hash_mismatch b.header.height)

  -- the roots that schema 4 added
  unfoldable pub check_schema_4 : GoMap Bytes → BlockHeader → Result (Unit {0})
  check_schema_4 s h = do
    require (beq (prefix_root s (codes "account/")) h.account_root) (account_root_mismatch h.height)
    require (beq (prefix_root s (codes "contract/code/")) h.contract_code_root)
        (contract_code_root_mismatch h.height)
    require (beq (prefix_root s (codes "contract-storage/")) h.contract_storage_root)
        (contract_storage_root_mismatch h.height)
    require (beq (prefix_root s (codes "log/")) h.log_root) (log_root_mismatch h.height)

  -- the roots that schema 3 added; schema 4 changed what the contract root covers
  unfoldable pub check_schema_3 : GoMap Bytes → BlockHeader → Result (Unit {0})
  check_schema_3 s h = do
    require
        (beq
          (if leb 4 h.schema then contract_aggregate_root s else prefix_root s (codes "contract/"))
          h.contract_root)
        (contract_root_mismatch h.height)
    if leb 4 h.schema then check_schema_4 s h else ok tt
    require (beq (prefix_root s (codes "zk/")) h.zk_root) (zk_root_mismatch h.height)
    require (beq (prefix_root s (codes "receipt/")) h.receipt_root) (receipt_root_mismatch h.height)

  -- the checks of the state that the block leads to
  unfoldable pub check_roots : GoMap Bytes → BlockHeader → Result (Unit {0})
  unfolding check_schema_3 check_schema_4
  check_roots s h = do
    require (beq (state_root s) h.state_root) (state_root_mismatch h.height)
    if leb 3 h.schema then check_schema_3 s h else ok tt

  module _ {F : Type 0} where
    -- On an error Go leaves the operations applied; both callers drop the engine then.
    unfoldable pub apply_loaded : Engine F → Block → Result (Engine F)
    apply_loaded e b =
        let e' = apply_txs b.header.height e b.transactions in
        let counted = count_txs e' b.transactions in
        do
          check_links e.blocks b
          check_roots e'.state b.header
          ok (record counted { blocks = e.blocks ++ (b ∷ []) })

    -- the loop of `Open` and of `Verify`
    unfoldable pub load_all : Engine F → List Block → Result (Engine F)
    load_all e [] = ok e
    load_all e (b ∷ bs) = do e' ← apply_loaded e b; load_all e' bs

  module _ {F : Type 0} where
    -- a fresh engine without a store is loaded with the blocks
    unfoldable pub verify : Engine F → Option Error
    verify e = error_of (load_all (new_engine tt false) e.blocks)

  module _ {F : Type 0} ⦃S : Store F⦄ where
    -- `_ = store.ClearWAL()`
    unfoldable pub clear : Engine F → F × Result (Engine F)
    clear e = let files = (S.clear_wal e.store).0 in (files, ok (record e { store = files }))

    unfoldable pub after_load : F → Result (Engine F) → F × Result (Engine F)
    after_load files (err x) = (files, err x)
    after_load files (ok e) = clear e

    unfoldable pub install_wal : Engine F → Block → F × Option Error → F × Result (Engine F)
    install_wal e wal (files, some x) = (files, err x)
    install_wal e wal (files, none) =
        after_load files (apply_loaded (record e { store = files }) wal)

    unfoldable pub replay_wal : Engine F → Result (Option Block) → F × Result (Engine F)
    replay_wal e (err x) = (e.store, err x)
    replay_wal e (ok none) = (e.store, ok e)
    replay_wal e (ok (some wal)) =
        if wal_pending e.blocks wal then install_wal e wal (S.append_block e.store wal) else clear e

    unfoldable pub after_read : F → Result (Engine F) → F × Result (Engine F)
    after_read files (err x) = (files, err x)
    after_read files (ok e) = replay_wal e (S.read_wal files)

    -- `Open` on the files that `storage.Open` returned, with the files after it
    unfoldable pub open_engine : F → Bool → F × Result (Engine F)
    unfolding after_read replay_wal install_wal clear wal_pending
    open_engine files air_gapped =
        after_read files (S.read_all files >>= load_all (new_engine files air_gapped))
