-- ===== src/Engine/Committing.antt =====
-- `Commit` of engine.go: the block that is made of the filtered transactions, the write-ahead log,
-- the segment, and the change of the state.
use agidb_on_chain.Base.{ℕ, ◌+◌, Option, none, some, List, [], ◌∷◌, ◌++◌, map, Bytes, codes, length}
use agidb_on_chain.Go.Maps.{GoMap}
use agidb_on_chain.Go.Json.{JsonText}
use agidb_on_chain.Go.Sha256.{Sha256}
use agidb_on_chain.Model.{Transaction, BlockHeader, Block}
use agidb_on_chain.Model.ToJson.{transaction_json, block_json}
use agidb_on_chain.Merkle.{hash, root, state_root, prefix_root}
use agidb_on_chain.Result.{Error, Result, ok, err, empty_block, no_state_change}
use agidb_on_chain.Engine.{Engine, Store, u64, last_hash, filter_txs, commit_txs}
use agidb_on_chain.Engine.Roots.{clone_state, contract_aggregate_root}

-- what `Commit` returns: a block, an error, or both where only the WAL could not be cleared
pub data Reply : Type 0 where
  committed : Block → Reply
  uncleared : Block → Error → Reply
  rejected : Error → Reply

-- the block that a reply reports as written
abbrev pub installed : Reply → Option Block
installed (committed b) = some b
installed (uncleared b _) = some b
installed (rejected _) = none

module _ {F : Type 0} where
  -- after both writes: the state, the versions, the counts and the list of blocks
  unfoldable pub install : Engine F → Block → Engine F
  install e b =
      let e' = commit_txs b.header.height e b.transactions in
      record e' { blocks = e'.blocks ++ (b ∷ []) }

unfoldable pub clear_reply : Block → Option Error → Reply
clear_reply b none = committed b
clear_reply b (some x) = uncleared b x

module _ {F : Type 0} ⦃S : Store F⦄ where
  -- from the write-ahead log on; an error of a write returns with the state as it was
  unfoldable pub after_append : Engine F → Block → F × Option Error → Engine F × Reply
  after_append e b (files, some x) = (record e { store = files }, rejected x)
  after_append e b (files, none) =
      let e' = install (record e { store = files }) b in
      let cleared = S.clear_wal files in (record e' { store = cleared.0 }, clear_reply b cleared.1)

  unfoldable pub after_wal : Engine F → Block → F × Option Error → Engine F × Reply
  after_wal e b (files, some x) = (record e { store = files }, rejected x)
  after_wal e b (files, none) = after_append e b (S.append_block files b)

  unfoldable pub write_block : Engine F → Block → Engine F × Reply
  unfolding after_wal after_append clear_reply
  write_block e b = after_wal e b (S.write_wal e.store b)

module _ ⦃H : Sha256⦄ ⦃J : JsonText⦄ where
  unfoldable pub hash_block : Block → Bytes
  hash_block b =
      hash (J.print (block_json (record b { header = record b.header { record_hash = [] } })))

  -- the header that `Commit` fills in, but for the record hash
  unfoldable pub new_header : ℕ → List Block → GoMap Bytes → List Transaction → BlockHeader
  new_header now blocks next txs = record {
    height = u64 (length blocks + 1);
    timestamp = now;
    prev_hash = last_hash blocks;
    tx_root = root (map (λ tx. J.print (transaction_json tx)) txs);
    state_root = state_root next;
    contract_root = contract_aggregate_root next;
    account_root = prefix_root next (codes "account/");
    contract_code_root = prefix_root next (codes "contract/code/");
    contract_storage_root = prefix_root next (codes "contract-storage/");
    log_root = prefix_root next (codes "log/");
    zk_root = prefix_root next (codes "zk/");
    receipt_root = prefix_root next (codes "receipt/");
    record_hash = [];
    schema = 4;
    compression = codes "zlib-fast";
  }

  unfoldable pub new_block : ℕ → List Block → GoMap Bytes → List Transaction → Block
  new_block now blocks next txs =
      let b : Block = record { header = new_header now blocks next txs; transactions = txs } in
      record b { header = record b.header { record_hash = hash_block b } }

  module _ {F : Type 0} ⦃S : Store F⦄ where
    -- what is left of the transactions after the filter
    unfoldable pub commit_filtered :
        ℕ → Engine F → Result (GoMap Bytes × List Transaction) → Engine F × Reply
    commit_filtered now e (err x) = (e, rejected x)
    commit_filtered now e (ok (next, [])) = (e, rejected no_state_change)
    commit_filtered now e (ok (next, tx ∷ txs)) =
        write_block e (new_block now e.blocks next (tx ∷ txs))

    -- `now` is the clock, `time.Now().UTC()`
    unfoldable pub commit : ℕ → Engine F → List Transaction → Engine F × Reply
    unfolding commit_filtered
    commit now e [] = (e, rejected empty_block)
    commit now e (tx ∷ txs) = commit_filtered now e (filter_txs (clone_state e.state) (tx ∷ txs))
