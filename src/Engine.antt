-- ===== src/Engine.antt =====
-- engine/internal/engine/engine.go: the in-memory state of the database and the operations on it.
-- `Engine F` is the struct `Engine` over the type `F` of its open files; the storage is used through
-- the interface `Store F`. The mutex is not modelled: each method holds it for its whole body, so a
-- method is one step.
pub mod Roots
pub mod Committing
pub mod Loading
pub mod Reading
pub mod Effects
pub mod Suppression
pub mod Agreement
pub mod Outcome
pub mod Replay
pub mod Sessions
pub mod NoOps
pub mod Progress
pub mod Chain
pub mod Versions
pub mod History
pub mod Opening
pub mod Durability
pub mod Batches
pub mod BatchEffects
pub mod AllBatches
pub mod Snapshots
pub mod Status
pub mod Summary
pub mod Puts
pub mod Executions
pub mod LogQueries
pub mod Fields
pub mod ExecutionOrder
pub mod ExecutionEffects
use agidb_on_chain.Base.{
  ℕ, zero, suc, ◌+◌, ◌-◌, ◌*◌, ◌%◌, ◌^◌, Bool, true, false, not, ◌&&◌, ◌||◌, Option, none, some,
  List, [], ◌∷◌, ◌++◌, map, Bytes, codes, beq, length, ltb, leb, ◌==◌, if◌then◌else◌,
}
use mathlib.Core.List.{reverse}
use agidb_on_chain.Go.Maps.{GoMap, lookup, insert, remove, is_some}
use agidb_on_chain.Go.Slices.{contents}
use agidb_on_chain.Go.Json.{JsonText}
use agidb_on_chain.Go.Sha256.{Sha256}
use agidb_on_chain.Model.{Operation, Transaction, BlockHeader, Block, Snapshot}
use agidb_on_chain.Model.ToJson.{transaction_json, block_json}
use agidb_on_chain.Merkle.{hash, root, state_root, prefix_root}
use agidb_on_chain.Result.{
  Error, Result, ok, err, ◌>>=◌, ◌>>◌, require, empty_block, transaction_id_required, empty_key,
  no_state_change, height_discontinuity, prev_hash_mismatch, record_hash_mismatch,
  state_root_mismatch, contract_root_mismatch, account_root_mismatch, contract_code_root_mismatch,
  contract_storage_root_mismatch, log_root_mismatch, zk_root_mismatch, receipt_root_mismatch,
}

-- `uint64(n)`
abbrev pub u64 : ℕ → ℕ
u64 n = n % 2 ^ 64

pub record Version : Type 0 where
  pub height : ℕ
  pub value : Bytes
  pub deleted : Bool

pub record Engine (F : Type 0) : Type 0 where
  pub store : F
  pub blocks : List Block
  pub state : GoMap Bytes
  pub versions : GoMap (List Version)
  pub air_gapped : Bool
  pub tx_count : ℕ
  pub op_count : ℕ

-- what the engine calls of `storage.Files`; a write returns the files after it beside its error
pub record Store (F : Type 0) : Type 0 where
  pub write_wal : F → Block → F × Option Error
  pub append_block : F → Block → F × Option Error
  pub clear_wal : F → F × Option Error
  pub read_all : F → Result (List Block)
  pub read_wal : F → Result (Option Block)

abbrev pub new_engine : {F : Type 0} → F → Bool → Engine F
new_engine store air_gapped = record {
  store = store;
  blocks = [];
  state = [];
  versions = [];
  air_gapped = air_gapped;
  tx_count = 0;
  op_count = 0;
}

-- `e.blocks[len(e.blocks)-1].Header.RecordHash`, `""` if there is no block
unfoldable pub last_hash : List Block → Bytes
last_hash [] = []
last_hash (b ∷ []) = b.header.record_hash
last_hash (b ∷ c ∷ bs) = last_hash (c ∷ bs)

-- `e.versions[key]`, nil if the key is new
unfoldable pub versions_of : GoMap (List Version) → Bytes → List Version
versions_of m k = elim (lookup m k) [ none ↦ [] | some vs ↦ vs ]

-- `if op.Delete { delete(state, op.Key) } else { state[op.Key] = append([]byte{}, op.Value...) }`
unfoldable pub put_op : GoMap Bytes → Operation → GoMap Bytes
put_op s op = if op.delete then remove s op.key else insert s op.key (contents op.value)

module _ {F : Type 0} where
  unfoldable pub apply_op : ℕ → Engine F → Operation → Engine F
  unfolding put_op versions_of
  apply_op height e op = record e {
    state = put_op e.state op;
    versions = insert e.versions op.key (
        versions_of e.versions op.key
        ++ (record { height = height; value = contents op.value; deleted = op.delete } ∷ []));
  }

  unfoldable pub apply_ops : ℕ → Engine F → List Operation → Engine F
  apply_ops height e [] = e
  apply_ops height e (op ∷ ops) = apply_ops height (apply_op height e op) ops

  unfoldable pub apply_txs : ℕ → Engine F → List Transaction → Engine F
  apply_txs height e [] = e
  apply_txs height e (tx ∷ txs) = apply_txs height (apply_ops height e tx.ops) txs

  -- `e.txCount++; e.opCount += uint64(len(tx.Ops))`
  unfoldable pub count_tx : Engine F → Transaction → Engine F
  count_tx e tx = record e {
    tx_count = u64 (e.tx_count + 1);
    op_count = u64 (e.op_count + u64 (length tx.ops));
  }

  unfoldable pub count_txs : Engine F → List Transaction → Engine F
  count_txs e [] = e
  count_txs e (tx ∷ txs) = count_txs (count_tx e tx) txs

  -- the loop of `Commit` over the filtered transactions
  unfoldable pub commit_txs : ℕ → Engine F → List Transaction → Engine F
  commit_txs height e [] = e
  commit_txs height e (tx ∷ txs) = commit_txs height (count_tx (apply_ops height e tx.ops) tx) txs

-- does the operation change the state? If not, `Commit` drops it.
unfoldable pub changes : GoMap Bytes → Operation → Bool
changes s op =
    if op.delete
    then is_some (lookup s op.key)
    else elim (lookup s op.key) [ none ↦ true | some v ↦ not (beq v (contents op.value)) ]

-- the inner loop of the filter of `Commit`: the next state, and the operations that are kept
unfoldable pub filter_ops : GoMap Bytes → List Operation → Result (GoMap Bytes × List Operation)
filter_ops s [] = ok (s, [])
filter_ops s (op ∷ ops) =
    let rest = filter_ops (if changes s op then put_op s op else s) ops in
    if beq op.key []
    then err empty_key
    else rest >>= λ r. ok (r.0, (if changes s op then op ∷ r.1 else r.1))

-- a transaction that keeps no operation is dropped
abbrev pub keep_tx : Transaction → List Operation → List Transaction → List Transaction
keep_tx tx [] rest = rest
keep_tx tx (op ∷ ops) rest = record tx { ops = op ∷ ops } ∷ rest

unfoldable pub filter_txs : GoMap Bytes → List Transaction → Result (GoMap Bytes × List Transaction)
filter_txs s [] = ok (s, [])
filter_txs s (tx ∷ txs) =
    if beq tx.id []
    then err transaction_id_required
    else filter_ops s tx.ops >>= λ r. filter_txs r.0 txs >>= λ r'. ok (r'.0, keep_tx tx r.1 r'.1)
