-- ===== src/Engine/Status.antt =====
-- `Status` of engine.go: the counts and the roots that an engine reports.
use agidb_on_chain.Base.{
  ℕ, ◌+◌, true, ◌&&◌, [], ◌∷◌, codes, length, ltb, has_prefix, if◌then◌else◌, Bytes,
}
use agidb_on_chain.Go.Maps.{GoMap}
use agidb_on_chain.Go.Sha256.{Sha256}
use agidb_on_chain.Model.{Status}
use agidb_on_chain.Merkle.{state_root, prefix_root, prefix_count}
use agidb_on_chain.Engine.{Engine, u64, last_hash}
use agidb_on_chain.Engine.Roots.{contract_aggregate_root}

-- what the files count of themselves
pub record Counts (F : Type 0) : Type 0 where
  pub segment_count : F → ℕ
  pub storage_bytes : F → ℕ
  pub snapshot_count : F → ℕ

-- `countContracts`
unfoldable pub count_contracts : GoMap Bytes → ℕ
count_contracts [] = 0
count_contracts ((k, v) ∷ s) =
    (if ltb 14 (length k) && has_prefix k (codes "contract/code/") then 1 else 0)
    + count_contracts s

-- `Status`
unfoldable pub status : ⦃H : Sha256⦄ → {F : Type 0} → ⦃N : Counts F⦄ → Engine F → Status
status ⦃N⦄ e = record {
  height = u64 (length e.blocks);
  latest_hash = last_hash e.blocks;
  state_root = state_root e.state;
  contract_root = contract_aggregate_root e.state;
  account_root = prefix_root e.state (codes "account/");
  contract_code_root = prefix_root e.state (codes "contract/code/");
  contract_storage_root = prefix_root e.state (codes "contract-storage/");
  log_root = prefix_root e.state (codes "log/");
  zk_root = prefix_root e.state (codes "zk/");
  receipt_root = prefix_root e.state (codes "receipt/");
  keys = length e.state;
  accounts = prefix_count e.state (codes "account/");
  contracts = count_contracts e.state;
  contract_slots = prefix_count e.state (codes "contract-storage/");
  zk_fields = prefix_count e.state (codes "zk/");
  receipts = prefix_count e.state (codes "receipt/");
  logs = prefix_count e.state (codes "log/");
  transactions = e.tx_count;
  operations = e.op_count;
  air_gapped = e.air_gapped;
  verified = true;
  segments = N.segment_count e.store;
  storage_bytes = N.storage_bytes e.store;
  snapshots = N.snapshot_count e.store;
  storage =
      codes
        "AGI3/AGI4 compatible segments + CRC32C + WAL + roots + snapshots + no-op suppression + proofs + enterprise controls";
  engine = codes "AGI-DB Enterprise v10";
  compression = codes "zlib-fast adaptive";
  format_version = codes "AGI4";
  durability = codes "WAL fsync + segment fsync per committed block";
}
