-- ===== src/Model.antt =====
-- engine/internal/model/model.go: the records that the engine stores and reports. A `time.Time` is
-- its number of nanoseconds; `uint64` and `int` values are numbers whose wrap-around is written out
-- where the engine computes them.
pub mod ToJson
use agidb_on_chain.Base.{ℕ, Bool, List, Bytes}
use agidb_on_chain.Go.Maps.{GoMap}
use agidb_on_chain.Go.Slices.{Slice}

pub record Operation : Type 0 where
  pub key : Bytes
  pub value : Slice
  pub delete : Bool

pub record Transaction : Type 0 where
  pub id : Bytes
  pub timestamp : ℕ
  pub sender : Bytes
  pub nonce : ℕ
  pub ops : List Operation
  pub payload : Slice
  pub kind : Bytes

pub record BlockHeader : Type 0 where
  pub height : ℕ
  pub timestamp : ℕ
  pub prev_hash : Bytes
  pub tx_root : Bytes
  pub state_root : Bytes
  pub contract_root : Bytes
  pub account_root : Bytes
  pub contract_code_root : Bytes
  pub contract_storage_root : Bytes
  pub log_root : Bytes
  pub zk_root : Bytes
  pub receipt_root : Bytes
  pub record_hash : Bytes
  pub schema : ℕ
  pub compression : Bytes

pub record Block : Type 0 where
  pub header : BlockHeader
  pub transactions : List Transaction

pub record Snapshot : Type 0 where
  pub format : Bytes
  pub created_at : ℕ
  pub height : ℕ
  pub latest_hash : Bytes
  pub state_root : Bytes
  pub state : GoMap Bytes
  pub block_count : ℕ
  pub tx_count : ℕ
  pub checksum : Bytes

pub record Status : Type 0 where
  pub height : ℕ
  pub latest_hash : Bytes
  pub state_root : Bytes
  pub contract_root : Bytes
  pub account_root : Bytes
  pub contract_code_root : Bytes
  pub contract_storage_root : Bytes
  pub log_root : Bytes
  pub zk_root : Bytes
  pub receipt_root : Bytes
  pub keys : ℕ
  pub accounts : ℕ
  pub contracts : ℕ
  pub contract_slots : ℕ
  pub zk_fields : ℕ
  pub receipts : ℕ
  pub logs : ℕ
  pub transactions : ℕ
  pub operations : ℕ
  pub air_gapped : Bool
  pub verified : Bool
  pub segments : ℕ
  pub storage_bytes : ℕ
  pub snapshots : ℕ
  pub storage : Bytes
  pub engine : Bytes
  pub compression : Bytes
  pub format_version : Bytes
  pub durability : Bytes
