-- ===== src/Model/ToJson.antt =====
-- The JSON of an operation, a transaction and a block, by the tags in engine/internal/model/model.go.
use agidb_on_chain.Base.{◌==◌, not, [], Bytes, codes, beq}
use agidb_on_chain.Go.Slices.{contents}
use agidb_on_chain.Go.Json.{
  Json, Fields, text, time, number, boolean, array, object, close, field, from_slice, field_if,
  from_list,
}
use agidb_on_chain.Model.{Operation, Transaction, BlockHeader, Block}

-- a string field with `omitempty`
abbrev text_if : Bytes → Bytes → Fields → Fields
text_if name value rest = field_if (not (beq value [])) name (text value) rest

unfoldable pub operation_json : Operation → Json
operation_json op = object (
    field (codes "key") (text op.key) (
      field (codes "value") (from_slice op.value)
        (field_if op.delete (codes "delete") (boolean op.delete) close)))

unfoldable pub transaction_json : Transaction → Json
unfolding operation_json
transaction_json tx = object (
    field (codes "id") (text tx.id) (
      field (codes "timestamp") (time tx.timestamp) (
        text_if (codes "sender") tx.sender (
          field_if (not (tx.nonce == 0)) (codes "nonce") (number tx.nonce) (
            field (codes "ops") (array (from_list operation_json tx.ops)) (
              field_if (not (beq (contents tx.payload) [])) (codes "payload")
                (from_slice tx.payload) (text_if (codes "kind") tx.kind close)))))))

-- the fields of a header from the contract root on
abbrev domain_roots : BlockHeader → Fields
domain_roots h = text_if (codes "contract_root") h.contract_root (
    text_if (codes "account_root") h.account_root (
      text_if (codes "contract_code_root") h.contract_code_root (
        text_if (codes "contract_storage_root") h.contract_storage_root (
          text_if (codes "log_root") h.log_root (
            text_if (codes "zk_root") h.zk_root (
              text_if (codes "receipt_root") h.receipt_root (
                field (codes "record_hash") (text h.record_hash) (
                  field (codes "schema") (number h.schema)
                    (text_if (codes "compression") h.compression close)))))))))

unfoldable pub header_json : BlockHeader → Json
header_json h = object (
    field (codes "height") (number h.height) (
      field (codes "timestamp") (time h.timestamp) (
        field (codes "prev_hash") (text h.prev_hash) (
          field (codes "tx_root") (text h.tx_root)
            (field (codes "state_root") (text h.state_root) (domain_roots h))))))

unfoldable pub block_json : Block → Json
unfolding header_json transaction_json
block_json b = object (
    field (codes "header") (header_json b.header)
      (field (codes "transactions") (array (from_list transaction_json b.transactions)) close))
