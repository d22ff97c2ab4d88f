-- ===== src/Engine/Puts.antt =====
-- The methods of engine.go that commit one transaction of a kind of their own: `PutContract`,
-- `PutContractStorage`, `PutZKField`, `PutReceipt`, `PutAccount`, `PutLog`, `PutValidatedZKField`.
use agidb_on_chain.Base.{
  ℕ, Bool, false, not, Option, none, some, List, [], ◌∷◌, ◌++◌, Bytes, codes, beq, has_prefix,
  length, ltb, leb, ◌==◌, if◌then◌else◌,
}
use agidb_on_chain.Go.Slices.{Slice, nil_slice, slice, contents}
use agidb_on_chain.Go.Strings.{to_lower, trim_prefix, padded, big_magnitude}
use agidb_on_chain.Go.Json.{JsonText, object, field, close, text}
use agidb_on_chain.Go.Sha256.{Sha256}
use agidb_on_chain.Model.{Operation, Transaction}
use agidb_on_chain.Result.{
  Error, receipt_not_json, account_not_json, log_not_json, unsupported_field, outside_modulus,
  invalid_field_element,
}
use agidb_on_chain.Engine.{Engine, Store}
use agidb_on_chain.Engine.Batches.{new_transaction}
use agidb_on_chain.Engine.Committing.{Reply, rejected, commit}

-- the random id and the time of a transaction, and the clock of its commit
pub record Stamp : Type 0 where
  pub id : Bytes
  pub time : ℕ
  pub clock : ℕ

-- `json.Valid`
pub record JsonCheck : Type 0 where
  pub valid : Bytes → Bool

abbrev pub set_to : Bytes → Slice → Operation
set_to key value = record { key = key; value = value; delete = false }

-- the transaction of a kind
unfoldable pub kind_transaction : Stamp → List Operation → Bytes → Bytes → Transaction
unfolding new_transaction
kind_transaction m ops sender kind = record (new_transaction m.id m.time ops sender 0 nil_slice) {
  kind = kind;
}

unfoldable pub contract_ops : Bytes → Slice → Slice → List Operation
contract_ops address code abi =
    set_to (codes "contract/code/" ++ address) code
    ∷ (if ltb 0 (length (contents abi))
        then set_to (codes "contract/abi/" ++ address) abi ∷ []
        else [])

-- `log/%s/%020d`
unfoldable pub log_key : Bytes → ℕ → Bytes
log_key txid index = codes "log/" ++ (txid ++ (codes "/" ++ padded 20 index))

-- `zkModuli[name]`
unfoldable pub modulus_of : Bytes → Option ℕ
modulus_of name =
    if beq name (codes "bn254")
    then some 21888242871839275222246405745257275088548364400416034343698204186575808495617
    else if beq name (codes "bls12-381-scalar")
    then some 52435875175126190479447740508185965837690552500527637822603658699938581184513
    else none

-- `new(big.Int).SetString(s, base)`, with the number below zero as none: `n.Sign() < 0`
unfoldable pub natural_in : ℕ → Bytes → Option ℕ
natural_in base [] = none
natural_in base (c ∷ s) =
    if c == 43
    then big_magnitude base s
    else if c == 45
    then elim (big_magnitude base s) [ none ↦ none | some n ↦ if n == 0 then some 0 else none ]
    else big_magnitude base (c ∷ s)

-- the value with the base that its prefix names
unfoldable pub field_number : Bytes → Option ℕ
unfolding natural_in
field_number value =
    if has_prefix value (codes "0x")
    then natural_in 16 (trim_prefix value (codes "0x"))
    else natural_in 10 value

unfoldable pub check_element : Bytes → ℕ → Option ℕ → Option Error
check_element name modulus none = some invalid_field_element
check_element name modulus (some n) = if leb modulus n then some (outside_modulus name) else none

-- `ValidateFieldValue`
unfoldable pub validate_field_value : Bytes → Bytes → Option Error
unfolding modulus_of field_number check_element
validate_field_value name value = elim (modulus_of (to_lower name)) [
  | none ↦ some (unsupported_field name)
  | some modulus ↦ check_element name modulus (field_number value)
]

module _ ⦃H : Sha256⦄ ⦃J : JsonText⦄ {F : Type 0} ⦃S : Store F⦄ where
  unfoldable pub put_contract : Stamp → Engine F → Bytes → Slice → Slice → Engine F × Reply
  unfolding kind_transaction contract_ops
  put_contract m e address code abi = commit m.clock e (
      kind_transaction m (contract_ops address code abi) (codes "contract-deployer")
        (codes "contract_deploy")
      ∷ [])

  unfoldable pub put_contract_storage : Stamp → Engine F → Bytes → Bytes → Slice → Engine F × Reply
  unfolding kind_transaction
  put_contract_storage m e address slot value = commit m.clock e (
      kind_transaction m
        (set_to (codes "contract-storage/" ++ (address ++ (codes "/" ++ slot))) value ∷ [])
        (codes "contract-runtime") (codes "contract_storage")
      ∷ [])

  unfoldable pub put_zk_field : Stamp → Engine F → Bytes → Bytes → Slice → Engine F × Reply
  unfolding kind_transaction
  put_zk_field m e circuit name value = commit m.clock e (
      kind_transaction m (set_to (codes "zk/" ++ (circuit ++ (codes "/" ++ name))) value ∷ [])
        (codes "zk-module") (codes "zk_field")
      ∷ [])

  unfoldable pub put_validated_zk_field :
      Stamp → Engine F → Bytes → Bytes → Bytes → Bytes → Engine F × Reply
  unfolding put_zk_field
  put_validated_zk_field m e name circuit signal value = elim (validate_field_value name value) [
    | some x ↦ (e, rejected x)
    | none ↦ put_zk_field m e circuit signal (
        slice (
          J.print (
            object (field (codes "field") (text name) (field (codes "value") (text value) close)))))
  ]

  module _ ⦃V : JsonCheck⦄ where
    unfoldable pub put_receipt : Stamp → Engine F → Bytes → Bytes → Engine F × Reply
    unfolding kind_transaction
    put_receipt m e txid receipt =
        if not (V.valid receipt)
        then (e, rejected receipt_not_json)
        else commit m.clock e (
            kind_transaction m (set_to (codes "receipt/" ++ txid) (slice receipt) ∷ [])
              (codes "execution") (codes "receipt")
            ∷ [])

    unfoldable pub put_account : Stamp → Engine F → Bytes → Bytes → Engine F × Reply
    unfolding kind_transaction
    put_account m e address account =
        if not (V.valid account)
        then (e, rejected account_not_json)
        else commit m.clock e (
            kind_transaction m (set_to (codes "account/" ++ to_lower address) (slice account) ∷ [])
              (codes "execution") (codes "account_state")
            ∷ [])

    unfoldable pub put_log : Stamp → Engine F → Bytes → ℕ → Bytes → Engine F × Reply
    unfolding kind_transaction log_key
    put_log m e txid index log =
        if not (V.valid log)
        then (e, rejected log_not_json)
        else commit m.clock e (
            kind_transaction m (set_to (log_key txid index) (slice log) ∷ []) (codes "execution")
              (codes "event_log")
            ∷ [])
