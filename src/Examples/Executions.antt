-- ===== src/Examples/Executions.antt =====
-- A bundle of an account and an entry of the state, and elements of a field.
use agidb_on_chain.Base.{◌≡◌, ◌<◌, ◌↔◌, refl, true, none, some, List, [], ◌∷◌, codes, beq, arith}
use mathlib.Core.List.{Permᴰ}
use agidb_on_chain.Go.Maps.{Distinct}
use agidb_on_chain.Go.Slices.{slice}
use agidb_on_chain.Go.Strings.{to_lower}
use agidb_on_chain.Go.Decimals.{decimal_value}
use agidb_on_chain.Model.{Operation, Block}
use agidb_on_chain.Result.{ok}
use agidb_on_chain.Engine.Batches.{new_transaction}
use agidb_on_chain.Engine.Committing.{installed, new_block}
use agidb_on_chain.Engine.Effects.{put_ops, put_txs}
use agidb_on_chain.Engine.Puts.{Stamp, JsonCheck, set_to, modulus_of, validate_field_value}
use agidb_on_chain.Engine.Executions.{
  ExecutionBundle, plain_ops, insert_op, sort_ops, checked_ops, execution_ops,
  execution_transaction, commit_ops, commit_execution,
}
use agidb_on_chain.Engine.ExecutionOrder.{op_keys, IsReordered, commit_execution-IsReordered}
use agidb_on_chain.Engine.ExecutionEffects.{HasExecuted, commit_execution-HasExecuted}
use agidb_on_chain.Engine.Fields.{validate_field_value_iff}
use agidb_on_chain.Examples.Toys.{toy_sha256, toy_json, memory_store}
use agidb_on_chain.Examples.Sessions.{program, fresh}

instance abbrev every_json : JsonCheck
every_json = record { valid = λ b. true }

abbrev stamp : Stamp
stamp = record { id = codes "t"; time = 5; clock = 6 }

abbrev bundle : ExecutionBundle
bundle = record {
  block_id = codes "x";
  sender = codes "me";
  nonce = 1;
  accounts = (codes "B", codes "2") ∷ (codes "A", codes "1") ∷ [];
  contract_code = [];
  storage = [];
  receipts = [];
  logs = [];
  state = (codes "k", codes "3") ∷ [];
}

abbrev turned : ExecutionBundle
turned = record bundle { accounts = (codes "A", codes "1") ∷ (codes "B", codes "2") ∷ [] }

abbrev bundle_ops : List Operation
bundle_ops =
    set_to (codes "account/b") (slice (codes "2"))
    ∷ set_to (codes "account/a") (slice (codes "1"))
    ∷ set_to (codes "k") (slice (codes "3"))
    ∷ []

unfoldable executing : Unit {0}
unfolding program commit_execution commit_ops execution_transaction execution_ops checked_ops
    plain_ops sort_ops insert_op to_lower new_transaction
executing = tt

bundle_read : execution_ops bundle ≡ ok bundle_ops
unfolding executing
bundle_read = refl

bundle-Distinct : Distinct (op_keys bundle_ops)
unfolding executing
bundle-Distinct = (refl, (refl, (refl, tt)))

turned-IsReordered : IsReordered bundle turned
turned-IsReordered = record {
  block_id = refl;
  sender = refl;
  nonce = refl;
  accounts = Permᴰ.swap refl refl;
  contract_code = Permᴰ.nil;
  storage = Permᴰ.nil;
  receipts = Permᴰ.nil;
  logs = Permᴰ.nil;
  state = Permᴰ.cons refl Permᴰ.nil;
}

commit_execution-IsReordered_example :
    commit_execution stamp fresh bundle ≡ commit_execution stamp fresh turned
commit_execution-IsReordered_example =
    commit_execution-IsReordered stamp fresh bundle turned bundle_ops turned-IsReordered bundle_read
      bundle-Distinct

abbrev bundle_block : Block
bundle_block =
    let tx = execution_transaction stamp bundle bundle_ops in
    new_block 6 [] (put_txs [] (tx ∷ [])) (tx ∷ [])

bundle_installed : installed (commit_execution stamp fresh bundle).1 ≡ some bundle_block
unfolding executing put_txs put_ops
bundle_installed = refl

commit_execution-HasExecuted_example :
    HasExecuted fresh.state bundle_ops (commit_execution stamp fresh bundle).0.state
commit_execution-HasExecuted_example =
    commit_execution-HasExecuted stamp fresh bundle bundle_ops bundle_block tt bundle_read
      bundle-Distinct bundle_installed

bn254 :
    modulus_of (to_lower (codes "BN254"))
    ≡ some 21888242871839275222246405745257275088548364400416034343698204186575808495617
unfolding modulus_of to_lower beq
bn254 = refl

validate_field_value_iff_example : (validate_field_value (codes "BN254") (codes "17") ≡ none) ↔ (
    decimal_value (codes "17")
    < 21888242871839275222246405745257275088548364400416034343698204186575808495617)
validate_field_value_iff_example =
    validate_field_value_iff (codes "BN254") (codes "17") _ bn254 (λ h. cc)
      ((omega arith, omega arith), ((omega arith, omega arith), tt))
