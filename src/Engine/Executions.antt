-- ===== src/Engine/Executions.antt =====
-- `CommitExecution` and `QueryLogs` of engine.go. The maps of a bundle are gone through in the order of
-- their lists; Go leaves that order open. `sort.Slice` is by insertion, and keeps the order of
-- operations on one key, which Go leaves open too.
use agidb_on_chain.Base.{
  ℕ, Bool, true, ◌&&◌, List, [], ◌∷◌, ◌++◌, Bytes, codes, beq, bytes_ltb, has_prefix, if◌then◌else◌,
}
use agidb_on_chain.Go.Maps.{GoMap, insert}
use agidb_on_chain.Go.Slices.{nil_slice, slice}
use agidb_on_chain.Go.Strings.{to_lower, has_infix}
use agidb_on_chain.Go.Json.{JsonText}
use agidb_on_chain.Go.Sha256.{Sha256}
use agidb_on_chain.Model.{Operation, Transaction}
use agidb_on_chain.Result.{
  Error, Result, ok, err, ◌>>=◌, invalid_account, invalid_receipt, invalid_log,
}
use agidb_on_chain.Engine.{Engine, Store}
use agidb_on_chain.Engine.Batches.{new_transaction}
use agidb_on_chain.Engine.Committing.{Reply, rejected, commit}
use agidb_on_chain.Engine.Puts.{Stamp, JsonCheck, set_to}

pub record ExecutionBundle : Type 0 where
  pub block_id : Bytes
  pub sender : Bytes
  pub nonce : ℕ
  pub accounts : GoMap Bytes
  pub contract_code : GoMap Bytes
  pub storage : GoMap Bytes
  pub receipts : GoMap Bytes
  pub logs : GoMap Bytes
  pub state : GoMap Bytes

-- the keys of the operations
abbrev pub account_key : Bytes → Bytes
account_key address = codes "account/" ++ to_lower address

abbrev pub code_key : Bytes → Bytes
code_key address = codes "contract/code/" ++ to_lower address

-- the loop over a map whose values are taken as they are
unfoldable pub plain_ops : (Bytes → Bytes) → GoMap Bytes → List Operation
plain_ops key [] = []
plain_ops key ((k, v) ∷ m) = set_to (key k) (slice v) ∷ plain_ops key m

unfoldable pub insert_op : Operation → List Operation → List Operation
insert_op op [] = op ∷ []
insert_op op (o ∷ ops) =
    let rest = insert_op op ops in if bytes_ltb o.key op.key then o ∷ rest else op ∷ o ∷ ops

-- `sort.Slice(ops, …)` by the keys
unfoldable pub sort_ops : List Operation → List Operation
unfolding insert_op
sort_ops [] = []
sort_ops (op ∷ ops) = insert_op op (sort_ops ops)

module _ ⦃V : JsonCheck⦄ where
  -- the loop over a map whose values must be JSON
  unfoldable pub checked_ops :
      (Bytes → Error) → (Bytes → Bytes) → GoMap Bytes → Result (List Operation)
  checked_ops failure key [] = ok []
  checked_ops failure key ((k, v) ∷ m) =
      let rest = checked_ops failure key m in
      if V.valid v then (rest >>= λ ops. ok (set_to (key k) (slice v) ∷ ops)) else err (failure k)

  -- the operations of a bundle, unsorted
  unfoldable pub execution_ops : ExecutionBundle → Result (List Operation)
  unfolding checked_ops plain_ops
  execution_ops x = do
    accounts ← checked_ops invalid_account account_key x.accounts
    receipts ← checked_ops invalid_receipt (λ k. codes "receipt/" ++ k) x.receipts
    logs ← checked_ops invalid_log (λ k. codes "log/" ++ k) x.logs
    ok (
        accounts
        ++ (plain_ops code_key x.contract_code
            ++ (plain_ops (λ k. codes "contract-storage/" ++ k) x.storage
                ++ (receipts ++ (logs ++ plain_ops (λ k. k) x.state)))))

unfoldable pub execution_transaction : Stamp → ExecutionBundle → List Operation → Transaction
unfolding sort_ops new_transaction
execution_transaction m x ops =
    record (new_transaction m.id m.time (sort_ops ops) x.sender x.nonce nil_slice) {
      id = if beq x.block_id [] then m.id else x.block_id;
      kind = codes "execution_block";
    }

module _ ⦃H : Sha256⦄ ⦃J : JsonText⦄ ⦃V : JsonCheck⦄ {F : Type 0} ⦃S : Store F⦄ where
  unfoldable pub commit_ops :
      Stamp → Engine F → ExecutionBundle → Result (List Operation) → Engine F × Reply
  unfolding execution_transaction
  commit_ops m e x (err failure) = (e, rejected failure)
  commit_ops m e x (ok ops) = commit m.clock e (execution_transaction m x ops ∷ [])

  -- `CommitExecution`
  unfoldable pub commit_execution : Stamp → Engine F → ExecutionBundle → Engine F × Reply
  unfolding execution_ops commit_ops
  commit_execution m e x = commit_ops m e x (execution_ops x)

-- a filter of `QueryLogs`, which the empty string turns off
abbrev pub mentions : Bytes → Bytes → Bool
mentions text word = if beq word [] then true else has_infix text word

-- does the entry pass? `address` and `topic` are in lower case
unfoldable pub is_match : Bytes → Bytes → Bytes → Bytes → Bool
is_match address topic k v =
    has_prefix k (codes "log/") && mentions (to_lower v) address && mentions (to_lower v) topic

-- the loop of `QueryLogs`
unfoldable pub collect_logs : Bytes → Bytes → GoMap Bytes → GoMap Bytes → GoMap Bytes
unfolding is_match
collect_logs address topic out [] = out
collect_logs address topic out ((k, v) ∷ m) =
    collect_logs address topic (if is_match address topic k v then insert out k v else out) m

unfoldable pub query_logs : {F : Type 0} → Engine F → Bytes → Bytes → GoMap Bytes
unfolding collect_logs
query_logs e address topic = collect_logs (to_lower address) (to_lower topic) [] e.state
