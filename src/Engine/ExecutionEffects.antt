-- ===== src/Engine/ExecutionEffects.antt =====
-- `CommitExecution` of engine.go and the state after it.
use agidb_on_chain.Base.{
  ◌≡◌, refl, sym, ◌∙◌, ap, subst, false, some, inl, inr, List, [], ◌∷◌, ◌++◌, Bytes, codes,
  beq_refl, bytes_ltb, All, Bool-cases, arith,
}
use mathlib.Core.List.{Permᴰ, Memᴰ}
use mathlib.Core.List.Permᴰ
use agidb_on_chain.Go.Maps.{GoMap, keys, lookup, contains, Distinct, lookup-insert, lookup-remove}
use agidb_on_chain.Go.Slices.{contents}
use agidb_on_chain.Go.Json.{JsonText}
use agidb_on_chain.Go.Sha256.{Sha256}
use agidb_on_chain.Model.{Operation, Block}
use agidb_on_chain.Result.{Error, ok}
use agidb_on_chain.Engine.{Engine, Store, put_op}
use agidb_on_chain.Engine.Committing.{installed}
use agidb_on_chain.Engine.Effects.{put_ops, put_txs}
use agidb_on_chain.Engine.NoOps.{commit-IsEffective}
use agidb_on_chain.Engine.Puts.{Stamp, JsonCheck}
use agidb_on_chain.Engine.Executions.{
  ExecutionBundle, code_key, plain_ops, checked_ops, insert_op, sort_ops, execution_ops,
  execution_transaction, commit_ops, commit_execution,
}
use agidb_on_chain.Engine.ExecutionOrder.{
  op_keys, checked_ops_inv, execution_ops-AreParts, contains-Permᴰ, Distinct-Permᴰ,
}

insert_op-Permᴰ : (op : Operation) (ops : List Operation) → Permᴰ (op ∷ ops) (insert_op op ops)
unfolding insert_op
insert_op-Permᴰ op [] = Permᴰ.cons refl Permᴰ.nil
insert_op-Permᴰ op (o ∷ ops) = elim (Bool-cases (bytes_ltb o.key op.key)) [
  | inl below ↦
      rw below (Permᴰ.trans (Permᴰ.swap refl refl) (Permᴰ.cons refl (insert_op-Permᴰ op ops)))
  | inr above ↦ rw above (Permᴰ.refl (op ∷ o ∷ ops))
]

sort_ops-Permᴰ : (ops : List Operation) → Permᴰ ops (sort_ops ops)
unfolding sort_ops
sort_ops-Permᴰ [] = Permᴰ.nil
sort_ops-Permᴰ (op ∷ ops) =
    Permᴰ.trans (Permᴰ.cons refl (sort_ops-Permᴰ ops)) (insert_op-Permᴰ op (sort_ops ops))

Memᴰ-Permᴰ : {op : Operation} {xs ys : List Operation} → Permᴰ xs ys → Memᴰ op xs → Memᴰ op ys
Memᴰ-Permᴰ Permᴰ.nil m = elim m [ ]
Memᴰ-Permᴰ (Permᴰ.cons same p) (Memᴰ.head e) = Memᴰ.head (e ∙ same)
Memᴰ-Permᴰ (Permᴰ.cons same p) (Memᴰ.tail m) = Memᴰ.tail (Memᴰ-Permᴰ p m)
Memᴰ-Permᴰ (Permᴰ.swap ab ba) (Memᴰ.head e) = Memᴰ.tail (Memᴰ.head (e ∙ ab))
Memᴰ-Permᴰ (Permᴰ.swap ab ba) (Memᴰ.tail (Memᴰ.head e)) = Memᴰ.head (e ∙ ba)
Memᴰ-Permᴰ (Permᴰ.swap ab ba) (Memᴰ.tail (Memᴰ.tail m)) = Memᴰ.tail (Memᴰ.tail m)
Memᴰ-Permᴰ (Permᴰ.trans p q) m = Memᴰ-Permᴰ q (Memᴰ-Permᴰ p m)

-- a key that no operation has keeps its value
lookup-put_ops_other :
    (s : GoMap Bytes) (ops : List Operation) (k : Bytes)
    → contains (op_keys ops) k ≡ false
    → lookup (put_ops s ops) k ≡ lookup s k
unfolding put_ops put_op contains
lookup-put_ops_other s [] k h = refl
lookup-put_ops_other s (op ∷ ops) k h = ground (
  arith,
  lookup-put_ops_other (put_op s op) ops k,
  lookup-insert s op.key (contents op.value) k,
  lookup-remove s op.key k,
)

lookup-put_op_own :
    (s : GoMap Bytes) (op : Operation)
    → op.delete ≡ false
    → lookup (put_op s op) op.key ≡ some (contents op.value)
unfolding put_op
lookup-put_op_own s op sets =
    ground (arith, lookup-insert s op.key (contents op.value) op.key, beq_refl op.key)

-- the key of an operation that sets it has the operation's value
lookup-put_ops_own :
    (s : GoMap Bytes) (ops : List Operation) (op : Operation)
    → Distinct (op_keys ops)
    → Memᴰ op ops
    → op.delete ≡ false
    → lookup (put_ops s ops) op.key ≡ some (contents op.value)
unfolding put_ops
lookup-put_ops_own s [] op d m sets = elim m [ ]
lookup-put_ops_own s (o ∷ ops) op d (Memᴰ.head e) sets =
    let first : contains (op_keys ops) op.key ≡ false =
      ap (λ x. contains (op_keys ops) (Operation.key x)) e ∙ d.0 in
    lookup-put_ops_other (put_op s o) ops op.key first
    ∙ ap (λ x. lookup (put_op s x) op.key) (sym e)
    ∙ lookup-put_op_own s op sets
lookup-put_ops_own s (o ∷ ops) op d (Memᴰ.tail m) sets =
    lookup-put_ops_own (put_op s o) ops op d.1 m sets

abbrev Sets : Operation → Type 0
Sets op = op.delete ≡ false

All-append : (xs ys : List Operation) → All Sets xs → All Sets ys → All Sets (xs ++ ys)
All-append [] ys a b = b
All-append (x ∷ xs) ys a b = (a.0, All-append xs ys a.1 b)

All-Memᴰ : (ops : List Operation) (op : Operation) → All Sets ops → Memᴰ op ops → Sets op
All-Memᴰ [] op a m = elim m [ ]
All-Memᴰ (o ∷ ops) op a (Memᴰ.head e) = subst Sets (sym e) a.0
All-Memᴰ (o ∷ ops) op a (Memᴰ.tail m) = All-Memᴰ ops op a.1 m

plain_ops-Sets : (key : Bytes → Bytes) (m : GoMap Bytes) → All Sets (plain_ops key m)
unfolding plain_ops
plain_ops-Sets key [] = tt
plain_ops-Sets key ((k, v) ∷ m) = (refl, plain_ops-Sets key m)

module _ ⦃V : JsonCheck⦄ where
  checked_ops-Sets :
      (failure : Bytes → Error) (key : Bytes → Bytes) (m : GoMap Bytes) (ops : List Operation)
      → checked_ops failure key m ≡ ok ops
      → All Sets ops
  checked_ops-Sets failure key m ops h =
      subst (All Sets) (sym (checked_ops_inv failure key m ops h).1) (plain_ops-Sets key m)

  execution_ops-Sets :
      (x : ExecutionBundle) (ops : List Operation) → execution_ops x ≡ ok ops → All Sets ops
  execution_ops-Sets x ops h =
      let parts = execution_ops-AreParts x ops h in
      subst (All Sets) parts.joined (
        All-append parts.accounts _ (checked_ops-Sets _ _ x.accounts _ parts.accounts_read) (
          All-append _ _ (plain_ops-Sets code_key x.contract_code) (
            All-append _ _ (plain_ops-Sets (λ k. codes "contract-storage/" ++ k) x.storage) (
              All-append parts.receipts _ (checked_ops-Sets _ _ x.receipts _ parts.receipts_read) (
                All-append parts.logs _ (checked_ops-Sets _ _ x.logs _ parts.logs_read)
                  (plain_ops-Sets (λ k. k) x.state))))))

  -- the state has the values of the operations, and otherwise what it had
  pub record HasExecuted (s : GoMap Bytes) (ops : List Operation) (s' : GoMap Bytes) : Type 0 where
    pub own : (op : Operation) → Memᴰ op ops → lookup s' op.key ≡ some (contents op.value)
    pub others : (k : Bytes) → contains (op_keys ops) k ≡ false → lookup s' k ≡ lookup s k

  sorted-HasExecuted :
      (s : GoMap Bytes) (ops : List Operation)
      → Distinct (op_keys ops)
      → All Sets ops
      → HasExecuted s ops (put_ops s (sort_ops ops))
  sorted-HasExecuted s ops d sets =
      let p = sort_ops-Permᴰ ops in
      record {
        own = λ op m.
            lookup-put_ops_own s (sort_ops ops) op (Distinct-Permᴰ p d) (Memᴰ-Permᴰ p m)
              (All-Memᴰ ops op sets m);
        others = λ k h. lookup-put_ops_other s (sort_ops ops) k (sym (contains-Permᴰ k p) ∙ h);
      }

  module _ ⦃H : Sha256⦄ ⦃J : JsonText⦄ {F : Type 0} ⦃S : Store F⦄ where
    commit_ops-HasExecuted :
        (m : Stamp) (e : Engine F) (x : ExecutionBundle) (ops : List Operation) (b : Block)
        → Distinct (keys e.state)
        → HasExecuted e.state ops (put_ops e.state (sort_ops ops))
        → installed (commit_ops m e x (ok ops)).1 ≡ some b
        → HasExecuted e.state ops (commit_ops m e x (ok ops)).0.state
    unfolding commit_ops execution_transaction put_txs
    commit_ops-HasExecuted m e x ops b d sorted h =
        let same =
          (commit-IsEffective m.clock e (execution_transaction m x ops ∷ []) b d h).effect in
        record {
          own = λ op mem. same op.key ∙ sorted.own op mem;
          others = λ k out. same k ∙ sorted.others k out;
        }

    -- Where a bundle is committed whose operations have different keys, the state has the value of
    -- each of them under its key, and every other key is as it was.
    pub commit_execution-HasExecuted :
        (m : Stamp) (e : Engine F) (x : ExecutionBundle) (ops : List Operation) (b : Block)
        → Distinct (keys e.state)
        → execution_ops x ≡ ok ops
        → Distinct (op_keys ops)
        → installed (commit_execution m e x).1 ≡ some b
        → HasExecuted e.state ops (commit_execution m e x).0.state
    unfolding commit_execution
    commit_execution-HasExecuted m e x ops b d read apart h =
        subst (λ r. HasExecuted e.state ops (commit_ops m e x r).0.state) (sym read)
          (commit_ops-HasExecuted m e x ops b d
            (sorted-HasExecuted e.state ops apart (execution_ops-Sets x ops read))
            (sym (ap (λ r. installed (commit_ops m e x r).1) read) ∙ h))
