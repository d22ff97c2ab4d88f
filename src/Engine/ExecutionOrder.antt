-- ===== src/Engine/ExecutionOrder.antt =====
-- `CommitExecution` of engine.go and the order in which Go goes through the maps of a bundle.
use agidb_on_chain.Base.{
  ◌≡◌, refl, sym, subst, ◌∙◌, ap, ap₂, true, false, inl, inr, List, [], ◌∷◌, ◌++◌, map, Bytes,
  codes, beq, beq_iff, bytes_ltb_irrefl, bytes_ltb_trans, bytes_ltb_total, if◌then◌else◌, All,
  Bool-cases, arith,
}
use mathlib.Core.List.{Permᴰ}
use mathlib.Core.List.Permᴰ.{append_left, append_right}
use agidb_on_chain.Go.Maps.{GoMap, contains, Distinct}
use agidb_on_chain.Go.Slices.{slice}
use agidb_on_chain.Go.Json.{JsonText}
use agidb_on_chain.Go.Sha256.{Sha256}
use agidb_on_chain.Model.{Operation}
use agidb_on_chain.Result.{
  Error, ok, links_of_ok, ok_injective, invalid_account, invalid_receipt, invalid_log,
}
use agidb_on_chain.Engine.{Engine, Store}
use agidb_on_chain.Engine.Puts.{Stamp, JsonCheck, set_to}
use agidb_on_chain.Engine.Executions.{
  ExecutionBundle, account_key, code_key, plain_ops, insert_op, sort_ops, checked_ops,
  execution_ops, execution_transaction, commit_ops, commit_execution,
}

abbrev pub op_keys : List Operation → List Bytes
op_keys ops = map (λ op. op.key) ops

-- two operations on different keys are put in in either order
insert_op-swap :
    (a b : Operation) (ops : List Operation)
    → beq a.key b.key ≡ false
    → insert_op a (insert_op b ops) ≡ insert_op b (insert_op a ops)
unfolding insert_op
insert_op-swap a b [] other = ground (
  arith,
  bytes_ltb_total a.key b.key,
  bytes_ltb_trans a.key b.key a.key,
  bytes_ltb_irrefl a.key,
  beq_iff a.key b.key,
)
insert_op-swap a b (o ∷ ops) other = ground (
  arith,
  insert_op-swap a b ops,
  bytes_ltb_total a.key b.key,
  bytes_ltb_trans a.key b.key a.key,
  bytes_ltb_trans o.key a.key b.key,
  bytes_ltb_trans o.key b.key a.key,
  bytes_ltb_irrefl a.key,
  beq_iff a.key b.key,
)

contains-swap :
    (a b : Operation) (ops : List Operation) (k : Bytes)
    → contains (op_keys (a ∷ b ∷ ops)) k ≡ contains (op_keys (b ∷ a ∷ ops)) k
unfolding contains
contains-swap a b ops k = ground arith

pub contains-Permᴰ :
    {xs ys : List Operation} (k : Bytes)
    → Permᴰ xs ys
    → contains (op_keys xs) k ≡ contains (op_keys ys) k
unfolding contains
contains-Permᴰ k Permᴰ.nil = refl
contains-Permᴰ k (Permᴰ.cons same p) =
    ap₂ (λ op rest. if beq (Operation.key op) k then true else rest) same (contains-Permᴰ k p)
contains-Permᴰ k (Permᴰ.swap {a} {b} {l} ab ba) =
    contains-swap a b l k ∙ ap₂ (λ x y. contains (op_keys (x ∷ y ∷ l)) k) ba ab
contains-Permᴰ k (Permᴰ.trans p q) = contains-Permᴰ k p ∙ contains-Permᴰ k q

Distinct-swap :
    (a b : Operation) (ops : List Operation)
    → Distinct (op_keys (a ∷ b ∷ ops))
    → Distinct (op_keys (b ∷ a ∷ ops))
unfolding contains
Distinct-swap a b ops d = ground (arith, beq_iff a.key b.key, beq_iff b.key a.key)

pub Distinct-Permᴰ :
    {xs ys : List Operation} → Permᴰ xs ys → Distinct (op_keys xs) → Distinct (op_keys ys)
Distinct-Permᴰ Permᴰ.nil d = tt
Distinct-Permᴰ (Permᴰ.cons {l₂} same p) d = (
  ap (λ op. contains (op_keys l₂) (Operation.key op)) (sym same) ∙ sym (contains-Permᴰ _ p) ∙ d.0,
  Distinct-Permᴰ p d.1,
)
Distinct-Permᴰ (Permᴰ.swap {a} {b} {b'} {l} ab ba) d =
    subst (λ x. Distinct (op_keys (x ∷ b' ∷ l))) ba
      (subst (λ y. Distinct (op_keys (b ∷ y ∷ l))) ab (Distinct-swap a b l d))
Distinct-Permᴰ (Permᴰ.trans p q) d = Distinct-Permᴰ q (Distinct-Permᴰ p d)

apart : (j k : Bytes) (ks : List Bytes) → contains (k ∷ ks) j ≡ false → beq j k ≡ false
unfolding contains
apart j k ks h = ground (arith, beq_iff j k, beq_iff k j)

-- Operations on different keys are sorted the same from every order.
sort_ops-Permᴰ :
    {xs ys : List Operation} → Permᴰ xs ys → Distinct (op_keys xs) → sort_ops xs ≡ sort_ops ys
unfolding sort_ops
sort_ops-Permᴰ Permᴰ.nil d = refl
sort_ops-Permᴰ (Permᴰ.cons same p) d = ap₂ insert_op same (sort_ops-Permᴰ p d.1)
sort_ops-Permᴰ (Permᴰ.swap {a} {b} {l} ab ba) d =
    insert_op-swap a b (sort_ops l) (apart a.key b.key (op_keys l) d.0)
    ∙ ap₂ (λ x y. insert_op x (insert_op y (sort_ops l))) ba ab
sort_ops-Permᴰ (Permᴰ.trans p q) d = sort_ops-Permᴰ p d ∙ sort_ops-Permᴰ q (Distinct-Permᴰ p d)

both {ℓ} :
    {A : Type ℓ} {ks bs cs ds : List A} → Permᴰ ks bs → Permᴰ cs ds → Permᴰ (ks ++ cs) (bs ++ ds)
both {ks} {bs} {cs} {ds} p q = Permᴰ.trans (append_right cs p) (append_left bs q)

plain_ops-Permᴰ :
    (key : Bytes → Bytes) {m n : GoMap Bytes}
    → Permᴰ m n
    → Permᴰ (plain_ops key m) (plain_ops key n)
unfolding plain_ops
plain_ops-Permᴰ key Permᴰ.nil = Permᴰ.nil
plain_ops-Permᴰ key (Permᴰ.cons same p) =
    Permᴰ.cons (ap (λ e. set_to (key e.0) (slice e.1)) same) (plain_ops-Permᴰ key p)
plain_ops-Permᴰ key (Permᴰ.swap ab ba) =
    Permᴰ.swap (ap (λ e. set_to (key e.0) (slice e.1)) ab)
      (ap (λ e. set_to (key e.0) (slice e.1)) ba)
plain_ops-Permᴰ key (Permᴰ.trans p q) = Permᴰ.trans (plain_ops-Permᴰ key p) (plain_ops-Permᴰ key q)

module _ ⦃V : JsonCheck⦄ where
  abbrev pub IsValid : Bytes × Bytes → Type 0
  IsValid e = V.valid e.1 ≡ true

  All-Permᴰ : {m n : GoMap Bytes} → Permᴰ m n → All IsValid m → All IsValid n
  All-Permᴰ Permᴰ.nil a = tt
  All-Permᴰ (Permᴰ.cons same p) a = (subst IsValid same a.0, All-Permᴰ p a.1)
  All-Permᴰ (Permᴰ.swap ab ba) a = (subst IsValid ba a.1.0, (subst IsValid ab a.0, a.1.1))
  All-Permᴰ (Permᴰ.trans p q) a = All-Permᴰ q (All-Permᴰ p a)

  checked_ops-ok :
      (failure : Bytes → Error) (key : Bytes → Bytes) (m : GoMap Bytes)
      → All IsValid m
      → checked_ops failure key m ≡ ok (plain_ops key m)
  unfolding checked_ops plain_ops
  checked_ops-ok failure key [] a = refl
  checked_ops-ok failure key ((k, v) ∷ m) a =
      rw (checked_ops, a.0) (rw (checked_ops-ok failure key m a.1) refl)

  pub checked_ops_inv :
      (failure : Bytes → Error) (key : Bytes → Bytes) (m : GoMap Bytes) (ops : List Operation)
      → checked_ops failure key m ≡ ok ops
      → All IsValid m × (ops ≡ plain_ops key m)
  unfolding checked_ops plain_ops
  checked_ops_inv failure key [] ops h = (tt, sym (ok_injective [] ops h))
  checked_ops_inv failure key ((k, v) ∷ m) ops h = elim (Bool-cases (V.valid v)) [
    | inl valid ↦
        let (rest, loop, last) =
          links_of_ok (checked_ops failure key m) (λ os. ok (set_to (key k) (slice v) ∷ os))
            (rw valid at h) in
        let (valids, same) = checked_ops_inv failure key m rest loop in
        (
          (valid, valids),
          sym (ok_injective _ ops last) ∙ ap (λ os. set_to (key k) (slice v) ∷ os) same,
        )
    | inr invalid ↦ cc (rw invalid at h)
  ]

  checked_ops-Permᴰ :
      (failure : Bytes → Error) (key : Bytes → Bytes) {m n : GoMap Bytes} (ops : List Operation)
      → Permᴰ m n
      → checked_ops failure key m ≡ ok ops
      → (ops' : List Operation) × (checked_ops failure key n ≡ ok ops') × Permᴰ ops ops'
  checked_ops-Permᴰ failure key {m} {n} ops p h =
      let (valids, same) = checked_ops_inv failure key m ops h in
      (
        plain_ops key n,
        checked_ops-ok failure key n (All-Permᴰ p valids),
        subst (λ os. Permᴰ os (plain_ops key n)) (sym same) (plain_ops-Permᴰ key p),
      )

  -- the same bundle, with its maps in another order
  pub record IsReordered (x y : ExecutionBundle) : Type 0 where
    pub block_id : x.block_id ≡ y.block_id
    pub sender : x.sender ≡ y.sender
    pub nonce : x.nonce ≡ y.nonce
    pub accounts : Permᴰ x.accounts y.accounts
    pub contract_code : Permᴰ x.contract_code y.contract_code
    pub storage : Permᴰ x.storage y.storage
    pub receipts : Permᴰ x.receipts y.receipts
    pub logs : Permᴰ x.logs y.logs
    pub state : Permᴰ x.state y.state

  abbrev pub all_ops :
      ExecutionBundle → List Operation → List Operation → List Operation → List Operation
  all_ops x accounts receipts logs =
      accounts
      ++ (plain_ops code_key x.contract_code
          ++ (plain_ops (λ k. codes "contract-storage/" ++ k) x.storage
              ++ (receipts ++ (logs ++ plain_ops (λ k. k) x.state))))

  -- the parts of the operations that are checked
  pub record AreParts (x : ExecutionBundle) (ops : List Operation) : Type 0 where
    pub accounts : List Operation
    pub receipts : List Operation
    pub logs : List Operation
    pub accounts_read : checked_ops invalid_account account_key x.accounts ≡ ok accounts
    pub receipts_read :
        checked_ops invalid_receipt (λ k. codes "receipt/" ++ k) x.receipts ≡ ok receipts
    pub logs_read : checked_ops invalid_log (λ k. codes "log/" ++ k) x.logs ≡ ok logs
    pub joined : all_ops x accounts receipts logs ≡ ops

  pub execution_ops-AreParts :
      (x : ExecutionBundle) (ops : List Operation) → execution_ops x ≡ ok ops → AreParts x ops
  unfolding execution_ops
  execution_ops-AreParts x ops h =
      let (accs, accounts, h) = links_of_ok _ _ h in
      let (rs, receipts, h) = links_of_ok _ _ h in
      let (ls, logs, h) = links_of_ok _ _ h in
      record {
        accounts = accs;
        receipts = rs;
        logs = ls;
        accounts_read = accounts;
        receipts_read = receipts;
        logs_read = logs;
        joined = ok_injective _ ops h;
      }

  execution_ops-IsReordered :
      (x y : ExecutionBundle) (ops : List Operation)
      → IsReordered x y
      → execution_ops x ≡ ok ops
      → (ops' : List Operation) × (execution_ops y ≡ ok ops') × Permᴰ ops ops'
  unfolding execution_ops
  execution_ops-IsReordered x y ops r h =
      let parts = execution_ops-AreParts x ops h in
      let (accs, accounts, pa) =
        checked_ops-Permᴰ invalid_account account_key parts.accounts r.accounts
          parts.accounts_read in
      let (rs, receipts, pr) =
        checked_ops-Permᴰ invalid_receipt _ parts.receipts r.receipts parts.receipts_read in
      let (ls, logs, pl) = checked_ops-Permᴰ invalid_log _ parts.logs r.logs parts.logs_read in
      (
        all_ops y accs rs ls,
        rw (accounts, receipts, logs) refl,
        subst (λ os. Permᴰ os (all_ops y accs rs ls)) parts.joined
            (both pa (
              both (plain_ops-Permᴰ code_key r.contract_code) (
                both (plain_ops-Permᴰ (λ k. codes "contract-storage/" ++ k) r.storage)
                  (both pr (both pl (plain_ops-Permᴰ (λ k. k) r.state)))))),
      )

  module _ ⦃H : Sha256⦄ ⦃J : JsonText⦄ {F : Type 0} ⦃S : Store F⦄ where
    commit_execution_with :
        (m : Stamp) (e : Engine F) (x : ExecutionBundle) (ops : List Operation)
        → execution_ops x ≡ ok ops
        → commit_execution m e x ≡ commit_ops m e x (ok ops)
    unfolding commit_execution
    commit_execution_with m e x ops h = ap (commit_ops m e x) h

    -- The order in which the maps of a bundle are gone through makes no difference, neither to the
    -- database nor to the reply, where the values that must be JSON are and no two operations of the
    -- bundle have the same key.
    pub commit_execution-IsReordered :
        (m : Stamp) (e : Engine F) (x y : ExecutionBundle) (ops : List Operation)
        → IsReordered x y
        → execution_ops x ≡ ok ops
        → Distinct (op_keys ops)
        → commit_execution m e x ≡ commit_execution m e y
    unfolding commit_ops execution_transaction
    commit_execution-IsReordered m e x y ops r h d =
        let (ops', h', p) = execution_ops-IsReordered x y ops r h in
        let same : commit_ops m e x (ok ops) ≡ commit_ops m e y (ok ops') =
          simp (sort_ops-Permᴰ p d, r.block_id, r.sender, r.nonce) in
        commit_execution_with m e x ops h ∙ same ∙ sym (commit_execution_with m e y ops' h')
