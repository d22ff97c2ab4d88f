-- ===== src/Engine/Summary.antt =====
-- The status of an engine beside its blocks.
use agidb_on_chain.Base.{
  ℕ, ◌+◌, ◌%◌, ◌^◌, ◌≤◌, ◌≡◌, refl, sym, ◌∙◌, ap, subst, Bool, true, false, Option, none, some,
  List, [], ◌∷◌, ◌++◌, beq_eq, length, leb, arith,
}
use agidb_on_chain.Go.Json.{JsonText}
use agidb_on_chain.Go.Sha256.{Sha256}
use agidb_on_chain.Model.{Operation, Transaction, BlockHeader, Block, Status}
use agidb_on_chain.Result.{Error, Result, ok, err, ◌>>◌, require, links_of_ok, ok_injective}
use agidb_on_chain.Engine.{Engine, new_engine, apply_op, apply_ops, count_tx, commit_txs}
use agidb_on_chain.Engine.Committing.{install}
use agidb_on_chain.Engine.Loading.{
  check_roots, check_schema_3, check_schema_4, apply_loaded, load_all,
}
use agidb_on_chain.Engine.Effects.{put_txs}
use agidb_on_chain.Engine.Replay.{IsReplay, apply_loaded-inv, state-install, blocks-install}
use agidb_on_chain.Engine.Status.{Counts, status}

-- the operations of transactions; the transactions and the operations of blocks
abbrev pub ops_of : List Transaction → ℕ
ops_of [] = 0
ops_of (tx ∷ txs) = length tx.ops + ops_of txs

abbrev pub txs_in : List Block → ℕ
txs_in [] = 0
txs_in (b ∷ bs) = length b.transactions + txs_in bs

abbrev pub ops_in : List Block → ℕ
ops_in [] = 0
ops_in (b ∷ bs) = ops_of b.transactions + ops_in bs

abbrev pub last_block : List Block → Option Block
last_block [] = none
last_block (b ∷ []) = some b
last_block (b ∷ c ∷ bs) = last_block (c ∷ bs)

last_block-append : (bs : List Block) (b : Block) → last_block (bs ++ (b ∷ [])) ≡ some b
last_block-append [] b = refl
last_block-append (c ∷ []) b = refl
last_block-append (c ∷ d ∷ bs) b = last_block-append (d ∷ bs) b

txs_in-append :
    (bs : List Block) (b : Block) → txs_in (bs ++ (b ∷ [])) ≡ txs_in bs + length b.transactions
txs_in-append [] b = omega arith
txs_in-append (c ∷ bs) b = omega (arith, txs_in-append bs b)

ops_in-append :
    (bs : List Block) (b : Block) → ops_in (bs ++ (b ∷ [])) ≡ ops_in bs + ops_of b.transactions
ops_in-append [] b = omega arith
ops_in-append (c ∷ bs) b = omega (arith, ops_in-append bs b)

-- What the header of schema 4 says of the state is what the status reports.
pub record AreRoots (s : Status) (h : BlockHeader) : Type 0 where
  pub state : s.state_root ≡ h.state_root
  pub contract : s.contract_root ≡ h.contract_root
  pub account : s.account_root ≡ h.account_root
  pub contract_code : s.contract_code_root ≡ h.contract_code_root
  pub contract_storage : s.contract_storage_root ≡ h.contract_storage_root
  pub log : s.log_root ≡ h.log_root
  pub zk : s.zk_root ≡ h.zk_root
  pub receipt : s.receipt_root ≡ h.receipt_root

next_check :
    (t : Bool) (e : Error) (rest : Result (Unit {0}))
    → (require t e >> rest) ≡ ok tt
    → (t ≡ true) × (rest ≡ ok tt)
next_check true e rest h = (refl, h)
next_check false e rest h = cc

then_check : (r rest : Result (Unit {0})) → (r >> rest) ≡ ok tt → (r ≡ ok tt) × (rest ≡ ok tt)
then_check (ok u) rest h = (refl, h)
then_check (err e) rest h = cc

last_check : (t : Bool) (e : Error) → require t e ≡ ok tt → t ≡ true
last_check true e h = refl
last_check false e h = cc

module _ ⦃H : Sha256⦄ ⦃J : JsonText⦄ {F : Type 0} ⦃N : Counts F⦄ where
  check_roots-AreRoots :
      (e : Engine F) (h : BlockHeader)
      → 4 ≤ h.schema
      → check_roots e.state h ≡ ok tt
      → AreRoots (status e) h
  unfolding check_roots check_schema_3 check_schema_4 status
  check_roots-AreRoots e h four checked =
      let three_up : leb 3 h.schema ≡ true = ground arith in
      let four_up : leb 4 h.schema ≡ true = ground arith in
      let (state, after) = next_check _ _ _ checked in
      let (contract, after) = next_check _ _ _ (rw (three_up, four_up) at after) in
      let (fourth, after) = then_check _ _ after in
      let (account, fourth) = next_check _ _ _ fourth in
      let (code, fourth) = next_check _ _ _ fourth in
      let (slots, fourth) = next_check _ _ _ fourth in
      let (zk, after) = next_check _ _ _ after in
      record {
        state = beq_eq _ _ state;
        contract = beq_eq _ _ contract;
        account = beq_eq _ _ account;
        contract_code = beq_eq _ _ code;
        contract_storage = beq_eq _ _ slots;
        log = beq_eq _ _ (last_check _ _ fourth);
        zk = beq_eq _ _ zk;
        receipt = beq_eq _ _ (last_check _ _ after);
      }

module _ {F : Type 0} where
  counts-apply_ops :
      (h : ℕ) (e : Engine F) (ops : List Operation)
      → ((apply_ops h e ops).tx_count ≡ e.tx_count) × ((apply_ops h e ops).op_count ≡ e.op_count)
  unfolding apply_ops apply_op
  counts-apply_ops h e [] = (refl, refl)
  counts-apply_ops h e (op ∷ ops) = counts-apply_ops h (apply_op h e op) ops

  -- the counts of an engine, of `t` transactions and `o` operations
  abbrev Counted : Engine F → ℕ → ℕ → Type 0
  Counted e t o = (e.tx_count ≡ t % 2 ^ 64) × (e.op_count ≡ o % 2 ^ 64)

  counts-commit_txs :
      (h : ℕ) (e : Engine F) (t o : ℕ) (txs : List Transaction)
      → Counted e t o
      → Counted (commit_txs h e txs) (t + length txs) (o + ops_of txs)
  unfolding commit_txs count_tx
  counts-commit_txs h e t o [] c = (omega (arith, c), omega (arith, c))
  counts-commit_txs h e t o (tx ∷ txs) c =
      let (same_t, same_o) = counts-apply_ops h e tx.ops in
      let (more_t, more_o) =
        counts-commit_txs h (count_tx (apply_ops h e tx.ops) tx) (t + 1) (o + length tx.ops) txs
          (omega (arith, c, same_t), omega (arith, c, same_o)) in
      (omega (arith, more_t), omega (arith, more_o))

some_injective : {b c : Block} → some b ≡ some c → b ≡ c
some_injective h = cc

module _ ⦃H : Sha256⦄ ⦃J : JsonText⦄ {F : Type 0} where
  -- the state meets the roots of the header of the last block
  record IsSummed (e : Engine F) : Type 0 where
    counted : Counted e (txs_in e.blocks) (ops_in e.blocks)
    met : (b : Block) → last_block e.blocks ≡ some b → check_roots e.state b.header ≡ ok tt

  counts-install :
      (e : Engine F) (b : Block)
      → Counted e (txs_in e.blocks) (ops_in e.blocks)
      → Counted
          (install e b)
          (txs_in e.blocks + length b.transactions)
          (ops_in e.blocks + ops_of b.transactions)
  unfolding install
  counts-install e b c =
      counts-commit_txs b.header.height e (txs_in e.blocks) (ops_in e.blocks) b.transactions c

  install-IsSummed :
      (e : Engine F) (b : Block)
      → check_roots (put_txs e.state b.transactions) b.header ≡ ok tt
      → IsSummed e
      → IsSummed (install e b)
  install-IsSummed e b roots i = record {
    counted = rw (blocks-install e b, txs_in-append, ops_in-append) (counts-install e b i.counted);
    met = λ c last.
        let same : b ≡ c =
          some_injective (
            sym (last_block-append e.blocks b) ∙ ap last_block (sym (blocks-install e b)) ∙ last) in
        subst (λ d. check_roots (install e b).state d.header ≡ ok tt) same
          (rw (state-install e b) roots);
  }

  load_all-IsSummed :
      (e : Engine F) (bs : List Block) (e' : Engine F)
      → IsSummed e
      → load_all e bs ≡ ok e'
      → IsSummed e'
  unfolding load_all
  load_all-IsSummed e [] e' i h = subst IsSummed (ok_injective e e' h) i
  load_all-IsSummed e (b ∷ bs) e' i h =
      let (e₁, loaded, rest) = links_of_ok (apply_loaded e b) (λ x. load_all x bs) h in
      let (_, roots, same) = apply_loaded-inv e b e₁ loaded in
      load_all-IsSummed e₁ bs e' (subst IsSummed same (install-IsSummed e b roots i)) rest

  IsReplay-IsSummed : (e : Engine F) → IsReplay e → IsSummed e
  IsReplay-IsSummed e r =
      load_all-IsSummed (new_engine e.store e.air_gapped) e.blocks e
        (record { counted = (refl, refl); met = λ b h. cc }) r

  -- In an engine that is the replay of its blocks, the last of schema 4, the status counts the
  -- transactions and the operations of the blocks, modulo 2^64, and the header of the last block
  -- carries every root that the status reports.
  pub status-IsReplay :
      ⦃N : Counts F⦄ (e : Engine F) (b : Block)
      → IsReplay e
      → last_block e.blocks ≡ some b
      → 4 ≤ b.header.schema
      → ((status e).transactions ≡ txs_in e.blocks % 2 ^ 64)
        × ((status e).operations ≡ ops_in e.blocks % 2 ^ 64)
        × AreRoots (status e) b.header
  unfolding status
  status-IsReplay e b r last four =
      let i = IsReplay-IsSummed e r in
      (i.counted.0, i.counted.1, check_roots-AreRoots e b.header four (i.met b last))
