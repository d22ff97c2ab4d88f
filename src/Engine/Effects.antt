-- ===== src/Engine/Effects.antt =====
-- Applying transactions, field by field of an engine, in the order of `Commit` and of `applyLoaded`.
use agidb_on_chain.Base.{ℕ, ◌≡◌, refl, ◌∙◌, ap, Bool, List, [], ◌∷◌, Bytes, arith}
use agidb_on_chain.Go.Maps
use agidb_on_chain.Go.Slices
use agidb_on_chain.Go.Maps.{
  GoMap, keys, lookup, insert, remove, Distinct, insert-Distinct, remove-Distinct, map_laws,
}
use agidb_on_chain.Merkle.Order.{SameMap}
use agidb_on_chain.Model.{Operation, Transaction, Block}
use agidb_on_chain.Engine.{
  Engine, put_op, apply_op, apply_ops, apply_txs, count_tx, count_txs, commit_txs,
}
use agidb_on_chain.Engine.Committing.{install}

-- the state after a list of operations, and after the operations of a list of transactions
unfoldable pub put_ops : GoMap Bytes → List Operation → GoMap Bytes
put_ops s [] = s
put_ops s (op ∷ ops) = put_ops (put_op s op) ops

unfoldable pub put_txs : GoMap Bytes → List Transaction → GoMap Bytes
put_txs s [] = s
put_txs s (tx ∷ txs) = put_txs (put_ops s tx.ops) txs

pub put_op-Distinct :
    (s : GoMap Bytes) (op : Operation) → Distinct (keys s) → Distinct (keys (put_op s op))
unfolding put_op
put_op-Distinct s op d =
    ground
      (arith, insert-Distinct s op.key (Slices.contents op.value) d, remove-Distinct s op.key d)

pub put_ops-Distinct :
    (s : GoMap Bytes) (ops : List Operation) → Distinct (keys s) → Distinct (keys (put_ops s ops))
unfolding put_ops
put_ops-Distinct s [] d = d
put_ops-Distinct s (op ∷ ops) d = put_ops-Distinct (put_op s op) ops (put_op-Distinct s op d)

pub put_txs-Distinct :
    (s : GoMap Bytes) (txs : List Transaction) → Distinct (keys s) → Distinct (keys (put_txs s txs))
unfolding put_txs
put_txs-Distinct s [] d = d
put_txs-Distinct s (tx ∷ txs) d =
    put_txs-Distinct (put_ops s tx.ops) txs (put_ops-Distinct s tx.ops d)

pub put_op_congr :
    (s t : GoMap Bytes) (op : Operation) → SameMap s t → SameMap (put_op s op) (put_op t op)
unfolding put_op
put_op_congr s t op same k = ground (
  arith,
  same k,
  Maps.lookup-insert s op.key (Slices.contents op.value) k,
  Maps.lookup-insert t op.key (Slices.contents op.value) k,
  Maps.lookup-remove s op.key k,
  Maps.lookup-remove t op.key k,
)

pub put_ops_congr :
    (s t : GoMap Bytes) (ops : List Operation)
    → SameMap s t
    → SameMap (put_ops s ops) (put_ops t ops)
unfolding put_ops
put_ops_congr s t [] same = same
put_ops_congr s t (op ∷ ops) same =
    put_ops_congr (put_op s op) (put_op t op) ops (put_op_congr s t op same)

pub put_txs_congr :
    (s t : GoMap Bytes) (txs : List Transaction)
    → SameMap s t
    → SameMap (put_txs s txs) (put_txs t txs)
unfolding put_txs
put_txs_congr s t [] same = same
put_txs_congr s t (tx ∷ txs) same =
    put_txs_congr (put_ops s tx.ops) (put_ops t tx.ops) txs (put_ops_congr s t tx.ops same)

module _ {F : Type 0} where
  state-apply_ops :
      (h : ℕ) (e : Engine F) (ops : List Operation)
      → (apply_ops h e ops).state ≡ put_ops e.state ops
  unfolding apply_ops put_ops apply_op
  state-apply_ops h e [] = refl
  state-apply_ops h e (op ∷ ops) = state-apply_ops h (apply_op h e op) ops

  pub state-apply_txs :
      (h : ℕ) (e : Engine F) (txs : List Transaction)
      → (apply_txs h e txs).state ≡ put_txs e.state txs
  unfolding apply_txs put_txs
  state-apply_txs h e [] = refl
  state-apply_txs h e (tx ∷ txs) =
      state-apply_txs h (apply_ops h e tx.ops) txs
      ∙ ap (λ s. put_txs s txs) (state-apply_ops h e tx.ops)

  blocks-apply_ops :
      (h : ℕ) (e : Engine F) (ops : List Operation) → (apply_ops h e ops).blocks ≡ e.blocks
  unfolding apply_ops apply_op
  blocks-apply_ops h e [] = refl
  blocks-apply_ops h e (op ∷ ops) = blocks-apply_ops h (apply_op h e op) ops

  pub blocks-commit_txs :
      (h : ℕ) (e : Engine F) (txs : List Transaction) → (commit_txs h e txs).blocks ≡ e.blocks
  unfolding commit_txs count_tx
  blocks-commit_txs h e [] = refl
  blocks-commit_txs h e (tx ∷ txs) =
      blocks-commit_txs h (count_tx (apply_ops h e tx.ops) tx) txs ∙ blocks-apply_ops h e tx.ops

  pub state-count_txs : (e : Engine F) (txs : List Transaction) → (count_txs e txs).state ≡ e.state
  unfolding count_txs count_tx
  state-count_txs e [] = refl
  state-count_txs e (tx ∷ txs) = state-count_txs (count_tx e tx) txs

  pub versions-count_txs :
      (e : Engine F) (txs : List Transaction) → (count_txs e txs).versions ≡ e.versions
  unfolding count_txs count_tx
  versions-count_txs e [] = refl
  versions-count_txs e (tx ∷ txs) = versions-count_txs (count_tx e tx) txs

  apply_ops-count_tx :
      (h : ℕ) (e : Engine F) (tx : Transaction) (ops : List Operation)
      → apply_ops h (count_tx e tx) ops ≡ count_tx (apply_ops h e ops) tx
  unfolding apply_ops apply_op count_tx
  apply_ops-count_tx h e tx [] = refl
  apply_ops-count_tx h e tx (op ∷ ops) = apply_ops-count_tx h (apply_op h e op) tx ops

  apply_txs-count_tx :
      (h : ℕ) (e : Engine F) (tx : Transaction) (txs : List Transaction)
      → apply_txs h (count_tx e tx) txs ≡ count_tx (apply_txs h e txs) tx
  unfolding apply_txs
  apply_txs-count_tx h e tx [] = refl
  apply_txs-count_tx h e tx (t ∷ txs) =
      ap (λ d. apply_txs h d txs) (apply_ops-count_tx h e tx t.ops)
      ∙ apply_txs-count_tx h (apply_ops h e t.ops) tx txs

  -- To count each transaction as it is applied is to apply them all and count them afterwards.
  pub commit_txs-apply_txs :
      (h : ℕ) (e : Engine F) (txs : List Transaction)
      → commit_txs h e txs ≡ count_txs (apply_txs h e txs) txs
  unfolding commit_txs apply_txs count_txs
  commit_txs-apply_txs h e [] = refl
  commit_txs-apply_txs h e (tx ∷ txs) =
      commit_txs-apply_txs h (count_tx (apply_ops h e tx.ops) tx) txs
      ∙ ap (λ d. count_txs d txs) (apply_txs-count_tx h (apply_ops h e tx.ops) tx txs)

-- the same memory over other files
abbrev pub mount : {F G : Type 0} → G → Bool → Engine F → Engine G
mount files air_gapped e = record {
  store = files;
  blocks = e.blocks;
  state = e.state;
  versions = e.versions;
  air_gapped = air_gapped;
  tx_count = e.tx_count;
  op_count = e.op_count;
}

module _ {F G : Type 0} (files : G) (air_gapped : Bool) where
  apply_ops-mount :
      (h : ℕ) (e : Engine F) (ops : List Operation)
      → apply_ops h (mount files air_gapped e) ops ≡ mount files air_gapped (apply_ops h e ops)
  unfolding apply_ops apply_op
  apply_ops-mount h e [] = refl
  apply_ops-mount h e (op ∷ ops) = apply_ops-mount h (apply_op h e op) ops

  pub apply_txs-mount :
      (h : ℕ) (e : Engine F) (txs : List Transaction)
      → apply_txs h (mount files air_gapped e) txs ≡ mount files air_gapped (apply_txs h e txs)
  unfolding apply_txs
  apply_txs-mount h e [] = refl
  apply_txs-mount h e (tx ∷ txs) =
      ap (λ d. apply_txs h d txs) (apply_ops-mount h e tx.ops)
      ∙ apply_txs-mount h (apply_ops h e tx.ops) txs

  pub count_txs-mount :
      (e : Engine F) (txs : List Transaction)
      → count_txs (mount files air_gapped e) txs ≡ mount files air_gapped (count_txs e txs)
  unfolding count_txs count_tx
  count_txs-mount e [] = refl
  count_txs-mount e (tx ∷ txs) = count_txs-mount (count_tx e tx) txs

  pub install-mount :
      (e : Engine F) (b : Block)
      → install (mount files air_gapped e) b ≡ mount files air_gapped (install e b)
  unfolding install
  install-mount e b = simp (commit_txs-apply_txs, apply_txs-mount, count_txs-mount)
