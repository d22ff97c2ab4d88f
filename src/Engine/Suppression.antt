-- ===== src/Engine/Suppression.antt =====
-- The filter of `Commit` in engine.go beside the state that all the operations lead to.
use agidb_on_chain.Base.{
  ◌≡◌, ◌≢◌, All, refl, sym, ◌∙◌, ap, false, inl, inr, List, [], ◌∷◌, Bytes, beq, beq_iff,
  if◌then◌else◌, Bool-cases, Option-cases, arith,
}
use agidb_on_chain.Go.Maps
use agidb_on_chain.Go.Slices
use agidb_on_chain.Go.Maps.{GoMap, keys, lookup, insert, remove, is_some}
use agidb_on_chain.Merkle.Order.{SameMap}
use agidb_on_chain.Model.{Operation, Transaction}
use agidb_on_chain.Result.{ok, ◌>>=◌, links_of_ok, ok_injective}
use agidb_on_chain.Engine.{put_op, changes, filter_ops, filter_txs, keep_tx}
use agidb_on_chain.Engine.Effects.{put_ops, put_txs, put_ops_congr, put_txs_congr}

-- An operation that the filter drops leaves the state as it is.
pub put_op-unchanged :
    (s : GoMap Bytes) (op : Operation) → changes s op ≡ false → SameMap (put_op s op) s
unfolding changes put_op
put_op-unchanged s op h k = elim (Option-cases (lookup s op.key)) [
  | inl new ↦ ground (
    arith,
    Maps.lookup-insert s op.key (Slices.contents op.value) k,
    Maps.lookup-remove s op.key k,
    beq_iff op.key k,
  )
  | inr (v, old) ↦ ground (
    arith,
    Maps.lookup-insert s op.key (Slices.contents op.value) k,
    Maps.lookup-remove s op.key k,
    beq_iff op.key k,
    beq_iff v (Slices.contents op.value),
  )
]

pub SameMap-trans : (s t u : GoMap Bytes) → SameMap s t → SameMap t u → SameMap s u
SameMap-trans s t u p q k = p k ∙ q k

SameMap-sym : (s t : GoMap Bytes) → SameMap s t → SameMap t s
SameMap-sym s t p k = sym (p k)

-- what a filter of operations that succeeds returns: the state after the kept operations, which is
-- the state after all of them
pub record IsFilteredOps (s : GoMap Bytes) (ops : List Operation) (r : GoMap Bytes × List Operation)
    : Type 0 where
  pub exact : r.0 ≡ put_ops s r.1
  pub same : SameMap r.0 (put_ops s ops)

-- the state after the filter has looked at an operation
abbrev step : GoMap Bytes → Operation → GoMap Bytes
step s op = if changes s op then put_op s op else s

IsFilteredOps-cons :
    (s : GoMap Bytes) (op : Operation) (ops : List Operation) (r : GoMap Bytes × List Operation)
    → IsFilteredOps (step s op) ops r
    → IsFilteredOps s (op ∷ ops) (r.0, (if changes s op then op ∷ r.1 else r.1))
unfolding put_ops
IsFilteredOps-cons s op ops r f = elim (Bool-cases (changes s op)) [
  | inl new ↦ record { exact = ground (arith, f.exact); same = λ k. ground (arith, f.same k) }
  | inr old ↦ record {
    exact = ground (arith, f.exact);
    same = λ k. ground (
      arith,
      f.same k,
      put_ops_congr s (put_op s op) ops (SameMap-sym (put_op s op) s (put_op-unchanged s op old)) k,
    );
  }
]

IsFilteredOps-nil : (s : GoMap Bytes) → IsFilteredOps s [] (s, [])
unfolding put_ops
IsFilteredOps-nil s = record { exact = refl; same = λ k. refl }

filter_ops-nil :
    (s : GoMap Bytes) (r : GoMap Bytes × List Operation) → filter_ops s [] ≡ ok r → (s, []) ≡ r
unfolding filter_ops
filter_ops-nil s r h = ok_injective (s, []) r h

filter_ops-cons :
    (s : GoMap Bytes) (op : Operation) (ops : List Operation) (r : GoMap Bytes × List Operation)
    → filter_ops s (op ∷ ops) ≡ ok r
    → (q : GoMap Bytes × List Operation) × (filter_ops (step s op) ops ≡ ok q)
      × ((q.0, (if changes s op then op ∷ q.1 else q.1)) ≡ r)
unfolding filter_ops
filter_ops-cons s op ops r h = elim (Bool-cases (beq op.key [])) [
  | inl empty ↦ cc (rw empty at h)
  | inr named ↦
      let (q, found, out) =
        links_of_ok (filter_ops (step s op) ops)
          (λ q. ok (q.0, (if changes s op then op ∷ q.1 else q.1))) (rw named at h) in
      (q, found, ok_injective _ r out)
]

pub filter_ops-IsFilteredOps :
    (s : GoMap Bytes) (ops : List Operation) (r : GoMap Bytes × List Operation)
    → filter_ops s ops ≡ ok r
    → IsFilteredOps s ops r
filter_ops-IsFilteredOps s [] r h = rw (← filter_ops-nil s r h) (IsFilteredOps-nil s)
filter_ops-IsFilteredOps s (op ∷ ops) r h =
    let (q, found, out) = filter_ops-cons s op ops r h in
    rw (← out) (IsFilteredOps-cons s op ops q (filter_ops-IsFilteredOps (step s op) ops q found))

-- the same for the filter of transactions; every transaction that is kept has an operation
pub record IsFilteredTxs (s : GoMap Bytes) (txs : List Transaction)
    (r : GoMap Bytes × List Transaction) : Type 0 where
  pub exact : r.0 ≡ put_txs s r.1
  pub same : SameMap r.0 (put_txs s txs)
  pub full : All (λ tx. tx.ops ≢ []) r.1

IsFilteredTxs-nil : (s : GoMap Bytes) → IsFilteredTxs s [] (s, [])
unfolding put_txs
IsFilteredTxs-nil s = record { exact = refl; same = λ k. refl; full = tt }

filter_txs-nil :
    (s : GoMap Bytes) (r : GoMap Bytes × List Transaction) → filter_txs s [] ≡ ok r → (s, []) ≡ r
unfolding filter_txs
filter_txs-nil s r h = ok_injective (s, []) r h

filter_txs-cons :
    (s : GoMap Bytes) (tx : Transaction) (txs : List Transaction)
    (r : GoMap Bytes × List Transaction)
    → filter_txs s (tx ∷ txs) ≡ ok r
    → (q : GoMap Bytes × List Operation) × (p : GoMap Bytes × List Transaction) × (filter_ops s
          tx.ops
        ≡ ok q)
      × (filter_txs q.0 txs ≡ ok p)
      × ((p.0, keep_tx tx q.1 p.1) ≡ r)
unfolding filter_txs
filter_txs-cons s tx txs r h = elim (Bool-cases (beq tx.id [])) [
  | inl empty ↦ cc (rw empty at h)
  | inr named ↦
      let (q, kept, rest) =
        links_of_ok (filter_ops s tx.ops)
          (λ q. filter_txs q.0 txs >>= λ p. ok (p.0, keep_tx tx q.1 p.1)) (rw named at h) in
      let (p, found, out) =
        links_of_ok (filter_txs q.0 txs) (λ p. ok (p.0, keep_tx tx q.1 p.1)) rest in
      (q, p, kept, found, ok_injective _ r out)
]

IsFilteredTxs-cons :
    (s : GoMap Bytes) (tx : Transaction) (txs : List Transaction) (q : GoMap Bytes)
    (ops : List Operation) (p : GoMap Bytes × List Transaction)
    → IsFilteredOps s tx.ops (q, ops)
    → IsFilteredTxs q txs p
    → IsFilteredTxs s (tx ∷ txs) (p.0, keep_tx tx ops p.1)
unfolding put_txs put_ops
IsFilteredTxs-cons s tx txs q [] p f g = record {
  exact = g.exact ∙ ap (λ t. put_txs t p.1) f.exact;
  same = λ k. g.same k ∙ put_txs_congr q (put_ops s tx.ops) txs f.same k;
  full = g.full;
}
IsFilteredTxs-cons s tx txs q (op ∷ ops) p f g = record {
  exact = g.exact ∙ ap (λ t. put_txs t p.1) f.exact;
  same = λ k. g.same k ∙ put_txs_congr q (put_ops s tx.ops) txs f.same k;
  full = (λ e. cc, g.full);
}

-- A filter that succeeds returns the state after the transactions that it keeps, which holds what the
-- state after all the transactions holds; and each transaction that it keeps has an operation.
pub filter_txs-IsFilteredTxs :
    (s : GoMap Bytes) (txs : List Transaction) (r : GoMap Bytes × List Transaction)
    → filter_txs s txs ≡ ok r
    → IsFilteredTxs s txs r
filter_txs-IsFilteredTxs s [] r h = rw (← filter_txs-nil s r h) (IsFilteredTxs-nil s)
filter_txs-IsFilteredTxs s (tx ∷ txs) r h =
    let (q, p, kept, found, out) = filter_txs-cons s tx txs r h in
    rw (← out) (
      IsFilteredTxs-cons s tx txs q.0 q.1 p (filter_ops-IsFilteredOps s tx.ops q kept)
        (filter_txs-IsFilteredTxs q.0 txs p found))
