-- ===== src/Engine/Versions.antt =====
-- What applying the operations of a block does to the reads of `GetAt`.
use mathlib.Core.List.{reverse, reverse-append}
use agidb_on_chain.Base.{
  ℕ, ◌≤◌, ◌<◌, ◌≡◌, refl, ◌∙◌, Bool, true, false, Option, none, some, List, [], ◌∷◌, ◌++◌, Bytes,
  beq, beq_iff, leb, if◌then◌else◌, arith,
}
use agidb_on_chain.Go.Maps
use agidb_on_chain.Go.Slices
use agidb_on_chain.Go.Maps.{GoMap, lookup, insert, is_some}
use agidb_on_chain.Model.{Operation, Transaction}
use agidb_on_chain.Engine.{Engine, Version, versions_of, put_op, apply_op, apply_ops, apply_txs}
use agidb_on_chain.Engine.Reading.{scan_back, get_at}

-- a read that finds the value, or nothing
abbrev pub found : Option Bytes → Bytes × Bool
found none = ([], false)
found (some v) = (v, true)

versions_of-insert :
    (m : GoMap (List Version)) (k : Bytes) (vs : List Version) (j : Bytes)
    → versions_of (insert m k vs) j ≡ (if beq k j then vs else versions_of m j)
unfolding versions_of
versions_of-insert m k vs j = ground (arith, Maps.lookup-insert m k vs j)

scan_back-last :
    (vs : List Version) (v : Version) (h : ℕ)
    → scan_back (reverse (vs ++ (v ∷ []))) h ≡ (
        if leb v.height h
        then (if v.deleted then ([], false) else (v.value, true))
        else scan_back (reverse vs) h)
unfolding scan_back
scan_back-last vs v h = rw (reverse-append vs (v ∷ []))

module _ {F : Type 0} where
  -- an operation of a later block changes nothing
  get_at-apply_op_later :
      (height : ℕ) (e : Engine F) (op : Operation) (key : Bytes) (h : ℕ)
      → h < height
      → get_at (apply_op height e op) key h ≡ get_at e key h
  unfolding get_at apply_op
  get_at-apply_op_later height e op key h lt = ground (
    arith,
    versions_of-insert e.versions op.key
        (versions_of e.versions op.key
          ++ (record { height = height; value = Slices.contents op.value; deleted = op.delete }
              ∷ []))
        key,
    beq_iff op.key key,
    scan_back-last (versions_of e.versions op.key)
        (record { height = height; value = Slices.contents op.value; deleted = op.delete }) h,
  )

  -- an operation of a block up to the height takes a read of the state to a read of the next state
  get_at-apply_op :
      (height : ℕ) (e : Engine F) (op : Operation) (key : Bytes) (h : ℕ)
      → height ≤ h
      → get_at e key h ≡ found (lookup e.state key)
      → get_at (apply_op height e op) key h ≡ found (lookup (apply_op height e op).state key)
  unfolding get_at apply_op put_op
  get_at-apply_op height e op key h le now = ground (
    arith,
    now,
    versions_of-insert e.versions op.key
        (versions_of e.versions op.key
          ++ (record { height = height; value = Slices.contents op.value; deleted = op.delete }
              ∷ []))
        key,
    beq_iff op.key key,
    Maps.lookup-insert e.state op.key (Slices.contents op.value) key,
    Maps.lookup-remove e.state op.key key,
    scan_back-last (versions_of e.versions op.key)
        (record { height = height; value = Slices.contents op.value; deleted = op.delete }) h,
  )

  get_at-apply_ops_later :
      (height : ℕ) (e : Engine F) (ops : List Operation) (key : Bytes) (h : ℕ)
      → h < height
      → get_at (apply_ops height e ops) key h ≡ get_at e key h
  unfolding apply_ops
  get_at-apply_ops_later height e [] key h lt = refl
  get_at-apply_ops_later height e (op ∷ ops) key h lt =
      get_at-apply_ops_later height (apply_op height e op) ops key h lt
      ∙ get_at-apply_op_later height e op key h lt

  pub get_at-apply_txs_later :
      (height : ℕ) (e : Engine F) (txs : List Transaction) (key : Bytes) (h : ℕ)
      → h < height
      → get_at (apply_txs height e txs) key h ≡ get_at e key h
  unfolding apply_txs
  get_at-apply_txs_later height e [] key h lt = refl
  get_at-apply_txs_later height e (tx ∷ txs) key h lt =
      get_at-apply_txs_later height (apply_ops height e tx.ops) txs key h lt
      ∙ get_at-apply_ops_later height e tx.ops key h lt

  -- a read of the state as it is
  abbrev pub ReadsState : Engine F → Bytes → ℕ → Type 0
  ReadsState e key h = get_at e key h ≡ found (lookup e.state key)

  get_at-apply_ops :
      (height : ℕ) (e : Engine F) (ops : List Operation) (key : Bytes) (h : ℕ)
      → height ≤ h
      → ReadsState e key h
      → ReadsState (apply_ops height e ops) key h
  unfolding apply_ops
  get_at-apply_ops height e [] key h le now = now
  get_at-apply_ops height e (op ∷ ops) key h le now =
      get_at-apply_ops height (apply_op height e op) ops key h le
        (get_at-apply_op height e op key h le now)

  pub get_at-apply_txs :
      (height : ℕ) (e : Engine F) (txs : List Transaction) (key : Bytes) (h : ℕ)
      → height ≤ h
      → ReadsState e key h
      → ReadsState (apply_txs height e txs) key h
  unfolding apply_txs
  get_at-apply_txs height e [] key h le now = now
  get_at-apply_txs height e (tx ∷ txs) key h le now =
      get_at-apply_txs height (apply_ops height e tx.ops) txs key h le
        (get_at-apply_ops height e tx.ops key h le now)
