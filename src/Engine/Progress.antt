-- ===== src/Engine/Progress.antt =====
-- `Commit` of engine.go where the writes of its block succeed.
use agidb_on_chain.Base.{
  ℕ, ◌≡◌, ◌≢◌, All, refl, sym, ◌∙◌, ap, none, List, [], ◌∷◌, Bytes, beq_of_ne, if◌then◌else◌,
}
use agidb_on_chain.Go.Maps.{GoMap, keys, lookup, Distinct}
use agidb_on_chain.Go.Json.{JsonText}
use agidb_on_chain.Go.Sha256.{Sha256}
use agidb_on_chain.Model.{Operation, Transaction, Block}
use agidb_on_chain.Result.{ok}
use agidb_on_chain.Engine.{Engine, Store, changes, put_op, filter_ops, filter_txs, keep_tx}
use agidb_on_chain.Engine.Roots.{clone_state}
use agidb_on_chain.Engine.Committing.{
  committed, clear_reply, new_block, after_append, after_wal, write_block, commit_filtered, commit,
}
use agidb_on_chain.Engine.Effects.{put_txs}
use agidb_on_chain.Engine.NoOps.{same_effect}
use agidb_on_chain.Engine.Outcome.{IsWritten}

-- what the filter asks of a transaction: an id, and a key for each operation
abbrev pub IsNamed : Transaction → Type 0
IsNamed tx = (tx.id ≢ []) × All (λ op. op.key ≢ []) tx.ops

filter_ops-IsNamed :
    (s : GoMap Bytes) (ops : List Operation)
    → All (λ op. op.key ≢ []) ops
    → (r : GoMap Bytes × List Operation) × (filter_ops s ops ≡ ok r)
unfolding filter_ops
filter_ops-IsNamed s [] named = ((s, []), refl)
filter_ops-IsNamed s (op ∷ ops) (filled, named) =
    let (r, found) = filter_ops-IsNamed (if changes s op then put_op s op else s) ops named in
    ((r.0, (if changes s op then op ∷ r.1 else r.1)), rw (beq_of_ne op.key [] filled, found) refl)

filter_txs-IsNamed :
    (s : GoMap Bytes) (txs : List Transaction)
    → All IsNamed txs
    → (r : GoMap Bytes × List Transaction) × (filter_txs s txs ≡ ok r)
unfolding filter_txs
filter_txs-IsNamed s [] named = ((s, []), refl)
filter_txs-IsNamed s (tx ∷ txs) (first, named) =
    let (r, kept) = filter_ops-IsNamed s tx.ops first.1 in
    let (q, found) = filter_txs-IsNamed r.0 txs named in
    ((q.0, keep_tx tx r.1 q.1), rw (beq_of_ne tx.id [] first.0, kept) (rw found refl))

module _ {F : Type 0} ⦃S : Store F⦄ where
  -- the three writes of `Commit` succeed for a block
  pub record IsWritable (e : Engine F) (b : Block) : Type 0 where
    pub files : F
    pub written : IsWritten e b files
    pub cleared : (S.clear_wal files).1 ≡ none

  write_block-IsWritable :
      (e : Engine F) (b : Block) → IsWritable e b → (write_block e b).1 ≡ committed b
  unfolding write_block after_wal after_append clear_reply
  write_block-IsWritable e b w =
      let files : F = w.files in
      let clears : (S.clear_wal files).1 ≡ none = w.cleared in
      ap (λ x. (after_wal e b x).1) w.written.log
      ∙ ap (λ x. (after_append e b x).1) w.written.append
      ∙ rw (clear_reply, clears) refl

module _ ⦃H : Sha256⦄ ⦃J : JsonText⦄ {F : Type 0} ⦃S : Store F⦄ where
  commit_filtered-IsWritable :
      (now : ℕ) (e : Engine F) (txs kept : List Transaction) (next : GoMap Bytes) (k : Bytes)
      → Distinct (keys e.state)
      → filter_txs (clone_state e.state) txs ≡ ok (next, kept)
      → IsWritable e (new_block now e.blocks next kept)
      → lookup (put_txs e.state txs) k ≢ lookup e.state k
      → (b : Block) × ((commit_filtered now e (ok (next, kept))).1 ≡ committed b)
  unfolding commit_filtered put_txs
  commit_filtered-IsWritable now e txs [] next k d f w h =
      absurd (h (sym (same_effect e.state txs [] next d f k)))
  commit_filtered-IsWritable now e txs (t ∷ kept) next k d f w h = (_, write_block-IsWritable e _ w)

  -- a submission that changes the value of a key is committed, where the block that is made of what the
  -- filter keeps can be written
  pub commit-IsWritable :
      (now : ℕ) (e : Engine F) (txs : List Transaction) (k : Bytes)
      → Distinct (keys e.state)
      → All IsNamed txs
      → ((next : GoMap Bytes) (kept : List Transaction)
          → filter_txs (clone_state e.state) txs ≡ ok (next, kept)
          → IsWritable e (new_block now e.blocks next kept))
      → lookup (put_txs e.state txs) k ≢ lookup e.state k
      → (b : Block) × ((commit now e txs).1 ≡ committed b)
  unfolding commit put_txs
  commit-IsWritable now e [] k d named w h = absurd (h refl)
  commit-IsWritable now e (tx ∷ txs) k d named w h =
      let (r, found) = filter_txs-IsNamed (clone_state e.state) (tx ∷ txs) named in
      let (b, done) =
        commit_filtered-IsWritable now e (tx ∷ txs) r.1 r.0 k d found (w r.0 r.1 found) h in
      (b, ap (λ x. (commit_filtered now e x).1) found ∙ done)
