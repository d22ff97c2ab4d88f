-- ===== src/Engine/AllBatches.antt =====
-- `CommitOperations` as a whole: the loop over the batches.
use agidb_on_chain.Base.{
  ℕ, zero, suc, ◌+◌, ◌≤◌, ◌≡◌, refl, sym, subst, ◌∙◌, ap, none, List, [], ◌∷◌, ◌++◌, append_assoc,
  Bytes, length, take, if◌then◌else◌, ◌==◌, arith,
}
use mathlib.Core.List.{append-nil}
use agidb_on_chain.Go.Json.{JsonText}
use agidb_on_chain.Go.Maps.{GoMap, lookup}
use agidb_on_chain.Go.Sha256.{Sha256}
use agidb_on_chain.Merkle.Order.{SameMap}
use agidb_on_chain.Model.{Operation, Block}
use agidb_on_chain.Result.{no_state_change}
use agidb_on_chain.Engine.{Engine, Store}
use agidb_on_chain.Engine.Committing.{Reply, committed, uncleared, rejected, commit}
use agidb_on_chain.Engine.Effects.{put_ops, put_txs, put_ops_congr}
use agidb_on_chain.Engine.Replay.{IsReplay}
use agidb_on_chain.Engine.Batches.{
  new_transaction, is_no_state_change, skip, Batches, Chances, batch_txs, after_batch,
  commit_batches, commit_operations,
}
use agidb_on_chain.Engine.BatchEffects.{IsQuiet, GoesOn, committed-GoesOn, idle-GoesOn}

put_ops-skip :
    (n : ℕ) (s : GoMap Bytes) (ops : List Operation)
    → put_ops s ops ≡ put_ops (put_ops s (take n ops)) (skip n ops)
unfolding put_ops
put_ops-skip zero s ops = refl
put_ops-skip (suc n) s [] = refl
put_ops-skip (suc n) s (op ∷ ops) = put_ops-skip n (_) ops

length-skip : (n : ℕ) (ops : List Operation) → length (skip n ops) ≤ length ops
length-skip zero ops = omega arith
length-skip (suc n) [] = omega arith
length-skip (suc n) (op ∷ ops) = omega (arith, length-skip n ops)

module _ (chances : Chances) (sender : Bytes) where
  put_txs-batch_txs :
      (start : ℕ) (s : GoMap Bytes) (ops : List Operation)
      → put_txs s (batch_txs chances sender start ops) ≡ put_ops s ops
  unfolding put_txs put_ops batch_txs new_transaction
  put_txs-batch_txs start s [] = refl
  put_txs-batch_txs start s (op ∷ ops) = put_txs-batch_txs (start + 1) _ ops

  module _ ⦃H : Sha256⦄ ⦃J : JsonText⦄ {F : Type 0} ⦃S : Store F⦄ (Q : IsQuiet F) where
    -- what a loop without an error leaves: every operation has had its effect, in order, and the log has
    -- grown by the blocks that are returned
    pub record AllDone (e : Engine F) (ops : List Operation) (r : Batches F) : Type 0 where
      pub replay : IsReplay r.engine
      pub state : SameMap r.engine.state (put_ops e.state ops)
      pub blocks : r.engine.blocks ≡ e.blocks ++ r.blocks

    none-AllDone :
        (e : Engine F)
        → IsReplay e
        → AllDone e [] (record { engine = e; blocks = []; failure = none })
    unfolding put_ops
    none-AllDone e r = record { replay = r; state = λ k. refl; blocks = sym (append-nil e.blocks) }

    GoesOn-AllDone :
        (e e' : Engine F) (start n : ℕ) (ops : List Operation) (bs : List Block) (r : Batches F)
        → GoesOn Q e (batch_txs chances sender start (take n ops)) e' bs
        → AllDone e' (skip n ops) r
        → AllDone e ops (record r { blocks = bs ++ r.blocks })
    GoesOn-AllDone e e' start n ops bs r g a = record {
      replay = a.replay;
      state = λ k.
          a.state k
          ∙ put_ops_congr e'.state (put_txs e.state (batch_txs chances sender start (take n ops)))
              (skip n ops) g.state k
          ∙ ap (λ s. lookup (put_ops s (skip n ops)) k)
              (put_txs-batch_txs start e.state (take n ops))
          ∙ ap (λ s. lookup s k) (sym (put_ops-skip n e.state ops));
      blocks = a.blocks ∙ ap (λ l. l ++ r.blocks) g.blocks ∙ append_assoc e.blocks bs r.blocks;
    }

    -- one batch, and then the others
    after_batch-AllDone :
        (now start m : ℕ) (e : Engine F) (op : Operation) (ops : List Operation)
        (next : Engine F → Batches F) (r : Engine F × Reply)
        → IsReplay e
        → commit now e (batch_txs chances sender start (take (suc m) (op ∷ ops))) ≡ r
        → ((e' : Engine F)
            → IsReplay e'
            → (next e').failure ≡ none
            → AllDone e' (skip (suc m) (op ∷ ops)) (next e'))
        → (after_batch chances sender next r).failure ≡ none
        → AllDone e (op ∷ ops) (after_batch chances sender next r)
    unfolding after_batch is_no_state_change batch_txs
    after_batch-AllDone now start m e op ops next (e', committed b) i h others done =
        let g = committed-GoesOn Q now e e' _ b i h in
        GoesOn-AllDone e e' start (suc m) (op ∷ ops) (b ∷ []) (next e') g (others e' g.replay done)
    after_batch-AllDone now start m e op ops next (e', uncleared b x) i h others done = cc
    after_batch-AllDone now start m e op ops next (e', rejected no_state_change) i h others done =
        let g = idle-GoesOn Q now e e' _ _ i h in
        GoesOn-AllDone e e' start (suc m) (op ∷ ops) [] (next e') g (others e' g.replay done)
    after_batch-AllDone now start m e op ops next (e', rejected x) i h others done = cc

    commit_batches-AllDone :
        (fuel start m : ℕ) (e : Engine F) (ops : List Operation)
        → length ops ≤ fuel
        → IsReplay e
        → (commit_batches chances sender fuel start (suc m) e ops).failure ≡ none
        → AllDone e ops (commit_batches chances sender fuel start (suc m) e ops)
    unfolding commit_batches
    commit_batches-AllDone zero start m e [] enough i done = none-AllDone e i
    commit_batches-AllDone zero start m e (op ∷ ops) enough i done = absurd (omega arith)
    commit_batches-AllDone (suc fuel) start m e [] enough i done = none-AllDone e i
    commit_batches-AllDone (suc fuel) start m e (op ∷ ops) enough i done =
        after_batch-AllDone (chances.clock start) start m e op ops _ _ i refl
          (λ e'.
            commit_batches-AllDone fuel (start + suc m) m e' (skip m ops)
              (omega (arith, length-skip m ops)))
          done

    -- Where `CommitOperations` on an engine that is a replay of its blocks reports no error, all the
    -- operations have had their effect, in order: the state holds what they make of it one after the
    -- other, whatever the size of the batches and whichever were dropped for changing nothing, the log
    -- has grown by the blocks that are returned, and the memory is the replay of it. The storage must
    -- not report the engine's own error for an unchanged state.
    pub commit_operations-AllDone :
        (e : Engine F) (ops : List Operation) (size : ℕ)
        → IsReplay e
        → (commit_operations chances sender e ops size).failure ≡ none
        → AllDone e ops (commit_operations chances sender e ops size)
    unfolding commit_operations
    commit_operations-AllDone e ops zero i done =
        commit_batches-AllDone (length ops) 0 999 e ops (omega arith) i done
    commit_operations-AllDone e ops (suc size) i done =
        let positive : (if suc size == 0 then 1000 else suc size) ≡ suc size = ground arith in
        subst
          (λ n.
            (commit_batches chances sender (length ops) 0 n e ops).failure ≡ none
            → AllDone e ops (commit_batches chances sender (length ops) 0 n e ops))
          (sym positive) (commit_batches-AllDone (length ops) 0 size e ops (omega arith) i) done
