-- ===== src/Engine/Batches.antt =====
-- `CommitOperations` of engine.go: operations that are committed in batches, one transaction each.
use agidb_on_chain.Base.{
  ℕ, zero, suc, ◌+◌, Bool, true, false, Option, none, some, List, [], ◌∷◌, Bytes, length, take,
  if◌then◌else◌, ◌==◌,
}
use agidb_on_chain.Go.Json.{JsonText}
use agidb_on_chain.Go.Sha256.{Sha256}
use agidb_on_chain.Go.Slices.{Slice, nil_slice}
use agidb_on_chain.Model.{Operation, Transaction, Block}
use agidb_on_chain.Result.{Error, no_state_change}
use agidb_on_chain.Engine.{Engine, Store, u64}
use agidb_on_chain.Engine.Committing.{Reply, committed, uncleared, rejected, commit}

-- `NewTransaction`, of a random id and the time of the clock
unfoldable pub new_transaction : Bytes → ℕ → List Operation → Bytes → ℕ → Slice → Transaction
new_transaction id time ops sender nonce payload = record {
  id = id;
  timestamp = time;
  sender = sender;
  nonce = nonce;
  ops = ops;
  payload = payload;
  kind = [];
}

-- `IsNoStateChange`
unfoldable pub is_no_state_change : Error → Bool
is_no_state_change x = elim x [ no_state_change ↦ true | _ ↦ false ]

-- `ops[n:]`
abbrev pub skip : ℕ → List Operation → List Operation
skip zero ops = ops
skip (suc n) [] = []
skip (suc n) (op ∷ ops) = skip n ops

-- what `CommitOperations` returns, with the engine after it
pub record Batches (F : Type 0) : Type 0 where
  pub engine : Engine F
  pub blocks : List Block
  pub failure : Option Error

-- the random ids and the times of the transactions by their nonces, and the clock of `Commit` by the
-- first nonce of a batch
pub record Chances : Type 0 where
  pub ids : ℕ → Bytes
  pub times : ℕ → ℕ
  pub clock : ℕ → ℕ

module _ (chances : Chances) (sender : Bytes) where
  -- the transactions of one batch
  unfoldable pub batch_txs : ℕ → List Operation → List Transaction
  batch_txs start [] = []
  batch_txs start (op ∷ ops) =
      new_transaction (chances.ids start) (chances.times start) (op ∷ []) sender (u64 start)
        nil_slice
      ∷ batch_txs (start + 1) ops

  module _ ⦃H : Sha256⦄ ⦃J : JsonText⦄ {F : Type 0} ⦃S : Store F⦄ where
    -- after the `Commit` of a batch: on to the next one, or an error with the blocks so far
    unfoldable pub after_batch : (Engine F → Batches F) → Engine F × Reply → Batches F
    unfolding is_no_state_change
    after_batch next (e, committed b) = let r = next e in record r { blocks = b ∷ r.blocks }
    after_batch next (e, uncleared b x) = record { engine = e; blocks = []; failure = some x }
    after_batch next (e, rejected x) =
        if is_no_state_change x
        then next e
        else record { engine = e; blocks = []; failure = some x }

    -- the loop over the batches, of at most `fuel` of them
    unfoldable pub commit_batches : ℕ → ℕ → ℕ → Engine F → List Operation → Batches F
    unfolding after_batch
    commit_batches zero start size e ops = record { engine = e; blocks = []; failure = none }
    commit_batches (suc fuel) start size e [] = record { engine = e; blocks = []; failure = none }
    commit_batches (suc fuel) start size e (op ∷ ops) =
        after_batch (λ e'. commit_batches fuel (start + size) size e' (skip size (op ∷ ops)))
          (commit (chances.clock start) e (batch_txs start (take size (op ∷ ops))))

    -- a batch size of 0 stands for every one that is not positive
    unfoldable pub commit_operations : Engine F → List Operation → ℕ → Batches F
    commit_operations e ops size =
        commit_batches (length ops) 0 (if size == 0 then 1000 else size) e ops
