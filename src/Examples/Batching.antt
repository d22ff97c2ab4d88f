-- ===== src/Examples/Batching.antt =====
-- Three operations in batches of one, of which the second changes nothing.
use agidb_on_chain.Base.{◌≡◌, refl, none, List, [], ◌∷◌, codes, length}
use agidb_on_chain.Model.{Operation}
use agidb_on_chain.Engine.Replay.{IsReplay}
use agidb_on_chain.Engine.Batches.{
  Chances, new_transaction, is_no_state_change, batch_txs, after_batch, commit_batches,
  commit_operations,
}
use agidb_on_chain.Engine.BatchEffects.{IsQuiet}
use agidb_on_chain.Engine.AllBatches.{AllDone, commit_operations-AllDone}
use agidb_on_chain.Examples.Toys.{toy_sha256, toy_json, memory_store, Memory, put}
use agidb_on_chain.Examples.Sessions.{program, fresh}

abbrev chances : Chances
chances = record { ids = λ n. codes "t"; times = λ n. n; clock = λ n. n }

abbrev three : List Operation
three = put (codes "a") (codes "1") ∷ put (codes "a") (codes "1") ∷ put (codes "b") (codes "2") ∷ []

memory-IsQuiet : IsQuiet Memory
memory-IsQuiet = record { quiet_wal = λ f f' b h. cc; quiet_append = λ f f' b h. cc }

fresh-IsReplay : IsReplay fresh
unfolding program
fresh-IsReplay = refl

no_failure : (commit_operations chances (codes "me") fresh three 1).failure ≡ none
unfolding program commit_operations commit_batches after_batch batch_txs new_transaction
    is_no_state_change
no_failure = refl

two_written : length (commit_operations chances (codes "me") fresh three 1).blocks ≡ 2
unfolding program commit_operations commit_batches after_batch batch_txs new_transaction
    is_no_state_change
two_written = refl

commit_operations-AllDone_example :
    AllDone chances
      (codes "me")
      memory-IsQuiet
      fresh
      three
      (commit_operations chances (codes "me") fresh three 1)
commit_operations-AllDone_example =
    commit_operations-AllDone chances (codes "me") memory-IsQuiet fresh three 1 fresh-IsReplay
      no_failure
