-- ===== src/Examples/Sessions.antt =====
-- The theorems on the engine over a storage in memory: a database is opened and written to.
use agidb_on_chain.Base.{
  ◌<◌, ◌^◌, ◌≡◌, refl, true, false, some, none, List, [], ◌∷◌, codes, beq, bytes_ltb, has_prefix,
  length, take, arith,
}
use agidb_on_chain.Go.Maps.{keys, lookup, insert, remove, Distinct, contains}
use agidb_on_chain.Go.Sort.{sort_strings}
use agidb_on_chain.Go.Hex.{encode_to_string}
use agidb_on_chain.Model.{Transaction, Block}
use agidb_on_chain.Model.ToJson.{transaction_json, block_json}
use agidb_on_chain.Merkle.{
  root, reduce, pair_level, node, state_root, prefix_root, value_of, keys_under, leaf, hash,
}
use agidb_on_chain.Result.{ok, empty_key, no_state_change}
use agidb_on_chain.Engine.{
  Engine, new_engine, last_hash, versions_of, put_op, apply_op, apply_ops, count_tx, commit_txs,
  changes, filter_ops, filter_txs,
}
use agidb_on_chain.Engine.Roots.{clone_state, contract_aggregate_root}
use agidb_on_chain.Engine.Committing.{
  rejected, installed, hash_block, new_header, new_block, install, write_block, commit_filtered,
  commit,
}
use agidb_on_chain.Engine.Loading.{load_all, verify, open_engine}
use agidb_on_chain.Engine.Reading.{scan_back, get, get_at, block_at}
use agidb_on_chain.Engine.Effects.{put_ops, put_txs}
use agidb_on_chain.Engine.Outcome.{Committed, commit-Committed}
use agidb_on_chain.Engine.NoOps.{IsEffective, commit-IsEffective}
use agidb_on_chain.Engine.Replay.{IsReplay}
use agidb_on_chain.Engine.Chain.{IsChain, IsReplay-IsChain}
use agidb_on_chain.Engine.Versions.{found}
use agidb_on_chain.Engine.History.{state_from, get_at-IsReplay}
use agidb_on_chain.Engine.Sessions.{Session, opened, then_commit, Session-IsReplay, verify-Session}
use agidb_on_chain.Examples.Toys.{
  toy_sha256, toy_json, memory_store, Memory, no_files, put, del, tx,
}

-- everything that a test of a session runs
unfoldable pub program : Unit {0}
unfolding commit commit_filtered write_block new_block new_header hash_block install commit_txs
    count_tx apply_ops apply_op put_op versions_of filter_txs filter_ops changes clone_state
    last_hash contract_aggregate_root state_root prefix_root root reduce pair_level node keys_under
    leaf value_of hash lookup insert remove sort_strings bytes_ltb beq has_prefix encode_to_string
    transaction_json block_json open_engine load_all scan_back get get_at block_at state_from
    contains
program = tt

abbrev pub fresh : Engine Memory
fresh = new_engine no_files true

abbrev pub first : List Transaction
first = tx (put (codes "a") (codes "1") ∷ put (codes "b") (codes "2") ∷ []) ∷ []

-- the first operation changes nothing, and is dropped
abbrev pub second : List Transaction
second = tx (put (codes "a") (codes "1") ∷ del (codes "b") ∷ []) ∷ []

abbrev pub one : Engine Memory
one = (commit 10 fresh first).0

abbrev two : Engine Memory
two = (commit 20 one second).0

two-Session : Session two
unfolding program
two-Session =
    then_commit one 20 second (then_commit fresh 10 first (opened no_files true fresh refl))

two_blocks : length two.blocks ≡ 2
unfolding program
two_blocks = refl

two_ops : (two.op_count ≡ 3) × (two.tx_count ≡ 2)
unfolding program
two_ops = (refl, refl)

b_then_and_now :
    (get_at two (codes "b") 1 ≡ (codes "2", true)) × (get two (codes "b") ≡ ([], false))
unfolding program
b_then_and_now = (refl, refl)

nothing_new : (commit 30 two second).1 ≡ rejected no_state_change
unfolding program
nothing_new = refl

no_key : (commit 30 two (tx (put [] (codes "1") ∷ []) ∷ [])).1 ≡ rejected empty_key
unfolding program
no_key = refl

verify-Session_example : verify two ≡ none
verify-Session_example = verify-Session two two-Session

two-IsReplay : IsReplay two
two-IsReplay = Session-IsReplay two two-Session

two_small : length two.blocks < 2 ^ 64
two_small = omega (arith, two_blocks)

get_at-IsReplay_example :
    (get two (codes "b") ≡ found (lookup (state_from [] two.blocks) (codes "b")))
    × (get_at two (codes "b") 1 ≡ found (lookup (state_from [] (take 1 two.blocks)) (codes "b")))
get_at-IsReplay_example = get_at-IsReplay two (codes "b") 1 two_small two-IsReplay

IsReplay-IsChain_example : IsChain [] 0 two.blocks
IsReplay-IsChain_example = IsReplay-IsChain two two_small two-IsReplay

one-Distinct : Distinct (keys one.state)
unfolding program
one-Distinct = (refl, (refl, tt))

commit-Committed_example : Committed 20 one second (commit 20 one second)
commit-Committed_example = commit-Committed 20 one second one-Distinct

abbrev pub second_block : Block
second_block = new_block 20 one.blocks (put_txs one.state second) (tx (del (codes "b") ∷ []) ∷ [])

second_written : installed (commit 20 one second).1 ≡ some second_block
unfolding program put_txs put_ops
second_written = refl

commit-IsEffective_example : IsEffective one second (commit 20 one second).0 second_block
commit-IsEffective_example =
    commit-IsEffective 20 one second second_block one-Distinct second_written

same_again : filter_txs (clone_state one.state) first ≡ ok (one.state, [])
unfolding program
same_again = refl
