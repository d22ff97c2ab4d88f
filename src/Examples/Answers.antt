-- ===== src/Examples/Answers.antt =====
-- The answers of a server to requests that read, and its status.
use agidb_on_chain.Base.{◌≡◌, ◌<◌, ◌≤◌, ◌%◌, ◌^◌, refl, false, some, [], ◌∷◌, codes, length, arith}
use agidb_on_chain.Go.Maps.{lookup}
use agidb_on_chain.Go.Slices.{nil_slice}
use agidb_on_chain.Go.Strings.{trim_prefix}
use agidb_on_chain.Go.Decimals.{decimal_value}
use agidb_on_chain.Model.{Transaction, Block}
use agidb_on_chain.Engine.Batches.{new_transaction}
use agidb_on_chain.Engine.Committing.{new_block}
use agidb_on_chain.Engine.Effects.{put_ops, put_txs}
use agidb_on_chain.Engine.Status.{status}
use agidb_on_chain.Engine.Summary.{AreRoots, txs_in, ops_in, last_block, status-IsReplay}
use agidb_on_chain.Engine.History.{state_from}
use agidb_on_chain.Server.{
  Request, to, at_state, at_block, value_content, route, refuses, query_height, serve,
}
use agidb_on_chain.Server.Reads.{read_reply, blocks_to, IsBlockReply, serve_state, serve_block}
use agidb_on_chain.Examples.Toys.{toy_sha256, toy_json, memory_store, put}
use agidb_on_chain.Examples.Server.{
  memory_counts, toy_requests, now, ask, posted, serving, posted_blocks, posted-IsReplay,
}

abbrev reading : Request
reading = ask (codes "GET") (codes "/v1/state/a") (codes "1")

reading_held : refuses posted.token reading ≡ false
unfolding serving
reading_held = refl

reading_found : route reading ≡ to at_state
unfolding serving
reading_found = refl

posted_small : length posted.engine.blocks < 2 ^ 64
posted_small = omega (arith, posted_blocks)

serve_state_example : serve now posted reading ≡ (
  posted,
  read_reply (trim_prefix reading.path (codes "/v1/state/")) (query_height reading) (
      lookup
        (state_from [] (blocks_to (query_height reading) posted.engine.blocks))
        (trim_prefix reading.path (codes "/v1/state/"))),
)
serve_state_example =
    serve_state now posted reading posted_small posted-IsReplay reading_held reading_found

value_read :
    (serve now posted reading).1
    ≡ record { code = 200; content = value_content (codes "a") (codes "1") 1 }
unfolding serving
value_read = refl

abbrev fetching : Request
fetching = ask (codes "GET") (codes "/v1/block/1") []

fetching_held : refuses posted.token fetching ≡ false
unfolding serving
fetching_held = refl

fetching_found : route fetching ≡ to at_block
unfolding serving
fetching_found = refl

serve_block_example :
    ((serve now posted fetching).0 ≡ posted)
    × IsBlockReply posted.engine (decimal_value (codes "1")) (serve now posted fetching).1
serve_block_example =
    serve_block now posted fetching (codes "1") posted_small posted-IsReplay fetching_held
      fetching_found refl (λ e. cc) ((omega arith, omega arith), tt)

abbrev posted_tx : Transaction
posted_tx =
    new_transaction (codes "t") 5 (put (codes "a") (codes "1") ∷ []) (codes "me") 0 nil_slice

posted_last :
    last_block posted.engine.blocks
    ≡ some (new_block 6 [] (put_txs [] (posted_tx ∷ [])) (posted_tx ∷ []))
unfolding serving put_txs put_ops
posted_last = refl

abbrev posted_block : Block
posted_block = new_block 6 [] (put_txs [] (posted_tx ∷ [])) (posted_tx ∷ [])

posted_schema : 4 ≤ posted_block.header.schema
unfolding serving
posted_schema = omega arith

status-IsReplay_example :
    ((status posted.engine).transactions ≡ txs_in posted.engine.blocks % 2 ^ 64)
    × ((status posted.engine).operations ≡ ops_in posted.engine.blocks % 2 ^ 64)
    × AreRoots (status posted.engine) posted_block.header
status-IsReplay_example =
    status-IsReplay posted.engine posted_block posted-IsReplay posted_last posted_schema
