-- ===== src/Examples/Cli.antt =====
-- Runs of the commands on one database in memory.
use agidb_on_chain.Base.{◌≡◌, refl, true, none, some, List, [], ◌∷◌, Bytes, codes, beq}
use agidb_on_chain.Go.Strings.{parse_digits, parse_uint, split, trim_left, trim_space}
use agidb_on_chain.Model.{Block}
use agidb_on_chain.Result.{ok}
use agidb_on_chain.Engine.Batches.{new_transaction}
use agidb_on_chain.Engine.Committing.{committed, new_block, commit}
use agidb_on_chain.Engine.Effects.{put_ops, put_txs}
use agidb_on_chain.Engine.Loading.{open_engine}
use agidb_on_chain.Engine.Puts.{Stamp}
use agidb_on_chain.Enterprise.Cluster.{pos, negsuc}
use agidb_on_chain.Cli.{init, choose, chosen, unknown}
use agidb_on_chain.Cli.Words.{find_arg, arg, atoi, int_arg, filled_parts, split_csv}
use agidb_on_chain.Cli.Bodies.{prints, value_line, exit_code}
use agidb_on_chain.Cli.Databases.{Host, dir_of, put_command, get_command}
use agidb_on_chain.Cli.Persistence.{put_transaction, get_command-put_command}
use agidb_on_chain.Examples.Toys.{toy_sha256, toy_json, memory_store, Memory, no_files}
use agidb_on_chain.Examples.Sessions.{program, fresh}
use agidb_on_chain.Examples.Server.{memory_counts}

-- every directory is the one database
instance abbrev memory_host : Host Memory Memory
memory_host = record {
  open_at = λ dir w. (w, ok w);
  leave_at = λ dir f w. f;
  close_at = λ dir f w. f;
  read_file = λ path w. ok [];
  write_file = λ path b w. (w, none);
}

abbrev stamp : Stamp
stamp = record { id = codes "t"; time = 5; clock = 6 }

abbrev put_words : List Bytes
put_words = codes "put" ∷ codes "k" ∷ codes "v" ∷ codes "--dir" ∷ codes "x" ∷ []

abbrev get_words : List Bytes
get_words = codes "get" ∷ codes "k" ∷ codes "--dir" ∷ codes "x" ∷ []

put_dir : dir_of put_words ≡ codes "x"
unfolding arg find_arg beq
put_dir = refl

get_dir : dir_of get_words ≡ codes "x"
unfolding arg find_arg beq
get_dir = refl

get_now : int_arg get_words (codes "--height") (pos 0) ≡ pos 0
unfolding int_arg arg find_arg beq atoi
get_now = refl

abbrev put_block : Block
put_block =
    let tx = put_transaction stamp (codes "k") (codes "v") in
    new_block 6 [] (put_txs [] (tx ∷ [])) (tx ∷ [])

put_commits :
    commit 6 fresh (put_transaction stamp (codes "k") (codes "v") ∷ [])
    ≡ ((commit 6 fresh (put_transaction stamp (codes "k") (codes "v") ∷ [])).0, committed put_block)
unfolding program put_txs put_ops new_transaction
put_commits = refl

fresh_opens : open_engine no_files true ≡ (no_files, ok fresh)
unfolding program
fresh_opens = refl

abbrev after_put : Memory
after_put = (commit 6 fresh (put_transaction stamp (codes "k") (codes "v") ∷ [])).0.store

put_reads :
    memory_store.read_all after_put
    ≡ ok (commit 6 fresh (put_transaction stamp (codes "k") (codes "v") ∷ [])).0.blocks
unfolding program new_transaction
put_reads = refl

put_settled : memory_store.read_wal after_put ≡ ok none
unfolding program new_transaction
put_settled = refl

get_command-put_command_example :
    ((put_command Memory stamp put_words no_files).1 ≡ record { printed = []; failure = none })
    × ((get_command Memory get_words (put_command Memory stamp put_words no_files).0).1
        ≡ prints (value_line (codes "v")))
get_command-put_command_example =
    get_command-put_command stamp (codes "put") (codes "get") (codes "k") (codes "v")
      (codes "--dir" ∷ codes "x" ∷ []) (codes "--dir" ∷ codes "x" ∷ []) (codes "x") no_files
      no_files (commit 6 fresh (put_transaction stamp (codes "k") (codes "v") ∷ [])).0.store
      no_files no_files
      (commit 6 fresh (put_transaction stamp (codes "k") (codes "v") ∷ [])).0.store fresh
      (commit 6 fresh (put_transaction stamp (codes "k") (codes "v") ∷ [])).0 put_block put_dir
      get_dir get_now refl fresh_opens put_commits refl put_reads put_settled

-- a flag that stands last is not seen
last_flag : arg (codes "serve" ∷ codes "--airgap" ∷ []) (codes "--airgap") [] ≡ []
unfolding arg find_arg beq
last_flag = refl

negative : atoi (codes "-12") ≡ some (negsuc 11)
unfolding atoi parse_uint parse_digits
negative = refl

csv : split_csv (codes " a, ,b ") ≡ codes "a" ∷ codes "b" ∷ []
unfolding split_csv filled_parts split trim_space trim_left beq
csv = refl

first_command : choose (codes "init" ∷ []) ≡ chosen init
unfolding choose beq
first_command = refl

no_command : choose (codes "account-put" ∷ []) ≡ unknown (codes "account-put")
unfolding choose beq
no_command = refl

no_value : exit_code (put_command Memory stamp (codes "put" ∷ codes "k" ∷ []) no_files).1 ≡ 1
unfolding exit_code put_command
no_value = refl
