-- ===== src/Examples/Enterprise.antt =====
-- The theorems on backups, retention, the cluster and compaction at concrete inputs.
use agidb_on_chain.Base.{
  ◌^◌, ◌<◌, ◌≡◌, refl, ap, true, false, Bool, none, some, List, [], ◌∷◌, Bytes, codes, beq,
  bytes_ltb, has_prefix, length, take, ltb, if◌then◌else◌, All, sym, ◌∙◌, arith,
}
use agidb_on_chain.Go.Maps.{lookup, insert, remove, contains}
use agidb_on_chain.Go.Sort.{sort_strings}
use agidb_on_chain.Go.Strings.{split, cut}
use agidb_on_chain.Result.{ok, err, unsafe_path, blocked_path}
use agidb_on_chain.Engine.{apply_txs, count_txs}
use agidb_on_chain.Engine.Loading.{apply_loaded, check_links, check_roots, open_engine}
use agidb_on_chain.Engine.Effects.{mount}
use agidb_on_chain.Go.Directory.{
  run_all, run, content, moved, create, write, Crashed, later, partly,
}
use agidb_on_chain.Enterprise.Files.{
  Tree, temporary, atomic_calls, atomic_write, IsWhole, Interrupted-IsWhole,
}
use agidb_on_chain.Enterprise.Policies.{JsonOf}
use agidb_on_chain.Enterprise.Cluster.{
  ClusterConfig, config_path, elected, parse_config, read_cluster, elect_leader, pos, required_of,
  at_least, simulate_quorum,
}
use agidb_on_chain.Enterprise.Elections.{IsElected, elect_leader-IsElected}
use agidb_on_chain.Enterprise.Quorums.{acks_in, meet, committed-meet}
use agidb_on_chain.Enterprise.Backups.{
  is_left_out, walked, clean_loop, slashed, clean, is_unsafe, bars, is_barred, is_blocked,
  ends_open, moved_onto, restore_entries, encode_backup, decode_backup, backup, unpacked,
  restore_backup,
}
use agidb_on_chain.Enterprise.Restoring.{IsInside}
use agidb_on_chain.Enterprise.Confinement.{restore_backup-IsInside}
use agidb_on_chain.Enterprise.RoundTrip.{IsErr, IsWalked, HasRestored, restore_backup-HasRestored}
use agidb_on_chain.Enterprise.Retention.{Item, insert_item, newest_first, prune_items}
use agidb_on_chain.Enterprise.Pruning.{IsPruned, prune_items-IsPruned}
use agidb_on_chain.Enterprise.Compaction.{
  Directory, rebuild, after_rebuilt, compact, compact_report, IsSettled, compact-IsSettled,
}
use agidb_on_chain.Examples.Toys.{toy_sha256, toy_json, memory_store, Memory, no_files}
use agidb_on_chain.Examples.Sessions.{program, one}
use agidb_on_chain.Examples.Crashes.{memory_log}
use agidb_on_chain.Examples.Server.{memory_counts}
use agidb_on_chain.Examples.Archives.{toy_gcm, toy_zip, in_name, in_content}

abbrev tree : Tree
tree =
    (codes "data/a", codes "1")
    ∷ (codes "meta/LOCK", codes "pid")
    ∷ (codes "backups/b", codes "2")
    ∷ []

abbrev salt : Bytes
salt = codes "0123456789abcdef"

abbrev nonce : Bytes
nonce = codes "0123456789ab"

unfoldable restoring : Unit {0}
unfolding walked is_left_out clean clean_loop slashed is_unsafe restore_entries atomic_write run_all
    run content moved atomic_calls bars is_barred is_blocked ends_open moved_onto lookup insert
    remove contains split cut beq has_prefix
restoring = tt

tree-IsWalked : IsWalked (walked tree)
unfolding restoring
tree-IsWalked = (refl, refl, refl, tt, refl, tt, tt)

out_closed : ends_open (split 47 (codes "out")) ≡ false
unfolding restoring
out_closed = refl

restore_backup-HasRestored_example :
    HasRestored tree (
      restore_backup
        (codes "out")
        none
        (backup salt nonce tree (codes "secret")).0
        (codes "secret"))
    × IsErr (
        restore_backup
          (codes "out")
          (some [])
          (backup salt nonce tree (codes "secret")).0
          (codes "secret"))
restore_backup-HasRestored_example =
    restore_backup-HasRestored salt nonce (codes "secret") (codes "out") tree [] refl refl (λ h. cc)
      out_closed tree-IsWalked

-- the payload of an archive without encryption
abbrev plain_payload : Bytes
plain_payload = (backup salt nonce tree []).0

abbrev restored_tree : Tree
restored_tree = (codes "data/a", codes "1") ∷ []

plain_restored : restore_backup (codes "out") none plain_payload [] ≡ ok restored_tree
unfolding restoring in_name in_content restore_backup backup encode_backup decode_backup unpacked
plain_restored = refl

a_restored : lookup restored_tree (codes "data/a") ≡ some (codes "1")
unfolding restoring
a_restored = refl

restore_backup-IsInside_example : IsInside (codes "data/a")
restore_backup-IsInside_example =
    restore_backup-IsInside (codes "out") plain_payload [] none restored_tree (codes "data/a")
      (codes "1") plain_restored a_restored

escaping : restore_entries [] ((codes "a/../../b", []) ∷ []) ≡ err unsafe_path
unfolding restoring
escaping = refl

-- a name below one of the files before it, and a name of which it is a directory
blocked_below : restore_entries [] ((codes "a", []) ∷ (codes "a/b", []) ∷ []) ≡ err blocked_path
unfolding restoring
blocked_below = refl

blocked_above : restore_entries [] ((codes "a/b", []) ∷ (codes "a", []) ∷ []) ≡ err blocked_path
unfolding restoring
blocked_above = refl

blocked_root : restore_entries [] ((codes "./", []) ∷ []) ≡ err blocked_path
unfolding restoring
blocked_root = refl

-- a crash in the write, of which one byte is done
abbrev half_written : Tree
half_written =
    run (write (temporary (codes "data/a")) (take 1 (codes "new")))
      (run (create (temporary (codes "data/a"))) tree)

half_crash : Crashed (atomic_calls (codes "data/a") (codes "new")) tree half_written
unfolding atomic_calls
half_crash = later _ _ _ _ (partly _ _ _ _ 1)

Interrupted-IsWhole_example : IsWhole tree (codes "data/a") (codes "new") half_written
Interrupted-IsWhole_example =
    Interrupted-IsWhole tree (codes "data/a") (codes "new") half_written half_crash

abbrev three_files : List Item
three_files =
    record { name = codes "old"; mod_time = 1 }
    ∷ record { name = codes "new"; mod_time = 3 }
    ∷ record { name = codes "mid"; mod_time = 2 }
    ∷ []

two_newest :
    (prune_items (codes "snapshots") (pos 2) three_files).left
    ≡ record { name = codes "new"; mod_time = 3 } ∷ record { name = codes "mid"; mod_time = 2 } ∷ []
unfolding prune_items newest_first insert_item
two_newest = refl

prune_items-IsPruned_example :
    IsPruned 2 three_files (prune_items (codes "snapshots") (pos 2) three_files)
prune_items-IsPruned_example = prune_items-IsPruned (codes "snapshots") 2 three_files

abbrev config : ClusterConfig
config = record {
  version = 1;
  cluster_id = codes "c";
  node_id = codes "n2";
  peers = codes "n1" ∷ [];
  term = 1;
  leader = [];
  commit_index = 0;
  quorum = 2;
  mode = codes "test";
  updated_at = 1;
}

-- two configurations are text: the first one, and that after an election at the time 2
abbrev after_election : ClusterConfig
after_election = elected 2 config (codes "n2" ∷ codes "n1" ∷ [])

abbrev parse_toy : Bytes → ClusterConfig
parse_toy [] = config
parse_toy (x ∷ xs) = after_election

abbrev print_toy : ClusterConfig → Bytes
print_toy c = if ltb 1 c.term then 1 ∷ [] else []

later_term : print_toy after_election ≡ 1 ∷ []
unfolding elected
later_term = refl

instance abbrev config_json : JsonOf ClusterConfig
config_json = record {
  print = print_toy;
  parse = λ b. some (parse_toy b);
  IsText = λ c. c ≡ after_election;
  parse-print = λ c h.
      ap (λ d. some (parse_toy (print_toy d))) h
      ∙ ap (λ b. some (parse_toy b)) later_term
      ∙ ap (λ d. some d) (sym h);
}

abbrev cluster_files : Tree
cluster_files = (config_path, []) ∷ []

config_read : read_cluster cluster_files ≡ ok config
unfolding read_cluster parse_config lookup beq
config_read = refl

elect_leader-IsElected_example :
    (t' : Tree) × (c' : ClusterConfig) × (elect_leader 2 cluster_files [] ≡ (t', ok c'))
    × IsElected config [] t' c'
elect_leader-IsElected_example = elect_leader-IsElected 2 cluster_files [] config config_read refl

leader_n1 : after_election.leader ≡ codes "n1"
unfolding elected sort_strings bytes_ltb
leader_n1 = refl

abbrev first_two : List Bool
first_two = true ∷ true ∷ false ∷ []

abbrev last_two : List Bool
last_two = false ∷ true ∷ true ∷ []

first_committed :
    (simulate_quorum config (pos (length first_two)) (pos (acks_in first_two))).committed ≡ true
unfolding simulate_quorum required_of at_least
first_committed = refl

last_committed :
    (simulate_quorum config (pos (length last_two)) (pos (acks_in last_two))).committed ≡ true
unfolding simulate_quorum required_of at_least
last_committed = refl

committed-meet_example : meet first_two last_two ≡ true
committed-meet_example =
    committed-meet config config first_two last_two refl first_committed last_committed

instance abbrev memory_directory : Directory Memory
memory_directory = record { reopen = λ f. ok f }

one_opens : (open_engine one.store true).1 ≡ ok one
unfolding program apply_loaded check_links check_roots apply_txs count_txs
one_opens = refl

one_small : length one.blocks < 2 ^ 64
unfolding program
one_small = omega arith

one_copied : rebuild one.blocks no_files ≡ ok one.store
unfolding program rebuild after_rebuilt
one_copied = refl

one_stored : All memory_log.IsStored one.blocks
unfolding program
one_stored = (tt, tt)

compact-IsSettled_example :
    (compact one.store no_files
      ≡ ok (mount one.store true one, compact_report one (mount one.store true one)))
    × IsSettled memory_log one.store one.blocks
compact-IsSettled_example =
    compact-IsSettled memory_log one.store no_files one.store one.store one one_opens one_small
      one_stored (refl, refl) one_copied refl (λ h. h)
