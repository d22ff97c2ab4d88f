-- ===== src/Cli.antt =====
-- engine/internal/cli/cli.go: the arguments, the names of the commands, and the commands on a database
-- and on the files of a cluster. What a command prints is a list of lines with the values that they
-- show. `args` are the words from the command's name on.
pub mod Words
pub mod Arguments
pub mod Bodies
pub mod Databases
pub mod Clusters
pub mod Persistence
use agidb_on_chain.Base.{
  ℕ, Bool, true, false, Option, none, some, List, [], ◌∷◌, Bytes, codes, beq, if◌then◌else◌,
}
use agidb_on_chain.Result.{Error}

-- the cases of the switch of `Run`
pub data Command : Type 0 where
  init put delete get status verify serve execution_commit proof_get proof_verify : Command
  snapshot snapshot_verify backup backup_verify restore policy_init policy_show prune : Command
  compact metrics migrate_plan replica_bootstrap cluster_init cluster_status : Command
  leader_elect quorum_test unlock : Command

-- the names, in the order of the switch
abbrev pub command_names : List (Bytes × Command)
command_names =
    (codes "init", init)
    ∷ (codes "put", put)
    ∷ (codes "delete", delete)
    ∷ (codes "get", get)
    ∷ (codes "status", status)
    ∷ (codes "verify", verify)
    ∷ (codes "serve", serve)
    ∷ (codes "execution-commit", execution_commit)
    ∷ (codes "proof-get", proof_get)
    ∷ (codes "proof-verify", proof_verify)
    ∷ (codes "snapshot", snapshot)
    ∷ (codes "snapshot-verify", snapshot_verify)
    ∷ (codes "backup", backup)
    ∷ (codes "backup-verify", backup_verify)
    ∷ (codes "restore", restore)
    ∷ (codes "policy-init", policy_init)
    ∷ (codes "policy-show", policy_show)
    ∷ (codes "prune", prune)
    ∷ (codes "compact", compact)
    ∷ (codes "metrics", metrics)
    ∷ (codes "migrate-plan", migrate_plan)
    ∷ (codes "replica-bootstrap", replica_bootstrap)
    ∷ (codes "cluster-init", cluster_init)
    ∷ (codes "cluster-status", cluster_status)
    ∷ (codes "leader-elect", leader_elect)
    ∷ (codes "quorum-test", quorum_test)
    ∷ (codes "unlock", unlock)
    ∷ []

abbrev pub named : Bytes → List (Bytes × Command) → Option Command
named name [] = none
named name ((n, c) ∷ rest) = if beq name n then some c else named name rest

-- `Run`: help, a command, or help and the error for an unknown command
pub data Chosen : Type 0 where
  only_help : Chosen
  chosen : Command → Chosen
  unknown : Bytes → Chosen

abbrev pub chosen_or : Bytes → Option Command → Chosen
chosen_or name none = unknown name
chosen_or name (some c) = chosen c

unfoldable pub choose : List Bytes → Chosen
choose [] = only_help
choose (name ∷ args) = chosen_or name (named name command_names)
