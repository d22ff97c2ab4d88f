-- ===== src/Cli/Bodies.antt =====
-- What the commands of cli.go do with a database that is open, and what they print.
use agidb_on_chain.Base.{
  ℕ, Bool, true, false, Option, none, some, List, [], ◌∷◌, Bytes, codes, length, ltb, if◌then◌else◌,
}
use agidb_on_chain.Go.Slices.{nil_slice}
use agidb_on_chain.Go.Json.{JsonText}
use agidb_on_chain.Go.Sha256.{Sha256}
use agidb_on_chain.Merkle.{Proof, verify_proof}
use agidb_on_chain.Model.{Operation, Transaction, Snapshot, Status}
use agidb_on_chain.Result.{Error, Result, ok, err, proof_failed, not_exist, bad_json}
use agidb_on_chain.Engine.{Engine, Store}
use agidb_on_chain.Engine.Batches.{new_transaction, is_no_state_change}
use agidb_on_chain.Engine.Committing.{Reply, committed, uncleared, rejected, commit}
use agidb_on_chain.Engine.Executions.{ExecutionBundle}
use agidb_on_chain.Engine.Puts.{Stamp}
use agidb_on_chain.Engine.Reading.{get, get_at}
use agidb_on_chain.Engine.Status.{Counts, status}
use agidb_on_chain.Enterprise.Cluster.{ℤ, pos, negsuc}

-- what is printed
pub data Line : Type 0 where
  initialized : Bytes → Line
  unchanged : ℕ → Bytes → Line
  value_line : Bytes → Line
  status_line : Status → Line
  verified_line : ℕ → ℕ → Line
  metrics_line : Status → Bool → Line
  execution_line : ℕ → Bytes → ℕ → Line
  proof_written : Bytes → Line
  proof_verified : Bytes → Bytes → Line
  snapshot_line : Bytes → Snapshot → Line

pub record Outcome : Type 0 where
  pub printed : List Line
  pub failure : Option Error

-- `main`: the exit code of a command
unfoldable pub exit_code : Outcome → ℕ
exit_code o = elim o.failure [ none ↦ 0 | some x ↦ 1 ]

abbrev pub prints : Line → Outcome
prints line = record { printed = line ∷ []; failure = none }

abbrev pub fails : Error → Outcome
fails x = record { printed = []; failure = some x }

-- `json.Unmarshal` into a bundle and into a proof, and `json.MarshalIndent` of a proof
pub record CliJson : Type 0 where
  pub bundle : Bytes → Option ExecutionBundle
  pub proof : Bytes → Option Proof
  pub print_proof : Proof → Bytes

-- the error that `Commit` returns
abbrev pub reply_error : Reply → Option Error
reply_error (committed b) = none
reply_error (uncleared b x) = some x
reply_error (rejected x) = some x

unfoldable pub get_answer : Bytes × Bool → Outcome
get_answer (v, true) = prints (value_line v)
get_answer (v, false) = fails not_exist

abbrev pub is_none : Option Error → Bool
is_none none = true
is_none (some x) = false

abbrev pub first_ops : List Transaction → ℕ
first_ops [] = 0
first_ops (tx ∷ txs) = length tx.ops

unfoldable pub snapshot_outcome : Snapshot → Result Bytes → Outcome
snapshot_outcome s (err x) = fails x
snapshot_outcome s (ok path) = prints (snapshot_line path s)

unfoldable pub checked_snapshot : Bytes → Result Snapshot → Outcome
checked_snapshot path (err x) = fails x
checked_snapshot path (ok s) = prints (snapshot_line path s)

module _ ⦃H : Sha256⦄ ⦃J : JsonText⦄ {F : Type 0} where
  module _ ⦃S : Store F⦄ ⦃N : Counts F⦄ where
    -- `noChange`
    unfoldable pub no_change : Engine F → Option Error → Outcome
    unfolding is_no_state_change
    no_change e none = record { printed = []; failure = none }
    no_change e (some x) =
        if is_no_state_change x
        then prints (unchanged (status e).height (status e).state_root)
        else fails x

    -- one transaction of the command line
    unfoldable pub commit_op : Stamp → Operation → Engine F → Engine F × Outcome
    unfolding no_change new_transaction
    commit_op m op e =
        let r =
          commit m.clock e (new_transaction m.id m.time (op ∷ []) (codes "cli") 0 nil_slice ∷ []) in
        (r.0, no_change r.0 (reply_error r.1))

    -- a height that is positive, or now
    abbrev pub read_value : Engine F → Bytes → ℤ → Bytes × Bool
    read_value e key (pos h) = if ltb 0 h then get_at e key h else get e key
    read_value e key (negsuc h) = get e key

    unfoldable pub verify_outcome : Engine F → Option Error → Outcome
    verify_outcome e (some x) = fails x
    verify_outcome e none = prints (verified_line (status e).height (status e).transactions)

    -- `executionCommit` after `CommitExecution`
    unfoldable pub execution_outcome : Engine F → Reply → Outcome
    unfolding no_change
    execution_outcome e (committed b) =
        prints (execution_line b.header.height b.header.record_hash (first_ops b.transactions))
    execution_outcome e (uncleared b x) = no_change e (some x)
    execution_outcome e (rejected x) = no_change e (some x)

module _ ⦃H : Sha256⦄ ⦃K : CliJson⦄ where
  unfoldable pub proof_outcome : Option Proof → Outcome
  proof_outcome none = fails bad_json
  proof_outcome (some p) =
      if verify_proof p then prints (proof_verified p.key p.root) else fails proof_failed

  unfoldable pub proof_file : Result Bytes → Outcome
  unfolding proof_outcome
  proof_file (err x) = fails x
  proof_file (ok b) = proof_outcome (K.proof b)
