-- ===== src/Cli/Clusters.antt =====
-- The commands of cli.go on the policy, the cluster and the retained files of the directory that
-- `--dir` names: what becomes of its files, and what is printed as JSON.
use agidb_on_chain.Base.{ℕ, ◌+◌, Bool, List, [], ◌∷◌, Bytes, codes, length}
use agidb_on_chain.Go.Sha256.{Sha256}
use agidb_on_chain.Result.{Result, ok, err, ◌>>=◌, usage}
use agidb_on_chain.Enterprise.Files.{Tree}
use agidb_on_chain.Enterprise.Policies.{JsonOf, Policy, default_policy, write_policy, read_policy}
use agidb_on_chain.Enterprise.Cluster.{
  ClusterConfig, pos, QuorumResult, init_cluster, read_cluster, elect_leader, simulate_quorum,
}
use agidb_on_chain.Enterprise.Retention.{Kept, PruneResult, prune_files}
use agidb_on_chain.Cli.Words.{arg, int_arg, split_csv}

module _ ⦃J : JsonOf Policy⦄ where
  -- `policyInit`: `made` is the time of `DefaultPolicy`, `now` that of `WritePolicy`
  unfoldable pub policy_init_command : ℕ → ℕ → List Bytes → Tree → Tree × Policy
  policy_init_command made now args t =
      let p = record (default_policy made) { mode = arg args (codes "--mode") (codes "archive") } in
      (write_policy now t p, p)

  unfoldable pub policy_show_command : ℕ → Tree → Result Policy
  policy_show_command now t = read_policy now t

module _ ⦃J : JsonOf ClusterConfig⦄ where
  unfoldable pub cluster_init_command :
      ⦃H : Sha256⦄ → ℕ → List Bytes → Tree → Tree × Result ClusterConfig
  cluster_init_command now (name ∷ node ∷ rest) t =
      init_cluster now t node (split_csv (arg (name ∷ node ∷ rest) (codes "--peers") []))
  cluster_init_command now args t = (t, err (usage (codes "cluster-init NODE_ID")))

  unfoldable pub cluster_status_command : Tree → Result ClusterConfig
  cluster_status_command t = read_cluster t

  unfoldable pub leader_elect_command : ℕ → List Bytes → Tree → Tree × Result ClusterConfig
  leader_elect_command now args t =
      elect_leader now t (split_csv (arg args (codes "--candidates") []))

  unfoldable pub quorum_test_command : List Bytes → Tree → Result QuorumResult
  quorum_test_command args t = read_cluster t >>= λ c. ok (
      simulate_quorum c (int_arg args (codes "--nodes") (pos (length c.peers + 1)))
        (int_arg args (codes "--acks") (pos 0)))

-- `prune`
unfoldable pub prune_command : Bool → List Bytes → Kept → PruneResult
prune_command snapshots_first args kept =
    prune_files snapshots_first kept (int_arg args (codes "--keep-snapshots") (pos 8))
      (int_arg args (codes "--keep-backups") (pos 8))
