-- ===== src/Enterprise/Cluster.antt =====
-- The cluster primitives of enterprise.go, where no system call fails: `InitCluster`, `ReadCluster`,
-- `ElectLeader`, `SimulateQuorum`.
use agidb_on_chain.Base.{
  ℕ, zero, suc, ◌+◌, ◌-◌, ◌/◌, ◌%◌, ◌^◌, Bool, true, false, Option, none, some, List, [], ◌∷◌, ◌++◌,
  Bytes, codes, beq, length, take, ltb, leb, if◌then◌else◌,
}
use agidb_on_chain.Go.Maps.{lookup}
use agidb_on_chain.Go.Hex.{encode_to_string}
use agidb_on_chain.Go.Sha256.{Sha256}
use agidb_on_chain.Go.Sort.{sort_strings}
use agidb_on_chain.Go.Sort.Least.{first_of}
use agidb_on_chain.Result.{Result, ok, err, bad_json, node_id_required, not_exist}
use agidb_on_chain.Enterprise.Files.{Tree, atomic_write}
use agidb_on_chain.Enterprise.Policies.{JsonOf}

pub record ClusterConfig : Type 0 where
  pub version : ℕ
  pub cluster_id : Bytes
  pub node_id : Bytes
  pub peers : List Bytes
  pub term : ℕ
  pub leader : Bytes
  pub commit_index : ℕ
  pub quorum : ℕ
  pub mode : Bytes
  pub updated_at : ℕ

abbrev pub config_path : Bytes
config_path = codes "cluster/config.json"

-- `strings.Join(parts, "\x00")`
unfoldable pub join : List Bytes → Bytes
join [] = []
join (p ∷ []) = p
join (p ∷ q ∷ ps) = p ++ (0 ∷ join (q ∷ ps))

unfoldable pub cluster_id_of : ⦃H : Sha256⦄ → List Bytes → Bytes
unfolding join
cluster_id_of ⦃H⦄ nodes = encode_to_string (take 8 (H.sum256 (join (sort_strings nodes))))

unfoldable pub new_cluster : ⦃H : Sha256⦄ → ℕ → Bytes → List Bytes → ClusterConfig
unfolding cluster_id_of
new_cluster now node_id peers = record {
  version = 1;
  cluster_id = cluster_id_of (node_id ∷ peers);
  node_id = node_id;
  peers = peers;
  term = 1;
  leader = [];
  commit_index = 0;
  quorum = length (node_id ∷ peers) / 2 + 1;
  mode = codes "deterministic-consensus-test-framework";
  updated_at = now;
}

-- the configuration after an election
unfoldable pub elected : ℕ → ClusterConfig → List Bytes → ClusterConfig
elected now c candidates = record c {
  term = (c.term + 1) % 2 ^ 64;
  leader = first_of (sort_strings candidates);
  updated_at = now;
}

-- `candidates`, or all nodes where there are none
abbrev pub candidates_or_all : ClusterConfig → List Bytes → List Bytes
candidates_or_all c [] = c.node_id ∷ c.peers
candidates_or_all c (k ∷ ks) = k ∷ ks

module _ ⦃J : JsonOf ClusterConfig⦄ where
  unfoldable pub init_cluster :
      ⦃H : Sha256⦄ → ℕ → Tree → Bytes → List Bytes → Tree × Result ClusterConfig
  unfolding new_cluster
  init_cluster now t node_id peers =
      let c = new_cluster now node_id peers in
      if beq node_id []
      then (t, err node_id_required)
      else (atomic_write t config_path (J.print c), ok c)

  unfoldable pub parse_config : Option Bytes → Result ClusterConfig
  parse_config none = err not_exist
  parse_config (some b) = elim (J.parse b) [ none ↦ err bad_json | some c ↦ ok c ]

  unfoldable pub read_cluster : Tree → Result ClusterConfig
  unfolding parse_config
  read_cluster t = parse_config (lookup t config_path)

  -- `ElectLeader` after the configuration is read
  unfoldable pub elect : ℕ → Tree → List Bytes → Result ClusterConfig → Tree × Result ClusterConfig
  unfolding elected
  elect now t candidates (err x) = (t, err x)
  elect now t candidates (ok c) =
      let c' = elected now c (candidates_or_all c candidates) in
      (atomic_write t config_path (J.print c'), ok c')

  unfoldable pub elect_leader : ℕ → Tree → List Bytes → Tree × Result ClusterConfig
  unfolding elect
  elect_leader now t candidates = elect now t candidates (read_cluster t)

-- `int`: `pos n` is n, `negsuc n` is -(n + 1)
pub data ℤ : Type 0 where
  pos : ℕ → ℤ
  negsuc : ℕ → ℤ

-- -n
abbrev pub negate : ℕ → ℤ
negate zero = pos 0
negate (suc n) = negsuc n

-- `n/2 + 1`, where the division rounds towards zero
unfoldable pub required_of : ℤ → ℤ
required_of (pos n) = pos (n / 2 + 1)
required_of (negsuc n) = if ltb n 1 then pos 1 else negate ((n + 1) / 2 - 1)

-- `a >= b`
unfoldable pub at_least : ℤ → ℤ → Bool
at_least (pos m) (pos n) = leb n m
at_least (pos m) (negsuc n) = true
at_least (negsuc m) (pos n) = false
at_least (negsuc m) (negsuc n) = leb m n

pub record QuorumResult : Type 0 where
  pub nodes : ℤ
  pub acks : ℤ
  pub required : ℤ
  pub committed : Bool
  pub term : ℕ
  pub leader : Bytes

unfoldable pub simulate_quorum : ClusterConfig → ℤ → ℤ → QuorumResult
unfolding required_of at_least
simulate_quorum c nodes acks = record {
  nodes = nodes;
  acks = acks;
  required = required_of nodes;
  committed = at_least acks (required_of nodes);
  term = c.term;
  leader = c.leader;
}
