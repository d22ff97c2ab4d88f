-- ===== src/Enterprise/Elections.antt =====
-- `ElectLeader` and `InitCluster` of enterprise.go: who is elected, and on what nodes agree.
use agidb_on_chain.Base.{
  ℕ, ◌+◌, ◌%◌, ◌^◌, ◌≡◌, refl, sym, ◌∙◌, ap, some, List, [], ◌∷◌, Bytes, beq_refl, arith, take,
  length, ◌/◌,
}
use agidb_on_chain.Go.Maps.{contains, lookup, Distinct}
use agidb_on_chain.Go.Hex.{encode_to_string}
use agidb_on_chain.Go.Sha256.{Sha256}
use agidb_on_chain.Go.Sort.{
  sort_strings, sort_strings-IsAscending, contains-sort_strings, IsAscending-unique,
}
use agidb_on_chain.Go.Sort.Least.{
  length-sort_strings, first_of, IsLeast, sort_strings-IsLeast, IsLeast-unique,
}
use agidb_on_chain.Result.{ok}
use agidb_on_chain.Enterprise.Files.{Tree, atomic_write, lookup-atomic_write}
use agidb_on_chain.Enterprise.Policies.{JsonOf}
use agidb_on_chain.Enterprise.Cluster.{
  ClusterConfig, config_path, join, cluster_id_of, new_cluster, elected, candidates_or_all,
  parse_config, read_cluster, elect, elect_leader,
}

candidates-IsLeast :
    (c : ClusterConfig) (candidates : List Bytes)
    → IsLeast
        (first_of (sort_strings (candidates_or_all c candidates)))
        (candidates_or_all c candidates)
candidates-IsLeast c [] = sort_strings-IsLeast c.node_id c.peers
candidates-IsLeast c (k ∷ ks) = sort_strings-IsLeast k ks

module _ ⦃J : JsonOf ClusterConfig⦄ where
  written_config :
      (t : Tree) (c : ClusterConfig)
      → J.IsText c
      → read_cluster (atomic_write t config_path (J.print c)) ≡ ok c
  unfolding read_cluster parse_config
  written_config t c text =
      let written : lookup (atomic_write t config_path (J.print c)) config_path ≡ some (J.print c) =
        lookup-atomic_write t config_path (J.print c) config_path
        ∙ ground (arith, beq_refl config_path) in
      ap parse_config written ∙ rw (parse_config, J.parse-print c text) refl

  elect_leader_read :
      (now : ℕ) (t : Tree) (candidates : List Bytes) (c : ClusterConfig)
      → read_cluster t ≡ ok c
      → elect_leader now t candidates ≡ elect now t candidates (ok c)
  unfolding elect_leader
  elect_leader_read now t candidates c h = ap (elect now t candidates) h

  -- the election of a term
  pub record IsElected (c : ClusterConfig) (candidates : List Bytes) (t' : Tree)
      (c' : ClusterConfig) : Type 0 where
    pub least : IsLeast c'.leader (candidates_or_all c candidates)
    pub next_term : c'.term ≡ (c.term + 1) % 2 ^ 64
    pub same_quorum : c'.quorum ≡ c.quorum
    pub stored : read_cluster t' ≡ ok c'

  -- An election over a configuration that can be read returns the configuration of the next term: its
  -- leader is the least of the candidates, or of all the nodes where no candidate is named, the quorum
  -- is as it was, and the configuration is the one that is read afterwards. What is elected must be
  -- text that JSON gives back as it is, which needs its strings to be valid UTF-8.
  pub elect_leader-IsElected :
      (now : ℕ) (t : Tree) (candidates : List Bytes) (c : ClusterConfig)
      → read_cluster t ≡ ok c
      → J.IsText (elected now c (candidates_or_all c candidates))
      → (t' : Tree) × (c' : ClusterConfig) × (elect_leader now t candidates ≡ (t', ok c'))
        × IsElected c candidates t' c'
  unfolding elect elected
  elect_leader-IsElected now t candidates c h text =
      let c' = elected now c (candidates_or_all c candidates) in
      (
        atomic_write t config_path (J.print c'),
        c',
        elect_leader_read now t candidates c h,
        record {
          least = candidates-IsLeast c candidates;
          next_term = refl;
          same_quorum = refl;
          stored = written_config t c' text;
        },
      )

  -- Two nodes that elect from lists with the same candidates, in whatever order and however often
  -- named, elect the same leader.
  pub elect_leader_agree :
      (now later : ℕ) (c d : ClusterConfig) (ks js : List Bytes)
      → ((i : Bytes) → contains (candidates_or_all c ks) i ≡ contains (candidates_or_all d js) i)
      → (elected now c (candidates_or_all c ks)).leader
        ≡ (elected later d (candidates_or_all d js)).leader
  unfolding elected
  elect_leader_agree now later c d ks js same =
      IsLeast-unique _ _ (candidates_or_all c ks) (candidates_or_all d js) same
        (candidates-IsLeast c ks) (candidates-IsLeast d js)

module _ ⦃H : Sha256⦄ where
  -- The nodes of a cluster without repetitions compute one cluster id and one quorum: neither depends
  -- on which of the nodes is the own one, nor on the order of the others.
  pub cluster_id_agree :
      (now later : ℕ) (n m : Bytes) (ns ms : List Bytes)
      → Distinct (n ∷ ns)
      → Distinct (m ∷ ms)
      → ((i : Bytes) → contains (n ∷ ns) i ≡ contains (m ∷ ms) i)
      → ((new_cluster now n ns).cluster_id ≡ (new_cluster later m ms).cluster_id)
        × ((new_cluster now n ns).quorum ≡ (new_cluster later m ms).quorum)
  unfolding new_cluster cluster_id_of
  cluster_id_agree now later n m ns ms dn dm same =
      let sorted : sort_strings (n ∷ ns) ≡ sort_strings (m ∷ ms) =
        IsAscending-unique _ _ (sort_strings-IsAscending (n ∷ ns) dn)
          (sort_strings-IsAscending (m ∷ ms) dm)
          λ i. contains-sort_strings (n ∷ ns) i ∙ same i ∙ sym (contains-sort_strings (m ∷ ms) i) in
      let size : length (n ∷ ns) ≡ length (m ∷ ms) =
        sym (length-sort_strings (n ∷ ns)) ∙ ap length sorted ∙ length-sort_strings (m ∷ ms) in
      (ap (λ l. encode_to_string (take 8 (H.sum256 (join l)))) sorted, ap (λ k. k / 2 + 1) size)
