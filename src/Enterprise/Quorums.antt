-- ===== src/Enterprise/Quorums.antt =====
-- `SimulateQuorum` of enterprise.go: what a committed quorum guarantees.
use agidb_on_chain.Base.{
  ℕ, ◌+◌, ◌/◌, ◌≤◌, ◌<◌, ◌≡◌, refl, Bool, true, false, List, [], ◌∷◌, length, arith, ◌&&◌,
  if◌then◌else◌,
}
use agidb_on_chain.Enterprise.Cluster.{ClusterConfig, pos, required_of, at_least, simulate_quorum}

-- which of the nodes acknowledged: a truth value for each
abbrev pub acks_in : List Bool → ℕ
acks_in [] = 0
acks_in (true ∷ bs) = acks_in bs + 1
acks_in (false ∷ bs) = acks_in bs

-- some node acknowledged both
abbrev pub meet : List Bool → List Bool → Bool
meet [] bs = false
meet (a ∷ xs) [] = false
meet (a ∷ xs) (b ∷ bs) = if a && b then true else meet xs bs

meet_of_count :
    (xs ys : List Bool)
    → length xs ≡ length ys
    → length xs < acks_in xs + acks_in ys
    → meet xs ys ≡ true
meet_of_count [] [] e h = absurd (omega (arith, h))
meet_of_count [] (y ∷ ys) e h = absurd (omega (arith, e))
meet_of_count (x ∷ xs) [] e h = absurd (omega (arith, e))
meet_of_count (true ∷ xs) (true ∷ ys) e h = refl
meet_of_count (true ∷ xs) (false ∷ ys) e h =
    meet_of_count xs ys (omega (arith, e)) (omega (arith, h))
meet_of_count (false ∷ xs) (true ∷ ys) e h =
    meet_of_count xs ys (omega (arith, e)) (omega (arith, h))
meet_of_count (false ∷ xs) (false ∷ ys) e h =
    meet_of_count xs ys (omega (arith, e)) (omega (arith, h))

acks_of_committed :
    (c : ClusterConfig) (n k : ℕ)
    → (simulate_quorum c (pos n) (pos k)).committed ≡ true
    → n / 2 + 1 ≤ k
unfolding simulate_quorum required_of at_least
acks_of_committed c n k h = ground (arith, h)

-- Two sets of acknowledging nodes, of the same nodes, that are both reported as committed have a node
-- in common.
pub committed-meet :
    (c d : ClusterConfig) (xs ys : List Bool)
    → length xs ≡ length ys
    → (simulate_quorum c (pos (length xs)) (pos (acks_in xs))).committed ≡ true
    → (simulate_quorum d (pos (length ys)) (pos (acks_in ys))).committed ≡ true
    → meet xs ys ≡ true
committed-meet c d xs ys same h k = meet_of_count xs ys same (
    omega (
      arith,
      same,
      acks_of_committed c (length xs) (acks_in xs) h,
      acks_of_committed d (length ys) (acks_in ys) k,
    ))

-- A cluster of nodes, at least one, commits when all of them acknowledge, and never without an
-- acknowledgement.
pub committed_bounds :
    (c : ClusterConfig) (n : ℕ)
    → 0 < n
    → ((simulate_quorum c (pos n) (pos n)).committed ≡ true)
      × ((simulate_quorum c (pos n) (pos 0)).committed ≡ false)
unfolding simulate_quorum required_of at_least
committed_bounds c n some_node = (ground arith, ground arith)
