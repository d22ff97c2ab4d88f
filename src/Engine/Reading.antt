-- ===== src/Engine/Reading.antt =====
-- The reads of engine.go: `Get`, `GetAt`, `Block` and `StateProof`. A result `(value, ok)` is a pair.
use mathlib.Core.List.{reverse}
use agidb_on_chain.Base.{
  ℕ, ◌-◌, Bool, true, false, ◌||◌, Option, none, List, [], ◌∷◌, Bytes, length, get_elem?, ltb, leb,
  ◌==◌, if◌then◌else◌,
}
use agidb_on_chain.Go.Maps.{lookup, is_some}
use agidb_on_chain.Go.Sha256.{Sha256}
use agidb_on_chain.Model.{Block}
use agidb_on_chain.Merkle.{Proof, state_proof, value_of}
use agidb_on_chain.Engine.{Engine, Version, versions_of, u64}

-- the loop of `GetAt` from the last version back
unfoldable pub scan_back : List Version → ℕ → Bytes × Bool
scan_back [] height = ([], false)
scan_back (v ∷ vs) height =
    let rest = scan_back vs height in
    if leb v.height height then (if v.deleted then ([], false) else (v.value, true)) else rest

module _ {F : Type 0} where
  unfoldable pub get : Engine F → Bytes → Bytes × Bool
  unfolding value_of
  get e key = (value_of e.state key, is_some (lookup e.state key))

  unfoldable pub get_at : Engine F → Bytes → ℕ → Bytes × Bool
  get_at e key height = scan_back (reverse (versions_of e.versions key)) height

  -- `Block`
  unfoldable pub block_at : Engine F → ℕ → Option Block
  block_at e height =
      if height == 0 || ltb (u64 (length e.blocks)) height
      then none
      else get_elem? e.blocks (height - 1)

  unfoldable pub engine_proof : ⦃H : Sha256⦄ → Engine F → Bytes → Proof
  engine_proof e key = state_proof e.state key
