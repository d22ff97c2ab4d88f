-- ===== src/Engine/Snapshots.antt =====
-- `Snapshot` and `VerifySnapshot` of engine.go: a snapshot carries the state with its root and a
-- checksum of its summary.
use agidb_on_chain.Base.{
  ℕ, ◌≡◌, ◌↔◌, refl, sym, subst, ◌∙◌, ap, true, inl, inr, [], Bytes, codes, beq, beq_refl, beq_eq,
  length, Bool-cases,
}
use agidb_on_chain.Go.Maps.{GoMap}
use agidb_on_chain.Go.Json.{JsonText, number, text, object, field, close}
use agidb_on_chain.Go.Sha256.{Sha256}
use agidb_on_chain.Model.{Snapshot}
use agidb_on_chain.Merkle.{hash, state_root}
use agidb_on_chain.Result.{
  Result, ok, ◌>>=◌, ◌>>◌, links_of_ok, ok_injective, require, unsupported_snapshot_format,
  snapshot_root_mismatch, snapshot_checksum_mismatch,
}
use agidb_on_chain.Engine.{Engine, u64, last_hash}
use agidb_on_chain.Engine.Roots.{clone_state}

-- what the engine calls of `storage.Files` for its snapshots; a write returns the path
pub record SnapshotStore (F : Type 0) : Type 0 where
  pub write_snapshot : F → Snapshot → F × Result Bytes
  pub read_snapshot : F → Bytes → Result Snapshot

beq_of_eq : (a b : Bytes) → a ≡ b → beq a b ≡ true
beq_of_eq a b h = ap (beq a) (sym h) ∙ beq_refl a

module _ ⦃H : Sha256⦄ ⦃J : JsonText⦄ where
  -- the digest of the struct that `Snapshot` fills in
  unfoldable pub taken_checksum : Snapshot → GoMap Bytes → Bytes
  taken_checksum s state = hash (
      J.print (
        object (
          field (codes "Height") (number s.height) (
            field (codes "Hash") (text s.latest_hash) (
              field (codes "Root") (text s.state_root)
                (field (codes "Keys") (number (length state)) close))))))

  -- the digest of the struct that `VerifySnapshot` fills in
  unfoldable pub checked_checksum : Snapshot → Bytes
  checked_checksum s = hash (
      J.print (
        object (
          field (codes "Height") (number s.height) (
            field (codes "Hash") (text s.latest_hash) (
              field (codes "Root") (text s.state_root)
                (field (codes "Keys") (number (length s.state)) close))))))

  module _ {F : Type 0} where
    -- the snapshot but for its checksum
    unfoldable pub summarise : ℕ → Engine F → Snapshot
    summarise now e =
        let state = clone_state e.state in
        record {
          format = codes "AGISNAP1";
          created_at = now;
          height = u64 (length e.blocks);
          latest_hash = last_hash e.blocks;
          state_root = state_root state;
          state = state;
          block_count = u64 (length e.blocks);
          tx_count = e.tx_count;
          checksum = [];
        }

    unfoldable pub new_snapshot : ℕ → Engine F → Snapshot
    new_snapshot now e = let s = summarise now e in record s { checksum = taken_checksum s s.state }

  -- the checks of `VerifySnapshot`
  unfoldable pub check_snapshot : Snapshot → Result Snapshot
  check_snapshot s = do
    require (beq s.format (codes "AGISNAP1")) (unsupported_snapshot_format s.format)
    require (beq (state_root s.state) s.state_root) snapshot_root_mismatch
    require (beq (checked_checksum s) s.checksum) snapshot_checksum_mismatch
    ok s

  module _ {F : Type 0} ⦃S : SnapshotStore F⦄ where
    -- the files after it, the path or an error, and the snapshot
    unfoldable pub take_snapshot : ℕ → Engine F → F × (Result Bytes × Snapshot)
    take_snapshot now e =
        let s = new_snapshot now e in let w = S.write_snapshot e.store s in (w.0, (w.1, s))

    unfoldable pub verify_snapshot : Engine F → Bytes → Result Snapshot
    verify_snapshot e path = S.read_snapshot e.store path >>= check_snapshot

module _ ⦃H : Sha256⦄ ⦃J : JsonText⦄ where
  -- the root is that of the state, and the checksum the digest of the height, the hash of the last
  -- block, the root and the number of keys
  pub record IsGenuine (s : Snapshot) : Type 0 where
    pub format : s.format ≡ codes "AGISNAP1"
    pub root : state_root s.state ≡ s.state_root
    pub checksum :
        hash (
          J.print (
            object (
              field (codes "Height") (number s.height) (
                field (codes "Hash") (text s.latest_hash) (
                  field
                    (codes "Root")
                    (text s.state_root)
                    (field (codes "Keys") (number (length s.state)) close))))))
        ≡ s.checksum

  check_snapshot-IsGenuine : (s : Snapshot) → IsGenuine s → check_snapshot s ≡ ok s
  unfolding check_snapshot checked_checksum
  check_snapshot-IsGenuine s g =
      rw (check_snapshot, beq_of_eq _ _ g.format)
        (rw (beq_of_eq _ _ g.root) (rw (beq_of_eq _ _ g.checksum) refl))

  IsGenuine-of : (s t : Snapshot) → check_snapshot s ≡ ok t → IsGenuine s × (s ≡ t)
  unfolding check_snapshot checked_checksum
  IsGenuine-of s t h = elim (Bool-cases (beq s.format (codes "AGISNAP1"))) [
    | inr bad ↦ cc (rw bad at h)
    | inl format ↦ elim (Bool-cases (beq (state_root s.state) s.state_root)) [
      | inr bad ↦ cc (rw bad at (rw format at h))
      | inl root ↦ elim (Bool-cases (beq (checked_checksum s) s.checksum)) [
        | inr bad ↦ cc (rw bad at (rw root at (rw format at h)))
        | inl sum ↦ (
          record { format = beq_eq _ _ format; root = beq_eq _ _ root; checksum = beq_eq _ _ sum },
          ok_injective s t (rw sum at (rw root at (rw format at h))),
        )
      ]
    ]
  ]

  pub new_snapshot-IsGenuine :
      {F : Type 0} (now : ℕ) (e : Engine F) → IsGenuine (new_snapshot now e)
  unfolding new_snapshot summarise taken_checksum
  new_snapshot-IsGenuine now e = record { format = refl; root = refl; checksum = refl }

  module _ {F : Type 0} ⦃S : SnapshotStore F⦄ where
    -- `VerifySnapshot` accepts a path, and returns a snapshot, exactly if the storage reads that snapshot
    -- there, its format is AGISNAP1, its root is that of its state, and its checksum is the digest of
    -- its height, the hash of the last block, its root and the number of its keys.
    pub verify_snapshot_iff :
        (e : Engine F) (path : Bytes) (s : Snapshot)
        → (verify_snapshot e path ≡ ok s) ↔ ((S.read_snapshot e.store path ≡ ok s) × IsGenuine s)
    unfolding verify_snapshot
    verify_snapshot_iff e path s = (accepted, genuine)
      where
        accepted :
            verify_snapshot e path ≡ ok s → (S.read_snapshot e.store path ≡ ok s) × IsGenuine s
        accepted h =
            let (t, read, checked) = links_of_ok (S.read_snapshot e.store path) check_snapshot h in
            let (g, same) = IsGenuine-of t s checked in (read ∙ ap ok same, subst IsGenuine same g)

        genuine :
            (S.read_snapshot e.store path ≡ ok s) × IsGenuine s → verify_snapshot e path ≡ ok s
        genuine (read, g) = ap (λ r. r >>= check_snapshot) read ∙ check_snapshot-IsGenuine s g
