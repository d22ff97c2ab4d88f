-- ===== src/Enterprise/Confinement.antt =====
-- The files that `RestoreBackup` of enterprise.go restores of an archive of any kind.
use agidb_on_chain.Base.{
  ◌≡◌, refl, sym, ◌∙◌, ap, subst, false, Option, none, some, ◌⊎◌, [], ◌∷◌, Bytes, beq, beq_iff,
  Bool-cases, inl, inr, arith,
}
use agidb_on_chain.Go.Maps.{lookup}
use agidb_on_chain.Go.Strings.{split}
use agidb_on_chain.Go.Sha256.{Sha256}
use agidb_on_chain.Result.{ok, ◌>>=◌, links_of_ok, ok_injective}
use agidb_on_chain.Enterprise.Files.{Tree, atomic_write, lookup-atomic_write}
use agidb_on_chain.Enterprise.Backups.{
  Gcm, Zip, clean, is_unsafe, is_blocked, is_held, ends_open, moved_onto, restore_entries,
  decode_backup, unpacked, restore_backup,
}
use agidb_on_chain.Enterprise.Restoring.{IsInside, clean-IsInside}

pub restore_next :
    (restored : Tree) (name b : Bytes) (entries : Tree)
    → is_unsafe (clean name) ≡ false
    → is_blocked restored (clean name) ≡ false
    → restore_entries restored ((name, b) ∷ entries)
      ≡ restore_entries (atomic_write restored (clean name) b) entries
unfolding restore_entries
restore_next restored name b entries safe vacant = rw (restore_entries, safe) (rw vacant refl)

-- a file that is there after an entry is written is new and inside, or was there before
entry-IsInside :
    (restored : Tree) (path b k c : Bytes)
    → IsInside path
    → lookup (atomic_write restored path b) k ≡ some c
    → IsInside k ⊎ (lookup restored k ≡ some c)
entry-IsInside restored path b k c inside h = elim (Bool-cases (beq path k)) [
  | inl same ↦ inl (subst IsInside ((beq_iff path k).0 same) inside)
  | inr other ↦ inr (ground (arith, lookup-atomic_write restored path b k))
]

restore_entries-IsInside :
    (restored entries t : Tree) (k c : Bytes)
    → restore_entries restored entries ≡ ok t
    → lookup t k ≡ some c
    → IsInside k ⊎ (lookup restored k ≡ some c)
unfolding restore_entries
restore_entries-IsInside restored [] t k c h at =
    inr (ap (λ x. lookup x k) (ok_injective restored t h) ∙ at)
restore_entries-IsInside restored ((name, b) ∷ entries) t k c h at =
    elim (Bool-cases (is_unsafe (clean name))) [
      | inl unsafe ↦ cc (rw unsafe at h)
      | inr safe ↦ elim (Bool-cases (is_blocked restored (clean name))) [
        | inl blocked ↦ cc (rw blocked at (rw safe at h))
        | inr vacant ↦
            let later =
              restore_entries-IsInside (atomic_write restored (clean name) b) entries t k c
                (sym (restore_next restored name b entries safe vacant) ∙ h) at in
            elim later [
              | inl inside ↦ inl inside
              | inr before ↦
                  entry-IsInside restored (clean name) b k c (clean-IsInside name safe) before
            ]
      ]
    ]

moved_onto-inv :
    (target : Bytes) (held : Option Tree) (x t : Tree) → moved_onto target held x ≡ ok t → x ≡ t
unfolding moved_onto
moved_onto-inv target none x t h = elim (Bool-cases (ends_open (split 47 target))) [
  | inl vacant ↦ cc (rw vacant at h)
  | inr closed ↦ ok_injective x t (rw closed at h)
]
moved_onto-inv target (some held) x t h = cc

module _ ⦃H : Sha256⦄ ⦃G : Gcm⦄ ⦃Z : Zip⦄ where
  restore_backup_inv :
      (target payload pass : Bytes) (held : Option Tree) (t : Tree)
      → restore_backup target held payload pass ≡ ok t
      → (entries : Tree) × (written : Tree) × (restore_entries [] entries ≡ ok written)
        × (moved_onto target held written ≡ ok t)
  unfolding restore_backup
  restore_backup_inv target payload pass held t h = elim (Bool-cases (beq target [])) [
    | inl missing ↦ cc (rw missing at h)
    | inr given ↦ elim (Bool-cases (is_held held)) [
      | inl filled ↦ cc (rw filled at (rw given at h))
      | inr free ↦
          let (raw, decoded, rest) =
            links_of_ok (decode_backup payload pass)
              (λ raw. unpacked (Z.unpack raw) >>= λ x.
                restore_entries [] x >>= λ y. moved_onto target held y)
              (rw free at (rw given at h)) in
          let (entries, read, more) =
            links_of_ok (unpacked (Z.unpack raw))
              (λ x. restore_entries [] x >>= λ y. moved_onto target held y) rest in
          let (written, all, last) =
            links_of_ok (restore_entries [] entries) (λ y. moved_onto target held y) more in
          (entries, written, all, last)
    ]
  ]

  pub restore_backup_moves :
      (target payload pass : Bytes) (held : Option Tree) (t : Tree)
      → restore_backup target held payload pass ≡ ok t
      → (written : Tree) × (moved_onto target held written ≡ ok t)
  restore_backup_moves target payload pass held t h =
      let (entries, written, all, last) = restore_backup_inv target payload pass held t h in
      (written, last)

  -- Whatever archive a backup holds, every file that `RestoreBackup` restores has a relative path none of
  -- whose parts is `..`: it lies in the target directory.
  pub restore_backup-IsInside :
      (target payload pass : Bytes) (held : Option Tree) (t : Tree) (k c : Bytes)
      → restore_backup target held payload pass ≡ ok t
      → lookup t k ≡ some c
      → IsInside k
  unfolding lookup
  restore_backup-IsInside target payload pass held t k c h at =
      let (entries, written, all, last) = restore_backup_inv target payload pass held t h in
      let restored = all ∙ ap ok (moved_onto-inv target held written t last) in
      elim (restore_entries-IsInside [] entries t k c restored at) [
        | inl inside ↦ inside
        | inr nothing ↦ cc
      ]
