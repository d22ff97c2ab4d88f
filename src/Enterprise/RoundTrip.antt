-- ===== src/Enterprise/RoundTrip.antt =====
-- `RestoreBackup` of enterprise.go after `Backup`.
use agidb_on_chain.Base.{
  ◌≡◌, ◌≢◌, refl, ◌∙◌, ap, false, codes, ◌⊎◌, Option, none, some, List, [], ◌∷◌, Bytes, beq,
  beq_iff, length, All, Bool-cases, inl, inr, if◌then◌else◌, arith, beq_of_ne,
}
use agidb_on_chain.Go.Maps.{lookup, keys, contains, contains-keys}
use agidb_on_chain.Go.Strings.{split}
use agidb_on_chain.Go.Sha256.{Sha256}
use agidb_on_chain.Result.{Error, Result, ok, err}
use agidb_on_chain.Enterprise.Files.{Tree, temporary, atomic_write}
use agidb_on_chain.Enterprise.Backups.{
  Gcm, Zip, is_left_out, walked, clean, is_unsafe, bars, is_barred, is_blocked, ends_open,
  moved_onto, restore_entries, encode_backup, decode_backup, backup, unpacked, restore_backup,
}
use agidb_on_chain.Enterprise.Unpacking.{decode_backup-encode_backup}
use agidb_on_chain.Enterprise.Barring.{lookup-written, LetsIn, LetsIn-written}
use agidb_on_chain.Enterprise.Confinement.{restore_next, restore_backup_moves}

-- a list of files as `filepath.Walk` comes to them: the names are clean and safe, each comes once, none
-- is the temporary name of a file behind it, and none bars one behind it
abbrev pub IsWalked : Tree → Type 0
IsWalked [] = Unit
IsWalked ((name, b) ∷ t) =
    (clean name ≡ name)
    × (is_unsafe name ≡ false)
    × (contains (keys t) name ≡ false)
    × All (λ j. beq name (temporary j) ≡ false) (keys t)
    × (beq name (codes ".") ≡ false)
    × All (λ j. bars j name ≡ false) (keys t)
    × IsWalked t

-- no temporary file of these names is there
abbrev HasNone : Tree → List Bytes → Type 0
HasNone r names = All (λ j. lookup r (temporary j) ≡ none) names

abbrev over : Option Bytes → Option Bytes → Option Bytes
over none q = q
over (some v) q = some v

HasNone-written :
    (r : Tree) (name b : Bytes) (names : List Bytes)
    → lookup r (temporary name) ≡ none
    → All (λ j. beq name (temporary j) ≡ false) names
    → HasNone r names
    → HasNone (atomic_write r name b) names
HasNone-written r name b [] free apart a = tt
HasNone-written r name b (j ∷ names) free apart a = (
  lookup-written r name b (temporary j) free ∙ rw apart.0 a.0,
  HasNone-written r name b names free apart.1 a.1,
)

-- the entries of a walk are all restored
record IsRestored (r t t' : Tree) : Type 0 where
  restored : restore_entries r t ≡ ok t'
  files : (k : Bytes) → lookup t' k ≡ over (lookup t k) (lookup r k)

over-entry :
    (r t : Tree) (name b k : Bytes)
    → contains (keys t) name ≡ false
    → over (lookup t k) (if beq name k then some b else lookup r k)
      ≡ over (if beq name k then some b else lookup t k) (lookup r k)
over-entry r t name b k once = elim (Bool-cases (beq name k)) [
  | inl same ↦
      let none_left : lookup t k ≡ none =
        ground (arith, (beq_iff name k).0 same, contains-keys t name) in
      rw (same, none_left) refl
  | inr other ↦ rw other refl
]

restore_entries-IsRestored :
    (r t : Tree)
    → IsWalked t
    → HasNone r (keys t)
    → LetsIn r (keys t)
    → (t' : Tree) × IsRestored r t t'
unfolding restore_entries lookup is_blocked
restore_entries-IsRestored r [] w free lets = (r, record { restored = refl; files = λ k. refl })
restore_entries-IsRestored r ((name, b) ∷ t) (same, safe, once, apart, below, bars_none, rest) free
      lets =
    let next = atomic_write r name b in
    let (t', i) =
      restore_entries-IsRestored next t rest (HasNone-written r name b (keys t) free.0 apart free.1)
        (LetsIn-written r name b (keys t) free.0 bars_none lets.1) in
    let safe' : is_unsafe (clean name) ≡ false = ap is_unsafe same ∙ safe in
    let unbarred : is_barred r name ≡ false = lets.0 in
    let vacant : is_blocked r (clean name) ≡ false =
      ap (is_blocked r) same ∙ rw (is_blocked, below) unbarred in
    (
      t',
      record {
        restored =
            restore_next r name b t safe' vacant
            ∙ ap (λ n. restore_entries (atomic_write r n b) t) same
            ∙ i.restored;
        files = λ k.
            i.files k
            ∙ ap (over (lookup t k)) (lookup-written r name b k free.0)
            ∙ over-entry r t name b k once;
      },
    )

lookup-walked :
    (t : Tree) (k : Bytes) → lookup (walked t) k ≡ (if is_left_out k then none else lookup t k)
unfolding walked lookup
lookup-walked [] k = ground arith
lookup-walked ((name, b) ∷ t) k = elim (Bool-cases (beq name k)) [
  | inl same ↦
      let e : name ≡ k = (beq_iff name k).0 same in
      ground (arith, lookup-walked t k, ap is_left_out e)
  | inr other ↦ ground (arith, lookup-walked t k)
]

nothing_free : (names : List Bytes) → HasNone [] names
unfolding lookup
nothing_free [] = tt
nothing_free (j ∷ names) = (refl, nothing_free names)

nothing_bars : (names : List Bytes) → LetsIn [] names
unfolding is_barred
nothing_bars [] = tt
nothing_bars (j ∷ names) = (refl, nothing_bars names)

over-none : (o : Option Bytes) → over o none ≡ o
over-none none = refl
over-none (some v) = refl

nowhere : (target : Bytes) (there x t : Tree) → moved_onto target (some there) x ≢ ok t
unfolding moved_onto
nowhere target there x t h = cc

-- an error, and no value
abbrev pub IsErr : Result Tree → Type 0
IsErr r = (x : Error) × (r ≡ err x)

IsErr-cases : (r : Result Tree) → IsErr r ⊎ ((t : Tree) × (r ≡ ok t))
IsErr-cases (err x) = inl (x, refl)
IsErr-cases (ok t) = inr (t, refl)

module _ ⦃H : Sha256⦄ ⦃G : Gcm⦄ ⦃Z : Zip⦄ where
  -- the target after a backup was restored into it
  pub record HasRestored (t : Tree) (r : Result Tree) : Type 0 where
    pub target : Tree
    pub restored : r ≡ ok target
    pub files : (k : Bytes) → lookup target k ≡ (if is_left_out k then none else lookup t k)

  restored_nowhere :
      (target payload pass : Bytes) (there t : Tree)
      → restore_backup target (some there) payload pass ≢ ok t
  restored_nowhere target payload pass there t h =
      let (x, moves) = restore_backup_moves target payload pass (some there) t h in
      nowhere target there x t moves

  -- the rename fails at the latest
  restore_there :
      (target payload pass : Bytes) (there : Tree)
      → IsErr (restore_backup target (some there) payload pass)
  unfolding restore_backup
  restore_there target payload pass there =
      elim (IsErr-cases (restore_backup target (some there) payload pass)) [
        | inl failed ↦ failed
        | inr (t, h) ↦ absurd (restored_nowhere target payload pass there t h)
      ]

  restore_reaches :
      (target payload pass raw : Bytes) (t t' : Tree)
      → target ≢ []
      → ends_open (split 47 target) ≡ false
      → decode_backup payload pass ≡ ok raw
      → Z.unpack raw ≡ some t
      → restore_entries [] t ≡ ok t'
      → restore_backup target none payload pass ≡ ok t'
  unfolding restore_backup unpacked moved_onto
  restore_reaches target payload pass raw t t' given closed decoded read all =
      rw (restore_backup, beq_of_ne target [] given)
        (rw decoded (rw (unpacked, read) (rw all (rw closed refl))))

  -- A backup that is restored with its passphrase to a target that is not there restores every file of
  -- the database but the lock and the files below backups/, and no other file; to a target that is
  -- there, be it empty, no backup is restored. The path of the target ends in a name, the salt has 16
  -- bytes and the nonce 12. The files are as `filepath.Walk` comes to them: their names are clean and
  -- lead nowhere else, each comes once, none is the temporary name of a file that comes later, and none
  -- stands in the place of a directory of a later one or lies below it or its temporary name.
  pub restore_backup-HasRestored :
      (salt nonce pass target : Bytes) (t there : Tree)
      → length salt ≡ 16
      → length nonce ≡ 12
      → target ≢ []
      → ends_open (split 47 target) ≡ false
      → IsWalked (walked t)
      → HasRestored t (restore_backup target none (backup salt nonce t pass).0 pass)
        × IsErr (restore_backup target (some there) (backup salt nonce t pass).0 pass)
  unfolding backup lookup
  restore_backup-HasRestored salt nonce pass target t there ls ln given closed w =
      let raw = Z.pack (walked t) in
      let decoded = (decode_backup-encode_backup salt nonce raw pass ls ln).0 in
      let (t', i) =
        restore_entries-IsRestored [] (walked t) w (nothing_free (keys (walked t)))
          (nothing_bars (keys (walked t))) in
      (
        record {
          target = t';
          restored =
              restore_reaches target (encode_backup salt nonce raw pass) pass raw (walked t) t'
                given closed decoded (Z.unpack-pack (walked t)) i.restored;
          files = λ k. i.files k ∙ nothing_below k (lookup (walked t) k) ∙ lookup-walked t k;
        },
        restore_there target _ pass there,
      )
    where
      nothing_below : (k : Bytes) (o : Option Bytes) → over o (lookup {V = Bytes} [] k) ≡ o
      nothing_below k o = over-none o
