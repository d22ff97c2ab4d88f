-- ===== src/Enterprise/Barring.antt =====
-- The files that stand in the way of one that `RestoreBackup` of enterprise.go writes.
use agidb_on_chain.Base.{
  ◌≡◌, refl, sym, ◌∙◌, ap, true, false, beq_refl, none, some, List, [], ◌∷◌, Bytes, beq, beq_iff,
  All, Bool-cases, inl, inr, if◌then◌else◌, arith,
}
use agidb_on_chain.Go.Maps.{lookup, keys, contains, contains-keys, is_some}
use agidb_on_chain.Enterprise.Files.{Tree, temporary, atomic_write, lookup-atomic_write}
use agidb_on_chain.Enterprise.Backups.{bars, is_barred}

pub lookup-written :
    (r : Tree) (name b k : Bytes)
    → lookup r (temporary name) ≡ none
    → lookup (atomic_write r name b) k ≡ (if beq name k then some b else lookup r k)
lookup-written r name b k free = ground (
  arith,
  lookup-atomic_write r name b k,
  beq_iff (temporary name) k,
  ap (lookup r) ((beq_iff (temporary name) k).0 _),
)

-- the files that are there bar none of these names
abbrev pub LetsIn : Tree → List Bytes → Type 0
LetsIn r names = All (λ j. is_barred r j ≡ false) names

-- what bars a path is a file that is there, and each such file does
is_barred-found :
    (t : Tree) (path : Bytes)
    → is_barred t path ≡ true
    → (k : Bytes) × (contains (keys t) k ≡ true) × (bars path k ≡ true)
unfolding is_barred contains
is_barred-found [] path h = cc
is_barred-found ((other, b) ∷ t) path h = elim (Bool-cases (bars path other)) [
  | inl here ↦ (other, ground (arith, beq_refl other), here)
  | inr free ↦
      let (k, there, hit) = is_barred-found t path (ground (arith, h, free)) in
      (k, ground (arith, there), hit)
]

is_barred-of :
    (t : Tree) (path k : Bytes)
    → contains (keys t) k ≡ true
    → bars path k ≡ true
    → is_barred t path ≡ true
unfolding is_barred contains
is_barred-of [] path k there hit = cc
is_barred-of ((other, b) ∷ t) path k there hit = elim (Bool-cases (beq other k)) [
  | inl same ↦
      let here : bars path other ≡ true = ap (bars path) ((beq_iff other k).0 same) ∙ hit in
      ground (arith, here)
  | inr apart ↦
      let later = is_barred-of t path k (ground (arith, there, apart)) hit in ground (arith, later)
]

-- a file that is written bars at most what it bars itself
is_barred-written :
    (r : Tree) (name b path : Bytes)
    → lookup r (temporary name) ≡ none
    → is_barred r path ≡ false
    → bars path name ≡ false
    → is_barred (atomic_write r name b) path ≡ false
is_barred-written r name b path free old new =
    elim (Bool-cases (is_barred (atomic_write r name b) path)) [
      | inr fine ↦ fine
      | inl barred ↦
          let (k, there, hit) = is_barred-found (atomic_write r name b) path barred in
          elim (Bool-cases (beq name k)) [
            | inl same ↦
                let mine : bars path name ≡ true = ap (bars path) ((beq_iff name k).0 same) ∙ hit in
                absurd (ground (arith, mine, new))
            | inr other ↦
                let was : contains (keys r) k ≡ true =
                  contains-keys r k
                  ∙ ap is_some (sym (lookup-written r name b k free ∙ rw other refl))
                  ∙ sym (contains-keys (atomic_write r name b) k)
                  ∙ there in
                absurd (ground (arith, is_barred-of r path k was hit, old))
          ]
    ]

pub LetsIn-written :
    (r : Tree) (name b : Bytes) (names : List Bytes)
    → lookup r (temporary name) ≡ none
    → All (λ j. bars j name ≡ false) names
    → LetsIn r names
    → LetsIn (atomic_write r name b) names
LetsIn-written r name b [] free apart a = tt
LetsIn-written r name b (j ∷ names) free apart a =
    (is_barred-written r name b j free a.0 apart.0, LetsIn-written r name b names free apart.1 a.1)
