-- ===== src/Enterprise/Files.antt =====
-- `atomicWrite` of enterprise.go, on the files below a database directory.
use agidb_on_chain.Base.{
  ◌≡◌, ◌≢◌, refl, sym, subst, none, some, ◌⊎◌, inl, inr, List, [], ◌∷◌, Bytes, take, beq, beq_iff,
  beq_refl, if◌then◌else◌, arith,
}
use agidb_on_chain.Go.Maps.{lookup}
pub use agidb_on_chain.Go.Directory.{Tree, temporary}
use agidb_on_chain.Go.Directory.{
  Call, create, write, sync, close, rename, run, run_all, filled, Crashed, crash_cases, no_calls,
  temporary-ne, lookup-created, lookup-filled, lookup-moved,
}

-- the system calls of `atomicWrite`, but for the directories that it makes
unfoldable pub atomic_calls : Bytes → Bytes → List Call
atomic_calls path b =
    let tmp = temporary path in
    create tmp ∷ write tmp b ∷ sync tmp ∷ close tmp ∷ rename tmp path ∷ []

-- `atomicWrite` where no system call fails
unfoldable pub atomic_write : Tree → Bytes → Bytes → Tree
unfolding run_all atomic_calls
atomic_write t path b = run_all (atomic_calls path b) t

pub lookup-atomic_write :
    (t : Tree) (path b k : Bytes)
    → lookup (atomic_write t path b) k
      ≡ (if beq path k then some b else if beq (temporary path) k then none else lookup t k)
unfolding atomic_write run_all atomic_calls run
lookup-atomic_write t path b k = lookup-moved t (temporary path) path b k

-- the file has its old contents or all of the new ones, and every other file but the temporary one is
-- as it was
pub record IsWhole (t : Tree) (path b : Bytes) (t' : Tree) : Type 0 where
  pub whole : (lookup t' path ≡ lookup t path) ⊎ (lookup t' path ≡ some b)
  pub others : (k : Bytes) → k ≢ path → k ≢ temporary path → lookup t' k ≡ lookup t k

unwritten-IsWhole :
    (t : Tree) (path b c : Bytes) (t' : Tree)
    → ((k : Bytes) → lookup t' k ≡ (if beq (temporary path) k then some c else lookup t k))
    → IsWhole t path b t'
unwritten-IsWhole t path b c t' h = record {
  whole = inl (ground (arith, h path, beq_iff (temporary path) path, temporary-ne path));
  others = λ k other tmp. ground (arith, h k, beq_iff (temporary path) k);
}

atomic_write-IsWhole : (t : Tree) (path b : Bytes) → IsWhole t path b (atomic_write t path b)
atomic_write-IsWhole t path b = record {
  whole = inr (ground (arith, lookup-atomic_write t path b path, beq_refl path));
  others = λ k other tmp.
      ground (arith, lookup-atomic_write t path b k, beq_iff path k, beq_iff (temporary path) k);
}

-- the same contents, by a path
same-IsWhole :
    (t : Tree) (path b : Bytes) (t' t'' : Tree)
    → t'' ≡ t'
    → IsWhole t path b t'
    → IsWhole t path b t''
same-IsWhole t path b t' t'' h w = subst (IsWhole t path b) (sym h) w

-- Wherever a crash stops the system calls of `atomicWrite`, before the first one, behind any of them or in
-- the write, of which some first bytes are then done, the file has its old contents or all of the new
-- ones, and every other file but the temporary one is as it was.
pub Interrupted-IsWhole :
    (t : Tree) (path b : Bytes) (t' : Tree)
    → Crashed (atomic_calls path b) t t'
    → IsWhole t path b t'
unfolding atomic_calls run atomic_write run_all
Interrupted-IsWhole t path b t' h = elim (crash_cases _ _ t t' h) [
  | inl same ↦ same-IsWhole t path b t t' same untouched
  | inr (inl none_of) ↦ absurd none_of
  | inr (inr h₁) ↦ elim (crash_cases _ _ _ t' h₁) [
    | inl same ↦
        same-IsWhole t path b _ t' same (unwritten-IsWhole t path b [] _ (lookup-created t tmp))
    | inr (inl (n, part)) ↦
        same-IsWhole t path b _ t' part
          (unwritten-IsWhole t path b (take n b) _ (lookup-filled t tmp (take n b)))
    | inr (inr h₂) ↦ elim (crash_cases _ _ _ t' h₂) [
      | inl same ↦ same-IsWhole t path b _ t' same written
      | inr (inl none_of) ↦ absurd none_of
      | inr (inr h₃) ↦ elim (crash_cases _ _ _ t' h₃) [
        | inl same ↦ same-IsWhole t path b _ t' same written
        | inr (inl none_of) ↦ absurd none_of
        | inr (inr h₄) ↦ elim (crash_cases _ _ _ t' h₄) [
          | inl same ↦ same-IsWhole t path b _ t' same written
          | inr (inl none_of) ↦ absurd none_of
          | inr (inr h₅) ↦
              same-IsWhole t path b (atomic_write t path b) t' (no_calls _ t' h₅)
                (atomic_write-IsWhole t path b)
        ]
      ]
    ]
  ]
]
  where
    tmp : Bytes
    tmp = temporary path

    untouched : IsWhole t path b t
    untouched = record { whole = inl refl; others = λ k other apart. refl }

    written : IsWhole t path b (filled t tmp b)
    written = unwritten-IsWhole t path b b _ (lookup-filled t tmp b)
