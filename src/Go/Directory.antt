-- ===== src/Go/Directory.antt =====
-- A directory with the files below it, by their paths from it, and the system calls that write one file.
-- A crash stops the program between two calls, or in a write of which some first bytes are done.
use agidb_on_chain.Base.{
  ℕ, ◌≡◌, ◌≢◌, refl, ◌∙◌, ap, none, some, ◌⊎◌, inl, inr, List, [], ◌∷◌, ◌++◌, Bytes, codes, take,
  beq, beq_refl, if◌then◌else◌, arith,
}
use agidb_on_chain.Go.Maps.{GoMap, lookup, insert, remove, lookup-insert, lookup-remove}

abbrev pub Tree : Type 0
Tree = GoMap Bytes

-- `os.OpenFile` with `O_CREATE|O_TRUNC`, `Write` at the end of a file, `Sync`, `Close`, `os.Rename`
pub data Call : Type 0 where
  create : Bytes → Call
  write : Bytes → Bytes → Call
  sync close : Bytes → Call
  rename : Bytes → Bytes → Call

-- the bytes of a file, none if it is not there
unfoldable pub content : Tree → Bytes → Bytes
content t path = elim (lookup t path) [ none ↦ [] | some b ↦ b ]

unfoldable pub moved : Tree → Bytes → Bytes → Tree
moved t from onto = elim (lookup t from) [ none ↦ t | some b ↦ insert (remove t from) onto b ]

unfoldable pub run : Call → Tree → Tree
unfolding content moved
run (create path) t = insert t path []
run (write path b) t = insert t path (content t path ++ b)
run (sync path) t = t
run (close path) t = t
run (rename from onto) t = moved t from onto

unfoldable pub run_all : List Call → Tree → Tree
unfolding run
run_all [] t = t
run_all (c ∷ cs) t = run_all cs (run c t)

-- the files that a crash leaves of a sequence of calls
pub data Crashed : List Call → Tree → Tree → Type 0 where
  before : (cs : List Call) (t : Tree) → Crashed cs t t
  partly :
      (path b : Bytes) (cs : List Call) (t : Tree) (n : ℕ)
      → Crashed (write path b ∷ cs) t (run (write path (take n b)) t)
  later :
      (c : Call) (cs : List Call) (t t' : Tree) → Crashed cs (run c t) t' → Crashed (c ∷ cs) t t'

-- the first bytes of a write
abbrev pub IsPart : Call → Tree → Tree → Type 0
IsPart (write path b) t t' = (n : ℕ) × (t' ≡ run (write path (take n b)) t)
IsPart (create path) t t' = ⊥
IsPart (sync path) t t' = ⊥
IsPart (close path) t t' = ⊥
IsPart (rename from onto) t t' = ⊥

-- a crash comes before the first call, in it, or later
pub crash_cases :
    (c : Call) (cs : List Call) (t t' : Tree)
    → Crashed (c ∷ cs) t t'
    → (t' ≡ t) ⊎ (IsPart c t t' ⊎ Crashed cs (run c t) t')
crash_cases c cs t t' (before _ _) = inl refl
crash_cases c cs t t' (partly path b _ _ n) = inr (inl (n, refl))
crash_cases c cs t t' (later _ _ _ _ h) = inr (inr h)

pub no_calls : (t t' : Tree) → Crashed [] t t' → t' ≡ t
no_calls t t' (before _ _) = refl

-- `path + ".tmp"`
abbrev pub temporary : Bytes → Bytes
temporary path = path ++ codes ".tmp"

longer-ne : (p q : Bytes) (c : ℕ) → p ≢ p ++ (c ∷ q)
longer-ne [] q c h = cc
longer-ne (x ∷ p) q c h = longer-ne p q c (tail_of h)
  where
    tail_of : x ∷ p ≡ x ∷ (p ++ (c ∷ q)) → p ≡ p ++ (c ∷ q)
    tail_of h = cc

pub temporary-ne : (path : Bytes) → path ≢ temporary path
temporary-ne path h = longer-ne path (codes "tmp") 46 h

-- a file that is created and written, then moved
abbrev pub filled : Tree → Bytes → Bytes → Tree
filled t tmp b = run (write tmp b) (run (create tmp) t)

pub lookup-created :
    (t : Tree) (tmp k : Bytes)
    → lookup (run (create tmp) t) k ≡ (if beq tmp k then some [] else lookup t k)
unfolding run
lookup-created t tmp k = lookup-insert t tmp [] k

pub lookup-filled :
    (t : Tree) (tmp b k : Bytes)
    → lookup (filled t tmp b) k ≡ (if beq tmp k then some b else lookup t k)
unfolding run content
lookup-filled t tmp b k =
    let empty : lookup (insert t tmp []) tmp ≡ some [] =
      lookup-insert t tmp [] tmp ∙ ap (λ h. if h then some [] else lookup t tmp) (beq_refl tmp) in
    let nothing_yet : content (insert t tmp []) tmp ≡ [] = rw (content, empty) refl in
    let written : run (write tmp b) (run (create tmp) t) ≡ insert (insert t tmp []) tmp b =
      ap (λ c. insert (insert t tmp []) tmp (c ++ b)) nothing_yet in
    ap (λ m. lookup m k) written
    ∙ ground (arith, lookup-insert (insert t tmp []) tmp b k, lookup-insert t tmp [] k)

pub lookup-moved :
    (t : Tree) (tmp path b k : Bytes)
    → lookup (moved (filled t tmp b) tmp path) k
      ≡ (if beq path k then some b else if beq tmp k then none else lookup t k)
unfolding moved
lookup-moved t tmp path b k =
    let there : lookup (filled t tmp b) tmp ≡ some b =
      lookup-filled t tmp b tmp ∙ ap (λ h. if h then some b else lookup t tmp) (beq_refl tmp) in
    let moves : moved (filled t tmp b) tmp path ≡ insert (remove (filled t tmp b) tmp) path b =
      rw (moved, there) refl in
    ap (λ m. lookup m k) moves
    ∙ ground (
      arith,
      lookup-insert (remove (filled t tmp b) tmp) path b k,
      lookup-remove (filled t tmp b) tmp k,
      lookup-filled t tmp b k,
    )
