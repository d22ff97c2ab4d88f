-- ===== src/Cli/Arguments.antt =====
-- What `arg` and `splitCSV` of cli.go find.
use agidb_on_chain.Base.{◌≡◌, refl, false, List, [], ◌∷◌, ◌++◌, Bytes, beq, beq_refl, All}
use agidb_on_chain.Cli.Words.{find_arg, arg}

-- the word is not `name`
abbrev pub Differs : Bytes → Bytes → Type 0
Differs name word = beq word name ≡ false

find_arg_behind :
    (before rest : List Bytes) (name value fallback : Bytes)
    → All (Differs name) before
    → find_arg (before ++ (name ∷ value ∷ rest)) name fallback ≡ value
unfolding find_arg
find_arg_behind [] rest name value fallback a = rw (find_arg, beq_refl name) refl
find_arg_behind (x ∷ []) rest name value fallback a = rw (find_arg, a.0) (rw (beq_refl name) refl)
find_arg_behind (x ∷ y ∷ before) rest name value fallback a =
    rw (find_arg, a.0) (find_arg_behind (y ∷ before) rest name value fallback a.1)

find_arg_last :
    (words : List Bytes) (name fallback : Bytes)
    → All (Differs name) words
    → find_arg (words ++ (name ∷ [])) name fallback ≡ fallback
unfolding find_arg
find_arg_last [] name fallback a = refl
find_arg_last (x ∷ []) name fallback a = rw (find_arg, a.0) refl
find_arg_last (x ∷ y ∷ words) name fallback a =
    rw (find_arg, a.0) (find_arg_last (y ∷ words) name fallback a.1)

find_arg_absent :
    (words : List Bytes) (name fallback : Bytes)
    → All (Differs name) words
    → find_arg words name fallback ≡ fallback
unfolding find_arg
find_arg_absent [] name fallback a = refl
find_arg_absent (x ∷ []) name fallback a = refl
find_arg_absent (x ∷ y ∷ words) name fallback a =
    rw (find_arg, a.0) (find_arg_absent (y ∷ words) name fallback a.1)

-- `arg` returns the word behind the first one that is the name, the command's name aside. It returns
-- the fallback where no word is the name, and also where only the last one is: a flag that stands last
-- is not seen, as the flag `--airgap` of `serve`.
pub arg_found :
    (command name value fallback : Bytes) (before rest : List Bytes)
    → All (Differs name) before
    → (arg (command ∷ (before ++ (name ∷ value ∷ rest))) name fallback ≡ value)
      × (arg (command ∷ before) name fallback ≡ fallback)
      × (arg (command ∷ (before ++ (name ∷ []))) name fallback ≡ fallback)
unfolding arg
arg_found command name value fallback before rest a = (
  find_arg_behind before rest name value fallback a,
  find_arg_absent before name fallback a,
  find_arg_last before name fallback a,
)
