-- ===== src/Cli/Words.antt =====
-- `arg`, `intArg` and `splitCSV` of cli.go, with `strconv.Atoi`.
use agidb_on_chain.Base.{
  ◌^◌, Bool, true, false, Option, none, some, List, [], ◌∷◌, Bytes, beq, ltb, leb, ◌==◌,
  if◌then◌else◌,
}
use agidb_on_chain.Go.Strings.{
  split, trim_space, Parsed, parsed, bad_syntax, out_of_range, parse_uint,
}
use agidb_on_chain.Enterprise.Cluster.{ℤ, pos, negate}

-- the loop of `arg` over the words behind the command's name
unfoldable pub find_arg : List Bytes → Bytes → Bytes → Bytes
find_arg [] name fallback = fallback
find_arg (x ∷ []) name fallback = fallback
find_arg (x ∷ y ∷ rest) name fallback =
    let later = find_arg (y ∷ rest) name fallback in if beq x name then y else later

-- `arg`
unfoldable pub arg : List Bytes → Bytes → Bytes → Bytes
unfolding find_arg
arg [] name fallback = fallback
arg (command ∷ words) name fallback = find_arg words name fallback

-- `int` from a sign and a magnitude, none where it is out of range
abbrev pub signed : Bool → Parsed → Option ℤ
signed negative bad_syntax = none
signed negative out_of_range = none
signed false (parsed n) = if ltb n (2 ^ 63) then some (pos n) else none
signed true (parsed n) = if leb n (2 ^ 63) then some (negate n) else none

-- `strconv.Atoi`
unfoldable pub atoi : Bytes → Option ℤ
atoi [] = none
atoi (c ∷ s) =
    if c == 43
    then signed false (parse_uint s)
    else if c == 45
    then signed true (parse_uint s)
    else signed false (parse_uint (c ∷ s))

abbrev pub or_fallback : ℤ → Option ℤ → ℤ
or_fallback fallback none = fallback
or_fallback fallback (some n) = n

-- `intArg`
unfoldable pub int_arg : List Bytes → Bytes → ℤ → ℤ
unfolding arg atoi
int_arg args name fallback = or_fallback fallback (atoi (arg args name []))

-- the loop of `splitCSV`
unfoldable pub filled_parts : List Bytes → List Bytes
filled_parts [] = []
filled_parts (p ∷ ps) =
    let rest = filled_parts ps in if beq (trim_space p) [] then rest else trim_space p ∷ rest

unfoldable pub split_csv : Bytes → List Bytes
unfolding filled_parts
split_csv s = if beq (trim_space s) [] then [] else filled_parts (split 44 s)
