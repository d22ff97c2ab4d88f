-- ===== src/Go/Strings.antt =====
-- What the program uses of strings, strconv and math/big: `TrimPrefix`, `Split` at one byte, `Contains`,
-- `TrimSpace` and `ToLower` on ASCII, `ParseUint` in base 10, padded decimals, the digits of
-- `SetString`, and `url.PathUnescape`.
use agidb_on_chain.Base.{
  ℕ, zero, suc, ◌+◌, ◌-◌, ◌*◌, ◌/◌, ◌%◌, ◌^◌, Bool, true, false, ◌&&◌, ◌||◌, Option, none, some,
  List, [], ◌∷◌, ◌++◌, Bytes, has_prefix, ltb, leb, ◌==◌, if◌then◌else◌,
}
use mathlib.Core.List.{reverse}

-- `s[n:]`, and all of `s` gone where it is shorter
unfoldable pub cut : Bytes → Bytes → Bytes
cut s [] = s
cut [] (p ∷ ps) = []
cut (c ∷ s) (p ∷ ps) = cut s ps

-- `strings.TrimPrefix(s, p)`
unfoldable pub trim_prefix : Bytes → Bytes → Bytes
unfolding cut
trim_prefix s p = if has_prefix s p then cut s p else s

-- the byte `c` in front of the first part
abbrev pub onto_first : ℕ → List Bytes → List Bytes
onto_first c [] = (c ∷ []) ∷ []
onto_first c (p ∷ ps) = (c ∷ p) ∷ ps

-- `strings.Split(s, sep)`, for a separator of one byte
unfoldable pub split : ℕ → Bytes → List Bytes
split sep [] = [] ∷ []
split sep (c ∷ s) = let rest = split sep s in if c == sep then [] ∷ rest else onto_first c rest

-- a space in ASCII: tab, line feed, vertical tab, form feed, carriage return, blank
abbrev pub is_space : ℕ → Bool
is_space c = (c == 32) || (leb 9 c && leb c 13)

unfoldable pub trim_left : Bytes → Bytes
trim_left [] = []
trim_left (c ∷ s) = let rest = trim_left s in if is_space c then rest else c ∷ s

-- `strings.TrimSpace(s)`
unfoldable pub trim_space : Bytes → Bytes
unfolding trim_left
trim_space s = reverse (trim_left (reverse (trim_left s)))

-- `strings.ToLower(s)`
unfoldable pub to_lower : Bytes → Bytes
to_lower [] = []
to_lower (c ∷ s) = (if leb 65 c && leb c 90 then c + 32 else c) ∷ to_lower s

-- what `strconv.ParseUint(s, 10, 64)` returns: a number, `ErrSyntax` or `ErrRange`
pub data Parsed : Type 0 where
  parsed : ℕ → Parsed
  bad_syntax out_of_range : Parsed

abbrev pub is_digit : ℕ → Bool
is_digit c = leb 48 c && leb c 57

-- the loop over the digits, with the number so far
unfoldable pub parse_digits : ℕ → Bytes → Parsed
parse_digits n [] = parsed n
parse_digits n (c ∷ s) =
    let rest = parse_digits (n * 10 + (c - 48)) s in
    if is_digit c
    then (if leb (2 ^ 64) (n * 10 + (c - 48)) then out_of_range else rest)
    else bad_syntax

unfoldable pub parse_uint : Bytes → Parsed
unfolding parse_digits
parse_uint [] = bad_syntax
parse_uint (c ∷ s) = parse_digits 0 (c ∷ s)

-- the value that is returned beside the error
abbrev pub uint_of : Parsed → ℕ
uint_of (parsed n) = n
uint_of bad_syntax = 0
uint_of out_of_range = 2 ^ 64 - 1

-- is `p` a prefix of an end of `s`? `strings.Contains(s, p)`
unfoldable pub has_infix : Bytes → Bytes → Bool
has_infix [] p = has_prefix [] p
has_infix (c ∷ s) p = has_prefix (c ∷ s) p || has_infix s p

-- `%0kd`, of a number of at most `k` digits
unfoldable pub padded : ℕ → ℕ → Bytes
padded zero n = []
padded (suc k) n = padded k (n / 10) ++ ((48 + n % 10) ∷ [])

-- the value of a digit in a base of at most 16, 16 if it is none
abbrev pub digit_of : ℕ → ℕ
digit_of c =
    if leb 48 c && leb c 57
    then c - 48
    else if leb 97 c && leb c 102
    then c - 87
    else if leb 65 c && leb c 70
    then c - 55
    else 16

-- the loop of `(*big.Int).SetString(s, base)` over the digits
unfoldable pub big_digits : ℕ → ℕ → Bytes → Option ℕ
big_digits base n [] = some n
big_digits base n (c ∷ s) =
    let rest = big_digits base (n * base + digit_of c) s in
    if ltb (digit_of c) base then rest else none

-- the digits behind a sign; there must be one
unfoldable pub big_magnitude : ℕ → Bytes → Option ℕ
unfolding big_digits
big_magnitude base [] = none
big_magnitude base (c ∷ s) = big_digits base 0 (c ∷ s)

abbrev pub prepend : ℕ → Option Bytes → Option Bytes
prepend c none = none
prepend c (some s) = some (c ∷ s)

abbrev pub is_hex : ℕ → Bool
is_hex c = ltb (digit_of c) 16

-- `url.PathUnescape(s)`, none for its error: `%` stands before two hexadecimal digits
unfoldable pub unescape : Bytes → Option Bytes
unescape [] = some []
unescape (c ∷ []) = if c == 37 then none else some (c ∷ [])
unescape (c ∷ a ∷ []) = if (c == 37) || (a == 37) then none else some (c ∷ a ∷ [])
unescape (c ∷ a ∷ b ∷ s) = elim (c == 37) [
  | true ↦ elim (is_hex a && is_hex b) [
    | true ↦ prepend (digit_of a * 16 + digit_of b) (unescape s)
    | false ↦ none
  ]
  | false ↦ prepend c (unescape (a ∷ b ∷ s))
]
