-- ===== src/Go/Decimals.antt =====
-- Decimal numbers: the value of a string of digits, and `strconv.ParseUint` on it.
use agidb_on_chain.Base.{
  ℕ, ◌+◌, ◌-◌, ◌*◌, ◌^◌, ◌≤◌, ◌<◌, ◌≡◌, ◌≢◌, refl, true, [], ◌∷◌, ◌++◌, Bytes, has_prefix, All, leb,
  ◌==◌, ==_iff, if◌then◌else◌, inl, inr, Bool-cases, arith,
}
use agidb_on_chain.Go.Strings.{
  cut, trim_prefix, Parsed, parsed, out_of_range, is_digit, parse_digits, parse_uint,
}

abbrev pub IsDigit : ℕ → Type 0
IsDigit c = (48 ≤ c) × (c ≤ 57)

-- the number that the digits `s` make behind the number `n`
abbrev pub value_behind : ℕ → Bytes → ℕ
value_behind n [] = n
value_behind n (c ∷ s) = value_behind (n * 10 + (c - 48)) s

abbrev pub decimal_value : Bytes → ℕ
decimal_value s = value_behind 0 s

value_behind_mono : (n : ℕ) (s : Bytes) → n ≤ value_behind n s
value_behind_mono n [] = omega arith
value_behind_mono n (c ∷ s) = omega (arith, value_behind_mono (n * 10 + (c - 48)) s)

-- a number below 2^64, or none
abbrev pub in_range : ℕ → Parsed
in_range n = if leb (2 ^ 64) n then out_of_range else parsed n

parse_digits-value_behind :
    (n : ℕ) (s : Bytes)
    → n < 2 ^ 64
    → All IsDigit s
    → parse_digits n s ≡ in_range (value_behind n s)
unfolding parse_digits
parse_digits-value_behind n [] small d = ground arith
parse_digits-value_behind n (c ∷ s) small d =
    let digit : is_digit c ≡ true = ground (arith, d.0) in
    elim (Bool-cases (leb (2 ^ 64) (n * 10 + (c - 48)))) [
      | inl large ↦
          let beyond : leb (2 ^ 64) (value_behind (n * 10 + (c - 48)) s) ≡ true =
            ground (arith, large, value_behind_mono (n * 10 + (c - 48)) s) in
          rw (parse_digits, digit) (rw large (rw beyond refl))
      | inr within ↦
          rw (parse_digits, digit)
            (rw within
              (parse_digits-value_behind (n * 10 + (c - 48)) s (ground (arith, within)) d.1))
    ]

-- On digits, `ParseUint` gives their value, or the error for a number that is out of range.
pub parse_uint-decimal_value :
    (s : Bytes) → s ≢ [] → All IsDigit s → parse_uint s ≡ in_range (decimal_value s)
unfolding parse_uint
parse_uint-decimal_value [] filled d = absurd (filled refl)
parse_uint-decimal_value (c ∷ s) filled d = parse_digits-value_behind 0 (c ∷ s) (omega arith) d

cut-prefix : (p s : Bytes) → cut (p ++ s) p ≡ s
unfolding cut
cut-prefix [] [] = refl
cut-prefix [] (c ∷ s) = refl
cut-prefix (c ∷ p) s = cut-prefix p s

pub has_prefix-prefix : (p s : Bytes) → has_prefix (p ++ s) p ≡ true
unfolding has_prefix
has_prefix-prefix [] [] = refl
has_prefix-prefix [] (c ∷ s) = refl
has_prefix-prefix (c ∷ p) s =
    let same : (c == c) ≡ true = (==_iff c c).1 refl in
    rw (has_prefix, same) (has_prefix-prefix p s)

-- what is behind a prefix
pub trim_prefix-prefix : (p s : Bytes) → trim_prefix (p ++ s) p ≡ s
unfolding trim_prefix
trim_prefix-prefix p s = rw (has_prefix-prefix p s) (cut-prefix p s)
