-- ===== src/Engine/Fields.antt =====
-- `ValidateFieldValue` of engine.go on decimal numbers.
use agidb_on_chain.Base.{
  ℕ, ◌+◌, ◌-◌, ◌*◌, ◌<◌, ◌≡◌, ◌≢◌, ◌↔◌, refl, ap, true, false, none, some, [], ◌∷◌, Bytes, codes,
  has_prefix, All, ltb, ◌==◌, arith,
}
use agidb_on_chain.Go.Strings.{to_lower, digit_of, big_digits, big_magnitude}
use agidb_on_chain.Go.Decimals.{IsDigit, value_behind, decimal_value}
use agidb_on_chain.Engine.Puts.{
  modulus_of, natural_in, field_number, check_element, validate_field_value,
}

digit_of-IsDigit : (c : ℕ) → IsDigit c → digit_of c ≡ c - 48
digit_of-IsDigit c d = ground (arith, d)

big_digits-value_behind :
    (n : ℕ) (s : Bytes) → All IsDigit s → big_digits 10 n s ≡ some (value_behind n s)
unfolding big_digits
big_digits-value_behind n [] d = refl
big_digits-value_behind n (c ∷ s) d =
    let digit : ltb (digit_of c) 10 ≡ true = ground (arith, d.0) in
    rw (big_digits, digit)
      (rw (digit_of-IsDigit c d.0) (big_digits-value_behind (n * 10 + (c - 48)) s d.1))

no_hex_prefix : (s : Bytes) → All IsDigit s → has_prefix s (codes "0x") ≡ false
unfolding has_prefix
no_hex_prefix [] d = refl
no_hex_prefix (c ∷ []) d = ground arith
no_hex_prefix (c ∷ x ∷ s) d = ground (arith, d.1.0)

natural_in-decimal_value :
    (s : Bytes) → s ≢ [] → All IsDigit s → natural_in 10 s ≡ some (decimal_value s)
unfolding natural_in big_magnitude
natural_in-decimal_value [] filled d = absurd (filled refl)
natural_in-decimal_value (c ∷ s) filled d =
    let plus : (c == 43) ≡ false = ground (arith, d.0) in
    let minus : (c == 45) ≡ false = ground (arith, d.0) in
    rw (natural_in, plus) (rw minus (big_digits-value_behind 0 (c ∷ s) d))

field_number-decimal_value :
    (s : Bytes) → s ≢ [] → All IsDigit s → field_number s ≡ some (decimal_value s)
unfolding field_number
field_number-decimal_value s filled d =
    rw (field_number, no_hex_prefix s d) (natural_in-decimal_value s filled d)

check_element_iff : (name : Bytes) (p n : ℕ) → (check_element name p (some n) ≡ none) ↔ (n < p)
unfolding check_element
check_element_iff name p n = ground arith

-- A decimal number is accepted as an element of a field that the engine knows exactly if it is below
-- the modulus of the field.
pub validate_field_value_iff :
    (name value : Bytes) (p : ℕ)
    → modulus_of (to_lower name) ≡ some p
    → value ≢ []
    → All IsDigit value
    → (validate_field_value name value ≡ none) ↔ (decimal_value value < p)
unfolding validate_field_value
validate_field_value_iff name value p known filled d =
    let reached : validate_field_value name value
        ≡ check_element name p (some (decimal_value value)) =
      rw (validate_field_value, known)
        (ap (check_element name p) (field_number-decimal_value value filled d)) in
    rw reached (check_element_iff name p (decimal_value value))
