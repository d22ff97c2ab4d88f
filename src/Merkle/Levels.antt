-- ===== src/Merkle/Levels.antt =====
-- The loops over the levels of a tree, and the position of a sibling.
use Prim.Native.Nat.{bit_xor, digits, differ, bit_xor-bitwise}
use native.Mathlib.Omega.{arith}
use agidb_on_chain.Base.{
  ℕ, zero, suc, ◌+◌, ◌-◌, ◌*◌, ◌/◌, ◌%◌, ◌≤◌, ◌<◌, ◌≡◌, refl, List, [], ◌∷◌, Bytes, length,
  if◌then◌else◌, ◌==◌,
}
use agidb_on_chain.Go.Sha256.{Sha256}
use agidb_on_chain.Merkle.{pair_level, reduce}

module _ ⦃H : Sha256⦄ where
  pub length-pair_level : (hs : List Bytes) → length (pair_level hs) ≡ (length hs + 1) / 2
  unfolding pair_level
  length-pair_level [] = refl
  length-pair_level (a ∷ []) = refl
  length-pair_level (a ∷ b ∷ hs) = omega (arith, length-pair_level hs)

  -- Enough fuel leaves exactly one node.
  pub length-reduce :
      (fuel : ℕ) (hs : List Bytes)
      → 0 < length hs
      → length hs ≤ suc fuel
      → length (reduce fuel hs) ≡ 1
  unfolding reduce
  length-reduce zero hs h b = omega arith
  length-reduce (suc fuel) hs h b =
      ground (arith, length-pair_level hs, length-reduce fuel (pair_level hs))

  -- More fuel than enough changes nothing.
  pub reduce-reduce_fuel :
      (f g : ℕ) (hs : List Bytes)
      → length hs ≤ suc f
      → length hs ≤ suc g
      → reduce f hs ≡ reduce g hs
  unfolding reduce
  reduce-reduce_fuel zero zero hs p q = refl
  reduce-reduce_fuel zero (suc g) hs p q = ground arith
  reduce-reduce_fuel (suc f) zero hs p q = ground arith
  reduce-reduce_fuel (suc f) (suc g) hs p q =
      ground (arith, length-pair_level hs, reduce-reduce_fuel f g (pair_level hs))

-- `pos ^ 1` flips the lowest bit.
abbrev xor_digits : ℕ → ℕ → ℕ → ℕ
xor_digits n a b = digits (λ b. b) differ n a b

xor_digits_fuel : (n m a b : ℕ) → a ≤ n → a ≤ m → xor_digits n a b ≡ xor_digits m a b
xor_digits_fuel zero zero a b p q = refl
xor_digits_fuel zero (suc m) zero b p q = refl
xor_digits_fuel zero (suc m) (suc a) b p q = absurd (omega arith)
xor_digits_fuel (suc n) zero zero b p q = refl
xor_digits_fuel (suc n) zero (suc a) b p q = absurd (omega arith)
xor_digits_fuel (suc n) (suc m) zero b p q = refl
xor_digits_fuel (suc n) (suc m) (suc a) b p q =
    omega (arith, xor_digits_fuel n m (suc a / 2) (b / 2) (omega arith) (omega arith))

xor_step :
    (a b : ℕ) → bit_xor (suc a) b ≡ bit_xor (suc a / 2) (b / 2) * 2 + differ (suc a % 2) (b % 2)
xor_step a b = omega (
  arith,
  bit_xor-bitwise (suc a) b,
  bit_xor-bitwise (suc a / 2) (b / 2),
  xor_digits_fuel a (suc a / 2) (suc a / 2) (b / 2) (omega arith) (omega arith),
)

differ-zero : (x : ℕ) → differ x 0 ≡ x
differ-zero zero = refl
differ-zero (suc x) = refl

differ-one : (x : ℕ) → x < 2 → differ x 1 ≡ 1 - x
differ-one zero h = refl
differ-one (suc zero) h = refl
differ-one (suc (suc x)) h = absurd (omega arith)

bit_xor-zero_fuel : (n a : ℕ) → a ≤ n → bit_xor a 0 ≡ a
bit_xor-zero_fuel n zero h = refl
bit_xor-zero_fuel zero (suc a) h = absurd (omega arith)
bit_xor-zero_fuel (suc n) (suc a) h =
    let half : bit_xor (suc a / 2) 0 ≡ suc a / 2 = bit_xor-zero_fuel n (suc a / 2) (omega arith) in
    let low : differ (suc a % 2) 0 ≡ suc a % 2 = differ-zero (suc a % 2) in
    omega (arith, xor_step a 0)

pub bit_xor-one : (a : ℕ) → bit_xor a 1 ≡ (if a % 2 == 0 then a + 1 else a - 1)
bit_xor-one zero = refl
bit_xor-one (suc a) =
    let half : bit_xor (suc a / 2) 0 ≡ suc a / 2 =
      bit_xor-zero_fuel (suc a / 2) (suc a / 2) (omega arith) in
    let low : differ (suc a % 2) 1 ≡ 1 - suc a % 2 = differ-one (suc a % 2) (omega arith) in
    let step : bit_xor (suc a) 1 ≡ suc a / 2 * 2 + (1 - suc a % 2) = omega (arith, xor_step a 1) in
    ground arith
