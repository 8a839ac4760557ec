-- ===== src/Base/Bits.antt =====
-- The laws of `&` and `|` at variables: digit by digit, and for fields that do not overlap.
use Prim.Native.Nat.{
  ℕ, zero, suc, ◌+◌, ◌-◌, ◌*◌, ◌/◌, ◌%◌, ◌^◌, ◌≤◌, ◌<◌, min, max, bit_and, bit_or, digits, bitwise,
  bit_and-bitwise, bit_or-bitwise,
}
use mathlib.Core.Path.{◌≡◌, refl, ap, subst}
use mathlib.Core.Bool.{Bool, true, ◌&&◌}
use native.Mathlib.Nat.{pow-suc, one-le-pow}
use native.Mathlib.Numerals.{unary_clauses}
use native.Mathlib.Omega.{arith}

-- `bitwise` recurs on the digits of its first argument with that argument as fuel.
module _ (rest : ℕ → ℕ) (digit : ℕ → ℕ → ℕ) where
  spare_fuel :
      (fuel spare x y : ℕ)
      → x ≤ fuel
      → digits rest digit (fuel + spare) x y ≡ digits rest digit fuel x y
  spare_fuel zero zero zero y h = refl
  spare_fuel zero (suc spare) zero y h = simp unary_clauses refl
  spare_fuel zero spare (suc x) y h = absurd (omega arith)
  spare_fuel (suc fuel) spare zero y h =
      let shift : suc fuel + spare ≡ suc (fuel + spare) = omega arith in rw shift refl
  spare_fuel (suc fuel) spare (suc x) y h =
      let shift : suc fuel + spare ≡ suc (fuel + spare) = omega arith in
      let halves = spare_fuel fuel spare (suc x / 2) (y / 2) (omega arith) in
      rw shift (ap (λ n. n * 2 + digit (suc x % 2) (y % 2)) halves)

  half_fuel :
      (x y : ℕ) → digits rest digit x (suc x / 2) y ≡ digits rest digit (suc x / 2) (suc x / 2) y
  half_fuel x y =
      let parts : suc x / 2 + (x - suc x / 2) ≡ x = omega arith in
      subst (λ n. digits rest digit n (suc x / 2) y ≡ digits rest digit (suc x / 2) (suc x / 2) y)
        parts (spare_fuel (suc x / 2) (x - suc x / 2) (suc x / 2) y (omega arith))

  module _ (at_end : (y : ℕ) → rest y ≡ rest (y / 2) * 2 + digit 0 (y % 2)) where
    one_digit :
        (x y : ℕ)
        → bitwise rest digit x y ≡ bitwise rest digit (x / 2) (y / 2) * 2 + digit (x % 2) (y % 2)
    one_digit zero y = at_end y
    one_digit (suc x) y = ap (λ n. n * 2 + digit (suc x % 2) (y % 2)) (half_fuel x (y / 2))

bit_or_step : (a b : ℕ) → bit_or a b ≡ bit_or (a / 2) (b / 2) * 2 + max (a % 2) (b % 2)
bit_or_step a b = omega (
  arith,
  one_digit (λ y. y) max (λ y. omega arith) a b,
  bit_or-bitwise a b,
  bit_or-bitwise (a / 2) (b / 2),
)

bit_and_step : (a b : ℕ) → bit_and a b ≡ bit_and (a / 2) (b / 2) * 2 + min (a % 2) (b % 2)
bit_and_step a b = omega (
  arith,
  one_digit (λ y. 0) min (λ y. omega arith) a b,
  bit_and-bitwise a b,
  bit_and-bitwise (a / 2) (b / 2),
)

-- Bit `j` of a number.
abbrev pub bit_at : ℕ → ℕ → ℕ
bit_at x zero = x % 2
bit_at x (suc j) = bit_at (x / 2) j

pub bit_at-and : (a b j : ℕ) → bit_at (bit_and a b) j ≡ min (bit_at a j) (bit_at b j)
bit_at-and a b zero = omega (arith, bit_and_step a b)
bit_at-and a b (suc j) =
    let halves : bit_and a b / 2 ≡ bit_and (a / 2) (b / 2) = omega (arith, bit_and_step a b) in
    rw halves (bit_at-and (a / 2) (b / 2) j)

pub bit_at-or : (a b j : ℕ) → bit_at (bit_or a b) j ≡ max (bit_at a j) (bit_at b j)
bit_at-or a b zero = omega (arith, bit_or_step a b)
bit_at-or a b (suc j) =
    let halves : bit_or a b / 2 ≡ bit_or (a / 2) (b / 2) = omega (arith, bit_or_step a b) in
    rw halves (bit_at-or (a / 2) (b / 2) j)

pub bit_at-lt : (x j : ℕ) → bit_at x j < 2
bit_at-lt x zero = omega arith
bit_at-lt x (suc j) = bit_at-lt (x / 2) j

pub bit_and-zero : (a : ℕ) → bit_and a 0 ≡ 0
bit_and-zero a = below (suc a) a (omega arith)
  where
    below : (bound x : ℕ) → x < bound → bit_and x 0 ≡ 0
    below zero x h = absurd (omega arith)
    below (suc bound) zero h = refl
    below (suc bound) (suc x) h =
        omega (arith, below bound (suc x / 2) (omega arith), bit_and_step (suc x) 0)

double_pow : (q k : ℕ) → q * 2 ^ suc k ≡ 2 * (q * 2 ^ k)
double_pow q k = omega (arith, ap (λ (t : ℕ). q * t) (pow-suc 2 k))

bit_and_low : (k q r : ℕ) → r < 2 ^ k → bit_and (q * 2 ^ k + r) (2 ^ k - 1) ≡ r
bit_and_low zero q r h = rw bit_and-zero (omega arith)
bit_and_low (suc k) q r h = ground (
  arith,
  bit_and_step (q * 2 ^ suc k + r) (2 ^ suc k - 1),
  double_pow q k,
  pow-suc 2 k,
  bit_and_low k q (r / 2) (omega arith),
)

-- A mask of `k` low bits is the remainder by `2 ^ k`.
pub bit_and_mask : (k a : ℕ) → bit_and a (2 ^ k - 1) ≡ a % 2 ^ k
bit_and_mask k a = ground (arith, one-le-pow k 2, bit_and_low k (a / 2 ^ k) (a % 2 ^ k))

-- `&` and `|` of numbers that are split at bit `k`.
pub bit_and_split :
    (k a r b s : ℕ)
    → r < 2 ^ k
    → s < 2 ^ k
    → bit_and (a * 2 ^ k + r) (b * 2 ^ k + s) ≡ bit_and a b * 2 ^ k + bit_and r s
bit_and_split zero a r b s h g =
    let r0 : r ≡ 0 = omega arith in
    let s0 : s ≡ 0 = omega arith in rw (r0, s0) (ground (arith, bit_and-zero 0))
bit_and_split (suc k) a r b s h g = ground (
  arith,
  bit_and_step (a * 2 ^ suc k + r) (b * 2 ^ suc k + s),
  bit_and_step r s,
  double_pow a k,
  double_pow b k,
  double_pow (bit_and a b) k,
  pow-suc 2 k,
  bit_and_split k a (r / 2) b (s / 2) (omega arith) (omega arith),
)

bit_or-zero : (a : ℕ) → bit_or a 0 ≡ a
bit_or-zero a = bit_or-zero_fuel a a (omega arith)
  where
    bit_or-zero_fuel : (n m : ℕ) → m ≤ n → bit_or m 0 ≡ m
    bit_or-zero_fuel n zero h = refl
    bit_or-zero_fuel zero (suc m) h = absurd (omega arith)
    bit_or-zero_fuel (suc n) (suc m) h =
        omega (arith, bit_or_step (suc m) 0, bit_or-zero_fuel n (suc m / 2) (omega arith))

-- `(q << k) | r` is a sum when `r` fits `k` bits.
pub bit_or_sum : (k q r : ℕ) → r < 2 ^ k → bit_or (q * 2 ^ k) r ≡ q * 2 ^ k + r
bit_or_sum zero q r h = ground (arith, bit_or-zero q)
bit_or_sum (suc k) q r h = ground (
  arith,
  bit_or_step (q * 2 ^ suc k) r,
  double_pow q k,
  pow-suc 2 k,
  bit_or_sum k q (r / 2) (omega arith),
)

-- A check of every number below a bound by evaluation.
unfoldable pub all_below : ℕ → (ℕ → Bool) → Bool
all_below zero test = true
all_below (suc bound) test = all_below bound test && test bound

pub all_below_sound :
    (bound : ℕ) (test : ℕ → Bool) (i : ℕ) → all_below bound test ≡ true → i < bound → test i ≡ true
unfolding all_below
all_below_sound zero test i every inside = absurd (omega arith)
all_below_sound (suc bound) test i every inside = ground (arith, all_below_sound bound test i)
