-- ===== src/Parse/Numbers.antt =====
-- `to_integral` of include/libsdb/parse.hpp on the texts of numbers.
use sdb_building_a_debugger.Base.{
  ℕ, zero, suc, ◌-◌, ◌/◌, ◌%◌, ◌^◌, ◌<◌, ◌≡◌, refl, sym, ap, ◌∙◌, arith, true, List, [], ◌∷◌, ◌++◌,
  ltb, leb, if◌then◌else◌, inl, inr, append_assoc, pos,
}
use mathlib.Core.List.{append-nil}
use sdb_building_a_debugger.Parse.{
  any_digit, digit, scan, starts_with_digit, from_chars_unsigned, from_chars_signed,
  from_chars_positive, from_chars_negative, finish, skip_prefix, value, indeterminate, to_integral,
  to_signed, negated,
}
use sdb_building_a_debugger.Parse.Digits.{
  digit_char, number_text, IsBase, digit-char, halves, shorter, scan-number_text,
}

-- The text begins with a digit.
pub digit_first :
    (base k n : ℕ) (rest : List ℕ)
    → IsBase base
    → n < base ^ suc k
    → starts_with_digit base (number_text base (suc k) n ++ rest) ≡ true
unfolding starts_with_digit
digit_first base zero n rest b h =
    let (w, small) = halves base n b in ground (arith, digit-char base (n % base) b)
digit_first base (suc k) n rest b h =
    ap (starts_with_digit base)
      (append_assoc (number_text base (suc k) (n / base)) (digit_char (n % base) ∷ []) rest)
    ∙ digit_first base k (n / base) (digit_char (n % base) ∷ rest) b (shorter base (suc k) n b h)

decimal_prefix : (text : List ℕ) → skip_prefix 10 text ≡ text
unfolding skip_prefix
decimal_prefix [] = refl
decimal_prefix (a ∷ []) = refl
decimal_prefix (a ∷ b ∷ cs) = refl

-- What `std::from_chars` makes of a whole number.
whole_number :
    (bits base k n : ℕ)
    → IsBase base
    → n < base ^ suc k
    → finish (from_chars_unsigned bits base (number_text base (suc k) n))
      ≡ (if ltb n (2 ^ bits) then value n else indeterminate)
unfolding from_chars_unsigned finish
whole_number bits base k n b h =
    let all = append-nil (number_text base (suc k) n) in
    let read = ap (scan base 0) (sym all) ∙ (scan-number_text base (suc k) n [] b h) in
    let begins = ap (starts_with_digit base) (sym all) ∙ digit_first base k n [] b h in
    rw (read, begins, scan) (ground arith)

-- `to_integral` at an unsigned type, on the decimal digits of a number, and behind 0x on its
-- hexadecimal digits: the number where it fits into the type, and otherwise a variable with no value,
-- since `result.ec` is not looked at.
pub to_integral-number_text :
    (bits k n j m : ℕ)
    → n < 10 ^ suc k
    → m < 16 ^ suc j
    → (to_integral bits 10 (number_text 10 (suc k) n)
        ≡ (if ltb n (2 ^ bits) then value n else indeterminate))
      × (to_integral bits 16 (b'0' ∷ b'x' ∷ number_text 16 (suc j) m)
          ≡ (if ltb m (2 ^ bits) then value m else indeterminate))
unfolding to_integral
to_integral-number_text bits k n j m h g = (
  ap (λ (t : List ℕ). finish (from_chars_unsigned bits 10 t))
        (decimal_prefix (number_text 10 (suc k) n))
      ∙ whole_number bits 10 k n (inl refl) h,
  whole_number bits 16 j m (inr refl) g,
)

unsigned_text :
    (bits base : ℕ) (text : List ℕ)
    → IsBase base
    → starts_with_digit base text ≡ true
    → from_chars_signed bits base text ≡ from_chars_positive bits base text
unfolding from_chars_signed starts_with_digit digit any_digit
unsigned_text bits base [] b h = refl
unsigned_text bits base (c ∷ cs) (inl e) h = ground arith
unsigned_text bits base (c ∷ cs) (inr e) h = ground arith

-- `to_integral` at a signed type, on the decimal digits of a number, with a minus sign and without:
-- the number where it fits into the type, and otherwise a variable with no value.
pub to_signed-number_text :
    (bits k n : ℕ)
    → n < 10 ^ suc k
    → (to_signed bits 10 (number_text 10 (suc k) n)
        ≡ (if ltb n (2 ^ (bits - 1)) then value (pos n) else indeterminate))
      × (to_signed bits 10 (b'-' ∷ number_text 10 (suc k) n)
          ≡ (if leb n (2 ^ (bits - 1)) then value (negated n) else indeterminate))
unfolding to_signed finish from_chars_signed from_chars_negative from_chars_positive
to_signed-number_text bits k n h =
    let all = append-nil (number_text 10 (suc k) n) in
    let begins = ap (starts_with_digit 10) (sym all) ∙ digit_first 10 k n [] (inl refl) h in
    let read = ap (scan 10 0) (sym all) ∙ scan-number_text 10 (suc k) n [] (inl refl) h in
    (
      ap (λ (t : List ℕ). finish (from_chars_signed bits 10 t))
            (decimal_prefix (number_text 10 (suc k) n))
          ∙ (ap finish (unsigned_text bits 10 (number_text 10 (suc k) n) (inl refl) begins)
              ∙ rw (read, begins, scan) (ground arith)),
      ap (λ (t : List ℕ). finish (from_chars_signed bits 10 t))
            (decimal_prefix (b'-' ∷ number_text 10 (suc k) n))
          ∙ rw (read, begins, scan) (ground arith),
    )

-- A value that `to_integral` returns fits into its type, whatever the text and the base.
pub to_integral_bounds :
    (bits base v : ℕ) (text : List ℕ) → to_integral bits base text ≡ value v → v < 2 ^ bits
unfolding to_integral from_chars_unsigned finish
to_integral_bounds bits base v text h = ground arith
