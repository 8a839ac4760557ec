-- ===== src/Parse/Digits.antt =====
-- Numbers as texts, and `std::from_chars` on them.
use sdb_building_a_debugger.Base.{
  ℕ, zero, suc, ◌+◌, ◌-◌, ◌*◌, ◌/◌, ◌%◌, ◌^◌, ◌<◌, ◌≡◌, refl, ap, ◌∙◌, arith, List, [], ◌∷◌, ◌++◌,
  some, ltb, if◌then◌else◌, pow-zero, pow-suc, ◌⊎◌, inl, inr, append_assoc,
}
use sdb_building_a_debugger.Parse.{any_digit, digit, scan}

-- The character of a digit, and a number as `k` digits, the highest first.
abbrev pub digit_char : ℕ → ℕ
digit_char d = if ltb d 10 then b'0' + d else b'a' + (d - 10)

abbrev pub number_text : ℕ → ℕ → ℕ → List ℕ
number_text base zero n = []
number_text base (suc k) n = number_text base k (n / base) ++ digit_char (n % base) ∷ []

abbrev pub IsBase : ℕ → Type 0
IsBase base = (base ≡ 10) ⊎ (base ≡ 16)

pub digit-char : (base d : ℕ) → IsBase base → d < base → digit base (digit_char d) ≡ some d
unfolding digit any_digit
digit-char base d (inl e) h = ground arith
digit-char base d (inr e) h = ground arith

pub halves : (base n : ℕ) → IsBase base → (n / base * base + n % base ≡ n) × (n % base < base)
halves base n (inl e) = rw e (omega arith)
halves base n (inr e) = rw e (omega arith)

pub shorter : (base k n : ℕ) → IsBase base → n < base ^ suc k → n / base < base ^ k
shorter base k n (inl e) h = rw e (omega (arith, pow-suc 10 k, rw e at h))
shorter base k n (inr e) h = rw e (omega (arith, pow-suc 16 k, rw e at h))

-- The digits of a number are read as the number, and what stands behind them is read next.
pub scan-number_text :
    (base k n : ℕ) (rest : List ℕ)
    → IsBase base
    → n < base ^ k
    → scan base 0 (number_text base k n ++ rest) ≡ scan base n rest
unfolding scan
scan-number_text base zero n rest b h =
    let none_left : n ≡ 0 = omega (arith, pow-zero base) in rw none_left refl
scan-number_text base (suc k) n rest b h =
    let (whole, small) = halves base n b in
    let d = digit_char (n % base) in
    let first = scan-number_text base k (n / base) (d ∷ rest) b (shorter base k n b h) in
    ap (scan base 0) (append_assoc (number_text base k (n / base)) (d ∷ []) rest)
    ∙ (first ∙ ground (arith, digit-char base (n % base) b small))
