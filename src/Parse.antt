-- ===== src/Parse.antt =====
-- include/libsdb/parse.hpp: numbers and vectors of bytes from texts. A text is the list of its bytes,
-- and behind its end stands a NUL.
pub mod Digits
pub mod Numbers
pub mod Vectors
pub mod Agree
pub mod Ends
use sdb_building_a_debugger.Base.{
  ℕ, zero, suc, ◌+◌, ◌-◌, ◌*◌, ◌^◌, Bool, true, false, ◌&&◌, List, [], ◌∷◌, ◌++◌, length, take,
  drop, get_or, Option, none, some, String, ltb, leb, ◌==◌, if◌then◌else◌, ℤ, pos, negsuc,
}
use sdb_building_a_debugger.Process.Run.{
  Outcome, ok, bad, error, bad_optional_access, undefined, out_of_fuel, and_then,
}

-- A digit of `std::from_chars`: decimal digits, and letters of either case.
unfoldable pub any_digit : ℕ → Option ℕ
any_digit c =
    if leb b'0' c && leb c b'9'
    then some (c - b'0')
    else if leb b'a' c && leb c b'z'
    then some (c - b'a' + 10)
    else if leb b'A' c && leb c b'Z'
    then some (c - b'A' + 10)
    else none

unfoldable pub digit : ℕ → ℕ → Option ℕ
unfolding any_digit
digit base c = elim (any_digit c) [ none ↦ none | some d ↦ if ltb d base then some d else none ]

-- The longest run of digits: its value after `total`, and what is left.
unfoldable pub scan : ℕ → ℕ → List ℕ → ℕ × List ℕ
scan base total [] = (total, [])
scan base total (c ∷ cs) = elim (digit base c) [
  | none ↦ (total, c ∷ cs)
  | some d ↦ scan base (total * base + d) cs
]

-- `std::from_chars`: where it stops, and the value unless there is none or it is out of range.
pub record FromChars (A : Type 0) : Type 0 where
  pub stop : List ℕ
  pub value : Option A

unfoldable pub starts_with_digit : ℕ → List ℕ → Bool
unfolding digit
starts_with_digit base [] = false
starts_with_digit base (c ∷ cs) = elim (digit base c) [ none ↦ false | some d ↦ true ]

unfoldable pub from_chars_unsigned : ℕ → ℕ → List ℕ → FromChars ℕ
unfolding scan starts_with_digit
from_chars_unsigned bits base text =
    let (total, rest) = scan base 0 text in
    if starts_with_digit base text
    then record { stop = rest; value = if ltb total (2 ^ bits) then some total else none }
    else record { stop = text; value = none }

-- -(n), for a number behind a minus sign.
unfoldable pub negated : ℕ → ℤ
negated zero = pos zero
negated (suc n) = negsuc n

unfoldable pub from_chars_negative : ℕ → ℕ → List ℕ → List ℕ → FromChars ℤ
unfolding scan starts_with_digit negated
from_chars_negative bits base whole digits =
    let (total, rest) = scan base 0 digits in
    if starts_with_digit base digits
    then record {
      stop = rest;
      value = if leb total (2 ^ (bits - 1)) then some (negated total) else none;
    }
    else record { stop = whole; value = none }

unfoldable pub from_chars_positive : ℕ → ℕ → List ℕ → FromChars ℤ
unfolding scan starts_with_digit
from_chars_positive bits base text =
    let (total, rest) = scan base 0 text in
    if starts_with_digit base text
    then record {
      stop = rest;
      value = if ltb total (2 ^ (bits - 1)) then some (pos total) else none;
    }
    else record { stop = text; value = none }

unfoldable pub from_chars_signed : ℕ → ℕ → List ℕ → FromChars ℤ
unfolding from_chars_negative from_chars_positive
from_chars_signed bits base [] = from_chars_positive bits base []
from_chars_signed bits base (c ∷ cs) =
    if c == b'-'
    then from_chars_negative bits base (c ∷ cs) cs
    else from_chars_positive bits base (c ∷ cs)

-- `std::optional<I>`; `indeterminate` holds the variable `ret` with no value assigned to it.
pub data Parsed (A : Type 0) : Type 0 where
  nullopt : Parsed A
  value : A → Parsed A
  indeterminate : Parsed A

unfoldable pub assigned : {A : Type 0} → Option A → Parsed A
assigned none = indeterminate
assigned (some a) = value a

-- The test of `result.ptr`; `result.ec` is not looked at.
unfoldable pub finish : {A : Type 0} → FromChars A → Parsed A
unfolding assigned
finish r = elim r.stop [ [] ↦ assigned r.value | c ∷ cs ↦ nullopt ]

-- The prefix 0x is passed over where the base is 16.
unfoldable pub skip_prefix : ℕ → List ℕ → List ℕ
skip_prefix base [] = []
skip_prefix base (a ∷ []) = a ∷ []
skip_prefix base (a ∷ b ∷ cs) = if base == 16 && (a == b'0' && b == b'x') then cs else a ∷ b ∷ cs

-- `to_integral` at an unsigned type of `bits` bits, and at `int` and `std::int32_t`.
unfoldable pub to_integral : ℕ → ℕ → List ℕ → Parsed ℕ
unfolding from_chars_unsigned finish skip_prefix
to_integral bits base sv = finish (from_chars_unsigned bits base (skip_prefix base sv))

unfoldable pub to_signed : ℕ → ℕ → List ℕ → Parsed ℤ
unfolding from_chars_signed finish skip_prefix
to_signed bits base sv = finish (from_chars_signed bits base (skip_prefix base sv))

-- `.value()`, and a use of the value.
unfoldable pub value_of : {A : Type 0} → Parsed A → Outcome A
value_of nullopt = bad bad_optional_access
value_of (value a) = ok a
value_of indeterminate = bad undefined

-- The four characters from a place on; behind the end they are NULs, at which `from_chars` stops.
unfoldable pub window : List ℕ → List ℕ
window text = take 4 (text ++ 0 ∷ 0 ∷ 0 ∷ 0 ∷ [])

unfoldable pub byte_at : List ℕ → Outcome ℕ
unfolding to_integral value_of window
byte_at text = value_of (to_integral 8 16 (window text))

-- `*c++ != expected`.
unfoldable pub expect : String → ℕ → List ℕ → Outcome (List ℕ)
expect message expected [] = bad (error message)
expect message expected (c ∷ cs) = if c == expected then ok cs else bad (error message)

-- The loop of `parse_vector<N>`: `left` bytes with a comma behind each.
unfoldable pub comma_bytes : ℕ → List ℕ → Outcome (List ℕ × List ℕ)
unfolding byte_at expect
comma_bytes zero text = ok ([], text)
comma_bytes (suc left) text = and_then (byte_at text) (λ b.
    and_then (expect "Invalid format" b',' (drop 4 text))
      (λ rest. and_then (comma_bytes left rest) (λ more. ok (b ∷ more.0, more.1))))

unfoldable pub expect_end : String → List ℕ → Outcome (Unit {0})
expect_end message [] = ok tt
expect_end message (c ∷ cs) = bad (error message)

-- `parse_vector<N>` for `n` = N, which is not 0.
unfoldable pub parse_vector_n : ℕ → List ℕ → Outcome (List ℕ)
unfolding byte_at expect comma_bytes expect_end
parse_vector_n n text = and_then (expect "Invalid format" b'[' text) (λ opened.
    and_then (comma_bytes (n - 1) opened) (λ front. and_then (byte_at front.1) (λ last.
      and_then (expect "Invalid format" b']' (drop 4 front.1)) (λ closed.
        and_then (expect_end "Invalid format" closed) (λ _. ok (front.0 ++ last ∷ []))))))

-- What stands behind a byte in the other `parse_vector`: a comma is passed over.
unfoldable pub separator : List ℕ → Outcome (List ℕ)
separator [] = bad (error "invalid format")
separator (c ∷ cs) =
    if c == b',' then ok cs else if c == b']' then ok (c ∷ cs) else bad (error "invalid format")

-- Its loop: the bytes, and the text behind the closing bracket. A round takes at least four bytes.
unfoldable pub bytes_until : ℕ → List ℕ → Outcome (List ℕ × List ℕ)
unfolding byte_at separator
bytes_until zero text = bad out_of_fuel
bytes_until (suc fuel) text = elim (get_or text 0 0 == b']') [
  | true ↦ ok ([], drop 1 text)
  | false ↦ and_then (byte_at text) (λ b.
      and_then (separator (drop 4 text))
        (λ rest. and_then (bytes_until fuel rest) (λ more. ok (b ∷ more.0, more.1))))
]

unfoldable pub parse_vector : List ℕ → Outcome (List ℕ)
unfolding expect bytes_until expect_end
parse_vector text = and_then (expect "invalid format" b'[' text) (λ opened.
    and_then (bytes_until (suc (length opened)) opened)
      (λ found. and_then (expect_end "invalid format" found.1) (λ _. ok found.0)))
