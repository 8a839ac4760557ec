-- ===== src/Parse/Vectors.antt =====
-- Both forms of `parse_vector` of include/libsdb/parse.hpp.
use sdb_building_a_debugger.Base.{
  ℕ, zero, suc, ◌+◌, ◌-◌, ◌≤◌, ◌<◌, ◌≡◌, refl, arith, List, [], ◌∷◌, ◌++◌, length, All, IsByte,
}
use sdb_building_a_debugger.Process.Run.{ok}
use sdb_building_a_debugger.Parse.{
  value_of, window, byte_at, expect, comma_bytes, expect_end, parse_vector_n, separator,
  bytes_until, parse_vector,
}
use sdb_building_a_debugger.Parse.Digits.{number_text}
use sdb_building_a_debugger.Parse.Numbers.{to_integral-number_text}

-- A byte as 0x and two hexadecimal digits, and bytes with commas between them.
abbrev pub byte_text : ℕ → List ℕ
byte_text b = b'0' ∷ b'x' ∷ number_text 16 2 b

abbrev pub items : List ℕ → List ℕ → List ℕ
items [] rest = rest
items (b ∷ []) rest = byte_text b ++ rest
items (b ∷ c ∷ bs) rest = byte_text b ++ b',' ∷ items (c ∷ bs) rest

abbrev pub vector_text : List ℕ → List ℕ
vector_text bytes = b'[' ∷ items bytes (b']' ∷ [])

byte_at-byte_text : (b : ℕ) (rest : List ℕ) → b < 256 → byte_at (byte_text b ++ rest) ≡ ok b
unfolding byte_at window value_of
byte_at-byte_text b rest h =
    ground (arith, (to_integral-number_text 8 0 0 1 b (omega arith) (omega arith)).1)

-- The loop of the general form on printed bytes.
bytes_until-items :
    (fuel : ℕ) (bytes rest : List ℕ)
    → All IsByte bytes
    → length bytes < fuel
    → bytes_until fuel (items bytes (b']' ∷ rest)) ≡ ok (bytes, rest)
unfolding bytes_until separator
bytes_until-items zero bytes rest h enough = absurd (omega arith)
bytes_until-items (suc fuel) [] rest h enough = refl
bytes_until-items (suc fuel) (b ∷ []) rest h enough =
    ground (
      arith,
      byte_at-byte_text b (b']' ∷ rest) h.0,
      bytes_until-items fuel [] rest tt (omega arith),
    )
bytes_until-items (suc fuel) (b ∷ c ∷ bs) rest h enough = ground (
  arith,
  byte_at-byte_text b (b',' ∷ items (c ∷ bs) (b']' ∷ rest)) h.0,
  bytes_until-items fuel (c ∷ bs) rest h.1 (omega arith),
)

length-items : (bytes rest : List ℕ) → length bytes + length rest ≤ length (items bytes rest)
length-items [] rest = omega arith
length-items (b ∷ []) rest = omega arith
length-items (b ∷ c ∷ bs) rest = omega (arith, length-items (c ∷ bs) rest)

-- The loop of the fixed-size form on printed bytes: all but the last.
comma_bytes-items :
    (front : List ℕ) (last : ℕ) (rest : List ℕ)
    → All IsByte front
    → comma_bytes (length front) (items (front ++ last ∷ []) rest)
      ≡ ok (front, byte_text last ++ rest)
unfolding comma_bytes expect
comma_bytes-items [] last rest h = refl
comma_bytes-items (b ∷ []) last rest h =
    ground (arith, byte_at-byte_text b (b',' ∷ items (last ∷ []) rest) h.0)
comma_bytes-items (b ∷ c ∷ bs) last rest h = ground (
  arith,
  byte_at-byte_text b (b',' ∷ items ((c ∷ bs) ++ last ∷ []) rest) h.0,
  comma_bytes-items (c ∷ bs) last rest h.1,
)

-- Bytes that are written as 0x and two digits each, with commas between them and in brackets, are read
-- back by `parse_vector`; the empty brackets are read as no bytes.
pub parse_vector-vector_text :
    (bytes : List ℕ) → All IsByte bytes → parse_vector (vector_text bytes) ≡ ok bytes
unfolding parse_vector expect expect_end
parse_vector-vector_text bytes h =
    let fuel = suc (length (items bytes (b']' ∷ []))) in
    let read = bytes_until-items fuel bytes [] h (omega (arith, length-items bytes (b']' ∷ []))) in
    ground (arith, read)

-- The same bytes are read back by `parse_vector<N>`, where N is their number and not 0.
pub parse_vector_n-vector_text :
    (front : List ℕ) (last : ℕ)
    → All IsByte front
    → last < 256
    → parse_vector_n (suc (length front)) (vector_text (front ++ last ∷ []))
      ≡ ok (front ++ last ∷ [])
unfolding parse_vector_n expect expect_end
parse_vector_n-vector_text front last h small =
    let less : suc (length front) - 1 ≡ length front = omega arith in
    ground
      (arith, comma_bytes-items front last (b']' ∷ []) h, byte_at-byte_text last (b']' ∷ []) small)
