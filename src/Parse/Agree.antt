-- ===== src/Parse/Agree.antt =====
-- The two forms of `parse_vector` of include/libsdb/parse.hpp compared, and the rounds of the loop.
use sdb_building_a_debugger.Base.{
  ℕ, zero, suc, ◌-◌, ◌<◌, ◌≡◌, ◌≢◌, refl, sym, ap, ◌∙◌, arith, false, List, [], ◌∷◌, ◌++◌, length,
  length-drop, length-append, drop, get_or, ◌==◌, Bool-cases, inl, inr, String,
}
use sdb_building_a_debugger.Process.Run.{ok, Outcome-cases}
use sdb_building_a_debugger.Parse.{
  to_integral, from_chars_unsigned, scan, starts_with_digit, digit, any_digit, finish, skip_prefix,
  value_of, window, byte_at, expect, comma_bytes, expect_end, parse_vector_n, separator,
  bytes_until, parse_vector,
}

-- A closing bracket is no byte.
byte_at-bracket : (cs : List ℕ) (b : ℕ) → byte_at (b']' ∷ cs) ≢ ok b
unfolding byte_at window to_integral value_of skip_prefix from_chars_unsigned finish
    starts_with_digit scan digit any_digit
byte_at-bracket [] b = λ e. ground arith
byte_at-bracket (d ∷ ds) b = λ e. ground arith

byte_first : (text : List ℕ) (b : ℕ) → byte_at text ≡ ok b → (get_or text 0 0 == b']') ≡ false
byte_first [] b e = refl
byte_first (c ∷ cs) b e = elim (Bool-cases (c == b']')) [
  | inr other ↦ other
  | inl hit ↦
      let same : c ≡ b']' = ground arith in
      absurd (byte_at-bracket cs b (ap (λ t. byte_at (t ∷ cs)) (sym same) ∙ e))
]

expect_cases :
    (message : String) (expected : ℕ) (text rest : List ℕ)
    → expect message expected text ≡ ok rest
    → text ≡ expected ∷ rest
unfolding expect
expect_cases message expected [] rest e = cc
expect_cases message expected (c ∷ cs) rest e = ground arith

-- What the fixed-size loop and its last byte read, the general loop reads too.
bytes_until-comma_bytes :
    (fuel left : ℕ) (text front after rest : List ℕ) (last : ℕ)
    → length text < fuel
    → comma_bytes left text ≡ ok (front, after)
    → byte_at after ≡ ok last
    → drop 4 after ≡ b']' ∷ rest
    → (bytes_until fuel text ≡ ok (front ++ last ∷ [], rest)) × (length front ≡ left)
unfolding comma_bytes bytes_until separator
bytes_until-comma_bytes zero left text front after rest last enough e f g = absurd (omega arith)
bytes_until-comma_bytes (suc zero) zero text front after rest last enough e f g =
    let here : text ≡ after = ground arith in
    absurd (omega (arith, length-drop 4 after, ap length g, ap length here))
bytes_until-comma_bytes (suc (suc fuel)) zero text front after rest last enough e f g =
    ground (arith, byte_first text last)
bytes_until-comma_bytes (suc fuel) (suc left) text front after rest last enough e f g =
    elim (Outcome-cases (byte_at text)) [
      | inr (x, d) ↦ absurd (ground arith)
      | inl (b, d) ↦ elim (Outcome-cases (expect "Invalid format" b',' (drop 4 text))) [
        | inr (x, k) ↦ absurd (ground arith)
        | inl (more, k) ↦ elim (Outcome-cases (comma_bytes left more)) [
          | inr (x, l) ↦ absurd (ground arith)
          | inl (found, l) ↦
              let behind = expect_cases "Invalid format" b',' (drop 4 text) more k in
              let shorter : length more < fuel =
                omega (arith, length-drop 4 text, ap length behind) in
              let next =
                bytes_until-comma_bytes fuel left more found.0 after rest last shorter
                  (ground arith) f g in
              ground (arith, byte_first text b, next)
        ]
      ]
    ]

expect_end_cases : (text : List ℕ) → expect_end "Invalid format" text ≡ ok tt → text ≡ []
unfolding expect_end
expect_end_cases [] e = refl
expect_end_cases (c ∷ cs) e = cc

-- Where `parse_vector<N>` accepts a text, N not 0, it returns N bytes, and the other `parse_vector`
-- accepts the text with the same bytes.
pub parse_vector-parse_vector_n :
    (n : ℕ) (text bytes : List ℕ)
    → 0 < n
    → parse_vector_n n text ≡ ok bytes
    → (length bytes ≡ n) × (parse_vector text ≡ ok bytes)
unfolding parse_vector_n parse_vector
parse_vector-parse_vector_n n text bytes nonzero run =
    elim (Outcome-cases (expect "Invalid format" b'[' text)) [
      | inr (x, d) ↦ absurd (ground arith)
      | inl (opened, d) ↦ elim (Outcome-cases (comma_bytes (n - 1) opened)) [
        | inr (x, k) ↦ absurd (ground arith)
        | inl (front, k) ↦ elim (Outcome-cases (byte_at front.1)) [
          | inr (x, l) ↦ absurd (ground arith)
          | inl (last, l) ↦ elim (Outcome-cases (expect "Invalid format" b']' (drop 4 front.1))) [
            | inr (x, m) ↦ absurd (ground arith)
            | inl (closed, m) ↦
                let begins = expect_cases "Invalid format" b'[' text opened d in
                let ends = expect_cases "Invalid format" b']' (drop 4 front.1) closed m in
                let read =
                  bytes_until-comma_bytes (suc (length opened)) (n - 1) opened front.0 front.1
                    closed last (omega arith) (ground arith) l ends in
                let again : expect "invalid format" b'[' text ≡ ok opened =
                  rw (begins, expect) refl in
                let empty : closed ≡ [] = expect_end_cases closed (ground arith) in
                let all : bytes ≡ front.0 ++ last ∷ [] = ground (arith, empty) in
                (
                  omega (arith, ap length all, length-append front.0 (last ∷ []), read.1),
                  ground (arith, again, read.0, empty, all),
                )
          ]
        ]
      ]
    ]
