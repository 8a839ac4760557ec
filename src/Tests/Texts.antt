-- ===== src/Tests/Texts.antt =====
-- Numbers, vectors of bytes and names at concrete texts.
use sdb_building_a_debugger.Base.{
  ℕ, ◌^◌, ◌≡◌, ◌≢◌, ◌↔◌, List, none, refl, arith, [], ◌∷◌, length, codes, ltb, if◌then◌else◌,
}
use sdb_building_a_debugger.Process.Run.{ok, bad, out_of_fuel}
use sdb_building_a_debugger.Parse.{
  value, indeterminate, to_integral, parse_vector, parse_vector_n, expect, comma_bytes, byte_at,
  expect_end, window, value_of,
}
use sdb_building_a_debugger.Parse.Digits.{number_text}
use sdb_building_a_debugger.Parse.Numbers.{to_integral-number_text}
use sdb_building_a_debugger.Parse.Agree.{parse_vector-parse_vector_n}
use sdb_building_a_debugger.Parse.Ends.{parse_vector_ends}
use sdb_building_a_debugger.Auxv.{get_auxv}
use sdb_building_a_debugger.Auxv.Entries.{auxv_bytes, lookup, last_entry, get_auxv-auxv_bytes}
use sdb_building_a_debugger.Syscalls.Table.{syscall_name_to_id, syscall_id_to_name}
use sdb_building_a_debugger.Syscalls.Laws.{syscall_name_to_id-syscall_id_to_name}

to_integral-number_text_example :
    (to_integral 8 10 (number_text 10 3 300)
      ≡ (if ltb 300 (2 ^ 8) then value 300 else indeterminate))
    × (to_integral 8 16 (b'0' ∷ b'x' ∷ number_text 16 2 0xcc)
        ≡ (if ltb 0xcc (2 ^ 8) then value 0xcc else indeterminate))
to_integral-number_text_example = to_integral-number_text 8 2 300 1 0xcc (omega arith) (omega arith)

two_bytes : parse_vector_n 2 (codes "[0x01,0xff]") ≡ ok (1 ∷ 255 ∷ [])
unfolding parse_vector_n expect comma_bytes byte_at expect_end window value_of
two_bytes = refl

parse_vector-parse_vector_n_example :
    (length {A = ℕ} (1 ∷ 255 ∷ []) ≡ 2) × (parse_vector (codes "[0x01,0xff]") ≡ ok (1 ∷ 255 ∷ []))
parse_vector-parse_vector_n_example =
    parse_vector-parse_vector_n 2 (codes "[0x01,0xff]") (1 ∷ 255 ∷ []) (omega arith) two_bytes

parse_vector_ends_example : parse_vector (codes "[0x01,]") ≢ bad out_of_fuel
parse_vector_ends_example = parse_vector_ends (codes "[0x01,]")

syscalls_example :
    (syscall_name_to_id (codes "openat") ≡ ok 257) ↔ (syscall_id_to_name 257 ≡ ok (codes "openat"))
syscalls_example = syscall_name_to_id-syscall_id_to_name 257 (codes "openat")

abbrev entries : List (ℕ × ℕ)
entries = (9, 0x5555_1100) ∷ (3, 64) ∷ []

get_auxv_example :
    (ret : List (ℕ × ℕ)) × (get_auxv 3 77 77 (auxv_bytes entries (1 ∷ [])) ≡ ok ret)
    × (lookup 9 ret ≡ last_entry 9 entries none)
get_auxv_example =
    get_auxv-auxv_bytes entries 3 77 77 9 (1 ∷ [])
      (
        (λ e. ground arith, omega arith, omega arith),
        ((λ e. ground arith, omega arith, omega arith), tt),
      )
      (omega arith)
