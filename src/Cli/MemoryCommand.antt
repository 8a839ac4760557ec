-- ===== src/Cli/MemoryCommand.antt =====
-- The `memory` command of tools/sdb.cpp.
use sdb_building_a_debugger.Base.{
  ℕ, zero, suc, ◌+◌, ◌-◌, ◌%◌, ◌^◌, List, [], ◌∷◌, length, take, drop, codes, ltb, if◌then◌else◌,
}
use sdb_building_a_debugger.Platform.{Platform}
use sdb_building_a_debugger.Process.Run.{Outcome, ok, bad, error, and_then}
use sdb_building_a_debugger.Memory.{read_memory, write_memory}
use sdb_building_a_debugger.Parse.{Parsed, value_of, to_integral, parse_vector}
use sdb_building_a_debugger.Cli.Shell.{
  number, numbers, piece, printed, Shell, ◌>>=◌, ◌>>◌, pure, say, perform, result,
}
use sdb_building_a_debugger.Cli.Words.{is_prefix}
use sdb_building_a_debugger.Cli.Help.{help_on}
use sdb_building_a_debugger.Cli.BreakpointCommand.{is_null}

-- The value of an argument, or an `sdb::error` where there is none.
unfoldable pub argument_or : {A : Type 0} → Parsed A → Outcome A → Outcome A
argument_or arg absent = if is_null arg then absent else value_of arg

-- `n_bytes` is an `int`: it is narrowed, and widened with its sign for `read_memory`.
unfoldable pub through_int : ℕ → ℕ
through_int n = let low = n % 2 ^ 32 in if ltb low (2 ^ 31) then low else low + 2 ^ 64 - 2 ^ 32

unfoldable pub count_argument : List (List ℕ) → Outcome ℕ
unfolding argument_or through_int
count_argument (count ∷ []) =
    and_then (argument_or (to_integral 64 10 count) (bad (error "invalid number of bytes")))
      (λ n. ok (through_int n))
count_argument _ = ok 32

-- Lines of 16 bytes; a round takes at least one byte.
unfoldable pub print_lines : {W : Type 0} → ℕ → ℕ → List ℕ → Shell W (Unit {0})
print_lines zero address data_ = pure tt
print_lines (suc fuel) address [] = pure tt
print_lines (suc fuel) address (b ∷ bs) = do
  say (
      printed (
        piece "{:#016x}: {:02x}\n" (number (address % 2 ^ 64) ∷ numbers (take 16 (b ∷ bs)) ∷ [])
        ∷ []))
  print_lines fuel (address + 16) (drop 16 (b ∷ bs))

module _ {W : Type 0} (pf : Platform W) where
  unfoldable pub handle_memory_read_command : List ℕ → List (List ℕ) → Shell W (Unit {0})
  unfolding argument_or count_argument print_lines
  handle_memory_read_command first more = do
    address ← result (argument_or (to_integral 64 16 first) (bad (error "invalid address format")))
    n_bytes ← result (count_argument more)
    data_ ← perform (read_memory pf address n_bytes)
    print_lines (length data_) address data_

  unfoldable pub handle_memory_write_command : List ℕ → List (List ℕ) → Shell W (Unit {0})
  unfolding argument_or
  handle_memory_write_command first (bytes ∷ []) = do
    address ← result (argument_or (to_integral 64 16 first) (bad (error "invalid address format")))
    data_ ← result (parse_vector bytes)
    perform (write_memory pf address data_)
  handle_memory_write_command first _ = help_on "memory"

  unfoldable pub handle_memory_command : List (List ℕ) → Shell W (Unit {0})
  unfolding handle_memory_read_command handle_memory_write_command
  handle_memory_command (name ∷ command ∷ first ∷ more) =
      if is_prefix command (codes "read")
      then handle_memory_read_command first more
      else if is_prefix command (codes "write")
      then handle_memory_write_command first more
      else help_on "memory"
  handle_memory_command _ = help_on "memory"
