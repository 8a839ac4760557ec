-- ===== src/Cli/RegisterCommand.antt =====
-- The `register` command of tools/sdb.cpp.
use sdb_building_a_debugger.Base.{
  ℕ, Bool, true, false, not, ◌&&◌, ◌||◌, List, [], ◌∷◌, codes, text_eq, ◌==◌, if◌then◌else◌,
}
use sdb_building_a_debugger.Platform.{Platform}
use sdb_building_a_debugger.Process.Run.{Outcome, ok, bad, and_then, error}
use sdb_building_a_debugger.Registers.Value.{
  RegisterInfo, RegisterType, gpr, RegisterFormat, uint, double_float, long_double, vector, Value,
  u8, u16, u32, u64, float64, float80, byte64, byte128,
}
use sdb_building_a_debugger.Registers.Table.{g_register_infos}
use sdb_building_a_debugger.Registers.Info.{register_info_by_name}
use sdb_building_a_debugger.Registers.Access.{read, write}
use sdb_building_a_debugger.Parse.{FromChars, Parsed, finish, value_of, to_integral, parse_vector_n}
use sdb_building_a_debugger.Cli.Shell.{
  text, register_value, piece, printed, reported, Shell, ◌>>=◌, ◌>>◌, pure, say, perform, result,
  current, attempt, is_sdb_error, is_exception,
}
use sdb_building_a_debugger.Cli.Words.{is_prefix}
use sdb_building_a_debugger.Cli.Help.{complain, help_on}

-- `std::from_chars` at `double` and at `long double`, a parameter; values are their bytes.
pub record FloatParsers : Type 0 where
  pub double_chars : List ℕ → FromChars (List ℕ)
  pub long_double_chars : List ℕ → FromChars (List ℕ)

-- `to_float` of include/libsdb/parse.hpp.
unfoldable pub to_float : (List ℕ → FromChars (List ℕ)) → List ℕ → Parsed (List ℕ)
unfolding finish
to_float from_chars sv = finish (from_chars sv)

abbrev holding : {A : Type 0} → (A → Value) → Outcome A → Outcome Value
holding f r = and_then r (λ a. ok (f a))

-- The branches of `parse_register_value`; behind them stands the error.
unfoldable pub parse_uint : ℕ → List ℕ → Outcome Value
unfolding to_integral value_of
parse_uint size sv =
    if size == 1
    then holding u8 (value_of (to_integral 8 16 sv))
    else if size == 2
    then holding u16 (value_of (to_integral 16 16 sv))
    else if size == 4
    then holding u32 (value_of (to_integral 32 16 sv))
    else if size == 8
    then holding u64 (value_of (to_integral 64 16 sv))
    else bad (error "invalid format")

unfoldable pub parse_bytes : ℕ → List ℕ → Outcome Value
parse_bytes size sv =
    if size == 8
    then holding byte64 (parse_vector_n 8 sv)
    else if size == 16
    then holding byte128 (parse_vector_n 16 sv)
    else bad (error "invalid format")

unfoldable pub parse_format : FloatParsers → RegisterInfo → List ℕ → RegisterFormat → Outcome Value
unfolding parse_uint parse_bytes to_float value_of
parse_format floats info sv uint = parse_uint info.size sv
parse_format floats info sv double_float =
    holding float64 (value_of (to_float floats.double_chars sv))
parse_format floats info sv long_double =
    holding float80 (value_of (to_float floats.long_double_chars sv))
parse_format floats info sv vector = parse_bytes info.size sv

-- `catch (...)`: every exception becomes the error.
unfoldable pub invalid_format : Outcome Value → Outcome Value
unfolding is_exception
invalid_format (ok val) = ok val
invalid_format (bad e) = if is_exception e then bad (error "invalid format") else bad e

unfoldable pub parse_register_value : FloatParsers → RegisterInfo → List ℕ → Outcome Value
unfolding parse_format invalid_format
parse_register_value floats info sv = invalid_format (parse_format floats info sv info.format)

abbrev is_gpr : RegisterType → Bool
is_gpr gpr = true
is_gpr _ = false

module _ {W : Type 0} (pf : Platform W) where
  unfoldable pub print_register : RegisterInfo → Shell W (Unit {0})
  print_register info = do
    p ← current
    val ← result (read p.registers info)
    say (printed (piece "{}:\t{}\n" (text info.name ∷ register_value val ∷ []) ∷ []))

  -- The loop over the table; `all` stands for `register read all`.
  unfoldable pub print_registers : Bool → List RegisterInfo → Shell W (Unit {0})
  unfolding print_register
  print_registers all [] = pure tt
  print_registers all (info ∷ infos) = do
    if (all || is_gpr info.type) && not (text_eq info.name (codes "orig_rax"))
        then print_register info
        else pure tt
    print_registers all infos

  unfoldable pub print_named : List ℕ → Shell W (Unit {0})
  unfolding print_register
  print_named name =
      attempt is_sdb_error
        (do info ← result (register_info_by_name pf.layout name); print_register info)
        (λ err. complain "no such register\n")

  unfoldable pub handle_register_read : List (List ℕ) → Shell W (Unit {0})
  unfolding print_registers print_named
  handle_register_read (command ∷ sub ∷ []) = print_registers false (g_register_infos pf.layout)
  handle_register_read (command ∷ sub ∷ name ∷ []) =
      if text_eq name (codes "all")
      then print_registers true (g_register_infos pf.layout)
      else print_named name
  handle_register_read _ = help_on "register"

  unfoldable pub write_named : FloatParsers → List ℕ → List ℕ → Shell W (Unit {0})
  write_named floats name sv =
      attempt is_sdb_error
        (do
          info ← result (register_info_by_name pf.layout name)
          val ← result (parse_register_value floats info sv)
          perform (write pf info val))
        (λ err. say (reported err))

  unfoldable pub handle_register_write : FloatParsers → List (List ℕ) → Shell W (Unit {0})
  unfolding write_named
  handle_register_write floats (command ∷ sub ∷ name ∷ sv ∷ []) = write_named floats name sv
  handle_register_write floats _ = help_on "register"

  unfoldable pub handle_register_command : FloatParsers → List (List ℕ) → Shell W (Unit {0})
  unfolding handle_register_read handle_register_write
  handle_register_command floats (command ∷ sub ∷ args) =
      if is_prefix sub (codes "read")
      then handle_register_read (command ∷ sub ∷ args)
      else if is_prefix sub (codes "write")
      then handle_register_write floats (command ∷ sub ∷ args)
      else help_on "register"
  handle_register_command floats _ = help_on "register"
