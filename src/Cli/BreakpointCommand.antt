-- ===== src/Cli/BreakpointCommand.antt =====
-- The `breakpoint` command of tools/sdb.cpp.
use sdb_building_a_debugger.Base.{
  ℕ, Bool, true, false, String, List, [], ◌∷◌, codes, text_eq, if◌then◌else◌, ℤ,
}
use sdb_building_a_debugger.Platform.{Platform}
use sdb_building_a_debugger.Process.State.{BreakpointSite}
use sdb_building_a_debugger.Process.Run.{error}
use sdb_building_a_debugger.Stoppoints.{breakpoint_stoppoint, empty, get_by_id}
use sdb_building_a_debugger.Breakpoint.{create_breakpoint_site, enable, disable, remove_site_by_id}
use sdb_building_a_debugger.Parse.{
  Parsed, nullopt, value, indeterminate, value_of, to_integral, to_signed,
}
use sdb_building_a_debugger.Cli.Shell.{
  number, integer, literal, piece, printed, Shell, ◌>>=◌, ◌>>◌, pure, raise, say, perform, result,
  current, for_each,
}
use sdb_building_a_debugger.Cli.Words.{is_prefix}
use sdb_building_a_debugger.Cli.Help.{complain, help_on}

-- `!opt` at an `std::optional`.
abbrev pub is_null : {A : Type 0} → Parsed A → Bool
is_null nullopt = true
is_null (value a) = false
is_null indeterminate = false

abbrev pub enabled_text : Bool → String
enabled_text true = "enabled"
enabled_text false = "disabled"

unfoldable pub print_site : {W : Type 0} → BreakpointSite → Shell W (Unit {0})
print_site site =
    if site.is_internal
    then pure tt
    else say (
        printed (
          piece "{}: address = {:#x}, {}\n"
            (integer site.id ∷ number site.address ∷ literal (enabled_text site.is_enabled) ∷ [])
          ∷ []))

unfoldable pub list_breakpoints : {W : Type 0} → Shell W (Unit {0})
unfolding print_site for_each
list_breakpoints = do
  p ← current
  if empty p.breakpoint_sites then say (printed (piece "no breakpoints set\n" [] ∷ [])) else (do
    say (printed (piece "current breakpoints:\n" [] ∷ []))
    for_each print_site p.breakpoint_sites)

-- Whether the arguments behind the address ask for a hardware breakpoint; two or more are not looked
-- at.
unfoldable pub wants_hardware : {W : Type 0} → List (List ℕ) → Shell W Bool
wants_hardware (flag ∷ []) =
    if text_eq flag (codes "-h")
    then pure true
    else raise (error "invalid breakpoint command argument")
wants_hardware _ = pure false

module _ {W : Type 0} (pf : Platform W) where
  unfoldable pub set_breakpoint : Parsed ℕ → List (List ℕ) → Shell W (Unit {0})
  unfolding wants_hardware
  set_breakpoint address more =
      if is_null address
      then complain "breakpoint command expects address in hexadecimal, prefixed with '0x'\n"
      else (do
        hardware ← wants_hardware more
        at ← result (value_of address)
        i ← perform (create_breakpoint_site at hardware false)
        perform (enable pf i))

  unfoldable pub change_breakpoint : List ℕ → ℤ → Shell W (Unit {0})
  change_breakpoint command id =
      if is_prefix command (codes "enable")
      then (do p ← current; i ← result (get_by_id p.breakpoint_sites id); perform (enable pf i))
      else if is_prefix command (codes "disable")
      then (do p ← current; i ← result (get_by_id p.breakpoint_sites id); perform (disable pf i))
      else if is_prefix command (codes "delete")
      then perform (remove_site_by_id pf id)
      else pure tt

  unfoldable pub handle_breakpoint_command : List (List ℕ) → Shell W (Unit {0})
  unfolding list_breakpoints set_breakpoint change_breakpoint
  handle_breakpoint_command (name ∷ command ∷ []) =
      if is_prefix command (codes "list") then list_breakpoints else help_on "breakpoint"
  handle_breakpoint_command (name ∷ command ∷ first ∷ more) =
      let id = to_signed 32 10 first in
      if is_prefix command (codes "list")
      then list_breakpoints
      else if is_prefix command (codes "set")
      then set_breakpoint (to_integral 64 16 first) more
      else if is_null id
      then complain "command expects breakpoint id"
      else (do at ← result (value_of id); change_breakpoint command at)
  handle_breakpoint_command _ = help_on "breakpoint"
