-- ===== src/Cli/WatchpointCommand.antt =====
-- The `watchpoint` command of tools/sdb.cpp.
use sdb_building_a_debugger.Base.{
  ℕ, Bool, not, ◌||◌, String, List, [], ◌∷◌, codes, text_eq, if◌then◌else◌, ℤ,
}
use sdb_building_a_debugger.Platform.{Platform}
use sdb_building_a_debugger.Types.{StoppointMode, write, read_write, execute}
use sdb_building_a_debugger.Process.State.{Watchpoint}
use sdb_building_a_debugger.Stoppoints.{watchpoint_stoppoint, empty, get_by_id}
use sdb_building_a_debugger.Watchpoint.{create_watchpoint, enable, disable, remove_point_by_id}
use sdb_building_a_debugger.Parse.{Parsed, value_of, to_integral, to_signed}
use sdb_building_a_debugger.Cli.Shell.{
  number, integer, literal, piece, printed, Shell, ◌>>=◌, ◌>>◌, pure, say, perform, result, current,
  for_each,
}
use sdb_building_a_debugger.Cli.Words.{is_prefix}
use sdb_building_a_debugger.Cli.Help.{complain, help_on}
use sdb_building_a_debugger.Cli.BreakpointCommand.{is_null, enabled_text}

abbrev pub stoppoint_mode_to_string : StoppointMode → String
stoppoint_mode_to_string execute = "execute"
stoppoint_mode_to_string write = "write"
stoppoint_mode_to_string read_write = "read_write"

unfoldable pub print_point : {W : Type 0} → Watchpoint → Shell W (Unit {0})
print_point point = say (
    printed (
      piece "{}: address = {:#x}, mode = {}, size = {}, {}\n" (
        integer point.id
        ∷ number point.address
        ∷ literal (stoppoint_mode_to_string point.mode)
        ∷ number point.size
        ∷ literal (enabled_text point.is_enabled)
        ∷ [])
      ∷ []))

unfoldable pub handle_watchpoint_list : {W : Type 0} → Shell W (Unit {0})
unfolding print_point for_each
handle_watchpoint_list = do
  p ← current
  if empty p.watchpoints then say (printed (piece "no watchpoints set\n" [] ∷ [])) else (do
    say (printed (piece "current watchpoints:\n" [] ∷ []))
    for_each print_point p.watchpoints)

abbrev pub is_mode : List ℕ → Bool
is_mode mode_text =
    text_eq mode_text (codes "write")
    || text_eq mode_text (codes "rw")
    || text_eq mode_text (codes "execute")

-- The mode of a text that `is_mode` accepts.
abbrev pub mode_of : List ℕ → StoppointMode
mode_of mode_text =
    if text_eq mode_text (codes "write")
    then write
    else if text_eq mode_text (codes "rw")
    then read_write
    else execute

module _ {W : Type 0} (pf : Platform W) where
  unfoldable pub set_point : Parsed ℕ → List ℕ → Parsed ℕ → Shell W (Unit {0})
  set_point address mode_text size =
      if is_null address || is_null size || not (is_mode mode_text)
      then help_on "watchpoint"
      else (do
        at ← result (value_of address)
        bytes ← result (value_of size)
        i ← perform (create_watchpoint pf at (mode_of mode_text) bytes)
        perform (enable pf i))

  unfoldable pub handle_watchpoint_set : List (List ℕ) → Shell W (Unit {0})
  unfolding set_point
  handle_watchpoint_set (name ∷ command ∷ address ∷ mode_text ∷ size ∷ []) =
      set_point (to_integral 64 16 address) mode_text (to_integral 64 10 size)
  handle_watchpoint_set _ = help_on "watchpoint"

  unfoldable pub change_watchpoint : List ℕ → ℤ → Shell W (Unit {0})
  change_watchpoint command id =
      if is_prefix command (codes "enable")
      then (do p ← current; i ← result (get_by_id p.watchpoints id); perform (enable pf i))
      else if is_prefix command (codes "disable")
      then (do p ← current; i ← result (get_by_id p.watchpoints id); perform (disable pf i))
      else if is_prefix command (codes "delete")
      then perform (remove_point_by_id pf id)
      else pure tt

  unfoldable pub select_watchpoint : List ℕ → List (List ℕ) → Shell W (Unit {0})
  unfolding change_watchpoint
  select_watchpoint command [] = help_on "watchpoint"
  select_watchpoint command (first ∷ more) =
      let id = to_signed 32 10 first in
      if is_null id
      then complain "command expects watchpoint id"
      else (do at ← result (value_of id); change_watchpoint command at)

  unfoldable pub handle_watchpoint_command : List (List ℕ) → Shell W (Unit {0})
  unfolding handle_watchpoint_list handle_watchpoint_set select_watchpoint
  handle_watchpoint_command (name ∷ command ∷ more) =
      if is_prefix command (codes "list")
      then handle_watchpoint_list
      else if is_prefix command (codes "set")
      then handle_watchpoint_set (name ∷ command ∷ more)
      else select_watchpoint command more
  handle_watchpoint_command _ = help_on "watchpoint"
