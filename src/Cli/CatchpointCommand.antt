-- ===== src/Cli/CatchpointCommand.antt =====
-- The `catchpoint` command of tools/sdb.cpp.
use sdb_building_a_debugger.Base.{
  ℕ, ◌&&◌, List, [], ◌∷◌, codes, text_eq, get_or, leb, if◌then◌else◌, ℤ, pos,
}
use sdb_building_a_debugger.Process.State.{SyscallCatchPolicy, catch_all, catch_none, catch_some}
use sdb_building_a_debugger.Process.Run.{Outcome, ok, and_then}
use sdb_building_a_debugger.Control.Resume.{set_syscall_catch_policy}
use sdb_building_a_debugger.Syscalls.Table.{syscall_name_to_id}
use sdb_building_a_debugger.Parse.{to_signed, value_of}
use sdb_building_a_debugger.Cli.Shell.{Shell, ◌>>=◌, pure, perform, result}
use sdb_building_a_debugger.Cli.Words.{split, is_prefix}
use sdb_building_a_debugger.Cli.Help.{help_on}

-- A number or a name; `syscall[0]` of an empty text is a NUL.
unfoldable pub to_syscall : List ℕ → Outcome ℤ
to_syscall syscall =
    if leb b'0' (get_or syscall 0 0) && leb (get_or syscall 0 0) b'9'
    then value_of (to_signed 32 10 syscall)
    else and_then (syscall_name_to_id syscall) (λ id. ok (pos id))

unfoldable pub to_syscalls : List (List ℕ) → Outcome (List ℤ)
unfolding to_syscall
to_syscalls [] = ok []
to_syscalls (syscall ∷ syscalls) =
    and_then (to_syscall syscall)
      (λ id. and_then (to_syscalls syscalls) (λ to_catch. ok (id ∷ to_catch)))

unfoldable pub policy_of : List (List ℕ) → Outcome SyscallCatchPolicy
unfolding to_syscalls split
policy_of [] = ok catch_all
policy_of (list ∷ []) =
    if text_eq list (codes "none")
    then ok catch_none
    else and_then (to_syscalls (split list b',')) (λ to_catch. ok (catch_some to_catch))
policy_of (list ∷ extra ∷ more) =
    and_then (to_syscalls (split list b',')) (λ to_catch. ok (catch_some to_catch))

unfoldable pub handle_syscall_catchpoint_command : {W : Type 0} → List (List ℕ) → Shell W (Unit {0})
unfolding policy_of
handle_syscall_catchpoint_command more = do
  policy ← result (policy_of more)
  perform (set_syscall_catch_policy policy)

unfoldable pub handle_catchpoint_command : {W : Type 0} → List (List ℕ) → Shell W (Unit {0})
unfolding handle_syscall_catchpoint_command
handle_catchpoint_command (name ∷ sub ∷ more) =
    if is_prefix sub (codes "syscall") then handle_syscall_catchpoint_command more else pure tt
handle_catchpoint_command _ = help_on "catchpoint"
