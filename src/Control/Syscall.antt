-- ===== src/Control/Syscall.antt =====
-- `process::augment_stop_reason` and the test of `process::maybe_resume_from_syscall`.
use sdb_building_a_debugger.Base.{
  ℕ, ◌%◌, ◌^◌, Bool, true, false, List, [], ◌∷◌, some, ◌||◌, ◌==◌, if◌then◌else◌, ℤ, pos, int_eq,
}
use sdb_building_a_debugger.Platform.{Platform}
use sdb_building_a_debugger.Process.State.{
  StopReason, SyscallInformation, args, ret, TrapType, single_step, software_break, hardware_break,
  syscall, unknown, SyscallCatchPolicy, catches_some,
}
use sdb_building_a_debugger.Process.Run.{M, pure, ◌>>=◌, ◌>>◌, get, put, reading}
use sdb_building_a_debugger.Process.StopReason.{sigtrap, trap_trace, trap_hwbkpt, si_kernel}
use sdb_building_a_debugger.Registers.Id
use sdb_building_a_debugger.Registers.Access.{read_by_id_as}

-- The switch on `si_code`.
unfoldable pub trap_of_code : ℕ → TrapType
trap_of_code si_code =
    if si_code == trap_trace
    then single_step
    else if si_code == si_kernel
    then software_break
    else if si_code == trap_hwbkpt
    then hardware_break
    else unknown

unfoldable pub plain_trap : StopReason → ℕ → StopReason
unfolding trap_of_code
plain_trap reason si_code = record reason {
  trap_reason = some (if reason.info == sigtrap then trap_of_code si_code else unknown);
}

unfoldable pub syscall_trap : StopReason → SyscallInformation → StopReason
syscall_trap reason info = record reason {
  info = sigtrap;
  trap_reason = some syscall;
  syscall_info = some info;
}

unfoldable pub set_expecting : {W : Type 0} → Bool → M W (Unit {0})
set_expecting b = do p ← get; put (record p { expecting_syscall_exit = b })

-- `std::find` in the list of system calls to catch, and whether a stop at `id` is reported.
unfoldable pub mem_ids : ℕ → List ℤ → Bool
mem_ids id [] = false
mem_ids id (x ∷ xs) = int_eq x (pos id) || mem_ids id xs

unfoldable pub is_caught : SyscallCatchPolicy → ℕ → Bool
unfolding mem_ids
is_caught policy id = elim policy.mode [ catches_some ↦ mem_ids id policy.to_catch | _ ↦ true ]

-- The entry's arguments are in rdi, rsi, rdx, r10, r8 and r9.
abbrev pub arg_regs : List ℕ
arg_regs = Id.rdi ∷ Id.rsi ∷ Id.rdx ∷ Id.r10 ∷ Id.r8 ∷ Id.r9 ∷ []

module _ {W : Type 0} (pf : Platform W) where
  unfoldable pub read_all : List ℕ → M W (List ℕ)
  read_all [] = pure []
  read_all (id ∷ ids) = do value ← read_by_id_as pf id; values ← read_all ids; pure (value ∷ values)

  -- `sys_info.id` is an `std::uint16_t`.
  unfoldable pub syscall_exit : M W SyscallInformation
  syscall_exit = do
    id ← read_by_id_as pf Id.orig_rax
    result ← read_by_id_as pf Id.rax
    set_expecting false
    pure (record { id = id % 2 ^ 16; entry = false; values = ret result })

  unfoldable pub syscall_entry : M W SyscallInformation
  syscall_entry = do
    id ← read_by_id_as pf Id.orig_rax
    values ← read_all arg_regs
    set_expecting true
    pure (record { id = id % 2 ^ 16; entry = true; values = args values })

  unfoldable pub augment_stop_reason : StopReason → M W StopReason
  augment_stop_reason reason = do
    p ← get
    si_code ← reading "failed to get signal info" (pf.get_siginfo p.pid)
    if reason.info == 0x85
        then (do
          info ← if p.expecting_syscall_exit then syscall_exit else syscall_entry
          pure (syscall_trap reason info))
        else (do set_expecting false; pure (plain_trap reason si_code))
