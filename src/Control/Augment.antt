-- ===== src/Control/Augment.antt =====
-- What `process::augment_stop_reason` (src/process.cpp) finds out about a stop.
use sdb_building_a_debugger.Base.{◌≡◌, arith, true, false, not, some, inl, inr, Bool-cases}
use sdb_building_a_debugger.Platform.{Platform}
use sdb_building_a_debugger.Process.State.{Process, StopReason, SyscallInformation, syscall}
use sdb_building_a_debugger.Process.Run.{returned, Run-cases, Sys-cases}
use sdb_building_a_debugger.Process.StopReason.{sigtrap}
use sdb_building_a_debugger.Registers.Id
use sdb_building_a_debugger.Registers.Access.{read_by_id_as}
use sdb_building_a_debugger.Control.Syscall.{
  set_expecting, read_all, arg_regs, syscall_exit, syscall_entry, syscall_trap, augment_stop_reason,
}

module _ {W : Type 0} (pf : Platform W) where
  exit_toggles :
      (p q : Process W) (info : SyscallInformation)
      → syscall_exit pf p ≡ returned info q
      → (info.entry ≡ false) × (q.expecting_syscall_exit ≡ false)
  unfolding syscall_exit set_expecting
  exit_toggles p q info run = elim (Run-cases (read_by_id_as pf Id.orig_rax p)) [
    | inr (e, r, h) ↦ absurd (ground arith)
    | inl (id, r, h) ↦ elim (Run-cases (read_by_id_as pf Id.rax r)) [
      | inr (e, s, g) ↦ absurd (ground arith)
      | inl (result, s, g) ↦ ground arith
    ]
  ]

  entry_toggles :
      (p q : Process W) (info : SyscallInformation)
      → syscall_entry pf p ≡ returned info q
      → (info.entry ≡ true) × (q.expecting_syscall_exit ≡ true)
  unfolding syscall_entry set_expecting
  entry_toggles p q info run = elim (Run-cases (read_by_id_as pf Id.orig_rax p)) [
    | inr (e, r, h) ↦ absurd (ground arith)
    | inl (id, r, h) ↦ elim (Run-cases (read_all pf arg_regs r)) [
      | inr (e, s, g) ↦ absurd (ground arith)
      | inl (result, s, g) ↦ ground arith
    ]
  ]

  -- When `augment_stop_reason` returns at a stop that `PTRACE_O_TRACESYSGOOD` marks as a system call,
  -- the reason is a SIGTRAP by a system call; it is an entry exactly if no exit was expected, and from
  -- then on an exit is expected exactly if it was an entry.
  pub syscall_alternates :
      (p q : Process W) (reason r : StopReason)
      → reason.info ≡ 0x85
      → augment_stop_reason pf reason p ≡ returned r q
      → (r.info ≡ sigtrap)
        × (r.trap_reason ≡ some syscall)
        × ((info : SyscallInformation) × (r.syscall_info ≡ some info)
            × (info.entry ≡ not p.expecting_syscall_exit))
        × (q.expecting_syscall_exit ≡ not p.expecting_syscall_exit)
  unfolding augment_stop_reason syscall_trap
  syscall_alternates p q reason r mark run = elim (Sys-cases (pf.get_siginfo p.pid p.world)) [
    | inr (e, h) ↦ absurd (ground arith)
    | inl (code, h) ↦ elim (Bool-cases p.expecting_syscall_exit) [
      | inl waits ↦ elim (Run-cases (syscall_exit pf p)) [
        | inr (e, s, g) ↦ absurd (ground arith)
        | inl (info, s, g) ↦
            let (gone, off) = exit_toggles p s info g in
            (ground arith, ground arith, (info, ground arith, ground arith), ground arith)
      ]
      | inr no_exit ↦ elim (Run-cases (syscall_entry pf p)) [
        | inr (e, s, g) ↦ absurd (ground arith)
        | inl (info, s, g) ↦
            let (come, on) = entry_toggles p s info g in
            (ground arith, ground arith, (info, ground arith, ground arith), ground arith)
      ]
    ]
  ]
