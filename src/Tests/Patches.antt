-- ===== src/Tests/Patches.antt =====
-- The program's memory behind its breakpoint sites, and caught system calls, at concrete inputs.
use sdb_building_a_debugger.Base.{
  ℕ, ◌≡◌, refl, arith, false, true, List, [], ◌∷◌, All, get_or, none, some, pos,
}
use sdb_building_a_debugger.Platform.{Platform}
use sdb_building_a_debugger.Process.State.{
  Process, StopReason, SyscallInformation, stopped, syscall, new_process, catch_some,
}
use sdb_building_a_debugger.Process.Run.{error_at, Run, returned, threw}
use sdb_building_a_debugger.Process.Keeps.{final}
use sdb_building_a_debugger.Process.StopReason.{stop_reason}
use sdb_building_a_debugger.Memory.Model.{stretch}
use sdb_building_a_debugger.Memory.{read_memory_without_traps}
use sdb_building_a_debugger.Stoppoints.{contains_address, push}
use sdb_building_a_debugger.Breakpoint.{
  enable, disable, make_site, create_breakpoint_site, site_at, plant, unplant, update_site,
}
use sdb_building_a_debugger.Breakpoint.Create.{create_twice}
use sdb_building_a_debugger.Registers.Info.{register_info_by_id}
use sdb_building_a_debugger.Registers.Access.{get_pc}
use sdb_building_a_debugger.Control.Syscall.{
  augment_stop_reason, set_expecting, syscall_trap, syscall_exit, is_caught,
}
use sdb_building_a_debugger.Control.Stop.{read_all_registers, read_debug_register, put_bytes, times}
use sdb_building_a_debugger.Control.Resume.{
  wait_pid, wait_on_signal, wait_step, on_stop, on_trap, set_state, is_stopped,
  maybe_resume_from_syscall,
}
use sdb_building_a_debugger.Control.Caught.{IsChosen, wait_on_signal_caught}
use sdb_building_a_debugger.Control.Unseen.{FailsInPage}
use sdb_building_a_debugger.Control.Patching.{
  Patched, create, enabling, disabling, here, further, reads_unpatched, memory_unpatched,
}
use sdb_building_a_debugger.Tests.Machine.{World, machine, machine_laws, byte}
use sdb_building_a_debugger.Tests.Sites.{started, idle}

abbrev one : Process World
one = final (create_breakpoint_site 0x1042 false false started)

enabled : FailsInPage machine machine_laws one 0
unfolding create_breakpoint_site enable site_at plant update_site contains_address make_site push
    new_process
enabled e q s fails at = cc

abbrev two : Process World
two = final (enable machine 0 one)

abbrev three : Process World
three = final (disable machine 0 two)

planted : Patched machine machine_laws started two
planted =
    further started one two
      (further started started one (here started) (create started 0x1042 false (omega arith)))
      (enabling one 0 enabled)

lifted : Patched machine machine_laws started three
lifted = further started two three planted (disabling two 0)

creates : create_breakpoint_site 0x1042 false false started ≡ returned 0 one
unfolding create_breakpoint_site contains_address make_site push new_process
creates = refl

create_twice_example :
    create_breakpoint_site 0x1042 true false one
    ≡ threw (error_at "breakpoint site already created at address " 0x1042) one
create_twice_example = create_twice started one 0x1042 0 false false true false creates

started_pid : started.pid ≡ 7
unfolding new_process
started_pid = refl

no_sites : started.breakpoint_sites ≡ []
unfolding new_process
no_sites = refl

mapped : stretch (byte started.world) 0x1040 4 ≡ some (0x40 ∷ 0x41 ∷ 0x42 ∷ 0x43 ∷ [])
unfolding new_process
mapped = refl

reads_unpatched_example :
    (bytes : List ℕ) × (read_memory_without_traps machine 0x1040 4 two ≡ returned bytes two)
    × (get_or bytes 2 0 ≡ get_or (0x40 ∷ 0x41 ∷ 0x42 ∷ 0x43 ∷ []) 2 0)
reads_unpatched_example =
    reads_unpatched machine machine_laws started two 0x1040 4 2 (0x40 ∷ 0x41 ∷ 0x42 ∷ 0x43 ∷ [])
      started_pid no_sites planted (omega arith) (omega arith) (omega arith) mapped

sites_off : All (λ s. s.is_enabled ≡ false) three.breakpoint_sites
unfolding create_breakpoint_site enable disable site_at plant unplant update_site contains_address
    make_site push new_process
sites_off = (refl, tt)

memory_unpatched_example : byte three.world 0x1042 ≡ byte started.world 0x1042
memory_unpatched_example =
    memory_unpatched machine machine_laws started three 0x1042 started_pid no_sites lifted sites_off

-- A machine that stops with SIGTRAP | 0x80, as at a system call.
abbrev calling : Platform World
calling = record machine { stop_sig = λ status. 0x85 }

abbrev expecting : Process World
expecting = record idle {
  syscall_catch_policy = catch_some (pos 0 ∷ []);
  expecting_syscall_exit = true;
}

abbrev reason_of : Run World StopReason → StopReason
reason_of (returned reason p) = reason
reason_of (threw e p) = record {
  reason = stopped;
  info = 0;
  trap_reason = none;
  syscall_info = none;
}

abbrev stop : StopReason
stop = reason_of (wait_on_signal calling 1 expecting)

abbrev waited : Process World
waited = final (wait_on_signal calling 1 expecting)

waits : wait_on_signal calling 1 expecting ≡ returned stop waited
unfolding wait_on_signal wait_step wait_pid stop_reason set_state is_stopped on_stop
    read_all_registers put_bytes times read_debug_register register_info_by_id augment_stop_reason
    set_expecting syscall_trap syscall_exit get_pc on_trap maybe_resume_from_syscall is_caught
waits = refl

at_syscall : stop.trap_reason ≡ some syscall
unfolding wait_on_signal wait_step wait_pid stop_reason set_state is_stopped on_stop
    read_all_registers put_bytes times read_debug_register register_info_by_id augment_stop_reason
    set_expecting syscall_trap syscall_exit get_pc on_trap maybe_resume_from_syscall is_caught
at_syscall = refl

wait_on_signal_caught_example :
    (waited.syscall_catch_policy ≡ catch_some (pos 0 ∷ []))
    × ((info : SyscallInformation) × (stop.syscall_info ≡ some info)
        × (is_caught (catch_some (pos 0 ∷ [])) info.id ≡ true)
        × IsChosen (catch_some (pos 0 ∷ [])) info.id)
wait_on_signal_caught_example =
    wait_on_signal_caught calling 1 expecting waited stop waits at_syscall
