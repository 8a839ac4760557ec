-- ===== src/Tests/Points.antt =====
-- Addresses, registers, stop points and stops at concrete inputs.
use sdb_building_a_debugger.Base.{
  ◌%◌, ◌^◌, ◌≡◌, refl, arith, true, false, not, [], ◌∷◌, some, none, if◌then◌else◌, ◌==◌, pos,
  negsuc, ◌⊎◌, inl, inr, replicate, bit_at,
}
use sdb_building_a_debugger.Types.{StoppointMode}
use sdb_building_a_debugger.Process.State.{
  SyscallValues, Process, new_site, StopReason, SyscallInformation, stopped, running, syscall,
  Watchpoint,
}
use sdb_building_a_debugger.Process.Run.{ok, returned}
use sdb_building_a_debugger.Process.StopReason.{sigtrap}
use sdb_building_a_debugger.Registers.Value.{RegisterInfo, RegisterType, RegisterFormat, u32}
use sdb_building_a_debugger.Registers.Id
use sdb_building_a_debugger.Registers.Info.{
  register_info_by_id, register_info_by_name, register_info_by_dwarf,
}
use sdb_building_a_debugger.Registers.Access.{read, store_value, read_by_id_as, get_pc}
use sdb_building_a_debugger.Registers.Lookup.{register_info_lookups, has_id}
use sdb_building_a_debugger.Registers.RoundTrip.{
  read-store_value, read-store_value_other, uint_value,
}
use sdb_building_a_debugger.Stoppoints.{
  breakpoint_stoppoint, contains_address, enabled_stoppoint_at_address,
}
use sdb_building_a_debugger.Hardware.{control_with, control_without, find_free_stoppoint_register}
use sdb_building_a_debugger.Hardware.ControlBits.{
  control_with_bits, control_without_bits, in_slot, slot_bit, dropped,
}
use sdb_building_a_debugger.Hardware.Slots.{
  find_free-FindsFree, FindsFree, control_without-control_with,
}
use sdb_building_a_debugger.Watchpoint.{is_aligned, update_data}
use sdb_building_a_debugger.Watchpoint.Update.{update_data_lem, is_aligned_lem}
use sdb_building_a_debugger.Control.Syscall.{
  augment_stop_reason, syscall_entry, set_expecting, read_all, syscall_trap,
}
use sdb_building_a_debugger.Control.Augment.{syscall_alternates}
use sdb_building_a_debugger.Control.Resume.{resume, resume_request, set_state}
use sdb_building_a_debugger.Tests.Machine.{World, machine, machine_laws, x86_64}
use sdb_building_a_debugger.Tests.Sites.{idle, site}

register_info_lookups_example :
    (info : RegisterInfo) × (register_info_by_id x86_64 Id.rip ≡ ok info)
    × (info.id ≡ Id.rip)
    × (has_id Id.rip (register_info_by_name x86_64 info.name) ≡ true)
    × ((info.dwarf_id ≡ negsuc 0)
        ⊎ (has_id Id.rip (register_info_by_dwarf x86_64 info.dwarf_id) ≡ true))
register_info_lookups_example = register_info_lookups x86_64 Id.rip (omega arith)

abbrev half : RegisterInfo
half = record {
  id = 27;
  name = [];
  dwarf_id = negsuc 0;
  size = 4;
  offset = 8;
  type = RegisterType.sub_gpr;
  format = RegisterFormat.uint;
}

abbrev behind : RegisterInfo
behind = record half { offset = 12 }

read-store_value_example :
    read (store_value machine half (uint_value 4 0x12345678) (replicate 16 0)) half
    ≡ ok (uint_value 4 0x12345678)
read-store_value_example =
    read-store_value machine half 0x12345678 (replicate 16 0) refl (inr (inr (inl refl)))
      (omega arith) (omega arith)

read-store_value_other_example :
    read (store_value machine half (u32 5) (replicate 16 0)) behind ≡ read (replicate 16 0) behind
read-store_value_other_example =
    read-store_value_other machine half behind (u32 5) (replicate 16 0) (inr (omega arith))

control_with_bits_example :
    bit_at (control_with 0xf 2 1 3) 24
    ≡ (if in_slot 2 24 then slot_bit 2 1 3 24 else if dropped 2 24 then 0 else bit_at 0xf 24)
control_with_bits_example =
    control_with_bits 0xf 2 1 3 24 (omega arith) (omega arith) (omega arith) (omega arith)

control_without_bits_example :
    bit_at (control_without 0xf 1) 2 ≡ (if dropped 1 2 then 0 else bit_at 0xf 2)
control_without_bits_example = control_without_bits 0xf 1 2 (omega arith) (omega arith)

control_without-control_with_example :
    bit_at (control_without (control_with 0x5 2 1 3) 2) 24 ≡ bit_at (control_without 0x5 2) 24
control_without-control_with_example =
    control_without-control_with 0x5 2 1 3 24 (omega arith) (omega arith) (omega arith)
      (omega arith)

find_free-FindsFree_example : FindsFree 0x5 (find_free_stoppoint_register 0x5)
find_free-FindsFree_example = find_free-FindsFree 0x5

free_address : contains_address (site ∷ []) 0x1050 ≡ false
unfolding contains_address
free_address = refl

abbrev grown : Process World
grown = record idle {
  breakpoint_sites = site ∷ new_site (pos 2) 0x1050 true false ∷ [];
  breakpoint_id = 2;
}

abbrev first_point : Watchpoint
first_point = record {
  id = pos 1;
  address = 0x2000;
  mode = StoppointMode.write;
  size = 4;
  is_enabled = false;
  data_now = 0;
  previous_data = 0;
  hardware_register_index = negsuc 0;
}

update_data_example :
    update_data machine 0 idle
    ≡ returned tt (record idle {
      watchpoints = record first_point { data_now = 0x3020100; previous_data = 0 } ∷ [];
    })
update_data_example =
    update_data_lem machine machine_laws idle 0 first_point (0 ∷ 1 ∷ 2 ∷ 3 ∷ []) refl refl refl
      (omega arith) refl

is_aligned_example : is_aligned 0x2004 (2 ^ 3) ≡ (0x2004 % 2 ^ 3 == 0)
is_aligned_example = is_aligned_lem 0x2004 3 (omega arith)

abbrev syscall_stop : StopReason
syscall_stop = record { reason = stopped; info = 0x85; trap_reason = none; syscall_info = none }

abbrev entered : SyscallInformation
entered = record { id = 0; entry = true; values = SyscallValues.args (0 ∷ 0 ∷ 0 ∷ 0 ∷ 0 ∷ 0 ∷ []) }

abbrev at_entry : StopReason
at_entry = record {
  reason = stopped;
  info = 5;
  trap_reason = some syscall;
  syscall_info = some entered;
}

augment_runs :
    augment_stop_reason machine syscall_stop idle
    ≡ returned at_entry (record idle { expecting_syscall_exit = true })
unfolding augment_stop_reason syscall_entry set_expecting read_all read_by_id_as register_info_by_id
    syscall_trap
augment_runs = refl

syscall_alternates_example :
    (at_entry.info ≡ sigtrap)
    × (at_entry.trap_reason ≡ some syscall)
    × ((info : SyscallInformation) × (at_entry.syscall_info ≡ some info)
        × (info.entry ≡ not idle.expecting_syscall_exit))
    × (true ≡ not idle.expecting_syscall_exit)
syscall_alternates_example =
    syscall_alternates machine idle (record idle { expecting_syscall_exit = true }) syscall_stop
      at_entry refl augment_runs

abbrev resumed : Process World
resumed = record idle { state = running }

resumes : resume machine idle ≡ returned tt resumed
unfolding resume resume_request set_state get_pc register_info_by_id enabled_stoppoint_at_address
resumes = refl
