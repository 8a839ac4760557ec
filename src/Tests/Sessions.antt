-- ===== src/Tests/Sessions.antt =====
-- A session of the program on a process that it attached to, at concrete inputs.
use sdb_building_a_debugger.Base.{
  ℕ, false, true, ◌≡◌, ◌^◌, ◌<◌, refl, arith, List, [], ◌∷◌, codes, length, replicate, some, pos,
}
use sdb_building_a_debugger.Platform.{done}
use sdb_building_a_debugger.Process.State.{Process, new_process}
use sdb_building_a_debugger.Process.Run.{ok, returned, Run}
use sdb_building_a_debugger.Process.StopReason.{stop_reason}
use sdb_building_a_debugger.Registers.Info.{register_info_by_id}
use sdb_building_a_debugger.Registers.Access.{get_pc}
use sdb_building_a_debugger.Control.Syscall.{augment_stop_reason, set_expecting, plain_trap}
use sdb_building_a_debugger.Control.Stop.{read_all_registers, read_debug_register, put_bytes, times}
use sdb_building_a_debugger.Control.Resume.{
  wait_pid, wait_on_signal, wait_step, on_stop, on_trap, set_state, is_stopped, set_ptrace_options,
}
use sdb_building_a_debugger.Control.Reach.{DistinctSites}
use sdb_building_a_debugger.Auxv.{get_auxv, read_entries, read_into, assign_entry}
use sdb_building_a_debugger.Auxv.Entries.{auxv_bytes, lookup}
use sdb_building_a_debugger.Elf.Types.{Elf}
use sdb_building_a_debugger.Elf.Build.{
  c_string, parse_section_headers, count_headers, copy_headers, structures,
}
use sdb_building_a_debugger.Elf.Open.{open_elf, fill_tables, filled}
use sdb_building_a_debugger.Elf.Bias.{in_file}
use sdb_building_a_debugger.Elf.Addresses.{
  section_containing_file, to_virt_addr, find_section, contains_file,
}
use sdb_building_a_debugger.Launch.{LaunchCalls}
use sdb_building_a_debugger.Launch
use sdb_building_a_debugger.Target.{
  TargetInput, Target, Opened, opened, not_opened, create_loaded_elf, open_for, attach_target,
  load_target, target_of,
}
use sdb_building_a_debugger.Target.Entry.{or_zero, create_loaded_elf-entry}
use sdb_building_a_debugger.Cli.Shell.{Message}
use sdb_building_a_debugger.Cli.Shell.Stays.{left}
use sdb_building_a_debugger.Cli.Main.{MainInput, attach}
use sdb_building_a_debugger.Cli.Main.Ends.{session, session_distinct}
use sdb_building_a_debugger.Tests.Machine.{World, machine}
use sdb_building_a_debugger.Tests.Sites.{code}
use sdb_building_a_debugger.Tests.Tables.{small}
use sdb_building_a_debugger.Tests.Lines.{no_decoder, no_floats}
use sdb_building_a_debugger.Tests.Programs.{agree, no_files}

abbrev no_calls : LaunchCalls World
no_calls = record {
  pipes = record {
    pipe2 = λ close_on_exec w. (done (pos 3, pos 4), w);
    close = λ fd w. w;
    read = λ fd n w. (done [], w);
    write = λ fd bytes w. (done (length bytes), w);
  };
  fork = λ w. (done 7, w);
  setpgid = λ w. agree w;
  personality = λ w. w;
  dup2 = λ fd w. (done 1, w);
  traceme = λ w. agree w;
  exec = λ path w. agree w;
  strerror = λ e. [];
}

abbrev one_file : TargetInput World
one_file = record no_files {
  calls = record {
    open_file = λ path w. (done 3, w);
    file_size = λ fd w. done 100;
    map_file = λ fd n w. (done (replicate 4096 0), w);
    unmap = λ bytes n w. w;
    close_file = λ fd w. w;
  };
  auxv_file = λ pid w. auxv_bytes ((9, 0x5555_1100) ∷ []) [];
}

abbrev entries : List (ℕ × ℕ)
entries = (9, 0x5555_1100) ∷ []

auxv_read : get_auxv 3 77 77 (auxv_bytes entries []) ≡ ok entries
unfolding get_auxv read_entries read_into assign_entry
auxv_read = refl

abbrev fresh : Process World
fresh = new_process code 7 false true (replicate 912 0) 0 0

abbrev loaded_run : Run World Elf
loaded_run = create_loaded_elf one_file (codes "/proc/7/exe") fresh

abbrev elf_of : Run World Elf → Elf
elf_of (returned obj p) = obj
elf_of _ = small

abbrev loaded : Elf
loaded = elf_of loaded_run

elf_loads : create_loaded_elf one_file (codes "/proc/7/exe") fresh ≡ returned loaded fresh
unfolding create_loaded_elf open_for open_elf fill_tables filled c_string parse_section_headers
    count_headers copy_headers structures get_auxv read_entries read_into assign_entry new_process
elf_loads = refl

loaded_entry : loaded.header.e_entry < 2 ^ 64
unfolding create_loaded_elf open_for open_elf fill_tables filled c_string parse_section_headers
    count_headers copy_headers structures get_auxv read_entries read_into assign_entry new_process
loaded_entry = omega arith

entry_fits : or_zero (lookup 9 entries) < 2 ^ 64
entry_fits = omega arith

in_text : section_containing_file loaded (in_file loaded loaded.header.e_entry) ≡ some 0
unfolding create_loaded_elf open_for open_elf fill_tables filled c_string parse_section_headers
    count_headers copy_headers structures get_auxv read_entries read_into assign_entry new_process
    section_containing_file find_section contains_file
in_text = refl

create_loaded_elf-entry_example :
    to_virt_addr (λ _. loaded) (in_file loaded loaded.header.e_entry)
    ≡ ok (or_zero (lookup 9 entries))
create_loaded_elf-entry_example =
    create_loaded_elf-entry one_file (codes "/proc/7/exe") fresh fresh loaded entries (λ _. loaded)
      0 auxv_read elf_loads refl loaded_entry entry_fits in_text

abbrev sys : MainInput World
sys = record {
  calls = no_calls;
  input = one_file;
  atoi = λ text. 7;
  on_interrupt = λ w. w;
  lines = codes "help" ∷ [];
  user = replicate 912 0;
  fuel = 1;
}

abbrev target_in : List Message × Opened World → Target World
target_in (said, opened target) = target
target_in (said, not_opened e w) = record { process = fresh; elf = small }

abbrev attached : Target World
attached = target_in (attach machine sys (codes "-p") (codes "7" ∷ []) code)

attaches : attach machine sys (codes "-p") (codes "7" ∷ []) code ≡ ([], opened attached)
unfolding attach attach_target load_target target_of Launch.attach Launch.owned
    Launch.wait_for_program Launch.seize Launch.attach_seized set_ptrace_options wait_on_signal
    wait_step wait_pid stop_reason set_state is_stopped on_stop read_all_registers put_bytes times
    read_debug_register register_info_by_id augment_stop_reason set_expecting plain_trap get_pc
    on_trap create_loaded_elf open_for open_elf fill_tables filled c_string parse_section_headers
    count_headers copy_headers structures get_auxv read_entries read_into assign_entry new_process
attaches = refl

session_distinct_example : DistinctSites (left (session machine no_decoder no_floats sys attached))
session_distinct_example =
    session_distinct machine no_decoder no_floats sys (codes "-p") (codes "7" ∷ []) code [] attached
      attaches
