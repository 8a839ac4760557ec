-- ===== src/Tests/Programs.antt =====
-- Launching, attaching and the program's end at concrete inputs.
use sdb_building_a_debugger.Base.{
  ℕ, ◌%◌, ◌≡◌, refl, arith, ◌==◌, false, true, String, List, [], ◌∷◌, ◌++◌, codes, length,
  replicate, if◌then◌else◌, some, none, pos, negsuc,
}
use sdb_building_a_debugger.Platform.{Platform, Sys, done, failed}
use sdb_building_a_debugger.Process.Run.{ok, error_text}
use sdb_building_a_debugger.Pipe.{Pipe, open_pipe, close_read, write_pipe}
use sdb_building_a_debugger.Launch.{
  LaunchCalls, exited_with_error, run_child, or_exit, exit_with_perror, replace_stdout,
  request_trace, was_written,
}
use sdb_building_a_debugger.Launch.Reports.{FailedCall, ChannelLaws, perror_text, reaped}
use sdb_building_a_debugger.Target.{TargetInput}
use sdb_building_a_debugger.Cli.Shell.{reported}
use sdb_building_a_debugger.Cli.Main.{MainInput, quit, main, child_main}
use sdb_building_a_debugger.Cli.Main.Ends.{main-launch_failed}
use sdb_building_a_debugger.Tests.Machine.{x86_64}
use sdb_building_a_debugger.Tests.Tables.{code_section}
use sdb_building_a_debugger.Tests.Lines.{no_decoder, no_floats}

abbrev pub agree : {W : Type 0} → W → Sys (Unit {0}) × W
agree w = (done tt, w)

-- A world that is what the pipe holds.
abbrev Sent : Type 0
Sent = List ℕ

abbrev inert : Platform Sent
inert = record {
  layout = x86_64;
  floats = record {
    float_to_double = λ xs. xs;
    float_to_long_double = λ xs. xs;
    double_to_long_double = λ xs. xs;
    long_double_to_double = λ xs. xs;
  };
  peek_data = λ pid a w. done 0;
  poke_data = λ pid a n w. agree w;
  peek_user = λ pid offset w. done 0;
  poke_user = λ pid offset n w. agree w;
  get_regs = λ pid w. done (replicate 216 0);
  get_fpregs = λ pid w. done (replicate 512 0);
  set_regs = λ pid bytes w. agree w;
  set_fpregs = λ pid bytes w. agree w;
  get_siginfo = λ pid w. done 2;
  single_step = λ pid w. agree w;
  cont = λ pid w. agree w;
  cont_syscall = λ pid w. agree w;
  attach_to = λ pid w. agree w;
  detach = λ pid w. agree w;
  set_options = λ pid w. agree w;
  kill = λ pid signal w. agree w;
  waitpid = λ pid w. (done 0x57f, w);
  if_exited = λ status. status % 128 == 0;
  exit_status = λ status. status;
  if_signaled = λ status. false;
  term_sig = λ status. status % 128;
  if_stopped = λ status. status % 256 == 0x7f;
  sigabbrev = λ signal. if signal == 5 then some (codes "TRAP") else none;
  stop_sig = λ status. 5;
  process_vm_readv = λ pid descs w. done [];
}

abbrev missing : List ℕ
missing = codes "No such file or directory"

abbrev no_such_program : LaunchCalls Sent
no_such_program = record {
  pipes = record {
    pipe2 = λ close_on_exec w. (done (pos 3, pos 4), w);
    close = λ fd w. w;
    read = λ fd n w. (done (codes "exec failed" ++ codes ": " ++ missing), w);
    write = λ fd bytes w. (done (length bytes), w ++ bytes);
  };
  fork = λ w. (done 7, w);
  setpgid = λ w. agree w;
  personality = λ w. w;
  dup2 = λ fd w. (done 1, w);
  traceme = λ w. agree w;
  exec = λ path w. (failed 2, w);
  strerror = λ e. missing;
}

abbrev pub no_files : {W : Type 0} → TargetInput W
no_files = record {
  calls = record {
    open_file = λ path w. (failed 2, w);
    file_size = λ fd w. failed 2;
    map_file = λ fd n w. (failed 2, w);
    unmap = λ bytes n w. w;
    close_file = λ fd w. w;
  };
  abi = record {
    file_header = λ bytes. record {
      e_entry = 0x1100;
      e_shoff = 0;
      e_shentsize = 64;
      e_shnum = 1;
      e_shstrndx = 0;
    };
    section_header = λ bytes. code_section;
    sizeof_section = 64;
    symbol = λ bytes. record { st_name = 0; st_info = 0; st_value = 0; st_size = 0 };
    sizeof_symbol = 24;
    demangle = λ name. none;
  };
  auxv_file = λ pid w. [];
  rounds = 3;
  held_id = 77;
  held_value = 77;
  object = 1;
}

abbrev failing : MainInput Sent
failing = record {
  calls = no_such_program;
  input = no_files;
  atoi = λ text. 7;
  on_interrupt = λ w. w;
  lines = codes "help" ∷ [];
  user = replicate 912 0;
  fuel = 1;
}

abbrev channel : Pipe
channel = record { read_fd = pos 3; write_fd = pos 4 }

abbrev sent : Sent
sent = codes "exec failed" ++ codes ": " ++ missing

child_fails :
    run_child no_such_program channel (codes "nothing") true none [] ≡ exited_with_error sent
unfolding run_child or_exit exit_with_perror replace_stdout request_trace was_written close_read
    write_pipe
child_fails = refl

pipe_opens : open_pipe no_such_program.pipes true [] ≡ (ok channel, [])
unfolding open_pipe
pipe_opens = refl

channel_laws : ChannelLaws no_such_program (pos 3) (pos 4) (λ w. w)
channel_laws = record {
  pending-write = λ bytes n u fits d. refl;
  pending-close = λ u. refl;
  pending-setpgid = λ u. refl;
  pending-personality = λ u. refl;
  pending-dup2 = λ fd u. refl;
  pending-traceme = λ u. refl;
  pending-exec = λ path e u d. refl;
}

main-launch_failed_example :
    (prefix : String) × (e : ℕ) × FailedCall no_such_program prefix e
    × (main inert failing no_decoder no_floats (codes "sdb" ∷ codes "nothing" ∷ []) []
        ≡ quit
            (pos 0)
            (reaped inert no_such_program 7 channel [])
            (reported (error_text (perror_text no_such_program prefix e)) ∷ []))
    × (child_main (run_child no_such_program channel (codes "nothing") true none [])
        ≡ quit (negsuc 0) sent [])
main-launch_failed_example =
    main-launch_failed inert no_decoder no_floats failing (λ w. w) (codes "sdb") (codes "nothing") 7
      channel [] [] [] [] sent channel_laws (λ e. omega arith) pipe_opens refl refl child_fails refl
