-- ===== src/Tests/Lines.antt =====
-- Whole lines of the command line on the small machine.
use sdb_building_a_debugger.Base.{
  ℕ, ◌≡◌, refl, arith, List, [], ◌∷◌, ◌++◌, codes, bit_and, pos, false, true, none,
}
use sdb_building_a_debugger.Process.State.{Process, new_site, new_process}
use sdb_building_a_debugger.Stoppoints.{contains_address}
use sdb_building_a_debugger.Breakpoint.{with_low_byte, int3}
use sdb_building_a_debugger.Memory.Patch.{overwritten}
use sdb_building_a_debugger.Disassembler.{Decoder}
use sdb_building_a_debugger.Cli.Shell.{Message, finished, after}
use sdb_building_a_debugger.Cli.RegisterCommand.{FloatParsers}
use sdb_building_a_debugger.Cli.Commands.{handle_command, run_command, main_loop}
use sdb_building_a_debugger.Cli.Commands.Lines.{breakpoint_set, memory_write}
use sdb_building_a_debugger.Cli.Commands.Loop.{
  ThrowsErrors, main_loop_ends, main_loop-breakpoint_set, main_loop-memory_write,
}
use sdb_building_a_debugger.Cli.Words.{split, split_from, is_prefix}
use sdb_building_a_debugger.Cli.Help.{print_help}
use sdb_building_a_debugger.Tests.Machine.{World, machine, machine_laws, byte}
use sdb_building_a_debugger.Tests.Sites.{code, started, idle}
use sdb_building_a_debugger.Tests.Tables.{small}

abbrev pub no_decoder : Decoder
no_decoder address bytes = none

abbrev pub no_floats : FloatParsers
no_floats = record {
  double_chars = λ sv. record { stop = sv; value = none };
  long_double_chars = λ sv. record { stop = sv; value = none };
}

-- Help and a command that is not known: neither throws.
helps : ThrowsErrors machine no_decoder no_floats small 1 (codes "help")
unfolding handle_command split split_from run_command is_prefix print_help
helps p q e said h = cc

unknown : ThrowsErrors machine no_decoder no_floats small 1 (codes "jump 3")
unfolding handle_command split split_from run_command is_prefix
unknown p q e said h = cc

main_loop_ends_example :
    (q : Process World) × (said : List Message) × (main_loop machine no_decoder no_floats small 1
        (codes "help" ∷ codes "jump 3" ∷ [])
        started
      ≡ finished tt q said)
    × ((more : List (List ℕ))
        → main_loop machine no_decoder no_floats small 1
            ((codes "help" ∷ codes "jump 3" ∷ []) ++ more)
            started
          ≡ after said (main_loop machine no_decoder no_floats small 1 more q))
main_loop_ends_example =
    main_loop_ends machine no_decoder no_floats small 1 (codes "help" ∷ codes "jump 3" ∷ []) started
      (helps, (unknown, tt))

abbrev word : ℕ
word = 0x4948_4746_4544_4342

main_loop-breakpoint_set_example :
    main_loop machine no_decoder no_floats small 1
      (breakpoint_set 3 0x1042 ∷ codes "help" ∷ [])
      started
    ≡ main_loop machine no_decoder no_floats small 1 (codes "help" ∷ []) (record started {
      breakpoint_sites =
          []
          ++ (record (new_site (pos 1) 0x1042 false false) {
            saved_data = bit_and word 0xff;
            is_enabled = true;
          })
            ∷ [];
      breakpoint_id = 1;
      world = (machine.poke_data 7 0x1042 (with_low_byte word int3) code).1;
    })
unfolding contains_address new_process
main_loop-breakpoint_set_example =
    main_loop-breakpoint_set machine no_decoder no_floats small 1 started 3 0x1042 word
      (codes "help" ∷ []) (omega arith) (omega arith) refl (omega arith) refl refl

main_loop-memory_write_example :
    (w : World) × (main_loop machine no_decoder no_floats small 1
        (memory_write 3 0x3000 (1 ∷ 2 ∷ []) ∷ [])
        idle
      ≡ main_loop machine no_decoder no_floats small 1 [] (record idle { world = w }))
    × ((c : ℕ) → byte w c ≡ overwritten 0x3000 (1 ∷ 2 ∷ []) (byte code) c)
main_loop-memory_write_example =
    main_loop-memory_write machine no_decoder no_floats small 1 machine_laws (λ a n w mapped. refl)
      idle 3 0x3000 (1 ∷ 2 ∷ []) [] refl (omega arith) (omega arith)
      (omega arith, (omega arith, tt)) (λ i inside gone. cc)
