-- ===== src/Cli/Main.antt =====
-- `handle_sigint`, `attach` and `main` of tools/sdb.cpp.
pub mod Ends
use sdb_building_a_debugger.Base.{
  ℕ, List, [], ◌∷◌, ◌++◌, codes, text_eq, if◌then◌else◌, ℤ, pos, negsuc,
}
use sdb_building_a_debugger.Platform.{Platform}
use sdb_building_a_debugger.Process.Run.{Failure, undefined, M, ◌>>=◌, get, ignoring}
use sdb_building_a_debugger.Process.StopReason.{sigstop}
use sdb_building_a_debugger.Elf.Types.{Elf}
use sdb_building_a_debugger.Launch.{
  LaunchCalls, Child, became_program, exited_with_error, child_threw,
}
use sdb_building_a_debugger.Target.{
  TargetInput, Opened, opened, not_opened, launch_target, attach_target, destroy_target,
}
use sdb_building_a_debugger.Disassembler.{Decoder}
use sdb_building_a_debugger.Cli.Shell.{
  number, piece, printed, complained, reported, Message, Ran, finished, raised, is_sdb_error,
}
use sdb_building_a_debugger.Cli.RegisterCommand.{FloatParsers}
use sdb_building_a_debugger.Cli.Commands.{main_loop}

-- What `main` needs of the system, a parameter: the calls of `launch` and of `create_loaded_elf`,
-- `atoi` at the texts of numbers that are not negative, `signal(SIGINT, ...)`, the lines that
-- `readline` gives, what the storage of the registers held, and the bound on the system calls that a wait
-- passes over.
pub record MainInput (W : Type 0) : Type 0 where
  pub calls : LaunchCalls W
  pub input : TargetInput W
  pub atoi : List ℕ → ℕ
  pub on_interrupt : W → W
  pub lines : List (List ℕ)
  pub user : List ℕ
  pub fuel : ℕ

-- How the program ends, with all that it said: by a return from `main`, by an exception that nothing
-- catches, or, in the child of `fork`, because it became another program.
pub data Ended (W : Type 0) : Type 0 where
  quit : ℤ → W → List Message → Ended W
  crashed : Failure → W → List Message → Ended W
  replaced : W → Ended W

-- An exception that reaches `main`; `w` is the world after the destructors, which do not run where
-- nothing catches it, and `aborted` the world without them.
unfoldable pub on_exception : {W : Type 0} → Failure → W → W → List Message → Ended W
unfolding is_sdb_error
on_exception e w aborted said =
    if is_sdb_error e then quit (pos 0) w (said ++ reported e ∷ []) else crashed e aborted said

module _ {W : Type 0} (pf : Platform W) where
  -- The handler of SIGINT.
  unfoldable pub handle_sigint : M W (Unit {0})
  handle_sigint = do p ← get; ignoring (pf.kill p.pid sigstop)

  abbrev launched_message : Opened W → List Message
  launched_message (not_opened e w) = []
  launched_message (opened target) =
      printed (piece "launched process with PID {}\n" (number target.process.pid ∷ []) ∷ []) ∷ []

  module _ (sys : MainInput W) where
    -- The end of `main`'s `try` block destroys the target.
    unfoldable pub end_of_loop : Elf → List Message → Ran W (Unit {0}) → Ended W
    unfolding on_exception destroy_target
    end_of_loop obj said (finished _ p more) =
        quit (pos 0) (destroy_target pf sys.input obj p) (said ++ more)
    end_of_loop obj said (raised e p more) =
        on_exception e (destroy_target pf sys.input obj p) p.world (said ++ more)

    abbrev open_by_pid : List ℕ → W → List Message × Opened W
    open_by_pid text w = ([], attach_target pf sys.input sys.fuel sys.user (sys.atoi text) w)

    abbrev open_by_path : List ℕ → W → List Message × Opened W
    open_by_path program_path w =
        let target = launch_target pf sys.input sys.calls sys.fuel sys.user program_path w in
        (launched_message target, target)

    -- The arguments behind the program's name, of which there is one at least.
    unfoldable pub attach : List ℕ → List (List ℕ) → W → List Message × Opened W
    attach first (second ∷ []) w =
        if text_eq first (codes "-p") then open_by_pid second w else open_by_path first w
    attach first _ w = open_by_path first w

    module _ (decode : Decoder) (floats : FloatParsers) where
      unfoldable pub run_target : List Message × Opened W → Ended W
      unfolding end_of_loop on_exception
      run_target (said, not_opened e w) = on_exception e w w said
      run_target (said, opened target) =
          let p = target.process in
          end_of_loop target.elf said (
            main_loop pf decode floats target.elf sys.fuel sys.lines
              (record p { world = sys.on_interrupt p.world }))

      -- In the parent of the `fork` that a launch makes.
      unfoldable pub main : List (List ℕ) → W → Ended W
      unfolding attach run_target
      main [] w = crashed undefined w []
      main (name ∷ []) w =
          quit (negsuc 0) w (complained (piece "no arguments given\n" [] ∷ []) ∷ [])
      main (name ∷ first ∷ more) w = run_target (attach first more w)

-- In the child: what `main` does when `launch` leaves it there.
unfoldable pub child_main : {W : Type 0} → Child W → Ended W
unfolding on_exception
child_main (became_program w) = replaced w
child_main (exited_with_error w) = quit (negsuc 0) w []
child_main (child_threw e w) = on_exception e w w []
