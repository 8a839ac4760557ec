-- ===== src/Cli/Main/Ends.antt =====
-- How the program of tools/sdb.cpp ends.
use sdb_building_a_debugger.Base.{
  ℕ, ◌≡◌, refl, subst, text_eq, Bool-cases, inl, inr, ◌≤◌, take, String, List, [], ◌∷◌, codes,
  length, none, true, pos, negsuc,
}
use sdb_building_a_debugger.Platform.{Platform, done}
use sdb_building_a_debugger.Process.Run.{ok, error_text}
use sdb_building_a_debugger.Pipe.{Pipe, open_pipe, close_write}
use sdb_building_a_debugger.Launch.{exited_with_error, run_child}
use sdb_building_a_debugger.Launch.Reports.{
  FailedCall, ChannelLaws, perror_text, reaped, launch_reports,
}
use sdb_building_a_debugger.Target.{Target, opened, load_target, launch_target}
use sdb_building_a_debugger.Target.Start.{
  OpenedDistinct, launch_target_distinct, attach_target_distinct,
}
use sdb_building_a_debugger.Control.Reach.{DistinctSites}
use sdb_building_a_debugger.Disassembler.{Decoder}
use sdb_building_a_debugger.Cli.Shell.{Message, Ran, reported, is_sdb_error}
use sdb_building_a_debugger.Cli.Shell.Stays.{left}
use sdb_building_a_debugger.Cli.Commands.Distinct.{main_loop-DistinctSites}
use sdb_building_a_debugger.Cli.RegisterCommand.{FloatParsers}
use sdb_building_a_debugger.Cli.Commands.{main_loop}
use sdb_building_a_debugger.Cli.Main.{
  MainInput, quit, main, attach, run_target, on_exception, child_main,
}

module _ {W : Type 0} (pf : Platform W) (decode : Decoder) (floats : FloatParsers)
    (sys : MainInput W) where
  -- `sdb <program>` where the pipe is opened and a child is forked, the pipe is empty at the child's
  -- start and obeys the laws of a pipe, no text of `strerror` is longer than 900 bytes, the child
  -- exits because one of its calls failed, and the parent's read of the pipe gives what the child
  -- left in it, up to 1024 bytes: `main` prints the text that `perror` would print of the failed
  -- call, and nothing else, and returns 0; the child's exit code is -1.
  pub main-launch_failed :
      (pending : W → List ℕ) (name path : List ℕ) (pid : ℕ) (channel : Pipe) (w w1 w2 v0 v : W)
      → ChannelLaws sys.calls channel.read_fd channel.write_fd pending
      → ((e : ℕ) → length (sys.calls.strerror e) ≤ 900)
      → open_pipe sys.calls.pipes true w ≡ (ok channel, w1)
      → sys.calls.fork w1 ≡ (done pid, w2)
      → pending v0 ≡ []
      → run_child sys.calls channel path true none v0 ≡ exited_with_error v
      → (sys.calls.pipes.read channel.read_fd 1024 (close_write sys.calls.pipes channel w2).1).0
        ≡ done (take 1024 (pending v))
      → (prefix : String) × (e : ℕ) × FailedCall sys.calls prefix e
        × (main pf sys decode floats (name ∷ path ∷ []) w
            ≡ quit
                (pos 0)
                (reaped pf sys.calls pid channel w2)
                (reported (error_text (perror_text sys.calls prefix e)) ∷ []))
        × (child_main (run_child sys.calls channel path true none v0) ≡ quit (negsuc 0) v [])
  unfolding main run_target launch_target load_target on_exception attach child_main is_sdb_error
  main-launch_failed pending name path pid channel w w1 w2 v0 v laws short opens forks empty fails
        reads =
      let (prefix, e, cause, throws) =
        launch_reports pf sys.calls pending sys.fuel 0 0 pid sys.user path true none channel w w1 w2
          v0 v laws short opens forks empty fails reads in
      (prefix, e, cause, rw throws refl, rw fails refl)

  attach-OpenedDistinct :
      (first : List ℕ) (more : List (List ℕ)) (w : W)
      → OpenedDistinct (attach pf sys first more w).1
  unfolding attach
  attach-OpenedDistinct first [] w =
      launch_target_distinct pf sys.input sys.calls sys.fuel sys.user first w
  attach-OpenedDistinct first (second ∷ []) w = elim (Bool-cases (text_eq first (codes "-p"))) [
    | inl by_pid ↦
        rw by_pid (attach_target_distinct pf sys.input sys.fuel sys.user (sys.atoi second) w)
    | inr by_path ↦
        rw by_path (launch_target_distinct pf sys.input sys.calls sys.fuel sys.user first w)
  ]
  attach-OpenedDistinct first (second ∷ third ∷ more) w =
      launch_target_distinct pf sys.input sys.calls sys.fuel sys.user first w

  abbrev pub session : Target W → Ran W (Unit {0})
  session target =
      main_loop pf decode floats target.elf sys.fuel sys.lines
        (record target.process { world = sys.on_interrupt target.process.world })

  -- Where `attach` makes a target, from a program or from the number of a process: whatever lines
  -- are typed, no two breakpoint sites of the process have one address when `main_loop` is left,
  -- whether it read all the lines or an exception ended it.
  pub session_distinct :
      (first : List ℕ) (more : List (List ℕ)) (w : W) (said : List Message) (target : Target W)
      → attach pf sys first more w ≡ (said, opened target)
      → DistinctSites (left (session target))
  session_distinct first more w said target starts =
      let start : DistinctSites target.process =
        subst (λ r. OpenedDistinct r.1) starts (attach-OpenedDistinct first more w) in
      (main_loop-DistinctSites pf decode floats target.elf sys.fuel sys.lines).distinct
        (record target.process { world = sys.on_interrupt target.process.world }) start
