-- ===== src/Target/Start.antt =====
-- The process of a target that `target::launch` or `target::attach` (src/target.cpp) has made.
use sdb_building_a_debugger.Base.{ℕ, refl, Bool, true, false, List, [], ◌∷◌, inl, inr}
use sdb_building_a_debugger.Platform.{Platform, Sys, done, failed}
use sdb_building_a_debugger.Process.State.{Process, new_process}
use sdb_building_a_debugger.Process.Run.{Outcome, ok, bad, Run, returned, threw, Outcome-cases}
use sdb_building_a_debugger.Process.Keeps.{Keeps, keeps, final}
use sdb_building_a_debugger.Control.Resume.{set_ptrace_options}
use sdb_building_a_debugger.Control.Keeps.{Keeps-wait_on_signal}
use sdb_building_a_debugger.Control.Reach.{DistinctSites, SameSites-DistinctSites}
use sdb_building_a_debugger.Elf.Types.{Elf}
use sdb_building_a_debugger.Elf.Open.{open_elf}
use sdb_building_a_debugger.Pipe.{Pipe, open_pipe}
use sdb_building_a_debugger.Launch.{
  LaunchCalls, Launched, launched, launch_threw, owned, wait_for_program, after_read, run_parent,
  fork_child, launch_with, launch, seize, attach_seized, attach,
}
use sdb_building_a_debugger.Target.{
  TargetInput, Opened, opened, not_opened, target_of, load_target, open_for, create_loaded_elf,
  launch_target, attach_target, proc_path,
}

-- The process that was made, if any.
abbrev pub LaunchedDistinct : {W : Type 0} → Launched W → Type 0
LaunchedDistinct (launched p) = DistinctSites p
LaunchedDistinct (launch_threw e w) = Unit {0}

abbrev pub OpenedDistinct : {W : Type 0} → Opened W → Type 0
OpenedDistinct (opened target) = DistinctSites target.process
OpenedDistinct (not_opened e w) = Unit {0}

module _ {W : Type 0} (pf : Platform W) where
  Keeps-set_options : Keeps (set_ptrace_options pf)
  unfolding set_ptrace_options
  Keeps-set_options = search keeps depth 8

  Keeps-wait_for_program : (fuel : ℕ) (debug : Bool) → Keeps (wait_for_program pf fuel debug)
  unfolding wait_for_program
  Keeps-wait_for_program fuel false = search keeps
  Keeps-wait_for_program fuel true = search (keeps, Keeps-wait_on_signal, Keeps-set_options) depth 8

  owned_distinct : (r : Run W (Unit {0})) → DistinctSites (final r) → LaunchedDistinct (owned pf r)
  unfolding owned
  owned_distinct (returned _ p) h = h
  owned_distinct (threw e p) h = tt

  -- A new process has no sites.
  started_distinct :
      (fuel : ℕ) (debug : Bool) (p : Process W)
      → DistinctSites p
      → LaunchedDistinct (owned pf (wait_for_program pf fuel debug p))
  started_distinct fuel debug p h = owned_distinct (wait_for_program pf fuel debug p) (
      SameSites-DistinctSites p (final (wait_for_program pf fuel debug p))
        ((Keeps-wait_for_program fuel debug).same p) h)

  after_read_distinct :
      (fuel : ℕ) (debug : Bool) (user : List ℕ) (b n pid : ℕ) (bytes : Outcome (List ℕ)) (w : W)
      → LaunchedDistinct (after_read pf fuel debug user b n pid bytes w)
  unfolding after_read new_process
  after_read_distinct fuel debug user b n pid (bad e) w = tt
  after_read_distinct fuel debug user b n pid (ok []) w =
      started_distinct fuel debug (new_process w pid true debug user b n) tt
  after_read_distinct fuel debug user b n pid (ok (c ∷ chars)) w = tt

  launch_distinct :
      (calls : LaunchCalls W) (fuel : ℕ) (debug : Bool) (user : List ℕ) (b n : ℕ) (w : W)
      → LaunchedDistinct (launch pf calls fuel debug user b n w)
  unfolding launch launch_with fork_child run_parent
  launch_distinct calls fuel debug user b n w = at_pipe (open_pipe calls.pipes true w)
    where
      at_fork :
          (channel : Pipe) (forked : Sys ℕ × W)
          → LaunchedDistinct (fork_child pf calls fuel debug user b n channel forked)
      at_fork channel (failed e, v) = tt
      at_fork channel (done pid, v) = after_read_distinct fuel debug user b n pid _ _

      at_pipe :
          (pipe : Outcome Pipe × W)
          → LaunchedDistinct (launch_with pf calls fuel debug user b n pipe)
      at_pipe (bad e, v) = tt
      at_pipe (ok channel, v) = at_fork channel (calls.fork v)

  attach_distinct :
      (fuel : ℕ) (user : List ℕ) (b n pid : ℕ) (w : W)
      → LaunchedDistinct (attach pf fuel user b n pid w)
  unfolding attach attach_seized new_process
  attach_distinct fuel user b n pid w = at_seized (seize pf pid w (pf.attach_to pid w))
    where
      at_seized :
          (r : Outcome (Unit {0}) × W) → LaunchedDistinct (attach_seized pf fuel user b n pid r)
      at_seized (bad e, v) = tt
      at_seized (ok _, v) = started_distinct fuel true (new_process v pid false true user b n) tt

  target_of_distinct : (r : Run W Elf) → DistinctSites (final r) → OpenedDistinct (target_of pf r)
  unfolding target_of
  target_of_distinct (returned obj p) h = h
  target_of_distinct (threw e p) h = tt

  module _ (input : TargetInput W) where
    -- Opening the ELF file changes the world only.
    Keeps-open_for : (path : List ℕ) → Keeps (open_for input path)
    unfolding open_for
    Keeps-open_for path = record {
      same = λ p.
          elim (Outcome-cases (open_elf input.calls input.abi input.object path p.world).0) [
            | inl (obj, e) ↦ rw e (refl, refl, refl)
            | inr (e, d) ↦ rw d (refl, refl, refl)
          ];
    }

    Keeps-create_loaded_elf : (path : List ℕ) → Keeps (create_loaded_elf input path)
    unfolding create_loaded_elf
    Keeps-create_loaded_elf path = search (keeps, Keeps-open_for) depth 8

    load_distinct :
        (path : List ℕ) (l : Launched W)
        → LaunchedDistinct l
        → OpenedDistinct (load_target pf input path l)
    unfolding load_target
    load_distinct path (launch_threw e w) h = tt
    load_distinct path (launched p) h = target_of_distinct (create_loaded_elf input path p) (
        SameSites-DistinctSites p (final (create_loaded_elf input path p))
          ((Keeps-create_loaded_elf path).same p) h)

    -- A target starts with no two breakpoint sites at one address.
    pub launch_target_distinct :
        (calls : LaunchCalls W) (fuel : ℕ) (user path : List ℕ) (w : W)
        → OpenedDistinct (launch_target pf input calls fuel user path w)
    unfolding launch_target
    launch_target_distinct calls fuel user path w =
        load_distinct path (launch pf calls fuel true user 0 0 w)
          (launch_distinct calls fuel true user 0 0 w)

    pub attach_target_distinct :
        (fuel : ℕ) (user : List ℕ) (pid : ℕ) (w : W)
        → OpenedDistinct (attach_target pf input fuel user pid w)
    unfolding attach_target
    attach_target_distinct fuel user pid w =
        load_distinct (proc_path pid) (attach pf fuel user 0 0 pid w)
          (attach_distinct fuel user 0 0 pid w)
