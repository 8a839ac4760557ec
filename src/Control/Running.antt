-- ===== src/Control/Running.antt =====
-- `process::resume` and the loop of `process::wait_on_signal` (src/process.cpp).
use sdb_building_a_debugger.Base.{◌≡◌, arith, inl, inr, Bool-cases}
use sdb_building_a_debugger.Platform.{Platform}
use sdb_building_a_debugger.Process.State.{Process, running}
use sdb_building_a_debugger.Process.Run.{returned, Run-cases, >>=-eq-returned}
use sdb_building_a_debugger.Registers.Access.{get_pc}
use sdb_building_a_debugger.Stoppoints.{breakpoint_stoppoint, enabled_stoppoint_at_address}
use sdb_building_a_debugger.Control.Resume.{resume, resume_request, step_over, set_state}

module _ {W : Type 0} (pf : Platform W) where
  -- When `resume` returns, the process is recorded as running.
  pub resume_runs : (p q : Process W) → resume pf p ≡ returned tt q → q.state ≡ running
  unfolding resume set_state
  resume_runs p q run =
      let (pc, r, _, g) = >>=-eq-returned (get_pc pf) _ p run in
      elim (Bool-cases (enabled_stoppoint_at_address r.breakpoint_sites pc)) [
        | inl on ↦ elim (Run-cases (step_over pf pc r)) [
          | inr (e, s, h) ↦ absurd (ground arith)
          | inl (_, s, h) ↦
              elim (Run-cases (resume_request pf r.syscall_catch_policy.mode r.pid s)) [
                | inr (e, t, k) ↦ absurd (ground arith)
                | inl (_, t, k) ↦ ground arith
              ]
        ]
        | inr off ↦ elim (Run-cases (resume_request pf r.syscall_catch_policy.mode r.pid r)) [
          | inr (e, t, k) ↦ absurd (ground arith)
          | inl (_, t, k) ↦ ground arith
        ]
      ]
