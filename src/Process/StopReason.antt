-- ===== src/Process/StopReason.antt =====
-- `stop_reason::stop_reason(int wait_status)` of src/process.cpp, and the signal numbers and
-- `si_code`s of Linux on x86-64 that src/process.cpp compares with.
use sdb_building_a_debugger.Base.{ℕ, ◌%◌, none, if◌then◌else◌}
use sdb_building_a_debugger.Platform.{Platform}
use sdb_building_a_debugger.Process.State.{ProcState, StopReason, stopped, exited, terminated}
use sdb_building_a_debugger.Process.Run.{Outcome, ok, bad, undefined}

abbrev pub sigkill : ℕ
sigkill = 9

abbrev pub sigtrap : ℕ
sigtrap = 5

abbrev pub sigcont : ℕ
sigcont = 18

abbrev pub sigstop : ℕ
sigstop = 19

abbrev pub trap_trace : ℕ
trap_trace = 2

abbrev pub trap_hwbkpt : ℕ
trap_hwbkpt = 4

abbrev pub si_kernel : ℕ
si_kernel = 0x80

-- `info` is an `std::uint8_t`. Where no test holds, `reason` and `info` stay uninitialised, and
-- the caller reads them.
unfoldable pub stop_reason : {W : Type 0} → Platform W → ℕ → Outcome StopReason
stop_reason pf wait_status =
    if pf.if_exited wait_status
    then ok (made exited (pf.exit_status wait_status))
    else if pf.if_signaled wait_status
    then ok (made terminated (pf.term_sig wait_status))
    else if pf.if_stopped wait_status
    then ok (made stopped (pf.stop_sig wait_status))
    else bad undefined
  where
    made : ProcState → ℕ → StopReason
    made reason info = record {
      reason = reason;
      info = info % 256;
      trap_reason = none;
      syscall_info = none;
    }
