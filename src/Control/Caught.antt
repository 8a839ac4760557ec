-- ===== src/Control/Caught.antt =====
-- Which stops at system calls `process::wait_on_signal` (src/process.cpp) reports.
use sdb_building_a_debugger.Base.{
  ℕ, zero, suc, ◌≡◌, ◌≢◌, ◌⊎◌, ap, List, [], ◌∷◌, get_elem?, ℤ, pos, int_eq, int_eq_iff, sym, subst,
  arith, true, ◌&&◌, ◌==◌, some, none, Bool-cases, Option-cases, inl, inr,
}
use sdb_building_a_debugger.Platform.{Platform}
use sdb_building_a_debugger.Process.State.{
  Process, StopReason, SyscallInformation, SyscallCatchPolicy, CatchMode, catches_none,
  catches_some, catches_all, TrapType, software_break, hardware_break, syscall, single_step,
  unknown,
}
use sdb_building_a_debugger.Process.Run.{Outcome-cases, ok, M, returned, Run-cases, Sys-cases}
use sdb_building_a_debugger.Process.StopReason.{stop_reason, sigtrap}
use sdb_building_a_debugger.Process.Keeps.{SameSites, final}
use sdb_building_a_debugger.Types.VirtAddr
use sdb_building_a_debugger.Registers.Access.{get_pc, set_pc}
use sdb_building_a_debugger.Control.Syscall.{
  trap_of_code, plain_trap, syscall_trap, syscall_exit, syscall_entry, set_expecting,
  augment_stop_reason, is_caught, mem_ids,
}
use sdb_building_a_debugger.Control.Stop.{
  read_all_registers, get_current_hardware_stoppoint, refresh,
}
use sdb_building_a_debugger.Stoppoints.{
  breakpoint_stoppoint, contains_address, get_by_address, enabled_ref,
}
use sdb_building_a_debugger.Control.Keeps.{Keeps-wait_on_signal}
use sdb_building_a_debugger.Control.Resume.{
  set_state, is_stopped, wait_pid, resume, maybe_resume_from_syscall, on_trap, on_stop, wait_step,
  wait_on_signal,
}

-- The policy does not choose among the system calls, or it names this one.
abbrev pub IsChosen : SyscallCatchPolicy → ℕ → Type 0
IsChosen policy id =
    (policy.mode ≢ catches_some) ⊎ ((k : ℕ) × (get_elem? policy.to_catch k ≡ some (pos id)))

place-mem_ids :
    (id : ℕ) (xs : List ℤ) → mem_ids id xs ≡ true → (k : ℕ) × (get_elem? xs k ≡ some (pos id))
unfolding mem_ids
place-mem_ids id [] e = absurd (ground arith)
place-mem_ids id (x ∷ xs) e = elim (Bool-cases (int_eq x (pos id))) [
  | inl same ↦ (zero, ap some ((int_eq_iff x (pos id)).0 same))
  | inr other ↦ let (k, at) = place-mem_ids id xs (ground arith) in (suc k, at)
]

is_caught-IsChosen :
    (mode : CatchMode) (ids : List ℤ) (id : ℕ)
    → is_caught (record { mode = mode; to_catch = ids }) id ≡ true
    → IsChosen (record { mode = mode; to_catch = ids }) id
unfolding is_caught
is_caught-IsChosen catches_none ids id e = inl (λ d. ground arith)
is_caught-IsChosen catches_some ids id e = inr (place-mem_ids id ids e)
is_caught-IsChosen catches_all ids id e = inl (λ d. ground arith)

-- The reason is no stop at a system call, or it is one that the policy catches.
abbrev Reported : SyscallCatchPolicy → StopReason → Type 0
Reported policy reason =
    reason.trap_reason ≡ some syscall
    → (info : SyscallInformation) × (reason.syscall_info ≡ some info)
      × (is_caught policy info.id ≡ true)

trap_of_code_not_syscall : (code : ℕ) → trap_of_code code ≢ syscall
unfolding trap_of_code
trap_of_code_not_syscall code e = ground arith

plain_trap_not_syscall :
    (reason : StopReason) (code : ℕ) → (plain_trap reason code).trap_reason ≢ some syscall
unfolding plain_trap
plain_trap_not_syscall reason code e = ground (arith, trap_of_code_not_syscall code)

module _ {W : Type 0} (pf : Platform W) where
  stop_reason_plain :
      (status : ℕ) (reason : StopReason)
      → stop_reason pf status ≡ ok reason
      → reason.trap_reason ≡ none
  unfolding stop_reason
  stop_reason_plain status reason e = ground arith

  -- A trap that is marked as a system call has SIGTRAP as its signal.
  augment_marks :
      (stop reason : StopReason) (p q : Process W)
      → augment_stop_reason pf stop p ≡ returned reason q
      → reason.trap_reason ≡ some syscall
      → reason.info ≡ sigtrap
  unfolding augment_stop_reason syscall_trap set_expecting
  augment_marks stop reason p q run e = elim (Sys-cases (pf.get_siginfo p.pid p.world)) [
    | inr (x, d) ↦ absurd (ground arith)
    | inl (code, d) ↦ elim (Bool-cases (stop.info == 0x85)) [
      | inr plain ↦ absurd (ground (arith, plain_trap_not_syscall stop code))
      | inl call ↦
          let entering = Run-cases (syscall_entry pf p) in
          let leaving = Run-cases (syscall_exit pf p) in
          elim (Bool-cases p.expecting_syscall_exit) [
            | inl exit ↦ elim leaving [
              | inl (info, r, h) ↦ ground arith
              | inr (x, r, h) ↦ absurd (ground arith)
            ]
            | inr entry ↦ elim entering [
              | inl (info, r, h) ↦ ground arith
              | inr (x, r, h) ↦ absurd (ground arith)
            ]
          ]
    ]
  ]

  module _ (recur : M W StopReason)
      (recur-Reported : (p q : Process W) (reason : StopReason)
        → recur p ≡ returned reason q
        → Reported q.syscall_catch_policy reason) where
    maybe-Reported :
        (reason result : StopReason) (p q : Process W)
        → maybe_resume_from_syscall pf recur reason p ≡ returned result q
        → Reported q.syscall_catch_policy result
    unfolding maybe_resume_from_syscall
    maybe-Reported reason result p q run e = elim (Option-cases reason.syscall_info) [
      | inl d ↦ absurd (ground arith)
      | inr (info, d) ↦ elim (Bool-cases (is_caught p.syscall_catch_policy info.id)) [
        | inl yes_caught ↦ (info, ground arith, ground arith)
        | inr passed ↦ elim (Run-cases (resume pf p)) [
          | inr (f, r, h) ↦ absurd (ground arith)
          | inl (_, r, h) ↦ recur-Reported r q result (ground arith) e
        ]
      ]
    ]

    trap-Reported :
        (reason result : StopReason) (begin : ℕ) (trap : TrapType) (p q : Process W)
        → reason.trap_reason ≡ some trap
        → on_trap pf recur reason begin trap p ≡ returned result q
        → Reported q.syscall_catch_policy result
    unfolding on_trap
    trap-Reported reason result begin software_break p q t run e =
        let sites = p.breakpoint_sites in
        elim (Bool-cases
          (contains_address sites begin && enabled_ref sites (get_by_address sites begin))) [
            | inr off ↦ absurd (ground arith)
            | inl on ↦ elim (Run-cases (set_pc pf begin p)) [
              | inl (_, r, h) ↦ absurd (ground arith)
              | inr (x, r, h) ↦ absurd (ground arith)
            ]
          ]
    trap-Reported reason result begin hardware_break p q t run e =
        elim (Run-cases (get_current_hardware_stoppoint pf p)) [
          | inr (x, r, h) ↦ absurd (ground arith)
          | inl (id, r, h) ↦ elim (Run-cases (refresh pf id r)) [
            | inl (_, u, g) ↦ absurd (ground arith)
            | inr (x, u, g) ↦ absurd (ground arith)
          ]
        ]
    trap-Reported reason result begin syscall p q t run e = maybe-Reported reason result p q run e
    trap-Reported reason result begin single_step p q t run e = absurd (ground arith)
    trap-Reported reason result begin unknown p q t run e = absurd (ground arith)

    stop-Reported :
        (stop result : StopReason) (p q : Process W)
        → on_stop pf recur stop p ≡ returned result q
        → Reported q.syscall_catch_policy result
    unfolding on_stop
    stop-Reported stop result p q run e = elim (Run-cases (read_all_registers pf p)) [
      | inr (f, r, h) ↦ absurd (ground arith)
      | inl (_, r, h) ↦ elim (Run-cases (augment_stop_reason pf stop r)) [
        | inr (f, u, g) ↦ absurd (ground arith)
        | inl (reason, u, g) ↦ elim (Run-cases (get_pc pf u)) [
          | inr (f, t, k) ↦ absurd (ground arith)
          | inl (pc, t, k) ↦ elim (Bool-cases (reason.info == sigtrap)) [
            | inr other ↦ absurd (ground (arith, augment_marks stop reason r u g))
            | inl trapped ↦ elim (Option-cases reason.trap_reason) [
              | inl d ↦ absurd (ground arith)
              | inr (trap, d) ↦
                  trap-Reported reason result (VirtAddr.sub pc 1) trap t q d (ground arith) e
            ]
          ]
        ]
      ]
    ]

    step-Reported :
        (result : StopReason) (p q : Process W)
        → wait_step pf recur p ≡ returned result q
        → Reported q.syscall_catch_policy result
    unfolding wait_step set_state
    step-Reported result p q run e = elim (Run-cases (wait_pid pf p)) [
      | inr (f, r, h) ↦ absurd (ground arith)
      | inl (status, r, h) ↦ elim (Outcome-cases (stop_reason pf status)) [
        | inr (x, g) ↦ absurd (ground arith)
        | inl (reason, g) ↦
            let s : Process W = record r { state = reason.reason } in
            elim (Bool-cases (r.is_attached && is_stopped reason.reason)) [
              | inl stop ↦ stop-Reported reason result s q (ground arith) e
              | inr gone ↦ absurd (ground (arith, stop_reason_plain status reason g))
            ]
      ]
    ]

  wait-Reported :
      (fuel : ℕ) (p q : Process W) (reason : StopReason)
      → wait_on_signal pf fuel p ≡ returned reason q
      → Reported q.syscall_catch_policy reason
  unfolding wait_on_signal
  wait-Reported zero p q reason run = cc
  wait-Reported (suc fuel) p q reason run =
      step-Reported (wait_on_signal pf fuel) (wait-Reported fuel) reason p q run

  -- When `wait_on_signal` returns a stop at a system call, the reason carries the call's number, and the
  -- policy that was set when `wait_on_signal` was called catches it: where the policy is to catch some
  -- system calls, the number is in its list. However many stops are passed over, the policy stays the same.
  pub wait_on_signal_caught :
      (fuel : ℕ) (p q : Process W) (reason : StopReason)
      → wait_on_signal pf fuel p ≡ returned reason q
      → reason.trap_reason ≡ some syscall
      → (q.syscall_catch_policy ≡ p.syscall_catch_policy)
        × ((info : SyscallInformation) × (reason.syscall_info ≡ some info)
            × (is_caught p.syscall_catch_policy info.id ≡ true)
            × IsChosen p.syscall_catch_policy info.id)
  wait_on_signal_caught fuel p q reason run e =
      let kept : q.syscall_catch_policy ≡ p.syscall_catch_policy =
        (subst (λ r. SameSites p (final r)) run ((Keeps-wait_on_signal pf fuel).same p)).2 in
      let (info, there, caught) = wait-Reported fuel p q reason run e in
      let catches : is_caught p.syscall_catch_policy info.id ≡ true = rw (sym kept) caught in
      let policy = p.syscall_catch_policy in
      (kept, (info, there, catches, is_caught-IsChosen policy.mode policy.to_catch info.id catches))
