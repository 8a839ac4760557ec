-- ===== src/Process/State.antt =====
-- The data of a debugged process: include/libsdb/process.hpp, and the members of
-- `class breakpoint_site` and `class watchpoint`.
use sdb_building_a_debugger.Base.{ℕ, Bool, false, List, [], Option, ℤ, negsuc}
use sdb_building_a_debugger.Types.{StoppointMode}

pub data ProcState : Type 0 where
  stopped running exited terminated : ProcState

pub data TrapType : Type 0 where
  single_step software_break hardware_break syscall unknown : TrapType

-- The anonymous union of `syscall_information`: the six arguments on entry, the result on exit.
pub data SyscallValues : Type 0 where
  args : List ℕ → SyscallValues
  ret : ℕ → SyscallValues

pub record SyscallInformation : Type 0 where
  pub id : ℕ
  pub entry : Bool
  pub values : SyscallValues

pub record StopReason : Type 0 where
  pub reason : ProcState
  pub info : ℕ
  pub trap_reason : Option TrapType
  pub syscall_info : Option SyscallInformation

pub data CatchMode : Type 0 where
  catches_none catches_some catches_all : CatchMode

pub record SyscallCatchPolicy : Type 0 where
  pub mode : CatchMode
  pub to_catch : List ℤ

abbrev pub catch_all : SyscallCatchPolicy
catch_all = record { mode = catches_all; to_catch = [] }

abbrev pub catch_none : SyscallCatchPolicy
catch_none = record { mode = catches_none; to_catch = [] }

abbrev pub catch_some : List ℤ → SyscallCatchPolicy
catch_some to_catch = record { mode = catches_some; to_catch = to_catch }

pub record BreakpointSite : Type 0 where
  pub id : ℤ
  pub address : ℕ
  pub is_enabled : Bool
  pub is_hardware : Bool
  pub is_internal : Bool
  pub hardware_register_index : ℤ
  pub saved_data : ℕ

pub record Watchpoint : Type 0 where
  pub id : ℤ
  pub address : ℕ
  pub mode : StoppointMode
  pub size : ℕ
  pub is_enabled : Bool
  pub data_now : ℕ
  pub previous_data : ℕ
  pub hardware_register_index : ℤ

-- The members of `class process`, the bytes of its `registers::data_`, the two static counters of
-- `get_next_id`, and the state of the kernel and of the inferior, `world`.
pub record Process (W : Type 0) : Type 0 where
  pub world : W
  pub pid : ℕ
  pub terminate_on_end : Bool
  pub is_attached : Bool
  pub syscall_catch_policy : SyscallCatchPolicy
  pub expecting_syscall_exit : Bool
  pub state : ProcState
  pub registers : List ℕ
  pub breakpoint_sites : List BreakpointSite
  pub watchpoints : List Watchpoint
  pub breakpoint_id : ℕ
  pub watchpoint_id : ℕ

-- The constructor: `data_` holds what its storage held, `user`, and the counters are static.
unfoldable pub new_process : {W : Type 0} → W → ℕ → Bool → Bool → List ℕ → ℕ → ℕ → Process W
new_process w pid terminate_on_end is_attached user breakpoint_id watchpoint_id = record {
  world = w;
  pid = pid;
  terminate_on_end = terminate_on_end;
  is_attached = is_attached;
  syscall_catch_policy = catch_none;
  expecting_syscall_exit = false;
  state = stopped;
  registers = user;
  breakpoint_sites = [];
  watchpoints = [];
  breakpoint_id = breakpoint_id;
  watchpoint_id = watchpoint_id;
}

-- A new site of `breakpoint_site::breakpoint_site`, and a new point of `watchpoint::watchpoint`.
abbrev pub new_site : ℤ → ℕ → Bool → Bool → BreakpointSite
new_site id address hardware internal = record {
  id = id;
  address = address;
  is_enabled = false;
  is_hardware = hardware;
  is_internal = internal;
  hardware_register_index = negsuc 0;
  saved_data = 0;
}

abbrev pub new_watchpoint : ℤ → ℕ → StoppointMode → ℕ → Watchpoint
new_watchpoint id address mode size = record {
  id = id;
  address = address;
  mode = mode;
  size = size;
  is_enabled = false;
  data_now = 0;
  previous_data = 0;
  hardware_register_index = negsuc 0;
}
