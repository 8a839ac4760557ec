-- ===== src/Registers/Id.antt =====
-- The enumerators of `register_id` that the code names: positions in
-- include/libsdb/detail/registers.inc.
use sdb_building_a_debugger.Base.{ℕ}

abbrev pub rax : ℕ
rax = 0

abbrev pub rdx : ℕ
rdx = 1

abbrev pub rsi : ℕ
rsi = 4

abbrev pub rdi : ℕ
rdi = 5

abbrev pub r8 : ℕ
r8 = 8

abbrev pub r9 : ℕ
r9 = 9

abbrev pub r10 : ℕ
r10 = 10

abbrev pub rip : ℕ
rip = 16

abbrev pub orig_rax : ℕ
orig_rax = 24

abbrev pub dr0 : ℕ
dr0 = 117

abbrev pub dr6 : ℕ
dr6 = 123

abbrev pub dr7 : ℕ
dr7 = 124
