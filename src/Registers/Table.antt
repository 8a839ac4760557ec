-- ===== src/Registers/Table.antt =====
-- The rows of include/libsdb/detail/registers.inc, one function for each of its macros. The number
-- of a row is the value of its enumerator in `enum class register_id`.
use sdb_building_a_debugger.Base.{ℕ, ◌+◌, ◌*◌, List, [], ◌∷◌, ◌++◌, ℤ, pos, negsuc, codes}
use sdb_building_a_debugger.Platform.{UserLayout, GprField, FprField}
use sdb_building_a_debugger.Registers.Value.{
  RegisterInfo, RegisterType, gpr, sub_gpr, fpr, dr, RegisterFormat, uint, long_double, vector,
}

abbrev row : ℕ → List ℕ → ℤ → ℕ → ℕ → RegisterType → RegisterFormat → RegisterInfo
row id name dwarf_id size offset type format = record {
  id = id;
  name = name;
  dwarf_id = dwarf_id;
  size = size;
  offset = offset;
  type = type;
  format = format;
}

module _ (user : UserLayout) where
  abbrev gpr_offset : GprField → ℕ
  gpr_offset field = user.regs + user.gpr_field field

  abbrev gpr_64 : ℕ → List ℕ → ℤ → GprField → RegisterInfo
  gpr_64 id name dwarf_id field = row id name dwarf_id 8 (gpr_offset field) gpr uint

  abbrev gpr_32 : ℕ → List ℕ → GprField → RegisterInfo
  gpr_32 id name super = row id name (negsuc 0) 4 (gpr_offset super) sub_gpr uint

  abbrev gpr_16 : ℕ → List ℕ → GprField → RegisterInfo
  gpr_16 id name super = row id name (negsuc 0) 2 (gpr_offset super) sub_gpr uint

  abbrev gpr_8h : ℕ → List ℕ → GprField → RegisterInfo
  gpr_8h id name super = row id name (negsuc 0) 1 (gpr_offset super + 1) sub_gpr uint

  abbrev gpr_8l : ℕ → List ℕ → GprField → RegisterInfo
  gpr_8l id name super = row id name (negsuc 0) 1 (gpr_offset super) sub_gpr uint

  abbrev fpr_offset : FprField → ℕ
  fpr_offset field = user.i387 + user.fpr_field field

  abbrev fpr_whole : ℕ → List ℕ → ℤ → FprField → RegisterInfo
  fpr_whole id name dwarf_id field =
      row id name dwarf_id (user.fpr_size field) (fpr_offset field) fpr uint

  abbrev fp_st : ℕ → List ℕ → ℕ → RegisterInfo
  fp_st id name number =
      row id name (pos (33 + number)) 16 (fpr_offset FprField.st_space + number * 16) fpr
        long_double

  abbrev fp_mm : ℕ → List ℕ → ℕ → RegisterInfo
  fp_mm id name number =
      row id name (pos (41 + number)) 8 (fpr_offset FprField.st_space + number * 16) fpr vector

  abbrev fp_xmm : ℕ → List ℕ → ℕ → RegisterInfo
  fp_xmm id name number =
      row id name (pos (17 + number)) 16 (fpr_offset FprField.xmm_space + number * 16) fpr vector

  abbrev debug_register : ℕ → List ℕ → ℕ → RegisterInfo
  debug_register id name number = row id name (negsuc 0) 8 (user.u_debugreg + number * 8) dr uint

  abbrev gpr_64_rows : List RegisterInfo
  gpr_64_rows =
      gpr_64 0 (codes "rax") (pos 0) GprField.rax
      ∷ gpr_64 1 (codes "rdx") (pos 1) GprField.rdx
      ∷ gpr_64 2 (codes "rcx") (pos 2) GprField.rcx
      ∷ gpr_64 3 (codes "rbx") (pos 3) GprField.rbx
      ∷ gpr_64 4 (codes "rsi") (pos 4) GprField.rsi
      ∷ gpr_64 5 (codes "rdi") (pos 5) GprField.rdi
      ∷ gpr_64 6 (codes "rbp") (pos 6) GprField.rbp
      ∷ gpr_64 7 (codes "rsp") (pos 7) GprField.rsp
      ∷ gpr_64 8 (codes "r8") (pos 8) GprField.r8
      ∷ gpr_64 9 (codes "r9") (pos 9) GprField.r9
      ∷ gpr_64 10 (codes "r10") (pos 10) GprField.r10
      ∷ gpr_64 11 (codes "r11") (pos 11) GprField.r11
      ∷ gpr_64 12 (codes "r12") (pos 12) GprField.r12
      ∷ gpr_64 13 (codes "r13") (pos 13) GprField.r13
      ∷ gpr_64 14 (codes "r14") (pos 14) GprField.r14
      ∷ gpr_64 15 (codes "r15") (pos 15) GprField.r15
      ∷ gpr_64 16 (codes "rip") (pos 16) GprField.rip
      ∷ gpr_64 17 (codes "eflags") (pos 49) GprField.eflags
      ∷ gpr_64 18 (codes "cs") (pos 51) GprField.cs
      ∷ gpr_64 19 (codes "fs") (pos 54) GprField.fs
      ∷ gpr_64 20 (codes "gs") (pos 55) GprField.gs
      ∷ gpr_64 21 (codes "ss") (pos 52) GprField.ss
      ∷ gpr_64 22 (codes "ds") (pos 53) GprField.ds
      ∷ gpr_64 23 (codes "es") (pos 50) GprField.es
      ∷ gpr_64 24 (codes "orig_rax") (negsuc 0) GprField.orig_rax
      ∷ []

  abbrev gpr_32_rows : List RegisterInfo
  gpr_32_rows =
      gpr_32 25 (codes "eax") GprField.rax
      ∷ gpr_32 26 (codes "ebp") GprField.rbp
      ∷ gpr_32 27 (codes "ebx") GprField.rbx
      ∷ gpr_32 28 (codes "ecx") GprField.rcx
      ∷ gpr_32 29 (codes "edi") GprField.rdi
      ∷ gpr_32 30 (codes "edx") GprField.rdx
      ∷ gpr_32 31 (codes "esi") GprField.rsi
      ∷ gpr_32 32 (codes "esp") GprField.rsp
      ∷ gpr_32 33 (codes "r8d") GprField.r8
      ∷ gpr_32 34 (codes "r9d") GprField.r9
      ∷ gpr_32 35 (codes "r10d") GprField.r10
      ∷ gpr_32 36 (codes "r11d") GprField.r11
      ∷ gpr_32 37 (codes "r12d") GprField.r12
      ∷ gpr_32 38 (codes "r13d") GprField.r13
      ∷ gpr_32 39 (codes "r14d") GprField.r14
      ∷ gpr_32 40 (codes "r15d") GprField.r15
      ∷ []

  abbrev gpr_16_rows : List RegisterInfo
  gpr_16_rows =
      gpr_16 41 (codes "ax") GprField.rax
      ∷ gpr_16 42 (codes "bp") GprField.rbp
      ∷ gpr_16 43 (codes "bx") GprField.rbx
      ∷ gpr_16 44 (codes "cx") GprField.rcx
      ∷ gpr_16 45 (codes "di") GprField.rdi
      ∷ gpr_16 46 (codes "dx") GprField.rdx
      ∷ gpr_16 47 (codes "si") GprField.rsi
      ∷ gpr_16 48 (codes "sp") GprField.rsp
      ∷ gpr_16 49 (codes "r8w") GprField.r8
      ∷ gpr_16 50 (codes "r9w") GprField.r9
      ∷ gpr_16 51 (codes "r10w") GprField.r10
      ∷ gpr_16 52 (codes "r11w") GprField.r11
      ∷ gpr_16 53 (codes "r12w") GprField.r12
      ∷ gpr_16 54 (codes "r13w") GprField.r13
      ∷ gpr_16 55 (codes "r14w") GprField.r14
      ∷ gpr_16 56 (codes "r15w") GprField.r15
      ∷ []

  abbrev gpr_8_rows : List RegisterInfo
  gpr_8_rows =
      gpr_8h 57 (codes "ah") GprField.rax
      ∷ gpr_8h 58 (codes "bh") GprField.rbx
      ∷ gpr_8h 59 (codes "ch") GprField.rcx
      ∷ gpr_8h 60 (codes "dh") GprField.rdx
      ∷ gpr_8l 61 (codes "al") GprField.rax
      ∷ gpr_8l 62 (codes "bl") GprField.rbx
      ∷ gpr_8l 63 (codes "bpl") GprField.rbp
      ∷ gpr_8l 64 (codes "cl") GprField.rcx
      ∷ gpr_8l 65 (codes "dil") GprField.rdi
      ∷ gpr_8l 66 (codes "dl") GprField.rdx
      ∷ gpr_8l 67 (codes "sil") GprField.rsi
      ∷ gpr_8l 68 (codes "spl") GprField.rsp
      ∷ gpr_8l 69 (codes "r8b") GprField.r8
      ∷ gpr_8l 70 (codes "r9b") GprField.r9
      ∷ gpr_8l 71 (codes "r10b") GprField.r10
      ∷ gpr_8l 72 (codes "r11b") GprField.r11
      ∷ gpr_8l 73 (codes "r12b") GprField.r12
      ∷ gpr_8l 74 (codes "r13b") GprField.r13
      ∷ gpr_8l 75 (codes "r14b") GprField.r14
      ∷ gpr_8l 76 (codes "r15b") GprField.r15
      ∷ []

  abbrev fpr_rows : List RegisterInfo
  fpr_rows =
      fpr_whole 77 (codes "fcw") (pos 65) FprField.cwd
      ∷ fpr_whole 78 (codes "fop") (negsuc 0) FprField.fop
      ∷ fpr_whole 79 (codes "frdp") (negsuc 0) FprField.frdp
      ∷ fpr_whole 80 (codes "frip") (negsuc 0) FprField.frip
      ∷ fpr_whole 81 (codes "fsw") (pos 66) FprField.swd
      ∷ fpr_whole 82 (codes "ftw") (negsuc 0) FprField.ftw
      ∷ fpr_whole 83 (codes "mxcsr") (pos 64) FprField.mxcsr
      ∷ fpr_whole 84 (codes "mxcsrmask") (negsuc 0) FprField.mxcr_mask
      ∷ fp_st 85 (codes "st0") 0
      ∷ fp_st 86 (codes "st1") 1
      ∷ fp_st 87 (codes "st2") 2
      ∷ fp_st 88 (codes "st3") 3
      ∷ fp_st 89 (codes "st4") 4
      ∷ fp_st 90 (codes "st5") 5
      ∷ fp_st 91 (codes "st6") 6
      ∷ fp_st 92 (codes "st7") 7
      ∷ []

  abbrev vector_rows : List RegisterInfo
  vector_rows =
      fp_mm 93 (codes "mm0") 0
      ∷ fp_mm 94 (codes "mm1") 1
      ∷ fp_mm 95 (codes "mm2") 2
      ∷ fp_mm 96 (codes "mm3") 3
      ∷ fp_mm 97 (codes "mm4") 4
      ∷ fp_mm 98 (codes "mm5") 5
      ∷ fp_mm 99 (codes "mm6") 6
      ∷ fp_mm 100 (codes "mm7") 7
      ∷ fp_xmm 101 (codes "xmm0") 0
      ∷ fp_xmm 102 (codes "xmm1") 1
      ∷ fp_xmm 103 (codes "xmm2") 2
      ∷ fp_xmm 104 (codes "xmm3") 3
      ∷ fp_xmm 105 (codes "xmm4") 4
      ∷ fp_xmm 106 (codes "xmm5") 5
      ∷ fp_xmm 107 (codes "xmm6") 6
      ∷ fp_xmm 108 (codes "xmm7") 7
      ∷ fp_xmm 109 (codes "xmm8") 8
      ∷ fp_xmm 110 (codes "xmm9") 9
      ∷ fp_xmm 111 (codes "xmm10") 10
      ∷ fp_xmm 112 (codes "xmm11") 11
      ∷ fp_xmm 113 (codes "xmm12") 12
      ∷ fp_xmm 114 (codes "xmm13") 13
      ∷ fp_xmm 115 (codes "xmm14") 14
      ∷ fp_xmm 116 (codes "xmm15") 15
      ∷ []

  abbrev debug_rows : List RegisterInfo
  debug_rows =
      debug_register 117 (codes "dr0") 0
      ∷ debug_register 118 (codes "dr1") 1
      ∷ debug_register 119 (codes "dr2") 2
      ∷ debug_register 120 (codes "dr3") 3
      ∷ debug_register 121 (codes "dr4") 4
      ∷ debug_register 122 (codes "dr5") 5
      ∷ debug_register 123 (codes "dr6") 6
      ∷ debug_register 124 (codes "dr7") 7
      ∷ []

  -- `g_register_infos`.
  unfoldable pub g_register_infos : List RegisterInfo
  g_register_infos =
      gpr_64_rows
      ++ (gpr_32_rows ++ (gpr_16_rows ++ (gpr_8_rows ++ (fpr_rows ++ (vector_rows ++ debug_rows)))))
