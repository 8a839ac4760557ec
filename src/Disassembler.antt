-- ===== src/Disassembler.antt =====
-- src/disassembler.cpp: `disassembler::disassemble`.
use sdb_building_a_debugger.Base.{
  ℕ, zero, suc, ◌*◌, ◌%◌, ◌^◌, List, [], ◌∷◌, drop, Option, none, some,
}
use sdb_building_a_debugger.Platform.{Platform}
use sdb_building_a_debugger.Types.VirtAddr
use sdb_building_a_debugger.Types.VirtAddr.{VirtAddr}
use sdb_building_a_debugger.Process.Run.{M, pure, ◌>>=◌}
use sdb_building_a_debugger.Registers.Access.{get_pc}
use sdb_building_a_debugger.Memory.{read_memory_without_traps}

pub record Instruction : Type 0 where
  pub address : VirtAddr
  pub text : List ℕ

-- `ZydisDisassembleATT` at an address and some bytes, a parameter: the length and the text of the
-- first instruction, or none where it does not succeed.
abbrev pub Decoder : Type 0
Decoder = VirtAddr → List ℕ → Option (ℕ × List ℕ)

-- The loop. The source decodes once more after the last instruction, and uses nothing of that.
unfoldable pub instructions : Decoder → ℕ → VirtAddr → List ℕ → List Instruction
unfolding VirtAddr.add
instructions decode zero address code = []
instructions decode (suc n) address code = elim (decode address code) [
  | none ↦ []
  | some (size, text) ↦
      record { address = address; text = text }
      ∷ instructions decode n (VirtAddr.add address size) (drop size code)
]

module _ {W : Type 0} (pf : Platform W) (decode : Decoder) where
  unfoldable pub start_address : Option VirtAddr → M W VirtAddr
  start_address none = get_pc pf
  start_address (some address) = pure address

  unfoldable pub disassemble : ℕ → Option VirtAddr → M W (List Instruction)
  unfolding start_address instructions
  disassemble n_instructions given = do
    address ← start_address given
    code ← read_memory_without_traps pf address (n_instructions * 15 % 2 ^ 64)
    pure (instructions decode n_instructions address code)
