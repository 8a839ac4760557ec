-- ===== src/Cli/Commands/Lines.antt =====
-- Whole lines of tools/sdb.cpp: the line is split, its command found, its numbers read, and the
-- operation on the process runs.
use sdb_building_a_debugger.Base.{
  ℕ, zero, suc, ◌/◌, ◌%◌, ◌^◌, ◌<◌, ◌≡◌, ◌≢◌, refl, ◌∙◌, arith, true, false, List, [], ◌∷◌, All,
  All-append, codes, ltb, IsByte,
}
use sdb_building_a_debugger.Platform.{Platform}
use sdb_building_a_debugger.Process.State.{Process}
use sdb_building_a_debugger.Process.Run.{returned}
use sdb_building_a_debugger.Stoppoints.{breakpoint_stoppoint}
use sdb_building_a_debugger.Breakpoint.{create_breakpoint_site, enable}
use sdb_building_a_debugger.Memory.{write_memory}
use sdb_building_a_debugger.Parse.{value, to_integral, value_of}
use sdb_building_a_debugger.Parse.Digits.{digit_char, number_text}
use sdb_building_a_debugger.Parse.Numbers.{to_integral-number_text}
use sdb_building_a_debugger.Parse.Vectors.{byte_text, items, vector_text, parse_vector-vector_text}
use sdb_building_a_debugger.Elf.Types.{Elf}
use sdb_building_a_debugger.Disassembler.{Decoder}
use sdb_building_a_debugger.Cli.Shell.{finished}
use sdb_building_a_debugger.Cli.Words.{is_prefix}
use sdb_building_a_debugger.Cli.Words.Laws.{join, Words, split-join}
use sdb_building_a_debugger.Cli.RegisterCommand.{FloatParsers}
use sdb_building_a_debugger.Cli.BreakpointCommand.{
  handle_breakpoint_command, set_breakpoint, wants_hardware,
}
use sdb_building_a_debugger.Cli.MemoryCommand.{
  handle_memory_command, handle_memory_write_command, argument_or,
}
use sdb_building_a_debugger.Cli.Commands.{run_command, handle_command}

-- No character is a blank.
abbrev Plain : List ℕ → Type 0
Plain word = All (λ (c : ℕ). c ≢ b' ') word

-- An address in hexadecimal, with `suc k` digits.
abbrev pub hex_text : ℕ → ℕ → List ℕ
hex_text k a = b'0' ∷ b'x' ∷ number_text 16 (suc k) a

digit_char-not_blank : (n : ℕ) → digit_char (n % 16) ≢ b' '
digit_char-not_blank n e = ground arith

number_text-Plain : (k n : ℕ) → Plain (number_text 16 k n)
number_text-Plain zero n = tt
number_text-Plain (suc k) n =
    All-append (λ (c : ℕ). c ≢ b' ') (number_text 16 k (n / 16)) (digit_char (n % 16) ∷ [])
      (number_text-Plain k (n / 16)) (digit_char-not_blank n, tt)

hex_text-Plain : (k a : ℕ) → Plain (hex_text k a)
hex_text-Plain k a = (λ e. ground arith, (λ e. ground arith, number_text-Plain (suc k) a))

items-Plain : (bytes rest : List ℕ) → Plain rest → Plain (items bytes rest)
items-Plain [] rest h = h
items-Plain (b ∷ []) rest h =
    All-append (λ (c : ℕ). c ≢ b' ') (byte_text b) rest (hex_text-Plain 1 b) h
items-Plain (b ∷ c ∷ bs) rest h =
    All-append (λ (c : ℕ). c ≢ b' ') (byte_text b) (b',' ∷ items (c ∷ bs) rest) (hex_text-Plain 1 b)
      (λ e. ground arith, items-Plain (c ∷ bs) rest h)

vector_text-Plain : (bytes : List ℕ) → Plain (vector_text bytes)
vector_text-Plain bytes = (λ e. ground arith, items-Plain bytes (b']' ∷ []) (λ e. ground arith, tt))

hex_address : (k a : ℕ) → a < 16 ^ suc k → a < 2 ^ 64 → to_integral 64 16 (hex_text k a) ≡ value a
hex_address k a h g =
    let small : ltb a (2 ^ 64) ≡ true = ground arith in
    (to_integral-number_text 64 0 0 k a (omega arith) h).1 ∙ rw small refl

-- The line `breakpoint set <address>`, and the line `memory write <address> <bytes>`.
abbrev pub breakpoint_set : ℕ → ℕ → List ℕ
breakpoint_set k a = join b' ' (codes "breakpoint" ∷ codes "set" ∷ hex_text k a ∷ [])

abbrev pub memory_write : ℕ → ℕ → List ℕ → List ℕ
memory_write k a bytes =
    join b' ' (codes "memory" ∷ codes "write" ∷ hex_text k a ∷ vector_text bytes ∷ [])

breakpoint_set-Words : (k a : ℕ) → Words b' ' (codes "breakpoint" ∷ codes "set" ∷ hex_text k a ∷ [])
breakpoint_set-Words k a = (omega arith, (omega arith, (hex_text-Plain k a, omega arith)))

memory_write-Words :
    (k a : ℕ) (bytes : List ℕ)
    → Words b' ' (codes "memory" ∷ codes "write" ∷ hex_text k a ∷ vector_text bytes ∷ [])
memory_write-Words k a bytes =
    (omega arith, (omega arith, (hex_text-Plain k a, (vector_text-Plain bytes, omega arith))))

module _ {W : Type 0} (pf : Platform W) (decode : Decoder) (floats : FloatParsers) (obj : Elf)
    (fuel : ℕ) where
  run_breakpoint_set :
      (first : List ℕ)
      → run_command pf decode floats obj fuel (codes "breakpoint" ∷ codes "set" ∷ first ∷ [])
        ≡ set_breakpoint pf (to_integral 64 16 first) []
  unfolding run_command handle_breakpoint_command is_prefix
  run_breakpoint_set first = refl

  run_memory_write :
      (first bytes : List ℕ)
      → run_command pf decode floats obj fuel (codes "memory" ∷ codes "write" ∷ first ∷ bytes ∷ [])
        ≡ handle_memory_write_command pf first (bytes ∷ [])
  unfolding run_command handle_memory_command is_prefix
  run_memory_write first bytes = refl

  set_breakpoint_lem :
      (p : Process W) (a i : ℕ) (q r : Process W)
      → create_breakpoint_site a false false p ≡ returned i q
      → enable pf i q ≡ returned tt r
      → set_breakpoint pf (value a) [] p ≡ finished tt r []
  unfolding set_breakpoint wants_hardware value_of
  set_breakpoint_lem p a i q r created enabled = rw (created, enabled) refl

  write_memory_lem :
      (p q : Process W) (k a : ℕ) (bytes : List ℕ)
      → a < 16 ^ suc k
      → a < 2 ^ 64
      → All IsByte bytes
      → write_memory pf a bytes p ≡ returned tt q
      → handle_memory_write_command pf (hex_text k a) (vector_text bytes ∷ []) p ≡ finished tt q []
  unfolding handle_memory_write_command argument_or value_of
  write_memory_lem p q k a bytes h g small wrote =
      rw (hex_address k a h g, parse_vector-vector_text bytes small, wrote) refl

  pub handle_breakpoint_set :
      (p : Process W) (k a i : ℕ) (q r : Process W)
      → a < 16 ^ suc k
      → a < 2 ^ 64
      → create_breakpoint_site a false false p ≡ returned i q
      → enable pf i q ≡ returned tt r
      → handle_command pf decode floats obj fuel (breakpoint_set k a) p ≡ finished tt r []
  unfolding handle_command
  handle_breakpoint_set p k a i q r h g created enabled =
      rw
        (split-join b' ' (codes "breakpoint" ∷ codes "set" ∷ hex_text k a ∷ [])
          (breakpoint_set-Words k a))
        (rw (run_breakpoint_set (hex_text k a), hex_address k a h g)
          (set_breakpoint_lem p a i q r created enabled))

  pub handle_memory_write :
      (p q : Process W) (k a : ℕ) (bytes : List ℕ)
      → a < 16 ^ suc k
      → a < 2 ^ 64
      → All IsByte bytes
      → write_memory pf a bytes p ≡ returned tt q
      → handle_command pf decode floats obj fuel (memory_write k a bytes) p ≡ finished tt q []
  unfolding handle_command
  handle_memory_write p q k a bytes h g small wrote =
      rw
        (split-join b' ' (codes "memory" ∷ codes "write" ∷ hex_text k a ∷ vector_text bytes ∷ [])
          (memory_write-Words k a bytes))
        (rw (run_memory_write (hex_text k a) (vector_text bytes))
          (write_memory_lem p q k a bytes h g small wrote))
