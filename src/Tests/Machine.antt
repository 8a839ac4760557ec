-- ===== src/Tests/Machine.antt =====
-- A small machine in place of the kernel: a memory in which every byte is mapped, an inferior that
-- stops with SIGTRAP at each wait, and the layout of the user area on x86-64.
use sdb_building_a_debugger.Base.{
  ℕ, zero, suc, ◌+◌, ◌-◌, ◌%◌, ◌<◌, ◌≡◌, refl, ap, ◌∙◌, arith, false, ◌&&◌, List, [], ◌∷◌, ◌++◌,
  get_or, length, replicate, Option, none, codes, some, leb, ltb, if◌then◌else◌, ◌==◌, All, IsByte,
  le_value, le_bytes, le_value-lt, le_bytes-le_value, le_bytes-IsByte, byte_of, inl,
}
use sdb_building_a_debugger.Platform.{Platform, Sys, done, failed, UserLayout, FloatCasts}
use sdb_building_a_debugger.Memory.Model.{MemoryLaws, stretch, gather, cons?}

pub record World : Type 0 where
  pub cells : ℕ → ℕ

abbrev pub at_most_byte : World → ℕ → ℕ
at_most_byte w a = w.cells a % 256

abbrev pub byte : World → ℕ → Option ℕ
byte w a = some (at_most_byte w a)

abbrev pub bytes_at : World → ℕ → ℕ → List ℕ
bytes_at w a zero = []
bytes_at w a (suc n) = at_most_byte w a ∷ bytes_at w (a + 1) n

abbrev pub gathered : World → List (ℕ × ℕ) → List ℕ
gathered w [] = []
gathered w ((a, n) ∷ ds) = bytes_at w a n ++ gathered w ds

abbrev write_cells : ℕ → ℕ → World → World
write_cells a n w = record {
  cells = λ b. if leb a b && ltb b (a + 8) then byte_of n (b - a) else w.cells b;
}

abbrev pub x86_64 : UserLayout
x86_64 = record {
  regs = 0;
  i387 = 224;
  i387_size = 512;
  u_debugreg = 848;
  gpr_field = λ _. 0;
  fpr_field = λ _. 0;
  fpr_size = λ _. 8;
}

abbrev same_bytes : FloatCasts
same_bytes = record {
  float_to_double = λ xs. xs;
  float_to_long_double = λ xs. xs;
  double_to_long_double = λ xs. xs;
  long_double_to_double = λ xs. xs;
}

abbrev accept : World → Sys (Unit {0}) × World
accept w = (done tt, w)

abbrev pub machine : Platform World
machine = record {
  layout = x86_64;
  floats = same_bytes;
  peek_data = λ pid a w. done (le_value (bytes_at w a 8));
  poke_data = λ pid a n w. (done tt, write_cells a n w);
  peek_user = λ pid offset w. done 0;
  poke_user = λ pid offset n w. accept w;
  get_regs = λ pid w. done (replicate 216 0);
  get_fpregs = λ pid w. done (replicate 512 0);
  set_regs = λ pid bytes w. accept w;
  set_fpregs = λ pid bytes w. accept w;
  get_siginfo = λ pid w. done 2;
  single_step = λ pid w. accept w;
  cont = λ pid w. accept w;
  cont_syscall = λ pid w. accept w;
  attach_to = λ pid w. accept w;
  detach = λ pid w. accept w;
  set_options = λ pid w. accept w;
  kill = λ pid signal w. accept w;
  waitpid = λ pid w. (done 0x57f, w);
  if_exited = λ status. status % 128 == 0;
  exit_status = λ status. status - 0;
  if_signaled = λ status. false;
  term_sig = λ status. status % 128;
  if_stopped = λ status. status % 256 == 0x7f;
  sigabbrev = λ signal. if signal == 5 then some (codes "TRAP") else none;
  stop_sig = λ status. 5;
  process_vm_readv = λ pid descs w. done (gathered w descs);
}

length-bytes_at : (w : World) (a n : ℕ) → length (bytes_at w a n) ≡ n
length-bytes_at w a zero = refl
length-bytes_at w a (suc n) = ap suc (length-bytes_at w (a + 1) n)

bytes_at-IsByte : (w : World) (a n : ℕ) → All IsByte (bytes_at w a n)
bytes_at-IsByte w a zero = tt
bytes_at-IsByte w a (suc n) = (omega arith, bytes_at-IsByte w (a + 1) n)

get_or-bytes_at :
    (w : World) (a n i : ℕ) → i < n → get_or (bytes_at w a n) i 0 ≡ at_most_byte w (a + i)
get_or-bytes_at w a zero i h = absurd (omega arith)
get_or-bytes_at w a (suc n) zero h = ground arith
get_or-bytes_at w a (suc n) (suc i) h = ground (arith, get_or-bytes_at w (a + 1) n i (omega arith))

byte_of-lt : (n i : ℕ) → byte_of n i < 256
unfolding byte_of
byte_of-lt n i = in_list (le_bytes 8 n) i (le_bytes-IsByte 8 n)
  where
    in_list : (xs : List ℕ) (i : ℕ) → All IsByte xs → get_or xs i 0 < 256
    in_list [] i h = omega arith
    in_list (x ∷ xs) zero h = h.0
    in_list (x ∷ xs) (suc i) h = in_list xs i h.1

byte_of-word :
    (w : World) (a i : ℕ) → i < 8 → byte_of (le_value (bytes_at w a 8)) i ≡ at_most_byte w (a + i)
unfolding byte_of
byte_of-word w a i h =
    ap (λ xs. get_or xs i 0) (le_bytes-le_value (bytes_at w a 8) (bytes_at-IsByte w a 8))
    ∙ get_or-bytes_at w a 8 i h

stretch-all : (w : World) (a n : ℕ) → stretch (byte w) a n ≡ some (bytes_at w a n)
stretch-all w a zero = refl
stretch-all w a (suc n) = ap (cons? (byte w a)) (stretch-all w (a + 1) n)

gather-all : (w : World) (descs : List (ℕ × ℕ)) → gather (byte w) descs ≡ some (gathered w descs)
gather-all w [] = refl
gather-all w ((a, n) ∷ ds) = rw (stretch-all w a n, gather-all w ds) refl

pub machine_laws : MemoryLaws machine 7 byte
machine_laws = record {
  peek_word = λ a n w e. ground (arith, le_value-lt (bytes_at w a 8) (bytes_at-IsByte w a 8));
  peek_byte = λ a n i w e h. ground (arith, byte_of-word w a i h);
  poke_byte = λ a n b w e. ground (arith, byte_of-lt n (b - a));
  poke_mapped = λ a n i w e h d. cc;
  poke_part = λ a n e b w d. cc;
  poke_failed = λ a n e b w d inside. cc;
  byte_lt = λ a b w e. ground arith;
  readv_mapped = λ descs bs w few e. ground (arith, gather-all w descs);
}

-- The same machine where no word can be written.
abbrev pub read_only : Platform World
read_only = record machine { poke_data = λ pid a n w. (failed 14, w) }

pub read_only_laws : MemoryLaws read_only 7 byte
read_only_laws = record {
  peek_word = λ a n w e. machine_laws.peek_word a n w e;
  peek_byte = λ a n i w e h. machine_laws.peek_byte a n i w e h;
  poke_byte = λ a n b w e. cc;
  poke_mapped = λ a n i w e h d. cc;
  poke_part = λ a n e b w d. inl refl;
  poke_failed = λ a n e b w d inside. refl;
  byte_lt = λ a b w e. machine_laws.byte_lt a b w e;
  readv_mapped = λ descs bs w few e. machine_laws.readv_mapped descs bs w few e;
}
