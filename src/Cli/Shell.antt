-- ===== src/Cli/Shell.antt =====
-- What a command of tools/sdb.cpp does: it works on the process, and says something on the way.
pub mod Stays
use sdb_building_a_debugger.Base.{
  ℕ, Bool, true, false, String, List, [], ◌∷◌, ◌++◌, ℤ, if◌then◌else◌,
}
use sdb_building_a_debugger.Process.State.{Process}
use sdb_building_a_debugger.Process.Run.{
  Failure, error, error_at, error_text, errno_error, bad_optional_access, bad_variant_access,
  format_error, Run, returned, threw, M, Outcome, from_outcome,
}
use sdb_building_a_debugger.Registers.Value.{Value}

-- What is handed to `fmt` to be laid out.
pub data Argument : Type 0 where
  number : ℕ → Argument
  integer : ℤ → Argument
  text : List ℕ → Argument
  literal : String → Argument
  register_value : Value → Argument
  numbers : List ℕ → Argument

-- A format string of `fmt` and its arguments. A message is the texts of its pieces, one behind the
-- other.
pub record Piece : Type 0 where
  pub format : String
  pub arguments : List Argument

abbrev pub piece : String → List Argument → Piece
piece format arguments = record { format = format; arguments = arguments }

-- `stdout` or `std::cout`, and `stderr` or `std::cerr`. `reported` is the text of an `sdb::error`.
pub data Message : Type 0 where
  printed complained : List Piece → Message
  reported : Failure → Message

-- How a command ends, with the process it leaves and all that it said.
pub data Ran (W : Type 0) (A : Type 0) : Type 0 where
  finished : A → Process W → List Message → Ran W A
  raised : Failure → Process W → List Message → Ran W A

abbrev pub Shell : Type 0 → Type 0 → Type 0
Shell W A = Process W → Ran W A

abbrev pub after : {W A : Type 0} → List Message → Ran W A → Ran W A
after said (finished a p more) = finished a p (said ++ more)
after said (raised e p more) = raised e p (said ++ more)

abbrev pub then_run : {W A B : Type 0} → Ran W A → (A → Shell W B) → Ran W B
then_run (finished a p said) f = after said (f a p)
then_run (raised e p said) f = raised e p said

infixl 5 ◌>>=◌ ◌>>◌
abbrev pub ◌>>=◌ : {W A B : Type 0} → Shell W A → (A → Shell W B) → Shell W B
◌>>=◌ m f p = then_run (m p) f

abbrev pub ◌>>◌ : {W B : Type 0} → Shell W (Unit {0}) → Shell W B → Shell W B
m >> k = m >>= λ _. k

abbrev pub pure : {W A : Type 0} → A → Shell W A
pure a p = finished a p []

abbrev pub raise : {W A : Type 0} → Failure → Shell W A
raise e p = raised e p []

abbrev pub say : {W : Type 0} → Message → Shell W (Unit {0})
say message p = finished tt p (message ∷ [])

abbrev pub silent : {W A : Type 0} → Run W A → Ran W A
silent (returned a p) = finished a p []
silent (threw e p) = raised e p []

-- An operation on the process.
abbrev pub perform : {W A : Type 0} → M W A → Shell W A
perform m p = silent (m p)

abbrev pub result : {W A : Type 0} → Outcome A → Shell W A
result r = perform (from_outcome r)

abbrev pub current : {W : Type 0} → Shell W (Process W)
current p = finished p p []

-- `catch (const sdb::error &)` and `catch (...)`.
unfoldable pub is_sdb_error : Failure → Bool
is_sdb_error (error message) = true
is_sdb_error (error_at message n) = true
is_sdb_error (error_text message) = true
is_sdb_error (errno_error message n) = true
is_sdb_error _ = false

unfoldable pub is_exception : Failure → Bool
unfolding is_sdb_error
is_exception bad_optional_access = true
is_exception bad_variant_access = true
is_exception format_error = true
is_exception e = is_sdb_error e

abbrev pub caught : {W A : Type 0} → (Failure → Bool) → (Failure → Shell W A) → Ran W A → Ran W A
caught catches handler (finished a p said) = finished a p said
caught catches handler (raised e p said) =
    if catches e then after said (handler e p) else raised e p said

abbrev pub attempt :
    {W A : Type 0} → (Failure → Bool) → Shell W A → (Failure → Shell W A) → Shell W A
attempt catches m handler p = caught catches handler (m p)

-- `for_each` of include/libsdb/stoppoint_collection.hpp.
unfoldable pub for_each : {W S : Type 0} → (S → Shell W (Unit {0})) → List S → Shell W (Unit {0})
for_each f [] = pure tt
for_each f (point ∷ points) = do f point; for_each f points
