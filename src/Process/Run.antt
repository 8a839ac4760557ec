-- ===== src/Process/Run.antt =====
-- How an operation on a process runs: it returns or throws, and in both cases leaves a process,
-- since the command loop catches an `sdb::error` and goes on with the same process.
-- `sdb::error` is include/libsdb/error.hpp.
use sdb_building_a_debugger.Base.{
  ℕ, ◌≡◌, refl, Bool, true, false, String, List, Option, none, some, ◌⊎◌, inl, inr,
}
use sdb_building_a_debugger.Platform.{Sys, done, failed}
use sdb_building_a_debugger.Process.State.{Process}

-- What can go wrong. The first four are `sdb::error`s: by `send`, by `send` with a number behind
-- the text, by `send` of a text that was read, and by `send_errno`. Then the exceptions of `std::optional`, `std::variant`
-- and `fmt`, behaviour that C++ leaves undefined, `std::terminate`, and a loop that used up its fuel.
pub data Failure : Type 0 where
  error : String → Failure
  error_at : String → ℕ → Failure
  error_text : List ℕ → Failure
  errno_error : String → ℕ → Failure
  bad_optional_access bad_variant_access format_error undefined terminate out_of_fuel : Failure

pub data Outcome (A : Type 0) : Type 0 where
  ok : A → Outcome A
  bad : Failure → Outcome A

abbrev pub and_then : {A B : Type 0} → Outcome A → (A → Outcome B) → Outcome B
and_then (ok a) f = f a
and_then (bad e) f = bad e

pub data Run (W : Type 0) (A : Type 0) : Type 0 where
  returned : A → Process W → Run W A
  threw : Failure → Process W → Run W A

abbrev pub M : Type 0 → Type 0 → Type 0
M W A = Process W → Run W A

abbrev pub pure : {W A : Type 0} → A → M W A
pure a p = returned a p

abbrev pub throw : {W A : Type 0} → Failure → M W A
throw e p = threw e p

abbrev pub continue_with : {W A B : Type 0} → Run W A → (A → M W B) → Run W B
continue_with (returned a p) f = f a p
continue_with (threw e p) f = threw e p

infixl 5 ◌>>=◌ ◌>>◌
abbrev pub ◌>>=◌ : {W A B : Type 0} → M W A → (A → M W B) → M W B
◌>>=◌ m f p = continue_with (m p) f

abbrev pub ◌>>◌ : {W B : Type 0} → M W (Unit {0}) → M W B → M W B
m >> k = m >>= λ _. k

abbrev pub get : {W : Type 0} → M W (Process W)
get p = returned p p

abbrev pub put : {W : Type 0} → Process W → M W (Unit {0})
put q p = returned tt q

abbrev pub unless : {W : Type 0} → Bool → M W (Unit {0}) → M W (Unit {0})
unless true m = pure tt
unless false m = m

abbrev pub guard : {W : Type 0} → Bool → Failure → M W (Unit {0})
guard true e = pure tt
guard false e = throw e

abbrev pub from_outcome : {W A : Type 0} → Outcome A → M W A
from_outcome (ok a) = pure a
from_outcome (bad e) = throw e

abbrev pub or_throw : {W A : Type 0} → Option A → Failure → M W A
or_throw (some a) e = pure a
or_throw none e = throw e

-- A system call that reads, and one that changes the kernel's state; `what` is the text that
-- `send_errno` puts before `strerror(errno)`.
abbrev pub answer : {W A : Type 0} → String → Sys A → M W A
answer what (done a) p = returned a p
answer what (failed e) p = threw (errno_error what e) p

abbrev pub reading : {W A : Type 0} → String → (W → Sys A) → M W A
reading what call p = answer what (call p.world) p

abbrev pub calling : {W A : Type 0} → String → (W → Sys A × W) → M W A
calling what call p = answer what (call p.world).0 (record p { world = (call p.world).1 })

-- The same where the source does not look at the result.
abbrev pub ignoring : {W A : Type 0} → (W → Sys A × W) → M W (Unit {0})
ignoring call p = returned tt (record p { world = (call p.world).1 })

-- Inversion of a successful sequence, for proofs where the parts stay shut.
pub >>=-eq-returned :
    {W A B : Type 0} (m : M W A) (f : A → M W B) (p : Process W) {b : B} {q : Process W}
    → (m >>= f) p ≡ returned b q
    → (a : A) × (r : Process W) × (m p ≡ returned a r) × (f a r ≡ returned b q)
>>=-eq-returned {W} {A} {B} m f p {b} {q} h = parts (m p) refl h
  where
    parts :
        (r : Run W A)
        → m p ≡ r
        → continue_with r f ≡ returned b q
        → (a : A) × (s : Process W) × (m p ≡ returned a s) × (f a s ≡ returned b q)
    parts (returned a s) e g = (a, s, e, g)
    parts (threw e s) d g = cc

pub Run-cases :
    {W A : Type 0} (r : Run W A)
    → ((a : A) × (q : Process W) × (r ≡ returned a q))
      ⊎ ((e : Failure) × (q : Process W) × (r ≡ threw e q))
Run-cases (returned a q) = inl (a, q, refl)
Run-cases (threw e q) = inr (e, q, refl)

pub Sys-cases : {A : Type 0} (r : Sys A) → ((a : A) × (r ≡ done a)) ⊎ ((e : ℕ) × (r ≡ failed e))
Sys-cases (done a) = inl (a, refl)
Sys-cases (failed e) = inr (e, refl)

pub Outcome-cases :
    {A : Type 0} (r : Outcome A) → ((a : A) × (r ≡ ok a)) ⊎ ((e : Failure) × (r ≡ bad e))
Outcome-cases (ok a) = inl (a, refl)
Outcome-cases (bad e) = inr (e, refl)
