-- ===== src/Prelude/Exception.antt =====
-- Calls that may leave by an exception (asc_exception.h, with Throw and Catch of CException). An
-- exception is a longjmp: what the call wrote before it stays written, so a computation returns
-- the state on every exit.
use Prim.Native.Nat.{ℕ}
use mathlib.Core.Path.{◌≡◌, refl}
use mathlib.Core.Bool.{Bool, true, false}

-- enum asc_exception
pub data AscException : Type 0 where
  unknown no_error : AscException
  data_too_long checksum_problem invalid_frame invalid_frame_period not_hex_char : AscException
  command_not_implemented unexpected_command data_too_short : AscException
  reg_block_null regnum_oob regval_len : AscException
  cb_oob cb_pop_empty cb_bad_capacity : AscException
  file_read file_write : AscException

-- The numbers that the enum gives them.
abbrev pub error_code : AscException → ℕ
error_code AscException.unknown = 0x00
error_code AscException.no_error = 0x01
error_code AscException.data_too_long = 0x10
error_code AscException.checksum_problem = 0x11
error_code AscException.invalid_frame = 0x12
error_code AscException.invalid_frame_period = 0x13
error_code AscException.not_hex_char = 0x14
error_code AscException.command_not_implemented = 0x15
error_code AscException.unexpected_command = 0x16
error_code AscException.data_too_short = 0x17
error_code AscException.reg_block_null = 0x20
error_code AscException.regnum_oob = 0x21
error_code AscException.regval_len = 0x22
error_code AscException.cb_oob = 0x30
error_code AscException.cb_pop_empty = 0x31
error_code AscException.cb_bad_capacity = 0x32
error_code AscException.file_read = 0x40
error_code AscException.file_write = 0x41

-- `fault` is an access outside an array, which C leaves undefined, or a loop that the model gave up.
pub data Outcome (A : Type 0) : Type 0 where
  ok : A → Outcome A
  throw : AscException → Outcome A
  fault : Outcome A

-- A call on a state of type `S`.
abbrev pub M : Type 0 → Type 0 → Type 0
M S A = S → Outcome A × S

abbrev pub continue : {S A B : Type 0} → Outcome A × S → (A → M S B) → Outcome B × S
continue (ok a, s) f = f a s
continue (throw e, s) f = (throw e, s)
continue (fault, s) f = (fault, s)

infixl 5 ◌>>=◌ ◌>>◌
abbrev pub ◌>>=◌ : {S A B : Type 0} → M S A → (A → M S B) → M S B
◌>>=◌ m f s = continue (m s) f

abbrev pub ◌>>◌ : {S B : Type 0} → M S (Unit {0}) → M S B → M S B
◌>>◌ m k s = continue (m s) (λ _. k)

abbrev pub pure : {S A : Type 0} → A → M S A
pure a s = (ok a, s)

abbrev pub raise : {S A : Type 0} → AscException → M S A
raise e s = (throw e, s)

abbrev pub modify : {S : Type 0} → (S → S) → M S (Unit {0})
modify f s = (ok tt, f s)

abbrev pub gets : {S A : Type 0} → (S → A) → M S A
gets f s = (ok (f s), s)

-- `if (b) Throw(e);`
abbrev pub throw_if : {S : Type 0} → Bool → AscException → M S (Unit {0})
throw_if true e s = (throw e, s)
throw_if false e s = (ok tt, s)

abbrev pub when : {S : Type 0} → Bool → M S (Unit {0}) → M S (Unit {0})
when true m s = m s
when false m s = (ok tt, s)

pub continue_assoc :
    {S A B C : Type 0} (r : Outcome A × S) (f : A → M S B) (g : B → M S C)
    → continue r (λ a s. continue (f a s) g) ≡ continue (continue r f) g
continue_assoc (ok a, s) f g = refl
continue_assoc (throw e, s) f g = refl
continue_assoc (fault, s) f g = refl

-- What the calls keep, their sequence keeps, however it ends.
pub continue_kept :
    {S A B T : Type 0} (f : S → T) (t : T) (r : Outcome A × S) (g : A → M S B)
    → f r.1 ≡ t
    → ((a : A) (s : S) → f s ≡ t → f (g a s).1 ≡ t)
    → f (continue r g).1 ≡ t
continue_kept f t (ok a, s) g h k = k a s h
continue_kept f t (throw e, s) g h k = h
continue_kept f t (fault, s) g h k = h
