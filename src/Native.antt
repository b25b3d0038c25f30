-- ===== src/Native.antt =====
-- native/: three programs for a host, each its main function on the program's static variables.
-- The arguments, the files and each system call's answer are arguments of the model. What the
-- programs print to stdout and stderr is left out. `Some n` as a result is `return n`, `none` a
-- program that runs on.
pub mod RegisterDevice
pub mod Loopback
pub mod Profiler
use ascii_serial_com_c.Prelude.{
  ℕ, false, Bool, List, [], ◌∷◌, Option, none, some, ◌==◌, ◌&&◌, Outcome, M, ok, throw, fault,
  AscException,
}
use ascii_serial_com_c.IoFdPoll.{Poll}

-- Try and Catch: the handler runs on what the call left.
abbrev handle : {S A : Type 0} → (AscException → M S A) → Outcome A × S → Outcome A × S
handle handler (ok a, s) = (ok a, s)
handle handler (throw e, s) = handler e s
handle handler (fault, s) = (fault, s)

abbrev pub try_catch : {S A : Type 0} → M S A → (AscException → M S A) → M S A
try_catch m handler s = handle handler (m s)

-- `strncmp(option, argument, 2) == 0` for an option of two characters.
abbrev pub is_option : ℕ → ℕ → List ℕ → Bool
is_option x y (a ∷ (b ∷ rest)) = (a == x) && (b == y)
is_option x y argument = false

-- fopen of a name with a mode, `none` for a null pointer, and fileno of the stream, `none` for a
-- negative number.
pub record Files : Type 0 where
  pub fopen : List ℕ → List ℕ → Option ℕ
  pub fileno : ℕ → Option ℕ

-- A file's descriptor; `none` leads to `return 1`.
pub descriptor : Files → List ℕ → List ℕ → Option ℕ
descriptor files name mode = elim (files.fopen name mode) [
  | none ↦ none
  | some file ↦ files.fileno file
]

-- The input's and the output's descriptor, for the arguments after the program's name: those of
-- two files, or STDIN_FILENO and STDOUT_FILENO.
unfoldable pub open_files : Files → List (List ℕ) → Option (ℕ × ℕ)
unfolding descriptor
open_files files (infilename ∷ (outfilename ∷ [])) =
    elim (descriptor files infilename (b'r' ∷ [])) [
      | none ↦ none
      | some infileno ↦ elim (descriptor files outfilename (b'a' ∷ b'+' ∷ [])) [
        | none ↦ none
        | some outfileno ↦ some (infileno, outfileno)
      ]
    ]
open_files files arguments = some (0, 1)

-- The system's answers in one round of a main loop: poll for a timeout in milliseconds, `none` for
-- none, read of a count from a descriptor, and write of a block to one.
pub record Round : Type 0 where
  pub poll : Option ℕ → Poll
  pub read : ℕ → ℕ → Option (List ℕ)
  pub write : ℕ → List ℕ → Option ℕ
