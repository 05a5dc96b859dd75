-- ===== src/Startup/Directory.antt =====
-- `setExecutablePath` of mlnserver/main.cpp: the working directory becomes that of the program.
pub mod Change
use mlnserver_web.Prelude.{
  ℕ, zero, suc, Option, none, some, [], ◌∷◌, ◌++◌, Bytes, length, take, drop, ◌==◌, if◌then◌else◌,
}
use mlnserver_web.Outcome.{Fault, Outcome, M, pure, stop, ◌>>=◌}
use mlnserver_web.Startup.Path.{ModuleFileName, executable_path}

-- The systems that the conditions of the preprocessor tell apart.
pub data System : Type 0 where
  windows linux other_system : System

-- What is called on Windows and on Linux, and the array of PATH_MAX bytes as Linux finds it, which
-- nothing has written to.
pub record DirectorySource (S : Type 0) : Type 0 where
  pub module_file_name : ModuleFileName
  pub current_path : Bytes → M S (Unit {0})
  pub readlink : Option Bytes
  pub executable_path : Bytes
  pub dirname : Bytes → Bytes
  pub chdir : Bytes → M S (Unit {0})

-- `find_last_of` at a text of one character; `none` is `npos`.
abbrev pub find_last_of : ℕ → Bytes → Option ℕ
find_last_of c [] = none
find_last_of c (b ∷ s) = elim (find_last_of c s) [
  | some i ↦ some (suc i)
  | none ↦ if b == c then some 0 else none
]

-- `substr(0, n)`
abbrev pub substr : Bytes → Option ℕ → Bytes
substr s none = s
substr s (some n) = take n s

abbrev pub exe_dir : Bytes → Bytes
exe_dir exe_path = substr exe_path (find_last_of 92 exe_path)

-- What a function that takes a `char*` reads in an array: up to the first 0; without one, it reads
-- beyond the array.
abbrev pub c_string : Bytes → Option Bytes
c_string [] = none
c_string (zero ∷ s) = some []
c_string (suc b ∷ s) = elim (c_string s) [ none ↦ none | some t ↦ some (suc b ∷ t) ]

-- The array after `readlink`, which writes no 0 at the end.
abbrev pub written_over : Bytes → Bytes → Bytes
written_over written array = written ++ drop (length written) array

module _ {S : Type 0} (src : DirectorySource S) where
  abbrev change_directory : Option Bytes → M S (Unit {0})
  change_directory none = stop Fault.unterminated
  change_directory (some path) = src.chdir (src.dirname path)

  abbrev linux_directory : Option Bytes → M S (Unit {0})
  linux_directory none = pure tt
  linux_directory (some written) =
      change_directory (c_string (written_over written src.executable_path))

  -- On Windows, with a number of rounds for the loop of `executable_path`.
  unfoldable pub set_executable_path : ℕ → System → M S (Unit {0})
  set_executable_path rounds System.windows =
      (λ s. (executable_path src.module_file_name rounds 1024, s)) >>= λ exe_path.
      src.current_path (exe_dir exe_path)
  set_executable_path rounds System.linux = linux_directory src.readlink
  set_executable_path rounds System.other_system = pure tt
