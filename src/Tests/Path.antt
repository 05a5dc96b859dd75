-- ===== src/Tests/Path.antt =====
-- The path and the directory of the program at concrete inputs: a path of six bytes.
use mlnserver_web.Prelude.{
  ℕ, zero, suc, ◌<◌, ◌≤◌, ◌≡◌, refl, false, some, [], ◌∷◌, ◌++◌, Bytes, codes, length, ltb, lt→ltb,
  arith, if◌then◌else◌,
}
use mlnserver_web.Outcome.{ok}
use mlnserver_web.Startup.Directory.{System, DirectorySource, set_executable_path}
use mlnserver_web.Startup.Directory.Change.{
  Without, set_executable_path-windows, set_executable_path-linux,
}
use mlnserver_web.Startup.Path.{ModuleFileName, PathLaws, executable_path, executable_path-doubled}

abbrev program : Bytes
program = codes "c:\\svr"

abbrev full : ℕ → Bytes
full zero = []
full (suc n) = 115 ∷ full n

length-full : (n : ℕ) → length (full n) ≡ n
length-full zero = refl
length-full (suc n) = omega (arith, length-full n)

abbrev demo_api : ModuleFileName
demo_api = record {
  get_module_file_name = λ size. if ltb 6 size then (program, 0) else (full size, 122);
  insufficient_buffer = 122;
  success = 0;
}

program_fits : (size : ℕ) → 6 < size → (demo_api.get_module_file_name size).0 ≡ program
program_fits size h = rw (lt→ltb 6 size h) refl

program_cut :
    (size : ℕ)
    → size ≤ 6
    → (length (demo_api.get_module_file_name size).0 ≡ size)
      × ((demo_api.get_module_file_name size).1 ≡ 122)
program_cut size h =
    let large : ltb 6 size ≡ false = ground arith in rw large (length-full size, refl)

demo-PathLaws : PathLaws demo_api program
demo-PathLaws = record { some_path = omega arith; fits = program_fits; cut = program_cut }

executable_path-doubled_example : executable_path demo_api 4 1 ≡ ok program
executable_path-doubled_example =
    executable_path-doubled demo-PathLaws 3 1 (omega arith) (omega arith)

svr_text : Without 92 (codes "svr")
svr_text = ground arith

mln_text : Without 0 (codes "/srv/mln" ++ codes "old")
mln_text = ground arith

-- On Linux, the program is /srv/mln; the array holds the text "old" where its path ends. A state is
-- the directory.
abbrev demo_directories : DirectorySource Bytes
demo_directories = record {
  module_file_name = demo_api;
  current_path = λ path s. (ok tt, path);
  readlink = some (codes "/srv/mln");
  executable_path = codes "01234567old" ++ (0 ∷ []);
  dirname = λ path. path;
  chdir = λ path s. (ok tt, path);
}

set_executable_path-windows_example :
    set_executable_path demo_directories 1 System.windows [] ≡ (ok tt, codes "c:")
set_executable_path-windows_example =
    set_executable_path-windows demo_directories 0 (codes "c:") (codes "svr") [] demo-PathLaws
      svr_text (omega arith)

set_executable_path-linux_example :
    set_executable_path demo_directories 1 System.linux [] ≡ (ok tt, codes "/srv/mlnold")
set_executable_path-linux_example =
    set_executable_path-linux demo_directories 1 (codes "/srv/mln") (codes "01234567") (codes "old")
      [] [] refl refl refl mln_text
