-- ===== src/Startup/Directory/Change.antt =====
-- Which directory the program changes to.
use mlnserver_web.Prelude.{
  ℕ, zero, suc, ◌<◌, ◌≡◌, ◌≢◌, refl, sym, none, some, [], ◌∷◌, ◌++◌, Bytes, length, All,
  take-append, drop-append, append_assoc, arith, ◌==◌, false,
}
use mlnserver_web.Outcome.{ok, continue}
use mlnserver_web.Startup.Path.{PathLaws, doubled, executable_path, executable_path-doubled}
use mlnserver_web.Startup.Directory.{
  System, DirectorySource, find_last_of, exe_dir, c_string, written_over, set_executable_path,
}

abbrev pub Without : ℕ → Bytes → Type 0
Without c = All (λ b. b ≢ c)

not_found : (c : ℕ) (s : Bytes) → Without c s → find_last_of c s ≡ none
not_found c [] h = refl
not_found c (b ∷ s) (h, hs) =
    let other : (b == c) ≡ false = ground arith in rw (not_found c s hs, other) refl

found_behind :
    (c : ℕ) (dir file : Bytes)
    → Without c file
    → find_last_of c (dir ++ (c ∷ file)) ≡ some (length dir)
found_behind c [] file h = rw (not_found c file h) (ground arith)
found_behind c (b ∷ dir) file h = rw (found_behind c dir file h) refl

exe_dir-append : (dir file : Bytes) → Without 92 file → exe_dir (dir ++ (92 ∷ file)) ≡ dir
exe_dir-append dir file h = rw (found_behind 92 dir file h) (take-append dir (92 ∷ file))

c_string-append : (s rest : Bytes) → Without 0 s → c_string (s ++ (0 ∷ rest)) ≡ some s
c_string-append [] rest h = refl
c_string-append (zero ∷ s) rest (h, hs) = absurd (h refl)
c_string-append (suc b ∷ s) rest (h, hs) = rw (c_string-append s rest hs) refl

module _ {S : Type 0} (src : DirectorySource S) where
  -- On Windows: where the path of the program is that of a directory, a backslash and a file name
  -- without one, and fits into the buffer of 1024 bytes after some doublings, the program changes to
  -- that directory.
  pub set_executable_path-windows :
      (rounds : ℕ) (dir file : Bytes) (s : S)
      → PathLaws src.module_file_name (dir ++ (92 ∷ file))
      → Without 92 file
      → length (dir ++ (92 ∷ file)) < doubled rounds 1024
      → set_executable_path src (suc rounds) System.windows s ≡ src.current_path dir s
  unfolding set_executable_path
  set_executable_path-windows rounds dir file s laws plain fits =
      let found : executable_path src.module_file_name (suc rounds) 1024 ≡ ok (dir ++ (92 ∷ file)) =
        executable_path-doubled laws rounds 1024 (omega arith) fits in
      rw (found, continue, exe_dir-append dir file plain) refl

  -- On Linux: the program changes to the directory of the path that `readlink` wrote with whatever
  -- the array happened to hold between its end and the next 0 after it.
  pub set_executable_path-linux :
      (rounds : ℕ) (written before junk rest : Bytes) (s : S)
      → src.readlink ≡ some written
      → length before ≡ length written
      → src.executable_path ≡ before ++ (junk ++ (0 ∷ rest))
      → Without 0 (written ++ junk)
      → set_executable_path src rounds System.linux s ≡ src.chdir (src.dirname (written ++ junk)) s
  unfolding set_executable_path
  set_executable_path-linux rounds written before junk rest s link same array text =
      let cut : written_over written src.executable_path ≡ (written ++ junk) ++ (0 ∷ rest) =
        rw
          (
            array,
            sym same,
            drop-append before (junk ++ (0 ∷ rest)),
            append_assoc written junk (0 ∷ rest),
          )
          refl in
      rw (link, cut, c_string-append (written ++ junk) rest text) refl
