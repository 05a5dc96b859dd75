-- ===== src/Startup/Path.antt =====
-- `executable_path` of mlnserver/main.cpp: the path of the program, read into a buffer that is
-- doubled until the path fits.
use mlnserver_web.Prelude.{
  ℕ, zero, suc, ◌<◌, ◌≤◌, ◌*◌, ◌≡◌, refl, ◌∙◌, Bool, true, false, Bool-cases, inl, inr, ◌&&◌, ◌||◌,
  Bytes, codes, length, ltb, lt→ltb, ◌==◌, arith, if◌then◌else◌,
}
use mlnserver_web.Outcome.{Exn, Fault, Outcome, ok, raise, fault}

-- `GetModuleFileNameA` with `GetLastError`: what is written into a buffer of a size, and the error
-- code; the result of the call is the length of what is written.
pub record ModuleFileName : Type 0 where
  pub get_module_file_name : ℕ → Bytes × ℕ
  pub insufficient_buffer : ℕ
  pub success : ℕ

abbrev no_path : Outcome Bytes
no_path = raise (Exn.runtime_error (codes "failed getExecutablePath."))

module _ (api : ModuleFileName) where
  -- A buffer that is full is to be doubled.
  abbrev is_cut : ℕ → Bytes → ℕ → Bool
  is_cut size written last_error =
      (length written == size)
      && ((last_error == api.insufficient_buffer) || (last_error == api.success))

  -- One round, with what the rounds after it give.
  abbrev tried : Bytes × ℕ → ℕ → Outcome Bytes → Outcome Bytes
  tried (written, last_error) size rest =
      if length written == 0
      then no_path
      else if ltb (length written) size
      then ok written
      else if is_cut size written last_error
      then rest
      else no_path

  -- The loop, for a number of rounds.
  unfoldable pub executable_path : ℕ → ℕ → Outcome Bytes
  executable_path zero size = fault Fault.out_of_fuel
  executable_path (suc rounds) size =
      tried (api.get_module_file_name size) size (executable_path rounds (size * 2))

-- What the code relies on of Windows: the program has a path, which is written where it fits with
-- its end, and a buffer in which it does not fit is filled.
pub record PathLaws (api : ModuleFileName) (path : Bytes) : Type 0 where
  pub some_path : 0 < length path
  pub fits : (size : ℕ) → length path < size → (api.get_module_file_name size).0 ≡ path
  pub cut :
      (size : ℕ)
      → size ≤ length path
      → (length (api.get_module_file_name size).0 ≡ size)
        × ((api.get_module_file_name size).1 ≡ api.insufficient_buffer)

-- The size of the buffer after a number of doublings.
abbrev pub doubled : ℕ → ℕ → ℕ
doubled zero size = size
doubled (suc rounds) size = doubled rounds (size * 2)

module _ {api : ModuleFileName} {path : Bytes} (laws : PathLaws api path) where
  fits_now :
      (rounds size : ℕ) → length path < size → executable_path api (suc rounds) size ≡ ok path
  unfolding executable_path
  fits_now rounds size h =
      let some_length : (length path == 0) ≡ false = ground (arith, laws.some_path) in
      rw (laws.fits size h, some_length, lt→ltb (length path) size h) refl

  doubles :
      (rounds size : ℕ)
      → 0 < size
      → size ≤ length path
      → executable_path api (suc rounds) size ≡ executable_path api rounds (size * 2)
  unfolding executable_path
  doubles rounds size positive h =
      let (full, code) = laws.cut size h in
      let not_zero : (size == 0) ≡ false = ground arith in
      let not_less : ltb size size ≡ false = ground arith in
      let same : (size == size) ≡ true = ground arith in
      let same_code : (api.insufficient_buffer == api.insufficient_buffer) ≡ true = ground arith in
      rw (full, code, not_zero, not_less, same, same_code) refl

  -- Where the path of the program fits into the buffer after some doublings, one round more than
  -- these doublings returns it.
  pub executable_path-doubled :
      (rounds size : ℕ)
      → 0 < size
      → length path < doubled rounds size
      → executable_path api (suc rounds) size ≡ ok path
  executable_path-doubled zero size positive h = fits_now zero size h
  executable_path-doubled (suc rounds) size positive h =
      elim (Bool-cases (ltb (length path) size)) [
        | inl small ↦ fits_now (suc rounds) size (ground arith)
        | inr large ↦
            doubles (suc rounds) size positive (ground arith)
            ∙ executable_path-doubled rounds (size * 2) (omega arith) h
      ]
