-- ===== src/Stored/Files.antt =====
-- utils/file.go: AtomicWriteFile. The calls of the operating system are parameters.
use runetale.Common.{
  ℕ, String, Bool, Option, none, some, List, if◌then◌else◌, Error, Fallible, value, error,
}

-- What the calls of os and ioutil do to the world `W`. A temporary file is known by its name.
pub record Files (W : Type 0) : Type 0 where
  pub temp_file : String → W → Fallible String × W
  pub write : String → List ℕ → W → Option Error × W
  pub chmod : String → ℕ → W → Option Error × W
  pub sync : String → W → Option Error × W
  pub close : String → W → Option Error × W
  pub remove : String → W → Option Error × W
  pub rename : String → String → W → Option Error × W
  pub is_windows : Bool

-- `if err := ...; err != nil { return err }`
unfoldable pub and_then :
    {W : Type 0} → Option Error × W → (W → Option Error × W) → Option Error × W
and_then (none, w) f = f w
and_then (some e, w) f = (some e, w)

module _ {W : Type 0} (files : Files W) where
  unfoldable pub chmod_unless_windows : String → ℕ → W → Option Error × W
  chmod_unless_windows tmp perm w = if files.is_windows then (none, w) else files.chmod tmp perm w

  -- The deferred function: after an error the temporary file goes.
  unfoldable pub remove_deferred : String → Option Error × W → Option Error × W
  remove_deferred tmp (none, w) = (none, w)
  remove_deferred tmp (some e, w) = (some e, (files.remove tmp (files.close tmp w).1).1)

  unfoldable pub write_temp : String → List ℕ → ℕ → String → W → Option Error × W
  unfolding chmod_unless_windows
  write_temp filename bytes perm tmp w = and_then (files.write tmp bytes w) λ w₁.
      and_then (chmod_unless_windows tmp perm w₁) λ w₂.
        and_then (files.sync tmp w₂)
          λ w₃. and_then (files.close tmp w₃) λ w₄. files.rename tmp filename w₄

  unfoldable pub after_temp : String → List ℕ → ℕ → Fallible String × W → Option Error × W
  after_temp filename bytes perm (error e, w) = (some e, w)
  after_temp filename bytes perm (value tmp, w) =
      remove_deferred tmp (write_temp filename bytes perm tmp w)

  unfoldable pub atomic_write_file : String → List ℕ → ℕ → W → Option Error × W
  atomic_write_file filename bytes perm w =
      after_temp filename bytes perm (files.temp_file filename w)
