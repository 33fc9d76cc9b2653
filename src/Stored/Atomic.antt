-- ===== src/Stored/Atomic.antt =====
-- utils/file.go: a file that AtomicWriteFile writes has its new content or its old one.
use runetale.Common.{
  ℕ, String, ◌≡◌, refl, sym, ap, ◌∙◌, ◌≢◌, inl, inr, Option, none, some, List, Bool-cases, Error,
  Fallible, value, error,
}
use runetale.Stored.Files.{
  Files, and_then, chmod_unless_windows, remove_deferred, write_temp, after_temp, atomic_write_file,
}

-- What the calls do to the content of files: a temporary file has a name of its own, only writing,
-- removing and renaming change a content, and of the named files only.
pub record FileLaws {W : Type 0} (files : Files W) : Type 0 where
  pub content : String → W → Option (List ℕ)
  pub temp_differs : (f tmp : String) (w : W) → (files.temp_file f w).0 ≡ value tmp → tmp ≢ f
  pub temp_keeps : (f : String) (w : W) → content f (files.temp_file f w).1 ≡ content f w
  pub write_writes :
      (tmp : String) (l : List ℕ) (w : W)
      → (files.write tmp l w).0 ≡ none
      → content tmp (files.write tmp l w).1 ≡ some l
  pub write_keeps :
      (tmp f : String) (l : List ℕ) (w : W)
      → tmp ≢ f
      → content f (files.write tmp l w).1 ≡ content f w
  pub chmod_keeps :
      (tmp f : String) (p : ℕ) (w : W) → content f (files.chmod tmp p w).1 ≡ content f w
  pub sync_keeps : (tmp f : String) (w : W) → content f (files.sync tmp w).1 ≡ content f w
  pub close_keeps : (tmp f : String) (w : W) → content f (files.close tmp w).1 ≡ content f w
  pub remove_keeps :
      (tmp f : String) (w : W) → tmp ≢ f → content f (files.remove tmp w).1 ≡ content f w
  pub rename_moves :
      (tmp f : String) (w : W)
      → (files.rename tmp f w).0 ≡ none
      → content f (files.rename tmp f w).1 ≡ content tmp w
  pub rename_fails :
      (tmp f : String) (e : Error) (w : W)
      → (files.rename tmp f w).0 ≡ some e
      → content f (files.rename tmp f w).1 ≡ content f w

module _ {W : Type 0} (files : Files W) (laws : FileLaws files) (f : String) (bytes : List ℕ)
    (old : Option (List ℕ)) where
  open laws use {content}

  -- Success with the new content, or an error with the old one.
  abbrev pub Done : Option Error × W → Type 0
  Done (none, w) = content f w ≡ some bytes
  Done (some e, w) = content f w ≡ old

  and_then-Done :
      (P : W → Type 0) (out : Option Error × W) (g : W → Option Error × W)
      → content f out.1 ≡ old
      → (out.0 ≡ none → P out.1)
      → ((w : W) → content f w ≡ old → P w → Done (g w))
      → Done (and_then out g)
  unfolding and_then
  and_then-Done P (none, w) g i p h = h w i (p refl)
  and_then-Done P (some e, w) g i p h = i

  module _ (tmp : String) (differs : tmp ≢ f) where
    abbrev Written : W → Type 0
    Written w = content tmp w ≡ some bytes

    chmod-keeps :
        (p : ℕ) (g : String) (w : W)
        → content g (chmod_unless_windows files tmp p w).1 ≡ content g w
    unfolding chmod_unless_windows
    chmod-keeps p g w = elim (Bool-cases files.is_windows) [
      | inl win ↦ rw win refl
      | inr unix ↦ rw unix (laws.chmod_keeps tmp g p w)
    ]

    renamed-Done :
        (w : W) (out : Option Error × W)
        → files.rename tmp f w ≡ out
        → content f w ≡ old
        → Written w
        → Done out
    renamed-Done w (none, w') e i p =
        ap (λ o. content f o.1) (sym e) ∙ laws.rename_moves tmp f w (ap (λ o. o.0) e) ∙ p
    renamed-Done w (some x, w') e i p =
        ap (λ o. content f o.1) (sym e) ∙ laws.rename_fails tmp f x w (ap (λ o. o.0) e) ∙ i

    write_temp-Done :
        (perm : ℕ) (w : W) → content f w ≡ old → Done (write_temp files f bytes perm tmp w)
    unfolding write_temp
    write_temp-Done perm w i =
        and_then-Done Written (files.write tmp bytes w) _
          (laws.write_keeps tmp f bytes w differs ∙ i) (laws.write_writes tmp bytes w)
          λ w₁ i₁ p₁.
            and_then-Done Written (chmod_unless_windows files tmp perm w₁) _
              (chmod-keeps perm f w₁ ∙ i₁) (λ _. chmod-keeps perm tmp w₁ ∙ p₁)
              λ w₂ i₂ p₂.
                and_then-Done Written (files.sync tmp w₂) _ (laws.sync_keeps tmp f w₂ ∙ i₂)
                  (λ _. laws.sync_keeps tmp tmp w₂ ∙ p₂)
                  λ w₃ i₃ p₃.
                    and_then-Done Written (files.close tmp w₃) _ (laws.close_keeps tmp f w₃ ∙ i₃)
                      (λ _. laws.close_keeps tmp tmp w₃ ∙ p₃)
                      λ w₄ i₄ p₄. renamed-Done w₄ (files.rename tmp f w₄) refl i₄ p₄

    remove_deferred-Done :
        (out : Option Error × W) → Done out → Done (remove_deferred files tmp out)
    unfolding remove_deferred
    remove_deferred-Done (none, w) d = d
    remove_deferred-Done (some e, w) d =
        laws.remove_keeps tmp f (files.close tmp w).1 differs ∙ laws.close_keeps tmp f w ∙ d

  after_temp-Done :
      (perm : ℕ) (out : Fallible String × W)
      → ((tmp : String) → out.0 ≡ value tmp → tmp ≢ f)
      → content f out.1 ≡ old
      → Done (after_temp files f bytes perm out)
  unfolding after_temp
  after_temp-Done perm (error e, w) h i = i
  after_temp-Done perm (value tmp, w) h i =
      let differs = h tmp refl in
      remove_deferred-Done tmp differs (write_temp files f bytes perm tmp w)
        (write_temp-Done tmp differs perm w i)

-- AtomicWriteFile either succeeds, and the file has the new content, or fails, and the file has the
-- content that it had (or is still missing).
pub atomic_write_file-Done :
    {W : Type 0} (files : Files W) (laws : FileLaws files) (f : String) (bytes : List ℕ) (perm : ℕ)
    (w : W)
    → Done files laws f bytes (laws.content f w) (atomic_write_file files f bytes perm w)
unfolding atomic_write_file
atomic_write_file-Done files laws f bytes perm w =
    after_temp-Done files laws f bytes (laws.content f w) perm (files.temp_file f w)
      (λ tmp e. laws.temp_differs f tmp w e) (laws.temp_keeps f w)
