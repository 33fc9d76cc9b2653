-- ===== src/System/Reads.antt =====
-- system/system_linux.go: GetInfo as a whole.
use mathlib.Core.List.{append-nil}
use runetale.Common.{
  ℕ, zero, suc, ◌<◌, ◌≡◌, refl, ap, true, false, some, List, [], ◌∷◌, ◌++◌, arith, All, ok,
}
use runetale.System.Text.{
  codes, remove, text_contains, Lacks, split-lacking, split-append, remove-lacking, remove-append,
  remove_pair-lacking, Lacks-append,
}
use runetale.System.Info.{
  SysInfo, SystemCalls, broken_pipe, index, whole_info, whole_release, os_info, name_or_word,
  linux_info, after_release, after_info, get_info,
}
use runetale.System.Release.{Assignment, IsPlain, print_release, last_value, release_fields-print}

-- The four words that `uname -srio` prints.
pub record Uname : Type 0 where
  pub kernel_word : List ℕ
  pub core_word : List ℕ
  pub platform_word : List ℕ
  pub os_word : List ℕ

abbrev pub IsWord : List ℕ → Type 0
IsWord s = Lacks 32 s × Lacks 10 s

pub record AreWords (u : Uname) : Type 0 where
  pub kernel_plain : IsWord u.kernel_word
  pub core_plain : IsWord u.core_word
  pub platform_plain : IsWord u.platform_word
  pub os_plain : IsWord u.os_word

abbrev pub words_line : Uname → List ℕ
words_line u = u.kernel_word ++ 32 ∷ (u.core_word ++ 32 ∷ (u.platform_word ++ 32 ∷ u.os_word))

abbrev pub print_uname : Uname → List ℕ
print_uname u = words_line u ++ 10 ∷ []

-- A text stands, unless it is empty, before another.
abbrev pub first_nonempty : List ℕ → List ℕ → List ℕ
first_nonempty [] t = t
first_nonempty (c ∷ cs) t = c ∷ cs

module _ {W : Type 0} (calls : SystemCalls W) where
  words_line-Lacks : (u : Uname) → AreWords u → Lacks 10 (words_line u)
  words_line-Lacks u h = Lacks-append 10 u.kernel_word _ h.kernel_plain.1 (
    omega arith,
    Lacks-append 10 u.core_word _ h.core_plain.1 (
      omega arith,
      Lacks-append 10 u.platform_word _ h.platform_plain.1 (omega arith, h.os_plain.1),
    ),
  )

  one_line : (u : Uname) → AreWords u → remove 10 (print_uname u) ≡ words_line u
  unfolding remove
  one_line u h = ground (
    arith,
    remove-append 10 (words_line u) (10 ∷ []),
    remove-lacking 10 (words_line u) (words_line-Lacks u h),
    append-nil (words_line u),
  )

  os_info-print :
      (u : Uname)
      → AreWords u
      → os_info calls (print_uname u)
        ≡ u.kernel_word ∷ u.core_word ∷ u.platform_word ∷ u.os_word ∷ []
  unfolding os_info
  os_info-print u h = rw (
    one_line u h,
    remove_pair-lacking 13 10 (words_line u) (words_line-Lacks u h),
    split-append 32 u.kernel_word _ h.kernel_plain.0,
    split-append 32 u.core_word _ h.core_plain.0,
    split-append 32 u.platform_word u.os_word h.platform_plain.0,
    split-lacking 32 u.os_word h.os_plain.0,
  )

  -- After `n` outputs with a broken pipe the command gives `info`.
  pub data Whole : ℕ → List ℕ × W → List ℕ → W → Type 0 where
    at_once :
        {info : List ℕ} {w : W}
        → text_contains broken_pipe info ≡ false
        → Whole zero (info, w) info w
    after_broken :
        {n : ℕ} {t info : List ℕ} {w w' : W}
        → text_contains broken_pipe t ≡ true
        → Whole n ((calls.get_info_text w).0, calls.pause (calls.get_info_text w).1) info w'
        → Whole (suc n) (t, w) info w'

  whole_info-Whole :
      (fuel : ℕ) {n : ℕ} {r : List ℕ × W} {info : List ℕ} {w : W}
      → Whole n r info w
      → n < fuel
      → (whole_info calls fuel r ≡ some (info, w)) × (text_contains broken_pipe info ≡ false)
  unfolding whole_info
  whole_info-Whole zero h lt = absurd (omega arith)
  whole_info-Whole (suc fuel) (at_once e) lt = (rw e, e)
  whole_info-Whole (suc fuel) (after_broken e h) lt =
      let (run, ends) = whole_info-Whole fuel h (omega arith) in (rw e run, ends)

  name_or_word-first :
      (name k c p o : List ℕ)
      → name_or_word calls name (k ∷ c ∷ p ∷ o ∷ []) ≡ ok (first_nonempty name o)
  unfolding name_or_word index
  name_or_word-first [] k c p o = refl
  name_or_word-first (d ∷ ds) k c p o = refl

  abbrev pub info_of : Uname → List Assignment → SysInfo
  info_of u as_ = record {
    go_os = calls.goos;
    kernel = u.kernel_word;
    core = u.core_word;
    platform = u.platform_word;
    os = first_nonempty (last_value (codes "NAME") as_ []) u.os_word;
    os_version = last_value (codes "VERSION_ID") as_ [];
    hostname = calls.hostname_text;
    cpus = calls.num_cpu;
    version = [];
  }

  linux_info-words :
      (u : Uname) (as_ : List Assignment)
      → linux_info calls
          (u.kernel_word ∷ u.core_word ∷ u.platform_word ∷ u.os_word ∷ [])
          (last_value (codes "NAME") as_ [], last_value (codes "VERSION_ID") as_ [])
        ≡ ok (info_of u as_)
  unfolding linux_info index
  linux_info-words u as_ = rw (
      name_or_word-first (last_value (codes "NAME") as_ []) u.kernel_word u.core_word
        u.platform_word u.os_word)

  -- If `uname` prints its four words after `n` outputs with a broken pipe, and /etc/os-release has
  -- lines of keys with quoted values, then GetInfo returns, with more fuel than `n`, after reading the
  -- file once. It gives the words, the value of the last line VERSION_ID as the version, and as the
  -- system that of the last line NAME, or the fourth word where this is empty or missing.
  pub get_info-Reads :
      (fuel n : ℕ) (u : Uname) (as_ : List Assignment) {w w₁ w₂ : W}
      → AreWords u
      → Whole n (calls.get_info_text w) (print_uname u) w₁
      → n < fuel
      → calls.get_release_text w₁ ≡ (print_release as_, w₂)
      → All IsPlain as_
      → get_info calls fuel w ≡ some (ok (info_of u as_), w₂)
  unfolding get_info after_info after_release whole_release
  get_info-Reads zero n u as_ h t lt e ps = absurd (omega arith)
  get_info-Reads (suc fuel) n u as_ {w₂ = w₂} h t lt e ps =
      let (run, ends) = whole_info-Whole (suc fuel) t lt in
      rw (run, after_info, e, ends, os_info-print u h, release_fields-print as_ [] [] ps)
        (ap (λ o. some (o, w₂)) (linux_info-words u as_))
