-- ===== src/System/Info.antt =====
-- system/system.go, system/system_linux.go, system/system_darwin.go: GetInfo.
use runetale.Common.{
  ℕ, zero, suc, Option, none, some, List, [], ◌∷◌, if◌then◌else◌, Outcome, ok, err, panic,
}
use runetale.System.Text.{codes, split, remove, remove_pair, has_prefix, text_contains}

pub record SysInfo : Type 0 where
  pub go_os : List ℕ
  pub kernel : List ℕ
  pub core : List ℕ
  pub platform : List ℕ
  pub os : List ℕ
  pub os_version : List ℕ
  pub hostname : List ℕ
  pub cpus : ℕ
  pub version : List ℕ

-- What the functions ask of the system: the outputs of the two commands, the pause between two
-- tries, and the values that are fixed while the program runs.
pub record SystemCalls (W : Type 0) : Type 0 where
  pub get_info_text : W → List ℕ × W
  pub get_release_text : W → List ℕ × W
  pub pause : W → W
  pub goos : List ℕ
  pub num_cpu : ℕ
  pub hostname_text : List ℕ

abbrev pub broken_pipe : List ℕ
broken_pipe = codes "broken pipe"

-- `l[i]`, which panics out of range.
unfoldable pub index : List (List ℕ) → ℕ → Outcome (List ℕ)
index [] i = panic
index (x ∷ xs) zero = ok x
index (x ∷ xs) (suc i) = index xs i

abbrev pub with_value : {A B : Type 0} → Outcome A → (A → Outcome B) → Outcome B
with_value (ok a) f = f a
with_value (err e) f = err e
with_value panic f = panic

-- `strings.ReplaceAll(strings.Split(s, "=")[1], "\"", "")`
unfoldable pub unquoted_value : List ℕ → Outcome (List ℕ)
unfolding index
unquoted_value s = with_value (index (split b'=' s) 1) λ v. ok (remove 34 v)

-- One line of /etc/os-release, with the name and the version found so far.
unfoldable pub line_fields : List ℕ → List ℕ × List ℕ → Outcome (List ℕ × List ℕ)
line_fields s (name, ver) =
    if has_prefix (codes "NAME=") s
    then with_value (unquoted_value s) (λ x. ok (x, ver))
    else if has_prefix (codes "VERSION_ID=") s
    then with_value (unquoted_value s) (λ x. ok (name, x))
    else ok (name, ver)

unfoldable pub release_fields : List (List ℕ) → List ℕ × List ℕ → Outcome (List ℕ × List ℕ)
release_fields [] found = ok found
release_fields (s ∷ ss) found = with_value (line_fields s found) (release_fields ss)

module _ {W : Type 0} (calls : SystemCalls W) where
  -- `for strings.Contains(info, "broken pipe")`; `none` means that the fuel ran out.
  unfoldable pub whole_info : ℕ → List ℕ × W → Option (List ℕ × W)
  whole_info zero (info, w) = none
  whole_info (suc fuel) (info, w) =
      let (again, w') = calls.get_info_text w in
      let rest = whole_info fuel (again, calls.pause w') in
      if text_contains broken_pipe info then rest else some (info, w)

  -- The second loop tests `info` as well, which it does not change.
  unfoldable pub whole_release : ℕ → List ℕ → List ℕ × W → Option (List ℕ × W)
  whole_release zero info (release, w) = none
  whole_release (suc fuel) info (release, w) =
      let (again, w') = calls.get_release_text w in
      let rest = whole_release fuel info (again, calls.pause w') in
      if text_contains broken_pipe info then rest else some (release, w)

  -- The words of `uname`
  unfoldable pub os_info : List ℕ → List (List ℕ)
  os_info info = split 32 (remove_pair 13 10 (remove 10 info))

  unfoldable pub name_or_word : List ℕ → List (List ℕ) → Outcome (List ℕ)
  name_or_word [] words = index words 3
  name_or_word (c ∷ cs) words = ok (c ∷ cs)

  unfoldable pub linux_info : List (List ℕ) → List ℕ × List ℕ → Outcome SysInfo
  unfolding index name_or_word
  linux_info words (name, ver) = with_value (name_or_word name words) λ os.
      with_value (index words 0) λ kernel. with_value (index words 1) λ core.
        with_value (index words 2) λ platform. ok (record {
          go_os = calls.goos;
          kernel = kernel;
          core = core;
          platform = platform;
          os = os;
          os_version = ver;
          hostname = calls.hostname_text;
          cpus = calls.num_cpu;
          version = [];
        })

  unfoldable pub after_release : List ℕ → Option (List ℕ × W) → Option (Outcome SysInfo × W)
  after_release info none = none
  after_release info (some (release, w)) =
      some (with_value (release_fields (split 10 release) ([], [])) (linux_info (os_info info)), w)

  unfoldable pub after_info : ℕ → Option (List ℕ × W) → Option (Outcome SysInfo × W)
  after_info fuel none = none
  after_info fuel (some (info, w)) =
      after_release info (whole_release fuel info (calls.get_release_text w))

  -- `GetInfo` on Linux; `fuel` is for each of its loops.
  unfoldable pub get_info : ℕ → W → Option (Outcome SysInfo × W)
  get_info fuel w = after_info fuel (whole_info fuel (calls.get_info_text w))

  unfoldable pub darwin_info : List (List ℕ) → Outcome SysInfo
  unfolding index
  darwin_info words = with_value (index words 0) λ kernel. with_value (index words 1) λ core.
      with_value (index words 2) λ platform. ok (record {
        go_os = calls.goos;
        kernel = kernel;
        core = core;
        platform = platform;
        os = kernel;
        os_version = core;
        hostname = calls.hostname_text;
        cpus = calls.num_cpu;
        version = [];
      })

  unfoldable pub after_darwin_info : Option (List ℕ × W) → Option (Outcome SysInfo × W)
  after_darwin_info none = none
  after_darwin_info (some (info, w)) = some (darwin_info (os_info info), w)

  -- `GetInfo` on Darwin
  unfoldable pub darwin_get_info : ℕ → W → Option (Outcome SysInfo × W)
  darwin_get_info fuel w = after_darwin_info (whole_info fuel (calls.get_info_text w))
