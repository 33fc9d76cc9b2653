-- ===== src/Stored/FileStore.antt =====
-- paths/paths.go and store/file.go: the state directory, and the store of states in one JSON file.
use runetale.Common.{
  ℕ, String, Bool, true, false, not, ◌&&◌, Option, none, some, List, [], ◌∷◌, str_eq, ◌==◌,
  if◌then◌else◌, Dict, lookup, insert, Error, message, wrapped, Fallible, value, error,
}
use runetale.Stored.Files.{Files, and_then, atomic_write_file}

-- What the store calls beside `Files`: os, ioutil, path/filepath and encoding/json. `stat` gives
-- whether the path is a directory and its permission bits.
pub data ReadResult : Type 0 where
  found : List ℕ → ReadResult
  missing : ReadResult
  unreadable : Error → ReadResult

pub record StoreCalls (W : Type 0) : Type 0 where
  pub files : Files W
  pub mkdir_all : String → ℕ → W → Option Error × W
  pub dir : String → String
  pub base : String → String
  pub stat : String → W → Fallible (Bool × ℕ)
  pub chmod_path : String → ℕ → W → Option Error × W
  pub read_file : String → W → ReadResult
  pub marshal : Dict (List ℕ) → Fallible (List ℕ)
  pub unmarshal : List ℕ → Fallible (Dict (List ℕ))

-- `bytes.Equal`
unfoldable pub bytes_equal : List ℕ → List ℕ → Bool
bytes_equal [] [] = true
bytes_equal [] (y ∷ ys) = false
bytes_equal (x ∷ xs) [] = false
bytes_equal (x ∷ xs) (y ∷ ys) = (x == y) && bytes_equal xs ys

pub record FileStore : Type 0 where
  pub path : String
  pub cache : Dict (List ℕ)

-- The modes 0700 and 0644, and the decimal 700 of the source.
abbrev pub owner_only : ℕ
owner_only = 448

abbrev pub file_mode : ℕ
file_mode = 420

abbrev pub perm : ℕ
perm = 700

abbrev pub err_state_not_found : Error
err_state_not_found = message "state not found"

module _ {W : Type 0} (calls : StoreCalls W) where
  unfoldable pub check_stat : String → Fallible (Bool × ℕ) → W → Option Error × W
  check_stat d (error e) w = (some e, w)
  check_stat d (value (is_dir, mode)) w =
      if not is_dir
      then (some (message "expected %q is a directory, but %v"), w)
      else if mode == perm
      then (none, w)
      else calls.chmod_path d perm w

  unfoldable pub check_state_dir_permission : String → W → Option Error × W
  unfolding check_stat
  check_state_dir_permission d w =
      if str_eq (calls.base d) "runetale" then check_stat d (calls.stat d w) w else (none, w)

  unfoldable pub mk_state_dir : String → W → Option Error × W
  mk_state_dir d w = and_then (calls.mkdir_all d owner_only w) (check_state_dir_permission d)

  -- A missing file is made with the text "{}".
  unfoldable pub after_create : String → Option Error × W → Fallible FileStore × W
  after_create p (some e, w) = (error e, w)
  after_create p (none, w) = (value (record { path = p; cache = [] }), w)

  unfoldable pub after_decode : String → Fallible (Dict (List ℕ)) → Fallible FileStore
  after_decode p (error e) = error e
  after_decode p (value d) = value (record { path = p; cache = d })

  unfoldable pub after_read : String → ReadResult → W → Fallible FileStore × W
  after_read p missing w =
      after_create p (atomic_write_file calls.files p (b'{' ∷ b'}' ∷ []) file_mode w)
  after_read p (unreadable e) w = (error e, w)
  after_read p (found b) w = (after_decode p (calls.unmarshal b), w)

  unfoldable pub after_mkdir : String → Option Error × W → Fallible FileStore × W
  after_mkdir p (some e, w) = (error (wrapped "does not creating state directory: %w" e), w)
  after_mkdir p (none, w) = after_read p (calls.read_file p w) w

  unfoldable pub new_file_store : String → W → Fallible FileStore × W
  new_file_store p w = after_mkdir p (mk_state_dir (calls.dir p) w)

  -- The cached state, which is empty where the key is missing.
  unfoldable pub cached : String → FileStore → List ℕ
  cached id fs = elim (lookup id fs.cache) [ none ↦ [] | some b ↦ b ]

  unfoldable pub after_marshal : FileStore → Fallible (List ℕ) → W → Option Error × (FileStore × W)
  after_marshal fs (error e) w = (some e, (fs, w))
  after_marshal fs (value b) w =
      let (e, w') = atomic_write_file calls.files fs.path b file_mode w in (e, (fs, w'))

  unfoldable pub write_state : String → List ℕ → FileStore × W → Option Error × (FileStore × W)
  write_state id bs (fs, w) =
      let fs' = let r : FileStore = record fs { cache = insert id bs fs.cache } in r in
      if bytes_equal (cached id fs) bs
      then (none, (fs, w))
      else after_marshal fs' (calls.marshal fs'.cache) w

  unfoldable pub read_state : String → FileStore → Fallible (List ℕ)
  read_state id fs = elim (lookup id fs.cache) [
    | none ↦ error err_state_not_found
    | some b ↦ value b
  ]
