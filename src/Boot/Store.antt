-- ===== src/Boot/Store.antt =====
-- store/file.go: a store that is opened holds what its file holds, and opening it again gives it back.
use mathlib.Core.Path.{subst}
use runetale.Common.{
  ℕ, String, ◌≡◌, refl, sym, ap, ◌∙◌, Bool, Option, none, some, List, [], ◌∷◌, arith, Dict, Error,
  Fallible, value, error,
}
use runetale.Stored.Files.{and_then}
use runetale.Stored.FileStore.{
  ReadResult, found, missing, unreadable, StoreCalls, FileStore, owner_only, file_mode, perm,
  check_stat, check_state_dir_permission, mk_state_dir, after_create, after_decode, after_read,
  after_mkdir, new_file_store,
}
use runetale.Stored.Reopened.{InSync}
use runetale.Stored.Atomic.{FileLaws, Done, atomic_write_file-Done}

module _ {W : Type 0} (calls : StoreCalls W) (laws : FileLaws calls.files) where
  open laws use {content}

  -- What the store relies on of reading, of directories and of JSON.
  pub record Reads : Type 0 where
    pub read_found :
        (p : String) (w : W) (b : List ℕ) → content p w ≡ some b → calls.read_file p w ≡ found b
    pub found_read :
        (p : String) (w : W) (b : List ℕ) → calls.read_file p w ≡ found b → content p w ≡ some b
    pub mkdir_keeps :
        (d f : String) (m : ℕ) (w : W) → content f (calls.mkdir_all d m w).1 ≡ content f w
    pub chmod_keeps :
        (d f : String) (m : ℕ) (w : W) → content f (calls.chmod_path d m w).1 ≡ content f w
    pub empty_object : calls.unmarshal (b'{' ∷ b'}' ∷ []) ≡ value []

  module _ (reads : Reads) (p : String) where
    -- A directory is made, or its permissions are set: the file stays.
    and_then-keeps :
        (r : Option Error × W) (f : W → Option Error × W) (c : Option (List ℕ))
        → content p r.1 ≡ c
        → ((w : W) → content p w ≡ c → content p (f w).1 ≡ c)
        → content p (and_then r f).1 ≡ c
    unfolding and_then
    and_then-keeps (none, w) f c h k = k w h
    and_then-keeps (some e, w) f c h k = h

    check_stat-keeps :
        (d : String) (r : Fallible (Bool × ℕ)) (w : W)
        → content p (check_stat calls d r w).1 ≡ content p w
    unfolding check_stat
    check_stat-keeps d (error e) w = refl
    check_stat-keeps d (value (is_dir, mode)) w = ground (arith, reads.chmod_keeps d p perm w)

    check_state_dir_permission-keeps :
        (d : String) (w : W) → content p (check_state_dir_permission calls d w).1 ≡ content p w
    unfolding check_state_dir_permission
    check_state_dir_permission-keeps d w = ground (arith, check_stat-keeps d (calls.stat d w) w)

    mk_state_dir-keeps : (d : String) (w : W) → content p (mk_state_dir calls d w).1 ≡ content p w
    unfolding mk_state_dir
    mk_state_dir-keeps d w =
        and_then-keeps (calls.mkdir_all d owner_only w) (check_state_dir_permission calls d)
          (content p w) (reads.mkdir_keeps d p owner_only w)
          (λ w₁ h. check_state_dir_permission-keeps d w₁ ∙ h)

    -- An opened store has its path and is in step with its file.
    abbrev pub Opened : Fallible FileStore × W → Type 0
    Opened (value fs, w) = InSync calls laws (fs, w) × (fs.path ≡ p)
    Opened (error e, w) = Unit

    after_create-Opened :
        (old : Option (List ℕ)) (r : Option Error × W)
        → Done calls.files laws p (b'{' ∷ b'}' ∷ []) old r
        → Opened (after_create calls p r)
    unfolding after_create
    after_create-Opened old (none, w) h = ((b'{' ∷ b'}' ∷ [], h, reads.empty_object), refl)
    after_create-Opened old (some e, w) h = tt

    after_decode-Opened :
        (b : List ℕ) (d : Fallible (Dict (List ℕ))) (w : W)
        → content p w ≡ some b
        → calls.unmarshal b ≡ d
        → Opened (after_decode calls p d, w)
    unfolding after_decode
    after_decode-Opened b (value d) w h e = ((b, h, e), refl)
    after_decode-Opened b (error x) w h e = tt

    after_read-Opened :
        (r : ReadResult) (w : W) → calls.read_file p w ≡ r → Opened (after_read calls p r w)
    unfolding after_read
    after_read-Opened missing w h =
        after_create-Opened (content p w) _
          (atomic_write_file-Done calls.files laws p (b'{' ∷ b'}' ∷ []) file_mode w)
    after_read-Opened (unreadable e) w h = tt
    after_read-Opened (found b) w h =
        after_decode-Opened b (calls.unmarshal b) w (reads.found_read p w b h) refl

    after_mkdir-Opened : (r : Option Error × W) → Opened (after_mkdir calls p r)
    unfolding after_mkdir
    after_mkdir-Opened (some e, w) = tt
    after_mkdir-Opened (none, w) = after_read-Opened (calls.read_file p w) w refl

    pub new_file_store-Opened : (w : W) → Opened (new_file_store calls p w)
    unfolding new_file_store
    new_file_store-Opened w = after_mkdir-Opened (mk_state_dir calls (calls.dir p) w)

    -- Opening the store again where the file is as it was gives the same store, or an error.
    module _ (fs : FileStore) (b : List ℕ) (path : fs.path ≡ p)
        (decoded : calls.unmarshal b ≡ value fs.cache) where
      abbrev pub Same : Fallible FileStore × W → Type 0
      Same (value fs', w) = fs' ≡ fs
      Same (error e, w) = Unit

      renamed :
          {q : String}
          → q ≡ fs.path
          → ◌≡◌ {A = FileStore} (record { path = q; cache = fs.cache }) fs
      renamed e = ap (λ q. let r : FileStore = record { path = q; cache = fs.cache } in r) e

      after_mkdir-Same :
          (r : Option Error × W) → content p r.1 ≡ some b → Same (after_mkdir calls p r)
      unfolding after_mkdir after_read after_decode
      after_mkdir-Same (some e, w) h = tt
      after_mkdir-Same (none, w) h =
          subst (λ r. Same (after_read calls p r w)) (sym (reads.read_found p w b h))
            (subst (λ d. Same (after_decode calls p d, w)) (sym decoded) (renamed (sym path)))

      pub new_file_store-Same : (w : W) → content p w ≡ some b → Same (new_file_store calls p w)
      unfolding new_file_store
      new_file_store-Same w h =
          after_mkdir-Same (mk_state_dir calls (calls.dir p) w)
            (mk_state_dir-keeps (calls.dir p) w ∙ h)
