-- ===== src/Stored/Reopened.antt =====
-- store/file.go: what the file holds after WriteState, and what a second call does after a failure.
use mathlib.Core.Path.{subst}
use runetale.Common.{
  ℕ, String, ◌≡◌, refl, sym, ap, ◌∙◌, ◌≢◌, inl, inr, true, false, Option, none, some, List, [], ◌∷◌,
  arith, eq_iff, Bool-cases, Dict, insert, lookup-insert, Error, Fallible, value, error,
}
use runetale.Stored.Files.{atomic_write_file}
use runetale.Stored.Atomic.{FileLaws, Done, atomic_write_file-Done}
use runetale.Stored.FileStore.{
  StoreCalls, bytes_equal, FileStore, file_mode, cached, after_marshal, write_state, read_state,
}

pub bytes_equal_refl : (l : List ℕ) → bytes_equal l l ≡ true
unfolding bytes_equal
bytes_equal_refl [] = refl
bytes_equal_refl (x ∷ l) = ground (arith, bytes_equal_refl l)

bytes_equal_eq : (l m : List ℕ) → bytes_equal l m ≡ true → l ≡ m
unfolding bytes_equal
bytes_equal_eq [] [] h = refl
bytes_equal_eq [] (y ∷ m) h = cc
bytes_equal_eq (x ∷ l) [] h = cc
bytes_equal_eq (x ∷ l) (y ∷ m) h = ground (arith, bytes_equal_eq l m)

module _ {W : Type 0} (calls : StoreCalls W) (laws : FileLaws calls.files) where
  open laws use {content}

  -- Reading the JSON text of a map gives the map.
  abbrev pub RoundTrips : Type 0
  RoundTrips =
      (d : Dict (List ℕ)) (b : List ℕ) → calls.marshal d ≡ value b → calls.unmarshal b ≡ value d

  -- The file holds what the cache holds.
  abbrev pub InSync : FileStore × W → Type 0
  InSync (fs, w) =
      (b : List ℕ) × (content fs.path w ≡ some b) × (calls.unmarshal b ≡ value fs.cache)

  -- How WriteState of a changed state ends.
  abbrev Ended : FileStore → FileStore → W → Option Error × (FileStore × W) → Type 0
  Ended fs fs' w (none, s) = (s.0 ≡ fs') × InSync s
  Ended fs fs' w (some e, s) = (s.0 ≡ fs') × (content fs.path s.1 ≡ content fs.path w)

  written-Ended :
      (fs fs' : FileStore) (w : W) (b : List ℕ) (out : Option Error × W)
      → fs.path ≡ fs'.path
      → calls.unmarshal b ≡ value fs'.cache
      → Done calls.files laws fs'.path b (content fs'.path w) out
      → Ended fs fs' w (out.0, (fs', out.1))
  written-Ended fs fs' w b (none, w') p u d = (refl, (b, d, u))
  written-Ended fs fs' w b (some e, w') p u d = (refl, rw p d)

  after_marshal-Ended :
      (fs fs' : FileStore) (w : W) (m : Fallible (List ℕ))
      → fs.path ≡ fs'.path
      → RoundTrips
      → calls.marshal fs'.cache ≡ m
      → Ended fs fs' w (after_marshal calls fs' m w)
  unfolding after_marshal
  after_marshal-Ended fs fs' w (error e) p rt h = (refl, refl)
  after_marshal-Ended fs fs' w (value b) p rt h =
      written-Ended fs fs' w b (atomic_write_file calls.files fs'.path b file_mode w) p
        (rt fs'.cache b h) (atomic_write_file-Done calls.files laws fs'.path b file_mode w)

  module _ (id : String) (bs : List ℕ) (fs : FileStore) (w : W) where
    abbrev changed : FileStore
    changed = record fs { cache = insert id bs fs.cache }

    write_state-same :
        bytes_equal (cached calls id fs) bs ≡ true
        → write_state calls id bs (fs, w) ≡ (none, (fs, w))
    unfolding write_state
    write_state-same e = rw e refl

    write_state-changed :
        bytes_equal (cached calls id fs) bs ≡ false
        → write_state calls id bs (fs, w)
          ≡ after_marshal calls changed (calls.marshal changed.cache) w
    unfolding write_state
    write_state-changed e = rw e refl

    read_state-changed : read_state calls id changed ≡ value bs
    unfolding read_state
    read_state-changed = ground (arith, lookup-insert id id bs fs.cache, eq_iff id id)

    read_state-cached : cached calls id fs ≡ bs → bs ≢ [] → read_state calls id fs ≡ value bs
    unfolding read_state cached
    read_state-cached e n = ground arith

    cached-changed : bytes_equal (cached calls id changed) bs ≡ true
    unfolding cached
    cached-changed =
        ground (arith, lookup-insert id id bs fs.cache, eq_iff id id, bytes_equal_refl bs)

  -- If the file holds the cache and reading a JSON text inverts writing it, then after a WriteState
  -- that succeeds the file still holds the cache, and ReadState gives what was written unless that
  -- is empty. After one that fails the file has its old content.
  pub write_state-InSync :
      (id : String) (bs : List ℕ) (fs : FileStore) (w : W)
      → RoundTrips
      → InSync (fs, w)
      → let (e, s) = write_state calls id bs (fs, w) in
        (e ≡ none → InSync s × (bs ≢ [] → read_state calls id s.0 ≡ value bs))
        × (e ≢ none → content fs.path s.1 ≡ content fs.path w)
  write_state-InSync id bs fs w rt sync = elim (Bool-cases (bytes_equal (cached calls id fs) bs)) [
    | inl same ↦ subst Good (sym (write_state-same id bs fs w same)) (
      (λ e. (sync, read_state-cached id bs fs w (bytes_equal_eq (cached calls id fs) bs same))),
      λ n. refl,
    )
    | inr new ↦ subst Good (sym (write_state-changed id bs fs w new)) (
        good (after_marshal calls (changed id bs fs w) (calls.marshal (changed id bs fs w).cache) w)
          (after_marshal-Ended fs (changed id bs fs w) w (calls.marshal (changed id bs fs w).cache)
            refl rt refl))
  ]
    where
      Good : Option Error × (FileStore × W) → Type 0
      Good (e, s) =
          (e ≡ none → InSync s × (bs ≢ [] → read_state calls id s.0 ≡ value bs))
          × (e ≢ none → content fs.path s.1 ≡ content fs.path w)

      good : (out : Option Error × (FileStore × W)) → Ended fs (changed id bs fs w) w out → Good out
      good (none, s) (is, now) =
          ((λ e. (now, λ n. rw is (read_state-changed id bs fs w))), λ n. absurd (n refl))
      good (some x, s) (is, kept) = ((λ e. cc), λ n. kept)

  -- A WriteState that fails leaves the new state in the cache and the old content in the file, and
  -- the same call after it succeeds without writing anything.
  pub write_state-retried :
      (id : String) (bs : List ℕ) (fs : FileStore) (w : W) (x : Error)
      → (write_state calls id bs (fs, w)).0 ≡ some x
      → RoundTrips
      → let s = (write_state calls id bs (fs, w)).1 in
        (read_state calls id s.0 ≡ value bs)
        × (content fs.path s.1 ≡ content fs.path w)
        × (write_state calls id bs s ≡ (none, s))
  write_state-retried id bs fs w x failed rt =
      elim (Bool-cases (bytes_equal (cached calls id fs) bs)) [
        | inl same ↦ cc (← failed, write_state-same id bs fs w same)
        | inr new ↦ subst Left (sym (write_state-changed id bs fs w new)) (
            left
              (after_marshal calls (changed id bs fs w) (calls.marshal (changed id bs fs w).cache)
                w)
              (after_marshal-Ended fs (changed id bs fs w) w
                (calls.marshal (changed id bs fs w).cache) refl rt refl)
              (ap (λ o. o.0) (sym (write_state-changed id bs fs w new)) ∙ failed))
      ]
    where
      Left : Option Error × (FileStore × W) → Type 0
      Left (e, s) =
          (read_state calls id s.0 ≡ value bs)
          × (content fs.path s.1 ≡ content fs.path w)
          × (write_state calls id bs s ≡ (none, s))

      left :
          (out : Option Error × (FileStore × W))
          → Ended fs (changed id bs fs w) w out
          → out.0 ≡ some x
          → Left out
      left (none, s) h e = cc
      left (some y, s) (is, kept) e = (
        rw is (read_state-changed id bs fs w),
        kept,
        write_state-same id bs s.0 s.1 (rw is (cached-changed id bs fs w)),
      )
