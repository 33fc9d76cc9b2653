-- ===== src/Key/Mem.antt =====
-- go4.org/mem, as types/key/key.go uses it: a read-only view of bytes or of a string.
use runetale.Common.{
  ℕ, ◌≤◌, ◌<◌, ◌≡◌, refl, Bool, true, false, ◌&&◌, List, [], ◌∷◌, ◌++◌, arith, ◌==◌, length, drop,
  get_or,
}

-- Whether the second list begins with the first.
unfoldable pub is_prefix : List ℕ → List ℕ → Bool
is_prefix [] ys = true
is_prefix (x ∷ xs) [] = false
is_prefix (x ∷ xs) (y ∷ ys) = (x == y) && is_prefix xs ys

-- The operations, and what their documentation says of them by the bytes that a view shows.
pub record Mem : Type 1 where
  pub RO : Type 0
  pub of_bytes : List ℕ → RO
  pub len : RO → ℕ
  pub at : RO → ℕ → ℕ
  pub slice_from : RO → ℕ → RO
  pub has_prefix : RO → RO → Bool
  pub content : RO → List ℕ
  pub content-of_bytes : (l : List ℕ) → content (of_bytes l) ≡ l
  pub len_lem : (r : RO) → len r ≡ length (content r)
  pub at_lem : (r : RO) (i : ℕ) → i < length (content r) → at r i ≡ get_or (content r) i 0
  pub slice_from_lem :
      (r : RO) (n : ℕ) → n ≤ length (content r) → content (slice_from r n) ≡ drop n (content r)
  pub has_prefix_lem : (r p : RO) → has_prefix r p ≡ is_prefix (content p) (content r)

pub is_prefix-append : (xs ys : List ℕ) → is_prefix xs (xs ++ ys) ≡ true
unfolding is_prefix
is_prefix-append [] ys = refl
is_prefix-append (x ∷ xs) ys = ground (arith, is_prefix-append xs ys)

pub is_prefix-eq_append : (xs ys : List ℕ) → is_prefix xs ys ≡ true → ys ≡ xs ++ drop (length xs) ys
unfolding is_prefix
is_prefix-eq_append [] ys h = refl
is_prefix-eq_append (x ∷ xs) [] h = cc
is_prefix-eq_append (x ∷ xs) (y ∷ ys) h = ground (arith, is_prefix-eq_append xs ys)

pub is_prefix-length : (xs ys : List ℕ) → is_prefix xs ys ≡ true → length xs ≤ length ys
unfolding is_prefix
is_prefix-length [] ys h = omega arith
is_prefix-length (x ∷ xs) [] h = cc
is_prefix-length (x ∷ xs) (y ∷ ys) h = ground (arith, is_prefix-length xs ys)

-- Byte lists themselves are such views.
abbrev pub byte_lists : Mem
byte_lists = record {
  RO = List ℕ;
  of_bytes = λ l. l;
  len = length;
  at = λ l i. get_or l i 0;
  slice_from = λ l n. drop n l;
  has_prefix = λ l p. is_prefix p l;
  content = λ l. l;
  content-of_bytes = λ l. refl;
  len_lem = λ l. refl;
  at_lem = λ l i h. refl;
  slice_from_lem = λ l n h. refl;
  has_prefix_lem = λ l p. refl;
}
