-- ===== src/System/Text.antt =====
-- What package system uses of Go's package strings, on texts as lists of bytes.
use Prim.Native.Char.{code}
use mathlib.Core.List.{append-nil}
use runetale.Common.{
  ℕ, String, ◌≡◌, refl, ◌≢◌, Bool, true, false, ◌&&◌, ◌||◌, List, [], ◌∷◌, ◌++◌, arith, ◌==◌,
  if◌then◌else◌, All,
}

abbrev pub codes : String → List ℕ
codes String.[] = []
codes (String.◌∷◌ c s) = code c ∷ codes s

-- The first text of a split gets one more byte in front.
abbrev cons_first : ℕ → List (List ℕ) → List (List ℕ)
cons_first c [] = (c ∷ []) ∷ []
cons_first c (x ∷ xs) = (c ∷ x) ∷ xs

-- `strings.Split` by one byte
unfoldable pub split : ℕ → List ℕ → List (List ℕ)
split sep [] = [] ∷ []
split sep (c ∷ cs) = let rest = split sep cs in if c == sep then [] ∷ rest else cons_first c rest

-- `strings.ReplaceAll` of one byte by nothing
unfoldable pub remove : ℕ → List ℕ → List ℕ
remove c [] = []
remove c (d ∷ ds) = let rest = remove c ds in if d == c then rest else d ∷ rest

-- `strings.ReplaceAll` of two bytes by nothing
unfoldable pub remove_pair : ℕ → ℕ → List ℕ → List ℕ
remove_pair a b [] = []
remove_pair a b (c ∷ []) = c ∷ []
remove_pair a b (c ∷ d ∷ ds) =
    let without = remove_pair a b ds in
    let kept = remove_pair a b (d ∷ ds) in if c == a && d == b then without else c ∷ kept

unfoldable pub has_prefix : List ℕ → List ℕ → Bool
has_prefix [] s = true
has_prefix (p ∷ ps) [] = false
has_prefix (p ∷ ps) (c ∷ cs) = p == c && has_prefix ps cs

-- `strings.Contains`
unfoldable pub text_contains : List ℕ → List ℕ → Bool
text_contains p [] = has_prefix p []
text_contains p (c ∷ cs) = has_prefix p (c ∷ cs) || text_contains p cs

-- The byte does not stand in the text.
abbrev pub Lacks : ℕ → List ℕ → Type 0
Lacks c s = All (λ d. d ≢ c) s

module _ (sep : ℕ) where
  pub split-lacking : (s : List ℕ) → Lacks sep s → split sep s ≡ s ∷ []
  unfolding split
  split-lacking [] h = refl
  split-lacking (c ∷ cs) (n, h) = ground (arith, split-lacking cs h)

  -- The first separator ends the first part.
  pub split-append : (s r : List ℕ) → Lacks sep s → split sep (s ++ sep ∷ r) ≡ s ∷ split sep r
  unfolding split
  split-append [] r h = ground arith
  split-append (c ∷ cs) r (n, h) = ground (arith, split-append cs r h)

  pub remove-lacking : (s : List ℕ) → Lacks sep s → remove sep s ≡ s
  unfolding remove
  remove-lacking [] h = refl
  remove-lacking (c ∷ cs) (n, h) = ground (arith, remove-lacking cs h)

  pub remove-append : (s r : List ℕ) → remove sep (s ++ r) ≡ remove sep s ++ remove sep r
  unfolding remove
  remove-append [] r = refl
  remove-append (c ∷ cs) r = ground (arith, remove-append cs r)

pub remove-quoted : (c : ℕ) (s : List ℕ) → Lacks c s → remove c (c ∷ (s ++ c ∷ [])) ≡ s
unfolding remove
remove-quoted c s h = ground (arith, remove-append c s (c ∷ []), remove-lacking c s h, append-nil s)

pub remove_pair-lacking : (a b : ℕ) (s : List ℕ) → Lacks b s → remove_pair a b s ≡ s
unfolding remove_pair
remove_pair-lacking a b [] h = refl
remove_pair-lacking a b (c ∷ []) h = refl
remove_pair-lacking a b (c ∷ d ∷ ds) (n, (m, h)) =
    ground (arith, remove_pair-lacking a b (d ∷ ds) (m, h))

pub Lacks-append : (c : ℕ) (s r : List ℕ) → Lacks c s → Lacks c r → Lacks c (s ++ r)
Lacks-append c [] r h g = g
Lacks-append c (d ∷ ds) r (n, h) g = (n, Lacks-append c ds r h g)

unfoldable pub text_eq : List ℕ → List ℕ → Bool
text_eq [] [] = true
text_eq [] (d ∷ ds) = false
text_eq (c ∷ cs) [] = false
text_eq (c ∷ cs) (d ∷ ds) = c == d && text_eq cs ds

pub text_eq→eq : (s t : List ℕ) → text_eq s t ≡ true → s ≡ t
unfolding text_eq
text_eq→eq [] [] e = refl
text_eq→eq [] (d ∷ ds) e = cc
text_eq→eq (c ∷ cs) [] e = cc
text_eq→eq (c ∷ cs) (d ∷ ds) e = ground (arith, text_eq→eq cs ds)

-- Whether a line begins with a key and `=`, where its own key has no `=`.
pub has_prefix-key :
    (k key r : List ℕ) (e : ℕ)
    → Lacks e k
    → Lacks e key
    → has_prefix (k ++ e ∷ []) (key ++ e ∷ r) ≡ text_eq k key
unfolding has_prefix text_eq
has_prefix-key [] [] r e h g = ground arith
has_prefix-key [] (c ∷ cs) r e h g = ground arith
has_prefix-key (p ∷ ps) [] r e h g = ground arith
has_prefix-key (p ∷ ps) (c ∷ cs) r e (n, h) (m, g) = ground (arith, has_prefix-key ps cs r e h g)
