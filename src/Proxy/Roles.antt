-- ===== src/Proxy/Roles.antt =====
-- rcn/conn/conn.go: who dials, and what Close leaves.
use Prim.Native.Char.{code}
use Prim.Native.Nat.compare as compare_ℕ
use Prim.Native.Nat.{Ordering, compare as compare_ℕ}
use Prim.Native.String.compare
use Prim.Native.String.{compare, then}
use text.Mathlib.TextEquality.{path_by_compare}
use runetale.Common.{
  ℕ, zero, suc, String, ◌≡◌, refl, sym, ap, ◌∙◌, ◌≢◌, ◌⊎◌, inl, inr, Bool, true, false, not,
  Bool-cases,
}
use runetale.Proxy.Conn.{less, Conn, dials}

flip : Ordering → Ordering
flip Ordering.lt = Ordering.gt
flip Ordering.eq = Ordering.eq
flip Ordering.gt = Ordering.lt

flip-then : (o r : Ordering) → then (flip o) (flip r) ≡ flip (then o r)
unfolding flip
flip-then Ordering.lt r = refl
flip-then Ordering.eq r = refl
flip-then Ordering.gt r = refl

compare_ℕ-flip : (m n : ℕ) → compare_ℕ n m ≡ flip (compare_ℕ m n)
unfolding flip
compare_ℕ-flip zero zero = refl
compare_ℕ-flip zero (suc n) = compare_ℕ.suc-zero n ∙ ap flip (sym (compare_ℕ.zero-suc n))
compare_ℕ-flip (suc m) zero = compare_ℕ.zero-suc m ∙ ap flip (sym (compare_ℕ.suc-zero m))
compare_ℕ-flip (suc m) (suc n) =
    compare_ℕ.suc-suc n m ∙ compare_ℕ-flip m n ∙ ap flip (sym (compare_ℕ.suc-suc m n))

-- Comparing two texts the other way round gives the other order.
compare-flip : (s t : String) → compare t s ≡ flip (compare s t)
unfolding flip
compare-flip String.[] String.[] = compare.nil-nil ∙ ap flip (sym compare.nil-nil)
compare-flip String.[] (String.◌∷◌ d t) =
    compare.cons-nil d t ∙ ap flip (sym (compare.nil-cons d t))
compare-flip (String.◌∷◌ c s) String.[] =
    compare.nil-cons c s ∙ ap flip (sym (compare.cons-nil c s))
compare-flip (String.◌∷◌ c s) (String.◌∷◌ d t) =
    compare.cons-cons d c t s
    ∙ ap (λ o. then o (compare t s)) (compare_ℕ-flip (code c) (code d))
    ∙ ap (then (flip (compare_ℕ (code c) (code d)))) (compare-flip s t)
    ∙ flip-then (compare_ℕ (code c) (code d)) (compare s t)
    ∙ ap flip (sym (compare.cons-cons c d s t))

abbrev first_less : Ordering → Bool
first_less o = elim o [ Ordering.lt ↦ true | Ordering.eq ↦ false | Ordering.gt ↦ false ]

flip-less : (o : Ordering) → o ≢ Ordering.eq → first_less (flip o) ≡ not (first_less o)
unfolding flip
flip-less Ordering.lt h = refl
flip-less Ordering.eq h = absurd (h refl)
flip-less Ordering.gt h = refl

less-swap : (s t : String) → s ≢ t → less t s ≡ not (less s t)
less-swap s t h =
    ap first_less (compare-flip s t) ∙ flip-less (compare s t) (λ e. h (path_by_compare s t e))

-- Two ends know each other's key, and the keys differ.
pub record ArePeers {L R : Type 0} (a b : Conn L R) : Type 0 where
  pub knows_b : a.remote_wg_pub_key ≡ b.wg_pub_key
  pub knows_a : b.remote_wg_pub_key ≡ a.wg_pub_key
  pub differ : a.wg_pub_key ≢ b.wg_pub_key

-- Of two ends with different keys that know each other's key, exactly one dials, and the other
-- accepts.
pub dials-exactly_one :
    {L R : Type 0} (a b : Conn L R)
    → ArePeers a b
    → ((dials a ≡ true) × (dials b ≡ false)) ⊎ ((dials a ≡ false) × (dials b ≡ true))
unfolding dials
dials-exactly_one a b p =
    let sw = less-swap a.wg_pub_key b.wg_pub_key p.differ in
    elim (Bool-cases (less a.wg_pub_key b.wg_pub_key)) [
      | inl first ↦ rw (p.knows_b, p.knows_a, sw, first) (inl (refl, refl))
      | inr second ↦ rw (p.knows_b, p.knows_a, sw, second) (inr (refl, refl))
    ]
