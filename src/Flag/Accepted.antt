-- ===== src/Flag/Accepted.antt =====
-- types/flagtype/flag.go: which texts a port flag takes, and that it takes what it prints.
use mathlib.Core.List.{cons-ne-nil}
use mathlib.Core.Path.{subst}
use runetale.Common.{
  ℕ, zero, suc, ◌+◌, ◌-◌, ◌*◌, ◌/◌, ◌%◌, ◌^◌, ◌≤◌, ◌<◌, ◌≡◌, refl, ap, ◌∙◌, ◌≢◌, ◌⊎◌, inl, inr,
  false, ◌&&◌, some, List, [], ◌∷◌, arith, ltb, leb, ◌==◌, Bool-cases, Option-cases, All, Error,
  message, ok, err,
}
use runetale.System.Text.{has_prefix, text_contains}
use runetale.Flag.{
  digits, print_uint16, parse_uint, max_uint16, port_string, store_port, set_parsed, set_port,
}

abbrev pub IsDigits : List ℕ → Type 0
IsDigits s = All (λ c. (b'0' ≤ c) × (c ≤ b'9')) s

-- The number that a text of digits writes, after the digits of `n`.
abbrev pub decimal : List ℕ → ℕ → ℕ
decimal [] n = n
decimal (c ∷ cs) n = decimal cs (n * 10 + (c - b'0'))

decimal_le : (s : List ℕ) (n : ℕ) → n ≤ decimal s n
decimal_le [] n = omega arith
decimal_le (c ∷ cs) n = omega (arith, decimal_le cs (n * 10 + (c - b'0')))

parse_uint-digits :
    (s : List ℕ) (n : ℕ) → IsDigits s → decimal s n < 2 ^ 64 → parse_uint s n ≡ some (decimal s n)
unfolding parse_uint
parse_uint-digits [] n h lt = refl
parse_uint-digits (c ∷ cs) n (d, h) lt =
    let m = n * 10 + (c - b'0') in ground (arith, decimal_le cs m, parse_uint-digits cs m h lt)

-- Only digits are read.
parse_uint-some : (s : List ℕ) (n m : ℕ) → parse_uint s n ≡ some m → IsDigits s × (m ≡ decimal s n)
unfolding parse_uint
parse_uint-some [] n m e = (tt, ground arith)
parse_uint-some (c ∷ cs) n m e =
    let rest = parse_uint-some cs (n * 10 + (c - b'0')) m in
    elim (Bool-cases (leb b'0' c && leb c b'9' && ltb (n * 10 + (c - b'0')) (2 ^ 64))) [
      | inl fits ↦
          let (ds, value_) = rest (rw fits at e) in (((ground arith, ground arith), ds), value_)
      | inr fails ↦ absurd (ground (arith, e, fails))
    ]

no_colon : (s : List ℕ) → IsDigits s → text_contains (b':' ∷ []) s ≡ false
unfolding text_contains has_prefix
no_colon [] h = refl
no_colon (c ∷ cs) (d, h) = ground (arith, no_colon cs h)

-- A text of digits only, at least one, whose number is a uint16.
abbrev pub IsPort : List ℕ → Type 0
IsPort v = (v ≢ []) × IsDigits v × (decimal v 0 ≤ max_uint16)

set_parsed-some : (n m : ℕ) → n ≤ max_uint16 → set_parsed (some n) (some m) ≡ (ok tt, some n)
unfolding set_parsed store_port
set_parsed-some n m h = ground arith

set_parsed-large :
    (n m : ℕ)
    → max_uint16 < n
    → set_parsed (some n) (some m) ≡ (err (message "out of range for port number"), some m)
unfolding set_parsed
set_parsed-large n m h = ground arith

-- What a flag that points to a number does with a text: it takes exactly the texts of digits whose
-- number is a uint16, and then it is that number; every other text gives an error and leaves it.
pub set_port-IsPort :
    (v : List ℕ) (m : ℕ)
    → (IsPort v × (set_port v (some m) ≡ (ok tt, some (decimal v 0))))
      ⊎ (¬ IsPort v × ((e : Error) × (set_port v (some m) ≡ (err e, some m))))
unfolding set_port
set_port-IsPort [] m = inr ((λ p. p.0 refl), (message "can't be the empty string", refl))
set_port-IsPort (c ∷ cs) m = elim (Bool-cases (text_contains (b':' ∷ []) (c ∷ cs))) [
  | inl colon ↦ inr (
    (λ p. ground (arith, no_colon (c ∷ cs) p.1)),
    (message "expecting just a port number, without a colon", rw colon),
  )
  | inr absent ↦ elim (Option-cases (parse_uint (c ∷ cs) 0)) [
    | inl bad ↦ inr (
      (λ p. ground (arith, parse_uint-digits (c ∷ cs) 0 p.1, p.2, bad)),
      (message "not a valid number", rw (absent, bad) (unfold set_parsed in refl)),
    )
    | inr (n, good) ↦
        let (ds, is) = parse_uint-some (c ∷ cs) 0 n good in
        elim (Bool-cases (leb n max_uint16)) [
          | inl small ↦ inl (
            (cons-ne-nil c cs, ds, ground (arith, is, small)),
            rw (absent, good)
                (subst (λ d. set_parsed (some n) (some m) ≡ (ok tt, some d)) is
                  (set_parsed-some n m (ground (arith, small)))),
          )
          | inr large ↦ inr (
            (λ p. ground (arith, p.2, is, large)),
            (
              message "out of range for port number",
              rw (absent, good) (set_parsed-large n m (ground (arith, large))),
            ),
          )
        ]
  ]
]

-- Ten to the power of the fuel.
abbrev pow10 : ℕ → ℕ
pow10 zero = 1
pow10 (suc f) = 10 * pow10 f

decimal-digits : (f n : ℕ) (out : List ℕ) → n < pow10 f → decimal (digits f n out) 0 ≡ decimal out n
unfolding digits
decimal-digits zero n out h = ap (decimal out) (omega arith)
decimal-digits (suc f) n out h =
    let ih = decimal-digits f (n / 10) ((b'0' + n % 10) ∷ out) (omega arith) in
    elim (Bool-cases (n == 0)) [
      | inl done ↦ rw done (ap (decimal out) (ground (arith, done)))
      | inr more ↦ rw more (ih ∙ ap (decimal out) (omega arith))
    ]

digits-IsDigits : (f n : ℕ) (out : List ℕ) → IsDigits out → IsDigits (digits f n out)
unfolding digits
digits-IsDigits zero n out h = h
digits-IsDigits (suc f) n out h =
    let ih = digits-IsDigits f (n / 10) ((b'0' + n % 10) ∷ out) ((omega arith, omega arith), h) in
    elim (Bool-cases (n == 0)) [ inl done ↦ rw done h | inr more ↦ rw more ih ]

digits-ne-nil : (f n : ℕ) (out : List ℕ) → out ≢ [] → digits f n out ≢ []
unfolding digits
digits-ne-nil zero n out h = h
digits-ne-nil (suc f) n out h =
    let ih = digits-ne-nil f (n / 10) ((b'0' + n % 10) ∷ out) (cons-ne-nil _ out) in
    elim (Bool-cases (n == 0)) [ inl done ↦ rw done h | inr more ↦ rw more ih ]

digits-five : (n : ℕ) → (n == 0) ≡ false → digits 5 n [] ≢ []
unfolding digits
digits-five n h =
    rw h (digits-ne-nil 4 (n / 10) ((b'0' + n % 10) ∷ []) (cons-ne-nil (b'0' + n % 10) []))

print_uint16-IsPort :
    (n : ℕ) → n ≤ max_uint16 → IsPort (print_uint16 n) × (decimal (print_uint16 n) 0 ≡ n)
unfolding print_uint16
print_uint16-IsPort n h =
    let is = decimal-digits 5 n [] (omega arith) in
    elim (Bool-cases (n == 0)) [
      | inl nought ↦ rw nought (
        (cons-ne-nil b'0' [], ((omega arith, omega arith), tt), omega arith),
        ground (arith, nought),
      )
      | inr more ↦
          rw more ((digits-five n more, digits-IsDigits 5 n [] tt, ground (arith, is, h)), is)
    ]

-- A flag that is set to the text of a port number prints it again.
pub set_port-port_string :
    (n m : ℕ) → n ≤ max_uint16 → set_port (port_string (some n)) (some m) ≡ (ok tt, some n)
unfolding port_string
set_port-port_string n m h =
    let (port, is) = print_uint16-IsPort n h in
    elim (set_port-IsPort (print_uint16 n) m) [
      | inl (p, run) ↦ run ∙ ap (λ d. (ok tt, some d)) is
      | inr (bad, rest) ↦ absurd (bad port)
    ]
