-- ===== src/System/Release.antt =====
-- system/system_linux.go: what GetInfo reads from a file /etc/os-release of quoted values.
use mathlib.Core.Path.{subst}
use runetale.Common.{
  ℕ, ◌≡◌, refl, ap, inl, inr, false, List, [], ◌∷◌, ◌++◌, arith, if◌then◌else◌, Bool-cases, All, ok,
}
use runetale.System.Text.{
  codes, split, has_prefix, Lacks, split-lacking, split-append, remove-quoted, Lacks-append,
  text_eq, text_eq→eq, has_prefix-key,
}
use runetale.System.Info.{index, unquoted_value, line_fields, release_fields}

pub record Assignment : Type 0 where
  pub key : List ℕ
  pub text : List ℕ

-- The bytes that end a key, a value or a line do not stand inside of them.
pub record IsPlain (a : Assignment) : Type 0 where
  pub key_lacks_eq : Lacks b'=' a.key
  pub key_lacks_newline : Lacks 10 a.key
  pub text_lacks_eq : Lacks b'=' a.text
  pub text_lacks_quote : Lacks 34 a.text
  pub text_lacks_newline : Lacks 10 a.text

abbrev pub print_line : Assignment → List ℕ
print_line a = a.key ++ b'=' ∷ 34 ∷ (a.text ++ 34 ∷ [])

abbrev pub print_release : List Assignment → List ℕ
print_release [] = []
print_release (a ∷ as_) = print_line a ++ 10 ∷ print_release as_

-- The value of the last line with this key, or else `d`.
abbrev pub last_value : List ℕ → List Assignment → List ℕ → List ℕ
last_value k [] d = d
last_value k (a ∷ as_) d = last_value k as_ (if text_eq k a.key then a.text else d)

unquoted_value-print : (a : Assignment) → IsPlain a → unquoted_value (print_line a) ≡ ok a.text
unfolding unquoted_value index
unquoted_value-print a p =
    rw
      (
        split-append b'=' a.key (34 ∷ (a.text ++ 34 ∷ [])) p.key_lacks_eq,
        split-lacking b'=' (34 ∷ (a.text ++ 34 ∷ []))
            (omega arith, Lacks-append b'=' a.text (34 ∷ []) p.text_lacks_eq (omega arith, tt)),
      )
      (ap ok (remove-quoted 34 a.text p.text_lacks_quote))

other_keys : text_eq (codes "VERSION_ID") (codes "NAME") ≡ false
unfolding text_eq
other_keys = refl

line_fields-print :
    (a : Assignment) (name ver : List ℕ)
    → IsPlain a
    → line_fields (print_line a) (name, ver)
      ≡ ok (
        (if text_eq (codes "NAME") a.key then a.text else name),
        (if text_eq (codes "VERSION_ID") a.key then a.text else ver),
      )
unfolding line_fields
line_fields-print a name ver p =
    let r = 34 ∷ (a.text ++ 34 ∷ []) in
    let is_name = has_prefix-key (codes "NAME") a.key r b'=' (omega arith) p.key_lacks_eq in
    let is_version =
      has_prefix-key (codes "VERSION_ID") a.key r b'=' (omega arith) p.key_lacks_eq in
    elim (Bool-cases (text_eq (codes "NAME") a.key)) [
      | inl same ↦
          let key = text_eq→eq (codes "NAME") a.key same in
          let other = subst (λ t. text_eq (codes "VERSION_ID") t ≡ false) key other_keys in
          rw (is_name, same, unquoted_value-print a p, other)
      | inr differ ↦ elim (Bool-cases (text_eq (codes "VERSION_ID") a.key)) [
        | inl version ↦ rw (is_name, differ, is_version, unquoted_value-print a p, version)
        | inr neither ↦ rw (is_name, differ, is_version, neither)
      ]
    ]

print_line-Lacks : (a : Assignment) → IsPlain a → Lacks 10 (print_line a)
print_line-Lacks a p =
    Lacks-append 10 a.key _ p.key_lacks_newline
      (omega arith, (omega arith, Lacks-append 10 a.text _ p.text_lacks_newline (omega arith, tt)))

-- The file gives the values of the last lines NAME and VERSION_ID.
pub release_fields-print :
    (as_ : List Assignment) (name ver : List ℕ)
    → All IsPlain as_
    → release_fields (split 10 (print_release as_)) (name, ver)
      ≡ ok (last_value (codes "NAME") as_ name, last_value (codes "VERSION_ID") as_ ver)
unfolding release_fields
release_fields-print [] name ver h = unfold split line_fields has_prefix in refl
release_fields-print (a ∷ as_) name ver (p, ps) =
    rw
      (
        split-append 10 (print_line a) (print_release as_) (print_line-Lacks a p),
        release_fields,
        line_fields-print a name ver p,
      )
      (release_fields-print as_ _ _ ps)
