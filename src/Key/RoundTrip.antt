-- ===== src/Key/RoundTrip.antt =====
-- types/key: what `parseHex` accepts, and that it inverts `toHex`.
use runetale.Common.{
  ℕ, zero, suc, ◌+◌, ◌*◌, ◌/◌, ◌%◌, ◌<◌, ◌≡◌, refl, ap, ◌∙◌, Bool, true, false, ◌&&◌, none, List,
  [], ◌∷◌, arith, leb, ◌==◌, if◌then◌else◌, ==_iff, length, get_or, length-append,
  drop-length-append, All,
}
use runetale.Key.Mem.{Mem, is_prefix-append}
use runetale.Key.Hex.{
  from_hex_char, hex_digit, encode, to_hex, join_digits, store_byte, parse_digits, parse_hex,
}

abbrev pub IsByte : ℕ → Type 0
IsByte v = v < 256

from_hex_char-hex_digit : (d : ℕ) → d < 16 → from_hex_char (hex_digit d) ≡ (d, true)
unfolding from_hex_char hex_digit
from_hex_char-hex_digit d h = ground arith

-- Joining the two digits of a byte gives the byte, for every byte below the bound.
rejoined : ℕ → Bool
rejoined zero = true
rejoined (suc v) =
    let rest = rejoined v in if join_digits (v / 16) (v % 16) == v then rest else false

join_digits-rejoined :
    (bound v : ℕ) → rejoined bound ≡ true → v < bound → join_digits (v / 16) (v % 16) ≡ v
unfolding rejoined
join_digits-rejoined zero v h lt = absurd (omega arith)
join_digits-rejoined (suc w) v h lt = ground (arith, join_digits-rejoined w v)

every_byte : rejoined 256 ≡ true
unfolding rejoined join_digits
every_byte = refl

pub join_digits-div-mod : (v : ℕ) → IsByte v → join_digits (v / 16) (v % 16) ≡ v
join_digits-div-mod v h = join_digits-rejoined 256 v every_byte h

-- A character as `hex.Encode` would write it.
unfoldable pub to_lower : ℕ → ℕ
to_lower c = if leb b'A' c && leb c b'F' then c + 32 else c

pub zero_shift : (j : ℕ) → 0 * 2 + j ≡ j
zero_shift j = omega arith

length-encode : (k : List ℕ) → length (encode k) ≡ length k * 2
unfolding encode
length-encode [] = refl
length-encode (v ∷ k) = omega (arith, length-encode k)

module _ (mem : Mem) where
  -- From index `i` on, the view shows the list.
  abbrev pub Shows : mem.RO → ℕ → List ℕ → Type 0
  Shows input i l = (j : ℕ) → j < length l → mem.at input (i * 2 + j) ≡ get_or l j 0

  parse_digits-encode :
      (input : mem.RO) (i : ℕ) (k out : List ℕ)
      → All IsByte k
      → length out ≡ length k
      → Shows input i (encode k)
      → parse_digits mem input i out ≡ (none, k)
  unfolding parse_digits encode store_byte
  parse_digits-encode input i [] [] h e s = refl
  parse_digits-encode input i [] (o ∷ out) h e s = absurd (omega arith)
  parse_digits-encode input i (v ∷ k) [] h e s = absurd (omega arith)
  parse_digits-encode input i (v ∷ k) (o ∷ out) h e s = rw (
    s 0 (omega arith),
    s 1 (omega arith),
    from_hex_char-hex_digit (v / 16) (omega arith),
    from_hex_char-hex_digit (v % 16) (omega arith),
    join_digits-div-mod v h.0,
    parse_digits-encode input (i + 1) k out h.1 (omega arith)
        (λ j lt. rw (shift j) (s (suc (suc j)) (omega arith))),
  )
    where
      shift : (j : ℕ) → (i + 1) * 2 + j ≡ i * 2 + suc (suc j)
      shift j = omega arith

  -- `parseHex` inverts `toHex`: from a view of the text of a key of as many bytes as the array has,
  -- it writes that key, whatever the array held.
  pub parse_hex-to_hex :
      (k out : List ℕ) (input prefix : mem.RO)
      → All IsByte k
      → length out ≡ length k
      → mem.content input ≡ to_hex k (mem.content prefix)
      → parse_hex mem out input prefix ≡ (none, k)
  unfolding parse_hex to_hex
  parse_hex-to_hex k out input prefix h e shown =
      let p = mem.content prefix in
      let prefixed : mem.has_prefix input prefix ≡ true =
        rw (mem.has_prefix_lem, shown, is_prefix-append) in
      let cut : mem.len prefix ≡ length p = mem.len_lem prefix in
      let digits = mem.slice_from input (mem.len prefix) in
      let left : mem.content digits ≡ encode k =
        mem.slice_from_lem input (mem.len prefix)
          (rw (cut, shown) (omega (arith, length-append p (encode k))))
        ∙ rw (cut, shown, drop-length-append) in
      let size : mem.len digits ≡ length out * 2 =
        mem.len_lem digits ∙ ap length left ∙ omega (arith, length-encode k) in
      rw (prefixed, (==_iff _ _).1 size)
        (parse_digits-encode digits 0 k out h e
          λ j lt. rw (zero_shift j) (mem.at_lem digits j (rw left lt) ∙ rw left))
