-- ===== src/Key/Hex.antt =====
-- types/key/key.go: hexadecimal characters, `toHex` and `parseHex`. A byte is a number below 256.
use Prim.Native.Nat.{bit_or}
use runetale.Common.{
  ℕ, ◌+◌, ◌-◌, ◌*◌, ◌/◌, ◌%◌, Bool, true, false, not, ◌&&◌, ◌||◌, Option, none, some, List, [], ◌∷◌,
  ◌++◌, ltb, leb, ◌==◌, if◌then◌else◌, length, Error, message,
}
use runetale.Key.Mem.{Mem}

unfoldable pub from_hex_char : ℕ → ℕ × Bool
from_hex_char c =
    if leb b'0' c && leb c b'9'
    then (c - b'0', true)
    else if leb b'a' c && leb c b'f'
    then (c - b'a' + 10, true)
    else if leb b'A' c && leb c b'F'
    then (c - b'A' + 10, true)
    else (0, false)

-- `hextable[d]` of encoding/hex.
unfoldable pub hex_digit : ℕ → ℕ
hex_digit d = if ltb d 10 then b'0' + d else b'a' + (d - 10)

-- `hex.Encode`
unfoldable pub encode : List ℕ → List ℕ
encode [] = []
encode (v ∷ vs) = hex_digit (v / 16) ∷ hex_digit (v % 16) ∷ encode vs

unfoldable pub to_hex : List ℕ → List ℕ → List ℕ
to_hex k prefix = prefix ++ encode k

-- `(a << 4) | b` in a byte
unfoldable pub join_digits : ℕ → ℕ → ℕ
join_digits a b = bit_or (a * 16 % 256) b

-- The byte is written, and the rest of the loop has ended as given.
unfoldable pub store_byte : ℕ → Option Error × List ℕ → Option Error × List ℕ
store_byte v (e, out) = (e, v ∷ out)

module _ (mem : Mem) where
  -- The loop over `out` from index `i` on; bytes before a failure stay written.
  unfoldable pub parse_digits : mem.RO → ℕ → List ℕ → Option Error × List ℕ
  parse_digits input i [] = (none, [])
  parse_digits input i (old ∷ out) =
      let (a, ok₁) = from_hex_char (mem.at input (i * 2 + 0)) in
      let (b, ok₂) = from_hex_char (mem.at input (i * 2 + 1)) in
      let rest = store_byte (join_digits a b) (parse_digits input (i + 1) out) in
      if not ok₁ || not ok₂
      then (some (message "invalid hex character in key"), old ∷ out)
      else rest

  unfoldable pub parse_hex : List ℕ → mem.RO → mem.RO → Option Error × List ℕ
  parse_hex out input prefix =
      if not (mem.has_prefix input prefix)
      then (some (message "key hex string doesn't have expected type prefix %s"), out)
      else let digits = mem.slice_from input (mem.len prefix) in
        if not (mem.len digits == length out * 2)
        then (some (message "key hex has the wrong size, got %d want %d"), out)
        else parse_digits digits 0 out
