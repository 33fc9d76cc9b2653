-- ===== src/Key/Tests.antt =====
-- types/key: the key texts of small keys, read by the byte lists themselves.
use runetale.Common.{ℕ, ◌≡◌, refl, none, List, [], ◌∷◌, arith, All}
use runetale.Key.Mem.{is_prefix, byte_lists}
use runetale.Key.Hex.{from_hex_char, to_hex, join_digits, store_byte, parse_digits, parse_hex}
use runetale.Key.Client.{codes, ClientPrivateState}
use runetale.Key.RoundTrip.{IsByte, parse_hex-to_hex}

abbrev two_bytes : List ℕ
two_bytes = 255 ∷ 16 ∷ []

two_bytes_small : All IsByte two_bytes
two_bytes_small = (omega arith, (omega arith, tt))

-- "k:" and "k:Ff10"
abbrev short_prefix : List ℕ
short_prefix = codes "k:"

abbrev mixed_case : List ℕ
mixed_case = codes "k:Ff10"

parse_hex-to_hex_example :
    parse_hex byte_lists (0 ∷ 0 ∷ []) (to_hex two_bytes short_prefix) short_prefix
    ≡ (none, two_bytes)
parse_hex-to_hex_example =
    parse_hex-to_hex byte_lists two_bytes (0 ∷ 0 ∷ []) (to_hex two_bytes short_prefix) short_prefix
      two_bytes_small refl refl

mixed_case_read : (parse_hex byte_lists (0 ∷ 0 ∷ []) mixed_case short_prefix) ≡ (none, two_bytes)
unfolding parse_hex parse_digits store_byte join_digits from_hex_char is_prefix
mixed_case_read = refl

abbrev small_state : ClientPrivateState
small_state = record { private_key = two_bytes }

abbrev blank_state : ClientPrivateState
blank_state = record { private_key = 0 ∷ 0 ∷ [] }
