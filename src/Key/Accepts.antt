-- ===== src/Key/Accepts.antt =====
-- types/key/key.go: which texts `parseHex` accepts, and what it leaves in the array.
use runetale.Common.{
  ℕ, suc, ◌+◌, ◌*◌, ◌/◌, ◌%◌, ◌<◌, ◌≡◌, refl, sym, ◌∙◌, inl, inr, true, none, List, [], ◌∷◌, ◌++◌,
  map, arith, ◌==◌, ==_iff, Bool-cases, length, drop, All,
}
use runetale.Key.Mem.{is_prefix, Mem, is_prefix-eq_append, is_prefix-length}
use runetale.Key.Client.{
  client_private_key_prefix, ClientPrivateState, marshal_text, unmarshal_text,
}
use runetale.Key.Hex.{
  from_hex_char, hex_digit, encode, to_hex, join_digits, store_byte, parse_digits, parse_hex,
}
use runetale.Key.RoundTrip.{
  IsByte, join_digits-div-mod, to_lower, zero_shift, Shows, parse_hex-to_hex,
}

hex_digit-of_char :
    (c : ℕ)
    → (from_hex_char c).1 ≡ true
    → (hex_digit (from_hex_char c).0 ≡ to_lower c) × ((from_hex_char c).0 < 16)
unfolding from_hex_char hex_digit to_lower
hex_digit-of_char c h = ground arith

join_digits_lem : (a b : ℕ) → a < 16 → b < 16 → join_digits a b ≡ a * 16 + b
join_digits_lem a b h k =
    let e : (a * 16 + b) / 16 ≡ a = omega arith in
    let f : (a * 16 + b) % 16 ≡ b = omega arith in
    rw (e, f) at (join_digits-div-mod (a * 16 + b) (omega arith))

shift : (i j : ℕ) → (i + 1) * 2 + j ≡ i * 2 + suc (suc j)
shift i j = omega arith

module _ (mem : Mem) where
  -- Accepted digits, lower-cased, are the encoding of what was written.
  parse_digits-accepts :
      (input : mem.RO) (i : ℕ) (l out : List ℕ)
      → length l ≡ length out * 2
      → Shows mem input i l
      → let (e, k) = parse_digits mem input i out in
        e ≡ none → (map to_lower l ≡ encode k) × (length k ≡ length out) × All IsByte k
  unfolding parse_digits encode store_byte
  parse_digits-accepts input i [] [] e s h = (refl, refl, tt)
  parse_digits-accepts input i (c ∷ []) [] e s h = absurd (omega arith)
  parse_digits-accepts input i (c ∷ d ∷ l) [] e s h = absurd (omega arith)
  parse_digits-accepts input i [] (o ∷ out) e s h = absurd (omega arith)
  parse_digits-accepts input i (c ∷ []) (o ∷ out) e s h = absurd (omega arith)
  parse_digits-accepts input i (c ∷ d ∷ l) (o ∷ out) e s h =
      let r = parse_digits mem input (i + 1) out in
      ground (
        arith,
        s 0 (omega arith),
        s 1 (omega arith),
        hex_digit-of_char c,
        hex_digit-of_char d,
        join_digits_lem (from_hex_char c).0 (from_hex_char d).0,
        parse_digits-accepts input (i + 1) l out (omega arith)
            (λ j lt. rw (shift i j) (s (suc (suc j)) (omega arith))),
      )

  -- What `parseHex` accepts is the prefix and two hexadecimal digits for each byte of the array:
  -- in lower case these digits are the encoding of the key that it wrote. It never changes the
  -- array's size.
  pub parse_hex-accepts :
      (out : List ℕ) (input prefix : mem.RO)
      → (parse_hex mem out input prefix).0 ≡ none
      → let k = (parse_hex mem out input prefix).1 in
        let digits = drop (length (mem.content prefix)) (mem.content input) in
        (mem.content input ≡ mem.content prefix ++ digits)
        × (map to_lower digits ≡ encode k)
        × (length k ≡ length out)
        × All IsByte k
  unfolding parse_hex
  parse_hex-accepts out input prefix h = elim (Bool-cases (mem.has_prefix input prefix)) [
    | inr bad ↦ cc (← h, bad)
    | inl good ↦ elim (Bool-cases (mem.len digits == length out * 2)) [
      | inr bad ↦ ground (arith, good, bad)
      | inl size ↦
          let (lower, fits, bytes) =
            parse_digits-accepts digits 0 (mem.content digits) out (sized size)
              (λ j lt. rw (zero_shift j) (mem.at_lem digits j lt)) (rw (good, size) at h) in
          rw (good, size)
            (
              is_prefix-eq_append (mem.content prefix) (mem.content input) (prefixed good),
              rw (← shown (prefixed good)) lower,
              fits,
              bytes,
            )
    ]
  ]
    where
      digits : mem.RO
      digits = mem.slice_from input (mem.len prefix)

      prefixed :
          mem.has_prefix input prefix ≡ true
          → is_prefix (mem.content prefix) (mem.content input) ≡ true
      prefixed g = rw (mem.has_prefix_lem input prefix) at g

      shown :
          is_prefix (mem.content prefix) (mem.content input) ≡ true
          → mem.content digits ≡ drop (length (mem.content prefix)) (mem.content input)
      shown g =
          mem.slice_from_lem input (mem.len prefix)
            (rw (mem.len_lem prefix) (is_prefix-length (mem.content prefix) (mem.content input) g))
          ∙ rw (mem.len_lem prefix)

      sized :
          (mem.len digits == length out * 2) ≡ true → length (mem.content digits) ≡ length out * 2
      sized g = sym (mem.len_lem digits) ∙ (==_iff _ _).0 g

-- A client key that is marshalled and unmarshalled into any other key array is the same key.
pub unmarshal_text-marshal_text :
    (mem : Mem) (s s' : ClientPrivateState)
    → All IsByte s.private_key
    → length s'.private_key ≡ length s.private_key
    → unmarshal_text mem s' (marshal_text s) ≡ (none, s)
unfolding unmarshal_text marshal_text
unmarshal_text-marshal_text mem s s' h e = rw (
    parse_hex-to_hex mem s.private_key s'.private_key
      (mem.of_bytes (to_hex s.private_key client_private_key_prefix))
      (mem.of_bytes client_private_key_prefix) h e
      (rw (mem.content-of_bytes, mem.content-of_bytes)))
