-- ===== src/Flag.antt =====
-- types/flagtype/flag.go: the port of a command line flag, with the decimal numbers of strconv and
-- fmt on texts as lists of bytes.
pub mod Accepted
mod Tests
use runetale.Common.{
  ℕ, zero, suc, ◌+◌, ◌-◌, ◌*◌, ◌/◌, ◌%◌, ◌^◌, ◌&&◌, Option, none, some, List, [], ◌∷◌, ltb, leb,
  ◌==◌, if◌then◌else◌, message, ok, err, panic, Action,
}
use runetale.System.Text.{text_contains}

-- `fmt.Sprint` of a uint16; five digits are enough for it.
unfoldable pub digits : ℕ → ℕ → List ℕ → List ℕ
digits zero n out = out
digits (suc fuel) n out =
    let longer = digits fuel (n / 10) ((b'0' + n % 10) ∷ out) in if n == 0 then out else longer

unfoldable pub print_uint16 : ℕ → List ℕ
print_uint16 n = if n == 0 then b'0' ∷ [] else digits 5 n []

-- `strconv.ParseUint(v, 10, 64)` on a text that is not empty; both of its errors are `none`.
unfoldable pub parse_uint : List ℕ → ℕ → Option ℕ
parse_uint [] n = some n
parse_uint (c ∷ cs) n =
    let rest = parse_uint cs (n * 10 + (c - b'0')) in
    if leb b'0' c && leb c b'9' && ltb (n * 10 + (c - b'0')) (2 ^ 64) then rest else none

abbrev pub max_uint16 : ℕ
max_uint16 = 65535

-- portValue: the number that `n` points to, if `n` is not nil.
abbrev pub PortValue : Type 0
PortValue = Option ℕ

-- `PortValue`
unfoldable pub new_port_value : ℕ → PortValue
new_port_value default_port = some default_port

-- `portValue.String`
unfoldable pub port_string : PortValue → List ℕ
port_string none = []
port_string (some n) = print_uint16 n

-- `*p.n = uint16(n)`, which panics where `n` is nil.
unfoldable pub store_port : ℕ → Action PortValue (Unit {0})
store_port n none = (panic, none)
store_port n (some m) = (ok tt, some (n % 2 ^ 16))

unfoldable pub set_parsed : Option ℕ → Action PortValue (Unit {0})
unfolding store_port
set_parsed none p = (err (message "not a valid number"), p)
set_parsed (some n) p =
    if ltb max_uint16 n then (err (message "out of range for port number"), p) else store_port n p

-- `portValue.Set`
unfoldable pub set_port : List ℕ → Action PortValue (Unit {0})
set_port [] p = (err (message "can't be the empty string"), p)
set_port (c ∷ cs) p =
    if text_contains (b':' ∷ []) (c ∷ cs)
    then (err (message "expecting just a port number, without a colon"), p)
    else set_parsed (parse_uint (c ∷ cs) 0) p
