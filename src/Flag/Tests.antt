-- ===== src/Flag/Tests.antt =====
-- types/flagtype/flag.go: a port flag with the default 443.
use runetale.Common.{◌≡◌, refl, ◌⊎◌, some, Error, message, ok, err}
use runetale.System.Text.{codes, has_prefix, text_contains}
use runetale.Flag.{digits, print_uint16, parse_uint, new_port_value, set_parsed, set_port}
use runetale.Flag.Accepted.{IsPort, set_port-IsPort}

set_port-IsPort_example :
    (IsPort (codes "08080") × (set_port (codes "08080") (some 443) ≡ (ok tt, some 8080)))
    ⊎ (¬ IsPort (codes "08080")
        × ((e : Error) × (set_port (codes "08080") (some 443) ≡ (err e, some 443))))
set_port-IsPort_example = set_port-IsPort (codes "08080") 443

too_large :
    set_port (codes "65536") (new_port_value 443)
    ≡ (err (message "out of range for port number"), some 443)
unfolding set_port text_contains has_prefix parse_uint set_parsed new_port_value
too_large = refl

with_colon : (set_port (codes ":80") (new_port_value 443)).1 ≡ some 443
unfolding set_port text_contains has_prefix new_port_value
with_colon = refl

printed_port : print_uint16 51820 ≡ codes "51820"
unfolding print_uint16 digits
printed_port = refl
