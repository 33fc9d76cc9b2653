-- ===== src/Proxy/Choice.antt =====
-- rcn/proxy/wire_proxy.go: which addresses are public, and which pairs need the proxy.
use runetale.Common.{ℕ, ◌+◌, ◌*◌, ◌≤◌, ◌<◌, String, ◌≡◌, ◌↔◌, ◌⊎◌, true, arith}
use runetale.Proxy.Address.{
  Ip, v4, is_loopback, is_link_local_unicast, is_link_local_multicast, is_private, is_public_ip,
  is_host, Candidate, CandidatePair, should_use_proxy,
}

-- The number of an IPv4 address.
abbrev pub number : ℕ → ℕ → ℕ → ℕ → ℕ
number a b c d = ((a * 256 + b) * 256 + c) * 256 + d

-- Whether the number lies in a block of addresses.
abbrev pub InBlock : ℕ → ℕ → ℕ → Type 0
InBlock first size n = (first ≤ n) × (n < first + size)

-- 127.0.0.0/8, 169.254.0.0/16, 224.0.0.0/24, 10.0.0.0/8, 172.16.0.0/12 and 192.168.0.0/16.
abbrev pub Reserved : ℕ → Type 0
Reserved n =
    InBlock 2130706432 16777216 n
    ⊎ (InBlock 2851995648 65536 n
        ⊎ (InBlock 3758096384 256 n
            ⊎ (InBlock 167772160 16777216 n
                ⊎ (InBlock 2886729728 1048576 n ⊎ InBlock 3232235520 65536 n))))

-- An IPv4 address is public exactly if its number lies in none of the blocks 127.0.0.0/8,
-- 169.254.0.0/16, 224.0.0.0/24, 10.0.0.0/8, 172.16.0.0/12 and 192.168.0.0/16.
pub is_public_ip-number :
    (a b c d : ℕ)
    → a < 256
    → b < 256
    → c < 256
    → d < 256
    → (is_public_ip (v4 a b c d) ≡ true) ↔ ¬ Reserved (number a b c d)
unfolding is_public_ip is_loopback is_link_local_unicast is_link_local_multicast is_private
is_public_ip-number a b c d la lb lc ld = ground arith

-- A host candidate with a public address.
abbrev pub IsPublicHost : (String → Ip) → Candidate → Type 0
IsPublicHost parse_ip c = (is_public_ip (parse_ip c.address) ≡ true) × (is_host c.type ≡ true)

-- The proxy is used exactly if neither end is a host with a public address and not both ends are
-- hosts. So the two ends of a pair always agree.
pub should_use_proxy_iff :
    (parse_ip : String → Ip) (pair : CandidatePair)
    → ((should_use_proxy parse_ip pair ≡ true) ↔ (
        (¬ IsPublicHost parse_ip pair.local)
        × (¬ IsPublicHost parse_ip pair.remote)
        × (¬ ((is_host pair.local.type ≡ true) × (is_host pair.remote.type ≡ true)))))
      × (should_use_proxy parse_ip (record { local = pair.remote; remote = pair.local })
          ≡ should_use_proxy parse_ip pair)
unfolding should_use_proxy
should_use_proxy_iff parse_ip pair = (ground arith, ground arith)
