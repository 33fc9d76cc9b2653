-- ===== src/Proxy/Address.antt =====
-- rcn/proxy/wire_proxy.go: addresses of candidates, IsPublicIP and shouldUseProxy.
use runetale.Common.{
  ℕ, ◌/◌, ◌%◌, String, Bool, true, false, not, ◌&&◌, ◌||◌, List, [], ◌∷◌, ◌==◌, if◌then◌else◌,
  get_or,
}

-- net.IP as net.ParseIP gives it: an IPv4 address by its bytes, the 16 bytes of another IPv6
-- address, or nil for a text that is no address.
pub data Ip : Type 0 where
  v4 : ℕ → ℕ → ℕ → ℕ → Ip
  v6 : List ℕ → Ip
  nil_ip : Ip

abbrev byte_at : List ℕ → ℕ → ℕ
byte_at l i = get_or l i 0

-- Whether all bytes but the last are 0 and the last is 1.
unfoldable pub is_one : List ℕ → Bool
is_one [] = false
is_one (x ∷ []) = x == 1
is_one (x ∷ y ∷ l) = (x == 0) && is_one (y ∷ l)

-- `IsLoopback`, `IsLinkLocalUnicast`, `IsLinkLocalMulticast` and `IsPrivate` of net.IP.
unfoldable pub is_loopback : Ip → Bool
is_loopback (v4 a b c d) = a == 127
is_loopback (v6 l) = is_one l
is_loopback nil_ip = false

unfoldable pub is_link_local_unicast : Ip → Bool
is_link_local_unicast (v4 a b c d) = (a == 169) && (b == 254)
is_link_local_unicast (v6 l) = (byte_at l 0 == 254) && (byte_at l 1 / 64 == 2)
is_link_local_unicast nil_ip = false

unfoldable pub is_link_local_multicast : Ip → Bool
is_link_local_multicast (v4 a b c d) = (a == 224) && (b == 0) && (c == 0)
is_link_local_multicast (v6 l) = (byte_at l 0 == 255) && (byte_at l 1 % 16 == 2)
is_link_local_multicast nil_ip = false

unfoldable pub is_private : Ip → Bool
is_private (v4 a b c d) = (a == 10) || (a == 172) && (b / 16 == 1) || (a == 192) && (b == 168)
is_private (v6 l) = byte_at l 0 / 2 == 126
is_private nil_ip = false

unfoldable pub is_public_ip : Ip → Bool
unfolding is_loopback is_link_local_unicast is_link_local_multicast is_private
is_public_ip ip =
    if is_loopback ip || is_link_local_unicast ip || is_link_local_multicast ip || is_private ip
    then false
    else true

-- ice.CandidateType
pub data CandidateType : Type 0 where
  unspecified host server_reflexive peer_reflexive relay : CandidateType

unfoldable pub is_host : CandidateType → Bool
is_host host = true
is_host unspecified = false
is_host server_reflexive = false
is_host peer_reflexive = false
is_host relay = false

-- ice.Candidate and ice.CandidatePair, as far as they are read.
pub record Candidate : Type 0 where
  pub address : String
  pub type : CandidateType

pub record CandidatePair : Type 0 where
  pub local : Candidate
  pub remote : Candidate

unfoldable pub should_use_proxy : (String → Ip) → CandidatePair → Bool
should_use_proxy parse_ip pair =
    let remote_is_public = is_public_ip (parse_ip pair.remote.address) in
    let my_is_public = is_public_ip (parse_ip pair.local.address) in
    if remote_is_public && is_host pair.remote.type
    then false
    else if my_is_public && is_host pair.local.type
    then false
    else if is_host pair.local.type && is_host pair.remote.type
    then if not remote_is_public && not my_is_public then false else true
    else true
