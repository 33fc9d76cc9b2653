-- ===== src/Proxy/Tests.antt =====
-- rcn/proxy/wire_proxy.go and rcn/conn/conn.go: a pair of private hosts, a start, and a short flow.
use runetale.Common.{
  ℕ, ◌+◌, String, ◌≡◌, refl, ap, ◌≢◌, ◌↔◌, ◌⊎◌, Bool, true, false, none, some, List, [], ◌∷◌, ◌++◌,
  str_eq, if◌then◌else◌, drop, message, ok, err, Fallible, value, error,
}
use runetale.Proxy.Address.{
  Ip, v4, is_public_ip, host, relay, is_host, CandidatePair, should_use_proxy,
}
use runetale.Proxy.Choice.{IsPublicHost, should_use_proxy_iff}
use runetale.Proxy.Conn.{
  AgentCalls, Conn, new_conn, dials, start_on, after_reach, reach_peer, start_conn,
}
use runetale.Proxy.Defs.{
  ProxyLibraries, WireProxy, new_wire_proxy, setup_conns, configure_no_proxy, configure_wire_proxy,
  start_mon, configure_for, start_proxy,
}
use runetale.Proxy.Monitor.{Wires, mon_local_to_remote_proxy}
use runetale.Proxy.Forwarding.{packets, Flow, Forwarded, mon_local_to_remote_proxy-Forwarded}
use runetale.Proxy.Starting.{Started, start_proxy-Started}
use runetale.Proxy.Roles.{ArePeers, dials-exactly_one}

abbrev table : String → Ip
table t = if str_eq t "8.8.8.8" then v4 8 8 8 8 else v4 10 0 0 2

abbrev mixed_pair : CandidatePair
mixed_pair = record {
  local = record { address = "10.0.0.2"; type = host };
  remote = record { address = "8.8.8.8"; type = relay };
}

should_use_proxy_iff_example :
    ((should_use_proxy table mixed_pair ≡ true) ↔ (
      (¬ IsPublicHost table mixed_pair.local)
      × (¬ IsPublicHost table mixed_pair.remote)
      × (¬ ((true ≡ true) × (is_host relay ≡ true)))))
    × (should_use_proxy table (record { local = mixed_pair.remote; remote = mixed_pair.local })
        ≡ should_use_proxy table mixed_pair)
unfolding is_host
should_use_proxy_iff_example = should_use_proxy_iff table mixed_pair

-- The world counts the configured peers.
abbrev libraries : ProxyLibraries ℕ ℕ ℕ
libraries = record {
  parse_ip = table;
  dial = λ a w. (ok 1, w);
  remote_addr = λ r. "8.8.8.8:4000";
  local_network = λ l. "udp";
  local_addr = λ l. "127.0.0.1:4001";
  resolve_udp_addr = λ n a. value (record { ip = "127.0.0.1"; port = 4001 });
  get_selected_candidate_pair = λ w. (ok (some mixed_pair), w);
  configure_remote_node_peer = λ k i a t s w. (ok tt, w + 1);
  remove_remote_peer = λ t i k w. (err (message "no peer"), w);
}

abbrev fresh : WireProxy ℕ ℕ
fresh = new_wire_proxy libraries "key" "10.1.0.2/32" "rt0" "127.0.0.1:51820" ""

start_proxy-Started_example :
    let (res, s) = start_proxy libraries 9 (fresh, 0) in
    ((res ≡ ok tt) × Started libraries 9 fresh s) ⊎ ((res ≢ ok tt) × (s.0.mons ≡ fresh.mons))
start_proxy-Started_example = start_proxy-Started libraries 9 fresh 0

abbrev agent : AgentCalls ℕ ℕ
agent = record { dial = λ u p w. (ok 9, w); accept = λ u p w. (ok 8, w) }

abbrev here : Conn ℕ ℕ
here = new_conn "u" "p" (some fresh) "b" "a"

abbrev there : Conn ℕ ℕ
there = new_conn "u" "p" (some fresh) "a" "b"

here-there-ArePeers : ArePeers here there
unfolding new_conn
here-there-ArePeers = record {
  knows_b = refl;
  knows_a = refl;
  differ = λ e. cc (ap (λ t. str_eq t "a") e);
}

dials-exactly_one_example :
    ((dials here ≡ true) × (dials there ≡ false)) ⊎ ((dials here ≡ false) × (dials there ≡ true))
dials-exactly_one_example = dials-exactly_one here there here-there-ArePeers

here_started : (start_conn libraries agent (here, 0)).0 ≡ ok tt
unfolding start_conn after_reach start_on reach_peer dials new_conn new_wire_proxy start_proxy
    setup_conns configure_for configure_no_proxy configure_wire_proxy start_mon should_use_proxy
    is_public_ip is_host
here_started = refl

-- The world: what is still to be read, and what has been written.
abbrev Traffic : Type 0
Traffic = List (Fallible (List ℕ)) × List (List ℕ)

abbrev first_answer : List (Fallible (List ℕ)) → Fallible (List ℕ)
first_answer [] = error (message "closed")
first_answer (r ∷ rs) = r

abbrev is_empty : List (Fallible (List ℕ)) → Bool
is_empty [] = true
is_empty (r ∷ rs) = false

abbrev wires : Wires Traffic
wires = record {
  is_done = λ (rs, out). (is_empty rs, (rs, out));
  read_local = λ n (rs, out). (first_answer rs, (drop 1 rs, out));
  read_remote = λ n (rs, out). (first_answer rs, (drop 1 rs, out));
  write_local = λ b (rs, out). (none, (rs, out ++ b ∷ []));
  write_remote = λ b (rs, out). (none, (rs, out ++ b ∷ []));
}

abbrev local_flow : Flow wires.is_done wires.read_local wires.write_remote
local_flow = record {
  pending = λ w. w.0;
  sent = λ w. w.1;
  done_at_end = λ w e. ap is_empty e;
  goes_on = λ w r rs e. ap is_empty e;
  done_quiet = λ w. (refl, refl);
  read_next = λ n w r rs e. (ap first_answer e, ap (drop 1) e, refl);
  write_arrives = λ b w. (refl, refl);
}

abbrev remote_flow : Flow wires.is_done wires.read_remote wires.write_local
remote_flow = record {
  pending = λ w. w.0;
  sent = λ w. w.1;
  done_at_end = λ w e. ap is_empty e;
  goes_on = λ w r rs e. ap is_empty e;
  done_quiet = λ w. (refl, refl);
  read_next = λ n w r rs e. (ap first_answer e, ap (drop 1) e, refl);
  write_arrives = λ b w. (refl, refl);
}

abbrev traffic : Traffic
traffic = (value (1 ∷ []) ∷ error (message "refused") ∷ value (2 ∷ 3 ∷ []) ∷ [], [])

mon_local_to_remote_proxy-Forwarded_example :
    Forwarded local_flow ([] ++ packets traffic.0) (mon_local_to_remote_proxy wires 4 traffic)
mon_local_to_remote_proxy-Forwarded_example =
    mon_local_to_remote_proxy-Forwarded wires local_flow traffic
