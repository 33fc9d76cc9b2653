-- ===== src/Server/Tests.antt =====
-- client/grpc/server_client.go: a login of a node that is not registered.
use runetale.Common.{ℕ, ◌+◌, ◌≡◌, refl, false, none, [], ◌∷◌, lookup, ok, value}
use runetale.Server.Defs.{
  ServerCalls, SysInfo, open_browser, first_of, get_login_session_id, connect_login_session,
  login_by_session, login_address, login_node, node_address,
}

abbrev unregistered : ServerCalls ℕ ℕ ℕ ℕ
unregistered = record {
  parse_key = λ t. value 1;
  public_key_text = λ k. "public";
  goos = "linux";
  start_command = λ args w. (ok tt, w);
  login_node = λ md w.
      (ok (record { ip = ""; cidr = ""; is_registered = false; login_url = "https://login" }), w);
  login_session = λ md w. (ok 3, w);
  header = λ s w. (ok (("session_id", "s1" ∷ []) ∷ []), w);
  recv = λ s w. (ok (record { ip = "10.0.0.7"; cidr = "24" }), w);
  send = λ s w. (ok tt, w + 1);
  compose_node = λ md w. (ok (record { ip = "10.0.0.8"; cidr = "24" }), w);
  sync_remote_nodes_config = λ md w. (ok (record { remote_nodes = none; ip = ""; cidr = "" }), w);
  connect = λ md w. (ok 0, w);
  disconnect = λ md w. (ok 0, w);
  get_connection_status = λ md w. (ok 0, w);
}

abbrev host : SysInfo
host = record { hostname = "h"; os = "linux" }

-- The session gives 10.0.0.7, and the node gets no address.
logs_in : node_address unregistered host "" "n1" "key" 0 ≡ (ok ("", ""), 1)
unfolding node_address login_node login_address login_by_session open_browser connect_login_session
    get_login_session_id first_of lookup
logs_in = refl
