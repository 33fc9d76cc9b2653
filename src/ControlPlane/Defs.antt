-- ===== src/ControlPlane/Defs.antt =====
-- rcn/controlplane/control_plane.go: the state and the methods that do not loop over the network.
use runetale.Common.{
  ℕ, String, Bool, true, false, not, ◌||◌, Option, none, some, List, [], ◌∷◌, str_eq, if◌then◌else◌,
  Dict, lookup, Outcome, ok, err, panic, Action, pure, crash, modify, ◌>>=◌, ◌>>◌, Fallible, value,
  error,
}
use runetale.ControlPlane.Peer.{Node, Url, StunTurnConfig, Ice, wg_port_number, IceMethods, join}

-- conf.Spec, as far as it is read here.
pub record PeerSpec : Type 0 where
  pub wg_private_key : String
  pub pre_shared_key : String
  pub tun_name : String
  pub black_list : List String

-- A response of GetStunTurnConfig, and the kinds of negotiation messages; `other` is any number
-- that the `switch` does not name.
pub record RtcConfig : Type 0 where
  pub stun_url : String
  pub turn_url : String
  pub turn_username : String
  pub turn_password : String

pub data NegotiationType : Type 0 where
  answer offer candidate other : NegotiationType

pub record NegotiationRequest : Type 0 where
  pub dst_node_key : String
  pub msg_type : NegotiationType
  pub u_flag : String
  pub pwd : String
  pub candidate_text : String

-- What the package calls of others: keys of wgtypes, URLs and candidates of pion/ice. `receives` says
-- of the peers that were sent, the last one first, whether the loop of WaitForRemoteConn ever comes
-- back to the channel to take the last one.
pub record Libraries (U C W : Type 0) : Type 0 where
  pub parse_key : String → Fallible (List ℕ)
  pub key_string : List ℕ → String
  pub parse_url : String → Fallible U
  pub unmarshal_candidate : String → Fallible C
  pub get_stun_turn_config : Action W RtcConfig
  pub is_ready : W → Bool
  pub receives : List (Ice U) → Bool

-- `peerConns`, `stconf`, the peers handed over on `waitForRemoteConnCh`, the last one first, and
-- whether a goroutine that a method has started panics, which ends the program.
pub record ControlPlane (U : Type 0) : Type 0 where
  pub peer_conns : Dict (Option (Ice U))
  pub stconf : Option (StunTurnConfig U)
  pub handed : List (Ice U)
  pub doomed : Bool

-- `NewControlPlane`
unfoldable pub new_control_plane : {U : Type 0} → ControlPlane U
new_control_plane = record { peer_conns = []; stconf = none; handed = []; doomed = false }

module _ {U C W : Type 0} (lib : Libraries U C W) (methods : IceMethods U C W) where
  abbrev pub Shared : Type 0
  Shared = ControlPlane U × W

  -- A call that does not touch the control plane.
  abbrev pub lift : {A : Type 0} → Action W A → Action Shared A
  lift m (c, w) = let (r, w') = m w in (r, (c, w'))

  abbrev pub lift_result : {A : Type 0} → Fallible A → Action Shared A
  lift_result (value a) s = (ok a, s)
  lift_result (error e) s = (err e, s)

  -- `parseStun` and `parseTurn`, which are the same function.
  unfoldable pub parse_stun : String → String → String → Fallible (Url U)
  parse_stun url uname pw = elim (lib.parse_url url) [
    | value u ↦ value (record { parsed = u; username = uname; password = pw })
    | error e ↦ error e
  ]

  unfoldable pub configure_stun_turn_conf : Action Shared (Unit {0})
  unfolding parse_stun
  configure_stun_turn_conf = do
    conf ← lift lib.get_stun_turn_config
    stun ← lift_result (parse_stun conf.stun_url conf.turn_username conf.turn_password)
    turn ← lift_result (parse_stun conf.turn_url conf.turn_username conf.turn_password)
    modify λ (c, w). (record c { stconf = some (record { stun = stun; turn = turn }) }, w)

  -- The preshared key in wgtypes' own text, or the empty text.
  unfoldable pub preshared : PeerSpec → Fallible String
  preshared spec =
      if str_eq spec.pre_shared_key "" then value "" else elim (lib.parse_key spec.pre_shared_key) [
        | value k ↦ value (lib.key_string k)
        | error e ↦ error e
      ]

  unfoldable pub new_ice :
      PeerSpec → String → Option (StunTurnConfig U) → Node → String → String → Fallible (Ice U)
  new_ice spec nk stconf node myip mycidr = elim (lib.parse_key spec.wg_private_key) [
    | error e ↦ error e
    | value k ↦ elim (preshared spec) [
      | error e ↦ error e
      | value pk ↦ value (record {
        remote_wg_pub_key = node.remote_wg_pub_key;
        remote_ip = join "," node.allowed_ips;
        remote_node_key = node.remote_node_key;
        ip = myip;
        cidr = mycidr;
        wg_priv_key = k;
        wg_port = wg_port_number;
        wg_iface = spec.tun_name;
        pre_shared_key = pk;
        nk = nk;
        stun_turn = stconf;
        black_list = spec.black_list;
      })
    ]
  ]

  unfoldable pub is_exist_peer : ControlPlane U → String → Bool
  is_exist_peer c k = elim (lookup k c.peer_conns) [ none ↦ false | some _ ↦ true ]

  -- The value of `c.peerConns[k]`: nil where the key is missing.
  unfoldable pub peer_at : ControlPlane U → String → Option (Ice U)
  peer_at c k = elim (lookup k c.peer_conns) [ none ↦ none | some i ↦ i ]

  -- A method called on `node`, which panics where it is nil.
  abbrev pub on_peer : Option (Ice U) → (Ice U → Action W (Unit {0})) → Action Shared (Unit {0})
  on_peer none m = crash
  on_peer (some i) m = lift (m i)

  -- A call in a goroutine of its own: the caller does not see how it ends.
  unfoldable pub in_goroutine :
      Outcome (Unit {0}) × W → ControlPlane U → Outcome (Unit {0}) × Shared
  in_goroutine (panic, w) c = (ok tt, (record c { doomed = true }, w))
  in_goroutine (err e, w) c = (ok tt, (c, w))
  in_goroutine (ok _, w) c = (ok tt, (c, w))

  -- SendRemoteCandidate only starts a goroutine, which reads a field of `node`.
  unfoldable pub go_on_peer :
      Option (Ice U) → (Ice U → Action W (Unit {0})) → Action Shared (Unit {0})
  unfolding in_goroutine
  go_on_peer none m (c, w) = in_goroutine (panic, w) c
  go_on_peer (some i) m (c, w) = in_goroutine (m i w) c

  unfoldable pub receive_signal_request :
      String
      → NegotiationType
      → Option (Ice U)
      → String
      → String
      → String
      → Action Shared (Unit {0})
  receive_signal_request k answer node uname pwd cand =
      on_peer node λ i. methods.send_remote_answer_ch i k uname pwd
  receive_signal_request k offer node uname pwd cand =
      on_peer node λ i. methods.send_remote_offer_ch i k uname pwd
  receive_signal_request k candidate node uname pwd cand = do
    c ← lift_result (lib.unmarshal_candidate cand)
    go_on_peer node λ i. methods.send_remote_candidate i c
  receive_signal_request k other _ uname pwd cand = pure tt

  -- The handler that ConnectSignalServer gives to the signal client.
  unfoldable pub handle_request : NegotiationRequest → Action Shared (Unit {0})
  handle_request res (c, w) =
      receive_signal_request res.dst_node_key res.msg_type (peer_at c res.dst_node_key) res.u_flag
        res.pwd res.candidate_text (c, w)

  -- An error is logged and the loop goes on; a panic stays one.
  unfoldable pub log_error : Outcome (Unit {0}) × W → ControlPlane U → Outcome (Unit {0}) × Shared
  log_error (panic, w) c = (panic, (c, w))
  log_error (err e, w) c = (ok tt, (c, w))
  log_error (ok _, w) c = (ok tt, (c, w))

  -- One round of WaitForRemoteConn.
  unfoldable pub wait_for_remote_conn_round : Ice U → Action Shared (Unit {0})
  wait_for_remote_conn_round i (c, w) =
      if not (lib.is_ready w) || not (is_exist_peer c i.remote_node_key)
      then (ok tt, (c, w))
      else log_error ((methods.setup i >> methods.start_gathering_process i) w) c

  -- `Close`: the loop over the peers, up to the first error.
  unfoldable pub close_peers : Dict (Option (Ice U)) → Action Shared (Unit {0})
  close_peers [] = pure tt
  close_peers ((k, none) ∷ d) = close_peers d
  close_peers ((k, some i) ∷ d) = lift (methods.cleanup i) >> close_peers d

  unfoldable pub close : Action Shared (Unit {0})
  close (c, w) = close_peers c.peer_conns (c, w)
