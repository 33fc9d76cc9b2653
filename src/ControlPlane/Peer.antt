-- ===== src/ControlPlane/Peer.antt =====
-- The arguments that rcn/controlplane/control_plane.go passes to NewIce for a remote node, and the
-- methods of *Ice (rcn/webrtc/ice.go) that it calls, as an interface.
use runetale.Common.{ℕ, String, Option, List, [], ◌∷◌, Action, concat}

-- node.Node of the generated client, by its getters.
pub record Node : Type 0 where
  pub remote_node_key : String
  pub remote_wg_pub_key : String
  pub allowed_ips : List String

-- StunTurnConfig; a URL is what ice.ParseURL gives, with the two fields set by the source.
pub record Url (U : Type 0) : Type 0 where
  pub parsed : U
  pub username : String
  pub password : String

pub record StunTurnConfig (U : Type 0) : Type 0 where
  pub stun : Url U
  pub turn : Url U

-- What NewIce is told of the peer and of the node itself. `stun_turn` is nil before
-- ConfigureStunTurnConf.
pub record Ice (U : Type 0) : Type 0 where
  pub remote_wg_pub_key : String
  pub remote_ip : String
  pub remote_node_key : String
  pub ip : String
  pub cidr : String
  pub wg_priv_key : List ℕ
  pub wg_port : ℕ
  pub wg_iface : String
  pub pre_shared_key : String
  pub nk : String
  pub stun_turn : Option (StunTurnConfig U)
  pub black_list : List String

abbrev pub wg_port_number : ℕ
wg_port_number = 51820

-- The methods of a non-nil *Ice; `C` is ice.Candidate.
pub record IceMethods (U C W : Type 0) : Type 0 where
  pub setup : Ice U → Action W (Unit {0})
  pub start_gathering_process : Ice U → Action W (Unit {0})
  pub cleanup : Ice U → Action W (Unit {0})
  pub send_remote_answer_ch : Ice U → String → String → String → Action W (Unit {0})
  pub send_remote_offer_ch : Ice U → String → String → String → Action W (Unit {0})
  pub send_remote_candidate : Ice U → C → Action W (Unit {0})

-- `strings.Join`
unfoldable pub join : String → List String → String
join sep [] = ""
join sep (x ∷ []) = x
join sep (x ∷ y ∷ xs) = concat x (concat sep (join sep (y ∷ xs)))
