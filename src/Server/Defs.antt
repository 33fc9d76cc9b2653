-- ===== src/Server/Defs.antt =====
-- client/grpc/server_client.go and client/grpc/helper.go: the calls of the server. The generated
-- clients, the browser and wgtypes are parameters.
use runetale.Common.{
  String, Bool, not, Option, none, some, List, [], ◌∷◌, str_eq, if◌then◌else◌, Dict, lookup,
  message, ok, err, Action, pure, crash, ◌>>=◌, ◌>>◌, Fallible, value, error,
}
use runetale.ControlPlane.Offer.{SyncNodesResponse}

-- login.LoginNodeResponse, and the fields that login.LoginSessionResponse and
-- node.ComposeNodeResponse share.
pub record LoginNodeResponse : Type 0 where
  pub ip : String
  pub cidr : String
  pub is_registered : Bool
  pub login_url : String

pub record AddressResponse : Type 0 where
  pub ip : String
  pub cidr : String

-- metadata.MD, with one text for each name.
abbrev pub Metadata : Type 0
Metadata = Dict String

-- The calls over keys `K`, streams `S`, status responses `R` and the world `W`. The names of the
-- metadata are those of the package utils; `start_command` is exec.Command with Start, and `goos` is
-- runtime.GOOS.
pub record ServerCalls (K S R W : Type 0) : Type 0 where
  pub parse_key : String → Fallible K
  pub public_key_text : K → String
  pub login_node : Metadata → Action W LoginNodeResponse
  pub goos : String
  pub start_command : List String → Action W (Unit {0})
  pub login_session : Metadata → Action W S
  pub header : S → Action W (Dict (List String))
  pub recv : S → Action W AddressResponse
  pub send : S → Action W (Unit {0})
  pub compose_node : Metadata → Action W AddressResponse
  pub sync_remote_nodes_config : Metadata → Action W SyncNodesResponse
  pub connect : Metadata → Action W R
  pub disconnect : Metadata → Action W R
  pub get_connection_status : Metadata → Action W R

pub record SysInfo : Type 0 where
  pub hostname : String
  pub os : String

-- The names in utils/key.go.
abbrev pub node_key : String
node_key = "node-key"

abbrev pub os_name : String
os_name = "os"

abbrev pub host_name : String
host_name = "hostname"

abbrev pub wg_pub_key : String
wg_pub_key = "wg-pub-key"

abbrev pub access_token : String
access_token = "access-token"

module _ {K S R W : Type 0} (calls : ServerCalls K S R W) (sys : SysInfo) where
  abbrev pub returned : {A : Type 0} → Fallible A → Action W A
  returned (value a) w = (ok a, w)
  returned (error e) w = (err e, w)

  -- utils.OpenBrowser
  unfoldable pub open_browser : String → Action W (Unit {0})
  open_browser url =
      if str_eq calls.goos "linux"
      then calls.start_command ("xdg-open" ∷ url ∷ [])
      else if str_eq calls.goos "windows"
      then calls.start_command ("rundll32" ∷ "url.dll,FileProtocolHandler" ∷ url ∷ [])
      else if str_eq calls.goos "darwin"
      then calls.start_command ("open" ∷ url ∷ [])
      else λ w. (err (message "unsupported platform"), w)

  -- `getLoginSessionID`: the index into a missing or empty list panics.
  unfoldable pub first_of : Option (List String) → Action W String
  first_of none = crash
  first_of (some []) = crash
  first_of (some (id ∷ ids)) = pure id

  unfoldable pub get_login_session_id : Dict (List String) → Action W String
  unfolding first_of
  get_login_session_id md = first_of (lookup "session_id" md)

  -- `ConnectLoginSession`, whose loop ends in its first round.
  unfoldable pub connect_login_session : String → Action W AddressResponse
  connect_login_session nk = do
    stream ←
        calls.login_session ((node_key, nk) ∷ (host_name, sys.hostname) ∷ (os_name, sys.os) ∷ [])
    header ← calls.header stream
    session_id ← get_login_session_id header
    msg ← calls.recv stream
    calls.send stream
    pure msg

  unfoldable pub login_by_session : String → String → Action W (String × String)
  login_by_session nk url = do
    open_browser url
    msg ← connect_login_session nk
    pure (msg.ip, msg.cidr)

  -- The address that LoginNode logs.
  unfoldable pub login_address : String → LoginNodeResponse → Action W (String × String)
  login_address nk res =
      if not res.is_registered then login_by_session nk res.login_url else pure (res.ip, res.cidr)

  -- The metadata of a node and its public key.
  abbrev pub node_metadata : String → K → Metadata
  node_metadata nk key = (node_key, nk) ∷ (wg_pub_key, calls.public_key_text key) ∷ []

  -- `LoginNode`
  unfoldable pub login_node : String → String → Action W LoginNodeResponse
  login_node nk wg_priv_key = do
    key ← returned (calls.parse_key wg_priv_key)
    res ← calls.login_node (node_metadata nk key)
    address ← login_address nk res
    pure res

  unfoldable pub compose_node : String → String → String → Action W AddressResponse
  compose_node token nk wg_priv_key = do
    key ← returned (calls.parse_key wg_priv_key)
    calls.compose_node (
        (access_token, token)
        ∷ (node_key, nk)
        ∷ (wg_pub_key, calls.public_key_text key)
        ∷ (host_name, sys.hostname)
        ∷ (os_name, sys.os)
        ∷ [])

  unfoldable pub sync_remote_nodes_config : String → String → Action W SyncNodesResponse
  sync_remote_nodes_config nk wg_priv_key = do
    key ← returned (calls.parse_key wg_priv_key)
    calls.sync_remote_nodes_config (node_metadata nk key)

  -- `Connect`, `Disconnect` and `GetConnectionStatus` of the client.
  unfoldable pub connect_node : String → Action W R
  connect_node nk = calls.connect ((node_key, nk) ∷ [])

  unfoldable pub disconnect_node : String → Action W R
  disconnect_node nk = calls.disconnect ((node_key, nk) ∷ [])

  unfoldable pub node_status : String → Action W R
  node_status nk = calls.get_connection_status ((node_key, nk) ∷ [])

  -- `loginNode` of cmd/runetale/cmd/up.go: the address with a token, or without one.
  unfoldable pub node_address : String → String → String → Action W (String × String)
  node_address token nk wg_priv_key =
      if not (str_eq token "")
      then (do res ← compose_node token nk wg_priv_key; pure (res.ip, res.cidr))
      else (do res ← login_node nk wg_priv_key; pure (res.ip, res.cidr))
