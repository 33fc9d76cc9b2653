-- ===== src/Boot/Conf.antt =====
-- conf/conf.go: NewConf, which opens the store, makes the node's key, reads the configuration file
-- and connects to both servers. grpc.DialContext is a parameter.
use runetale.Common.{
  ℕ, String, Bool, Outcome, ok, err, panic, Action, pure, gets, ◌>>=◌, Fallible, value, error,
}
use runetale.Stored.FileStore.{StoreCalls, FileStore, new_file_store}
use runetale.Stored.ClientStore.{ClientState, write_private_key, get_public_key}
use runetale.Stored.Spec.{Spec, SpecCalls, new_spec, create_spec, build_host}
use runetale.Key.Client.{WgTypes, zero_key, ClientPrivateState}
use runetale.Key.Mem.{Mem}
use runetale.Status.Defs.{ConnectState, new_connected_state}

-- Conf, with the connections `G` of its clients and the state of the signal client.
pub record Conf (G : Type 0) : Type 0 where
  pub signal_conn : G
  pub signal_state : ConnectState
  pub server_conn : G
  pub spec : Spec
  pub node_pub_key : String

-- The flags of the command line.
pub record ConfArgs : Type 0 where
  pub path : String
  pub is_dev : Bool
  pub server_host : String
  pub server_port : ℕ
  pub signal_host : String
  pub signal_port : ℕ

-- The zero value of a client's key.
abbrev pub zero_private : ClientPrivateState
zero_private = record { private_key = zero_key }

abbrev pub store_result : {W : Type 0} → Fallible FileStore × W → Outcome FileStore × W
store_result (value fs, w) = (ok fs, w)
store_result (error e, w) = (err e, w)

abbrev pub keys_result :
    {W : Type 0} → Outcome (Unit {0}) × ClientState W → Outcome (ClientPrivateState × FileStore) × W
keys_result (ok _, (k, fs, w)) = (ok (k, fs), w)
keys_result (err e, (k, fs, w)) = (err e, w)
keys_result (panic, (k, fs, w)) = (panic, w)

-- `state_file` is paths.DefaultRunetaleClientStateFile, and `dial` connects to a host, with TLS unless
-- the flag is set.
module _ {G W : Type 0} (mem : Mem) (store : StoreCalls W) (wg : WgTypes W) (specs : SpecCalls W)
    (dial : Bool → String → Action W G) (state_file : String) where
  unfoldable pub open_store : Action W FileStore
  open_store w = store_result (new_file_store store state_file w)

  -- NewClientStore and WritePrivateKey.
  unfoldable pub saved_keys : FileStore → Action W (ClientPrivateState × FileStore)
  saved_keys fs w = keys_result (write_private_key mem store wg (zero_private, fs, w))

  unfoldable pub node_key : ClientPrivateState × FileStore → W → String
  node_key (k, fs) w = (get_public_key mem store wg (k, fs, w)).0

  -- `setupGrpcServerClient` and `setupGrpcSignalClient`.
  unfoldable pub setup_grpc : Bool → String → Action W G
  setup_grpc is_dev host = dial is_dev host

  -- NewConf after the store: the configuration file, both connections, and the key.
  unfoldable pub with_keys : ConfArgs → ClientPrivateState × FileStore → Action W (Conf G)
  unfolding node_key setup_grpc
  with_keys args keys = do
    spec ← create_spec specs (
        new_spec args.path args.server_host args.server_port args.signal_host args.signal_port
          args.is_dev)
    server ← setup_grpc args.is_dev (build_host specs spec spec.server_host spec.server_port)
    signal ← setup_grpc args.is_dev (build_host specs spec spec.signal_host spec.signal_port)
    text ← gets (node_key keys)
    pure (record {
      signal_conn = signal;
      signal_state = new_connected_state;
      server_conn = server;
      spec = spec;
      node_pub_key = text;
    })

  unfoldable pub new_conf : ConfArgs → Action W (Conf G)
  new_conf args = do fs ← open_store; keys ← saved_keys fs; with_keys args keys
