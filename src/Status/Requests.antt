-- ===== src/Status/Requests.antt =====
-- client/grpc/signal_client.go: the requests of the signal client. The generated clients are
-- parameters; the time limit of five seconds is left to them.
use runetale.Common.{String, Bool, true, false, ◌||◌, Action, modify}
use runetale.Status.Defs.{ConnectState, connected, dis_connected}

pub record CandidateRequest : Type 0 where
  pub dst_node_key : String
  pub src_node_key : String
  pub candidate : String

pub record HandshakeRequest : Type 0 where
  pub dst_node_key : String
  pub src_node_key : String
  pub u_flag : String
  pub pwd : String

-- connectivity.State
pub data Connectivity : Type 0 where
  idle connecting ready transient_failure shutdown : Connectivity

-- Over candidates `C` and responses `R`; `marshal` is the method of a candidate.
pub record SignalCalls (C R W : Type 0) : Type 0 where
  pub marshal : C → String
  pub candidate : CandidateRequest → Action W (Unit {0})
  pub offer : HandshakeRequest → Action W (Unit {0})
  pub answer : HandshakeRequest → Action W (Unit {0})
  pub get_state : W → Connectivity
  pub get_stun_turn_config : Action W R

-- `conn.GetState() == connectivity.Ready`, and for Idle.
abbrev pub is_ready_state : Connectivity → Bool
is_ready_state ready = true
is_ready_state c = false

abbrev pub is_idle_state : Connectivity → Bool
is_idle_state idle = true
is_idle_state c = false

-- `Connected` and `DisConnected` of the client.
unfoldable pub signal_connected : Action ConnectState (Unit {0})
signal_connected = connected

unfoldable pub signal_disconnected : Action ConnectState (Unit {0})
signal_disconnected = modify dis_connected

module _ {C R W : Type 0} (calls : SignalCalls C R W) where
  unfoldable pub send_candidate : String → String → C → Action W (Unit {0})
  send_candidate dst src c =
      calls.candidate
        (record { dst_node_key = dst; src_node_key = src; candidate = calls.marshal c })

  unfoldable pub send_offer : String → String → String → String → Action W (Unit {0})
  send_offer dst src u_flag pwd =
      calls.offer (record { dst_node_key = dst; src_node_key = src; u_flag = u_flag; pwd = pwd })

  unfoldable pub send_answer : String → String → String → String → Action W (Unit {0})
  send_answer dst src u_flag pwd =
      calls.answer (record { dst_node_key = dst; src_node_key = src; u_flag = u_flag; pwd = pwd })

  -- `IsReady`
  unfoldable pub signal_is_ready : W → Bool
  signal_is_ready w = is_ready_state (calls.get_state w) || is_idle_state (calls.get_state w)

  unfoldable pub stun_turn_config : Action W R
  stun_turn_config = calls.get_stun_turn_config
