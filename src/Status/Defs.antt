-- ===== src/Status/Defs.antt =====
-- rcn/conn/status.go: ConnStatus and ConnectState, each method one step under the mutex.
use runetale.Common.{
  ℕ, suc, String, Bool, false, ◌||◌, Option, none, some, str_eq, ◌==◌, if◌then◌else◌, ok, panic,
  Action, pure, gets, ◌>>=◌, ◌>>◌,
}

-- `Connect` and `DisConnect`, the constants of ConnStatus.
abbrev pub connect : String
connect = "CONNECT"

abbrev pub dis_connect : String
dis_connect = "DISCONNECT"

-- `ConnStatus.String`
unfoldable pub status_string : String → String
status_string s =
    if str_eq s connect
    then "connect"
    else if str_eq s dis_connect
    then "disconnet"
    else "unreachable"

-- ConnectState, with the channels that exist: those below `made`, of which some are closed. `conn`
-- is a channel or nil.
pub record ConnectState : Type 0 where
  pub state : String
  pub conn : Option ℕ
  pub made : ℕ
  pub closed : ℕ → Bool

-- `close(ch)`
abbrev pub close_channel : ℕ → (ℕ → Bool) → ℕ → Bool
close_channel ch closed j = ch == j || closed j

-- `NewConnectedState`
unfoldable pub new_connected_state : ConnectState
new_connected_state = record { state = dis_connect; conn = none; made = 0; closed = λ ch. false }

unfoldable pub update_state : String → ConnectState → String × ConnectState
update_state cs c =
    let c' = let r : ConnectState = record c { state = cs } in r in
    if str_eq c'.state cs then (dis_connect, c') else (c'.state, c')

unfoldable pub is_connected : ConnectState → Bool
unfolding status_string
is_connected c = str_eq (status_string c.state) (status_string connect)

unfoldable pub get_conn_chan : ConnectState → ℕ × ConnectState
get_conn_chan c = elim c.conn [
  | some ch ↦ (ch, c)
  | none ↦ (c.made, record c { conn = some c.made; made = suc c.made })
]

-- `Connected`; closing a closed channel panics.
unfoldable pub connected : Action ConnectState (Unit {0})
connected c = elim c.conn [
  | none ↦ (ok tt, record c { state = connect })
  | some ch ↦
      if c.closed ch
      then (panic, record c { state = connect })
      else (ok tt, record c { state = connect; conn = none; closed = close_channel ch c.closed })
]

-- `DisConnected`
unfoldable pub dis_connected : ConnectState → ConnectState
dis_connected c = record c { state = dis_connect }

-- `ConnectState.GetConnStatus`
unfoldable pub conn_status : ConnectState → String
conn_status c = c.state

-- `SignalClient.GetConnStatus`
unfoldable pub get_conn_status : Action ConnectState String
unfolding conn_status
get_conn_status = do connected; s ← gets conn_status; pure (status_string s)
