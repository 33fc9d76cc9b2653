-- ===== src/Rcn/Sock.antt =====
-- rcn/rcnsock/sock.go and sock_type.go: the socket on which the daemon answers status requests. The
-- calls of net, os and gob are parameters.
use runetale.Common.{
  ℕ, zero, suc, String, Bool, Option, none, some, if◌then◌else◌, Error, Outcome, ok, err, panic,
  Action, Fallible, value, error,
}
use runetale.Status.Defs.{ConnectState, get_conn_status}

-- `CompletedConn`, and any number that the `switch` does not name.
pub data SocketMessageType : Type 0 where
  completed_conn other : SocketMessageType

pub record DialRunetaleStatus : Type 0 where
  pub ip : String
  pub cidr : String
  pub conn_status : String

-- `dial_runetale_status` is a pointer.
pub record RcnDialSock : Type 0 where
  pub message_type : SocketMessageType
  pub dial_runetale_status : Option DialRunetaleStatus

-- Calls over connections `C` and listeners `L`. `decode c m` reads a message into `m`.
pub record SockLibraries (C L W : Type 0) : Type 0 where
  pub exists : String → W → Bool
  pub remove_all : String → W → Option Error × W
  pub listen : String → W → Fallible L × W
  pub dial : String → W → Fallible C × W
  pub close : C → W → Option Error × W
  pub encode : C → RcnDialSock → W → Option Error × W
  pub decode : C → RcnDialSock → W → Fallible RcnDialSock × W

-- RcnSock, with the state of its signal client.
pub record RcnSock : Type 0 where
  pub signal_client : Option ConnectState
  pub ip : String
  pub cidr : String

unfoldable pub new_rcn_sock : RcnSock
new_rcn_sock = record { signal_client = none; ip = ""; cidr = "" }

abbrev pub sockaddr : String
sockaddr = "/tmp/rcn.sock"

-- `&RcnDialSock{}`, and the request.
abbrev pub empty_message : RcnDialSock
empty_message = record { message_type = completed_conn; dial_runetale_status = none }

abbrev pub request : RcnDialSock
request = record {
  message_type = completed_conn;
  dial_runetale_status = some (record { ip = ""; cidr = ""; conn_status = "" });
}

-- What the `switch` makes of a message: the status of the client, then the fields of the pointer,
-- which panics where it is nil.
unfoldable pub answer_with :
    Outcome String × ConnectState → RcnDialSock → Action RcnSock RcnDialSock
answer_with (ok status, cs) m s = elim m.dial_runetale_status [
  | none ↦ (panic, record s { signal_client = some cs })
  | some d ↦ (
    ok (record m {
      dial_runetale_status = some (record { ip = s.ip; cidr = s.cidr; conn_status = status });
    }),
    record s { signal_client = some cs },
  )
]
answer_with (err e, cs) m s = (err e, record s { signal_client = some cs })
answer_with (panic, cs) m s = (panic, record s { signal_client = some cs })

unfoldable pub answer : SocketMessageType → RcnDialSock → Action RcnSock RcnDialSock
answer completed_conn m s = elim s.signal_client [
  | none ↦ (panic, s)
  | some cs ↦ answer_with (get_conn_status cs) m s
]
answer other m s = (ok m, s)

module _ {C L W : Type 0} (lib : SockLibraries C L W) where
  unfoldable pub cleanup : W → Option Error × W
  cleanup w = if lib.exists sockaddr w then lib.remove_all sockaddr w else (none, w)

  abbrev pub Shared : Type 0
  Shared = RcnSock × W

  -- How a round of `listen` ends: with the next one, with the end of the loop, or with a panic.
  pub data Round : Type 0 where
    next stop crashed : Round

  unfoldable pub after_encode : RcnSock → Option Error × W → Round × Shared
  after_encode s (none, w) = (next, (s, w))
  after_encode s (some e, w) = (stop, (s, w))

  unfoldable pub after_answer : C → W → Outcome RcnDialSock × RcnSock → Round × Shared
  after_answer c w (ok m, s) = after_encode s (lib.encode c m w)
  after_answer c w (err e, s) = (crashed, (s, w))
  after_answer c w (panic, s) = (crashed, (s, w))

  unfoldable pub after_decode : C → RcnSock → Fallible RcnDialSock × W → Round × Shared
  after_decode c s (error e, w) = (stop, (s, w))
  after_decode c s (value m, w) = after_answer c w (answer m.message_type m s)

  unfoldable pub listen_round : C → Shared → Round × Shared
  listen_round c (s, w) = after_decode c s (lib.decode c empty_message w)

  unfoldable pub after_round :
      C
      → (Shared → Option (Outcome (Unit {0}) × Shared))
      → Round × Shared
      → Option (Outcome (Unit {0}) × Shared)
  after_round c again (next, s) = again s
  after_round c again (stop, (s, w)) = some (ok tt, (s, (lib.close c w).1))
  after_round c again (crashed, (s, w)) = some (panic, (s, (lib.close c w).1))

  -- `listen`, with its deferred Close; `none` means that the fuel ran out.
  unfoldable pub listen : ℕ → C → Shared → Option (Outcome (Unit {0}) × Shared)
  listen zero c s = none
  listen (suc fuel) c s = after_round c (listen fuel c) (listen_round c s)

  -- `Connect` up to the accept loop: its listener, or an error.
  unfoldable pub after_cleanup :
      ConnectState → String → String → RcnSock → Option Error × W → Fallible L × Shared
  after_cleanup cs ip cidr s (some e, w) = (error e, (s, w))
  after_cleanup cs ip cidr s (none, w) =
      let (l, w') = lib.listen sockaddr w in
      (l, (record { signal_client = some cs; ip = ip; cidr = cidr }, w'))

  unfoldable pub connect_sock : ConnectState → String → String → Shared → Fallible L × Shared
  connect_sock cs ip cidr (s, w) = after_cleanup cs ip cidr s (cleanup w)

  -- `ControlPlane.ConnectSock`: an error of Connect is only logged, and there is no listener then.
  unfoldable pub connect_sock_logged : ConnectState → String → String → Shared → Option L × Shared
  connect_sock_logged cs ip cidr s =
      let (r, s') = connect_sock cs ip cidr s in (elim r [ value l ↦ some l | error e ↦ none ], s')

  -- What `go s.listen(conn)` does; a nil connection panics.
  unfoldable pub listen_accepted : ℕ → Option C → Shared → Option (Outcome (Unit {0}) × Shared)
  listen_accepted fuel none s = some (panic, s)
  listen_accepted fuel (some c) s = listen fuel c s

  -- `DialRunetaledStatus`; `others` is what the rest of the system does while Decode waits. Its
  -- result is a pointer.
  unfoldable pub close_client :
      C
      → Fallible (Option DialRunetaleStatus) × Shared
      → Fallible (Option DialRunetaleStatus) × Shared
  close_client c (r, (s, w)) = (r, (s, (lib.close c w).1))

  unfoldable pub after_reply :
      RcnSock → Fallible RcnDialSock × W → Fallible (Option DialRunetaleStatus) × Shared
  after_reply s (error e, w) = (error e, (s, w))
  after_reply s (value d, w) = (value d.dial_runetale_status, (s, w))

  unfoldable pub after_request :
      (Shared → Shared)
      → C
      → RcnSock
      → Option Error × W
      → Fallible (Option DialRunetaleStatus) × Shared
  after_request others c s (some e, w) = (error e, (s, w))
  after_request others c s (none, w) =
      let (s', w') = others (s, w) in after_reply s' (lib.decode c request w')

  unfoldable pub after_dial :
      (C → Shared → Shared)
      → RcnSock
      → Fallible C × W
      → Fallible (Option DialRunetaleStatus) × Shared
  after_dial others s (error e, w) = (error e, (s, w))
  after_dial others s (value c, w) =
      close_client c (after_request (others c) c s (lib.encode c request w))

  unfoldable pub dial_runetaled_status :
      (C → Shared → Shared) → Shared → Fallible (Option DialRunetaleStatus) × Shared
  dial_runetaled_status others (s, w) = after_dial others s (lib.dial sockaddr w)
