-- ===== src/Session/Signal.antt =====
-- rcn/webrtc/ice.go and sig_executer.go: the messages of a session, its callbacks and its loop.
use runetale.Common.{
  String, true, false, Option, none, some, List, [], ◌∷◌, if◌then◌else◌, Outcome, ok, err, panic,
  Action, pure, modify, ◌>>=◌, ◌>>◌,
}
use runetale.Status.Defs.{ConnectState, connected, dis_connected}
use runetale.ControlPlane.Peer.{Ice}
use runetale.Proxy.Conn.{Conn, new_conn, start_conn}
use runetale.Session.Defs.{
  Kinds, SigExecuter, Credentials, Session, IceCalls, State, outside, deref, update, read,
}

-- ice.ConnectionState
pub data ConnectionState : Type 0 where
  new_state checking agent_connected completed agent_failed disconnected closed_state :
      ConnectionState

-- `IceConnectionHasBeenChanged`, on the signal client's status.
unfoldable pub ice_connection_has_been_changed : ConnectionState → Action ConnectState (Unit {0})
ice_connection_has_been_changed completed = connected
ice_connection_has_been_changed agent_failed = modify dis_connected
ice_connection_has_been_changed disconnected = modify dis_connected
ice_connection_has_been_changed new_state = pure tt
ice_connection_has_been_changed checking = pure tt
ice_connection_has_been_changed agent_connected = pure tt
ice_connection_has_been_changed closed_state = pure tt

-- The callbacks of the agent, in the order in which they come.
unfoldable pub state_changes : List ConnectionState → Action ConnectState (Unit {0})
state_changes [] = pure tt
state_changes (x ∷ xs) = ice_connection_has_been_changed x >> state_changes xs

-- The error of a goroutine is only logged.
unfoldable pub logged : {S : Type 0} → Outcome (Unit {0}) × S → Outcome (Unit {0}) × S
logged (ok _, s) = (ok tt, s)
logged (err e, s) = (ok tt, s)
logged (panic, s) = (panic, s)

module _ {t : Kinds} (calls : IceCalls t) where
  -- `SigExecuter.Candidate`, `Offer` and `Answer`; a nil candidate is not sent.
  unfoldable pub sig_candidate : SigExecuter → Option t.C → Action t.W (Unit {0})
  unfolding logged
  sig_candidate s none w = (ok tt, w)
  sig_candidate s (some c) w = logged (calls.send_candidate s.dstmk s.srcmk c w)

  unfoldable pub sig_offer : SigExecuter → String → String → Action t.W (Unit {0})
  sig_offer s u_flag pwd = calls.send_offer s.dstmk s.srcmk u_flag pwd

  unfoldable pub sig_answer : SigExecuter → String → String → Action t.W (Unit {0})
  sig_answer s u_flag pwd = calls.send_answer s.dstmk s.srcmk u_flag pwd

  -- `signalAnswer` and `signalOffer`
  unfoldable pub signal_answer : Action (State t) (Unit {0})
  signal_answer = do
    held ← read (λ s. s.agent)
    a ← deref held
    (uname, pwd) ← outside (calls.get_local_user_credentials a)
    exec ← read (λ s. s.sigexec)
    sig ← deref exec
    outside (sig_answer sig uname pwd)

  unfoldable pub signal_offer : Action (State t) (Unit {0})
  signal_offer = do
    held ← read (λ s. s.agent)
    a ← deref held
    (uname, pwd) ← outside (calls.get_local_user_credentials a)
    exec ← read (λ s. s.sigexec)
    sig ← deref exec
    outside (sig_offer sig uname pwd)

  -- `StartGatheringProcess`: the goroutine stands at its `select` from now on.
  unfoldable pub start_gathering_process : Action (State t) (Unit {0})
  start_gathering_process = update (λ s. record s { waiting = true }) >> signal_offer

  -- `SendRemoteOfferCh` and `SendRemoteAnswerCh`: dropped where nobody waits on the channel.
  unfoldable pub send_remote_offer_ch : String → String → Action (State t) (Unit {0})
  send_remote_offer_ch uname pwd (s, cs, w) =
      let c = let r : Credentials = record { user_name = uname; pwd = pwd } in r in
      if s.waiting
      then (ok tt, (record s { offered = c ∷ s.offered; waiting = false }, cs, w))
      else (ok tt, (s, cs, w))

  unfoldable pub send_remote_answer_ch : String → String → Action (State t) (Unit {0})
  send_remote_answer_ch uname pwd (s, cs, w) =
      let c = let r : Credentials = record { user_name = uname; pwd = pwd } in r in
      if s.waiting
      then (ok tt, (record s { answered = c ∷ s.answered; waiting = false }, cs, w))
      else (ok tt, (s, cs, w))

  -- `SendRemoteCandidate`: its goroutine, which logs every failure.
  unfoldable pub add_candidate : Option t.Agent → t.C → Action t.W (Unit {0})
  unfolding logged
  add_candidate none c w = (ok tt, w)
  add_candidate (some a) c w = logged (calls.add_remote_candidate a c w)

  unfoldable pub send_remote_candidate : t.C → Action (State t) (Unit {0})
  send_remote_candidate c (s, cs, w) = outside (add_candidate s.agent c) (s, cs, w)

  module _ (i : Ice t.U) where
    -- `startConn`: the new connection stands in the session even if its start fails.
    unfoldable pub put_started :
        Session t
        → ConnectState
        → Outcome (Unit {0}) × (Conn t.L t.R × t.W)
        → Outcome (Unit {0}) × State t
    put_started s cs (r, (c, w)) = (r, (record s { conn = some c; wireproxy = c.wireproxy }, cs, w))

    unfoldable pub start_session_conn : t.Agent → Credentials → Action (State t) (Unit {0})
    unfolding put_started
    start_session_conn a c (s, cs, w) = put_started s cs (
        start_conn calls.proxy_libraries (calls.agent_calls a) (
          new_conn c.user_name c.pwd s.wireproxy i.remote_wg_pub_key
              (calls.wg_pub_key i.wg_priv_key),
          w,
        ))

    -- What the `select` takes: the credentials of an answer, or of an offer, which is answered.
    pub data Received : Type 0 where
      by_answer by_offer : Credentials → Received

    unfoldable pub taken : Received → Action (State t) Credentials
    taken (by_answer c) = pure c
    taken (by_offer c) = signal_answer >> pure c

    -- One round of waitingRemotePeerConnections, after which the goroutine waits again.
    unfoldable pub gather_round : Received → Action (State t) (Unit {0})
    unfolding taken
    gather_round r = do
      update λ s. record s { waiting = false }
      c ← taken r
      held ← read (λ s. s.agent)
      a ← deref held
      outside (calls.gather_candidates a)
      start_session_conn a c
      outside (calls.server_connect i.nk)
      update λ s. record s { waiting = true }

    -- The loop over the credentials that come; with none left the goroutine waits.
    unfoldable pub waiting_remote_peer_connections : List Received → Action (State t) (Unit {0})
    waiting_remote_peer_connections [] = pure tt
    waiting_remote_peer_connections (r ∷ rs) = gather_round r >> waiting_remote_peer_connections rs
