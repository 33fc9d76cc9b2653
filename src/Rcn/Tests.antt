-- ===== src/Rcn/Tests.antt =====
-- rcn/rcnsock: a connection as two queues of messages.
use runetale.Common.{
  ℕ, ◌≡◌, refl, sym, ap, ◌∙◌, Bool, true, false, not, Option, none, some, List, [], ◌∷◌, ◌++◌,
  Error, external, Fallible, value, error,
}
use runetale.Status.Defs.{new_connected_state, is_connected, get_conn_status}
use runetale.Status.Waiting.{initial, start}
use runetale.Rcn.Sock.{
  DialRunetaleStatus, RcnDialSock, SockLibraries, RcnSock, new_rcn_sock, cleanup, after_cleanup,
  connect_sock, dial_runetaled_status,
}
use runetale.Rcn.Answered.{served, Stream, round_at, dial_runetaled_status-Answered}

abbrev Queues : Type 0
Queues = List RcnDialSock × List RcnDialSock

-- The pointer of the target stays where that of the message is nil.
abbrev fill : RcnDialSock → RcnDialSock → RcnDialSock
fill target m = record m {
  dial_runetale_status = elim m.dial_runetale_status [
    | none ↦ target.dial_runetale_status
    | some d ↦ some d
  ];
}

abbrev take_first : RcnDialSock → List RcnDialSock → Fallible RcnDialSock × List RcnDialSock
take_first target [] = (error (external 1), [])
take_first target (m ∷ ms) = (value (fill target m), ms)

-- `true` is the end of the client.
abbrev pending : Bool → Queues → List RcnDialSock
pending true (a, b) = a
pending false (a, b) = b

abbrev put : Bool → RcnDialSock → Queues → Option Error × Queues
put true m (a, b) = (none, (a, b ++ (m ∷ [])))
put false m (a, b) = (none, (a ++ (m ∷ []), b))

abbrev get : Bool → RcnDialSock → Queues → Fallible RcnDialSock × Queues
get true target (a, b) = let (r, a') = take_first target a in (r, (a', b))
get false target (a, b) = let (r, b') = take_first target b in (r, (a, b'))

abbrev pipe : SockLibraries Bool ℕ Queues
pipe = record {
  exists = λ p w. false;
  remove_all = λ p w. (none, w);
  listen = λ p w. (value 3, w);
  dial = λ p w. (value true, w);
  close = λ c w. (none, w);
  encode = put;
  decode = get;
}

take_first-fill :
    (target m : RcnDialSock) (d : DialRunetaleStatus) (ms q : List RcnDialSock)
    → m.dial_runetale_status ≡ some d
    → q ≡ m ∷ ms
    → take_first target q ≡ (value m, ms)
take_first-fill target m d ms q e h =
    ap (take_first target) h
    ∙ ap (λ o. (value (fill target (record m { dial_runetale_status = o })), ms)) e
    ∙ ap (λ o. (value (record m { dial_runetale_status = o }), ms)) (sym e)

client_end : Stream pipe pending true false
client_end = record {
  writes = λ m w w' e. (ap (λ r. r.1.1) (sym e), ap (λ r. r.1.0) (sym e));
  reads = λ target m d ms w z e h.
      let p = take_first-fill target m d ms w.0 e h in (ap (λ r. r.0) p, ap (λ r. r.1) p, refl);
}

server_end : Stream pipe pending false true
server_end = record {
  writes = λ m w w' e. (ap (λ r. r.1.0) (sym e), ap (λ r. r.1.1) (sym e));
  reads = λ target m d ms w z e h.
      let p = take_first-fill target m d ms w.1 e h in (ap (λ r. r.0) p, ap (λ r. r.1) p, refl);
}

abbrev no_messages : Queues
no_messages = ([], [])

abbrev daemon_sock : RcnSock
daemon_sock = record { signal_client = some new_connected_state; ip = "10.0.0.1"; cidr = "24" }

listens :
    connect_sock pipe new_connected_state "10.0.0.1" "24" (new_rcn_sock, no_messages)
    ≡ (value 3, (daemon_sock, no_messages))
unfolding connect_sock after_cleanup cleanup new_rcn_sock
listens = refl

dial_runetaled_status-Answered_example :
    ((dial_runetaled_status pipe (round_at pipe not) (daemon_sock, no_messages)).0
      ≡ value (some (record { ip = "10.0.0.1"; cidr = "24"; conn_status = "connect" })))
    × ((dial_runetaled_status pipe (round_at pipe not) (daemon_sock, no_messages)).1.0
        ≡ served (get_conn_status new_connected_state).1 "10.0.0.1" "24")
    × (is_connected (get_conn_status new_connected_state).1 ≡ true)
dial_runetaled_status-Answered_example =
    dial_runetaled_status-Answered pipe initial "10.0.0.1" "24" not pending new_rcn_sock no_messages
      3 daemon_sock no_messages no_messages true (start initial refl) listens refl client_end
      server_end refl refl refl refl
