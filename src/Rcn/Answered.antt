-- ===== src/Rcn/Answered.antt =====
-- rcn/rcnsock/sock.go: a status request and its answer.
use mathlib.Core.Path.{subst}
use runetale.Common.{
  String, ◌≡◌, refl, sym, ap, ◌∙◌, ◌⊎◌, inl, inr, true, Option, none, some, List, [], ◌∷◌, ◌++◌,
  arith, Error, Outcome, ok, err, panic, Fallible, value, error,
}
use runetale.Status.Defs.{ConnectState, is_connected, get_conn_status}
use runetale.Rcn.Sock.{
  completed_conn, DialRunetaleStatus, RcnDialSock, SockLibraries, RcnSock, sockaddr, empty_message,
  request, answer_with, answer, cleanup, Shared, after_encode, after_answer, after_decode,
  listen_round, after_cleanup, connect_sock, close_client, after_reply, after_request, after_dial,
  dial_runetaled_status,
}
use runetale.Status.Waiting.{System, Reach}
use runetale.Status.Soundness.{get_conn_status-connect}

-- The message of the daemon after the `switch`.
abbrev pub reply : String → String → RcnDialSock
reply ip cidr = record {
  message_type = completed_conn;
  dial_runetale_status = some (record { ip = ip; cidr = cidr; conn_status = "connect" });
}

-- A target of Decode in which no field is set.
abbrev pub IsZero : RcnDialSock → Type 0
IsZero m = (m ≡ empty_message) ⊎ (m ≡ request)

abbrev pub served : ConnectState → String → String → RcnSock
served cs ip cidr = record { signal_client = some cs; ip = ip; cidr = cidr }

answer_with-request :
    (r : Outcome String × ConnectState) (ip cidr : String) (s : RcnSock)
    → s.ip ≡ ip
    → s.cidr ≡ cidr
    → r.0 ≡ ok "connect"
    → answer_with r request s ≡ (ok (reply ip cidr), record s { signal_client = some r.1 })
unfolding answer_with
answer_with-request (ok st, cs) ip cidr s i c h = ground arith
answer_with-request (err e, cs) ip cidr s i c h = absurd (ground arith)
answer_with-request (panic, cs) ip cidr s i c h = absurd (ground arith)

answer-request :
    (cs : ConnectState) (ip cidr : String)
    → (get_conn_status cs).0 ≡ ok "connect"
    → answer completed_conn request (served cs ip cidr)
      ≡ (ok (reply ip cidr), served (get_conn_status cs).1 ip cidr)
unfolding answer
answer-request cs ip cidr h =
    answer_with-request (get_conn_status cs) ip cidr (served cs ip cidr) refl refl h

module _ {C L W : Type 0} (lib : SockLibraries C L W) where
  module _ (pending : C → W → List RcnDialSock) where
    -- What an end of a connection may rely on, where `pending` gives the messages that were sent to an
    -- end and are not read yet: a write adds its message at the end of those of the other end, and
    -- Decode takes the first one. Since gob leaves out a nil pointer and what is zero, the message is
    -- only got as it was sent where its pointer is not nil and the target is zero.
    pub record Stream (near far : C) : Type 0 where
      pub writes :
          (m : RcnDialSock) (w w' : W)
          → lib.encode near m w ≡ (none, w')
          → (pending far w' ≡ pending far w ++ (m ∷ [])) × (pending near w' ≡ pending near w)
      pub reads :
          (target m : RcnDialSock) (d : DialRunetaleStatus) (ms : List RcnDialSock) (w : W)
          → IsZero target
          → m.dial_runetale_status ≡ some d
          → pending near w ≡ m ∷ ms
          → ((lib.decode near target w).0 ≡ value m)
            × (pending near (lib.decode near target w).1 ≡ ms)
            × (pending far (lib.decode near target w).1 ≡ pending far w)

  -- One round of `listen` on the other end of the connection.
  abbrev pub round_at : (C → C) → C → Shared lib → Shared lib
  round_at peer c s = (listen_round lib (peer c) s).1

  after_decode-request :
      (d : C) (cs : ConnectState) (ip cidr : String) (r : Fallible RcnDialSock × W)
      → (get_conn_status cs).0 ≡ ok "connect"
      → r.0 ≡ value request
      → after_decode lib d (served cs ip cidr) r
        ≡ after_encode lib
            (served (get_conn_status cs).1 ip cidr)
            (lib.encode d (reply ip cidr) r.1)
  unfolding after_decode after_answer
  after_decode-request d cs ip cidr r h e =
      subst
        (λ o.
          after_decode lib d (served cs ip cidr) (o, r.1)
          ≡ after_encode lib (served (get_conn_status cs).1 ip cidr)
              (lib.encode d (reply ip cidr) r.1))
        (sym e) (ap (after_answer lib d r.1) (answer-request cs ip cidr h))

  after_reply_lem :
      (s : RcnSock) (r : Fallible RcnDialSock × W) (m : RcnDialSock)
      → r.0 ≡ value m
      → after_reply lib s r ≡ (value m.dial_runetale_status, (s, r.1))
  unfolding after_reply
  after_reply_lem s (value d, w) m e = ground arith
  after_reply_lem s (error d, w) m e = absurd (ground arith)

  after_encode-none :
      (s : RcnSock) (r : Option Error × W) → r.0 ≡ none → (after_encode lib s r).1 ≡ (s, r.1)
  unfolding after_encode
  after_encode-none s (none, w) e = refl
  after_encode-none s (some x, w) e = absurd (ground arith)

  -- The world after the daemon has read the request, and the one after it has written the reply.
  abbrev pub request_taken : C → W → W
  request_taken d w = (lib.decode d empty_message w).1

  abbrev pub replied : C → String → String → W → Option Error × W
  replied d ip cidr w = lib.encode d (reply ip cidr) (request_taken d w)

  -- Over a connection with nothing pending, the request and then the reply are read as they were sent.
  exchange :
      (pending : C → W → List RcnDialSock) (c d : C)
      → Stream pending c d
      → Stream pending d c
      → (ip cidr : String) (w w' : W) → lib.encode c request w ≡ (none, w')
      → pending c w ≡ []
      → pending d w ≡ []
      → (replied d ip cidr w').0 ≡ none
      → ((lib.decode d empty_message w').0 ≡ value request)
        × ((lib.decode c request (replied d ip cidr w').1).0 ≡ value (reply ip cidr))
  exchange pending c d near far ip cidr w w' sent ec ed put =
      let (at_d, at_c) = near.writes request w w' sent in
      let (got, _, still) =
        far.reads empty_message request _ [] w' (inl refl) refl
          (at_d ∙ ap (λ l. l ++ (request ∷ [])) ed) in
      let out = replied d ip cidr w' in
      let (back, _) =
        far.writes (reply ip cidr) (request_taken d w') out.1 (ap (λ e. (e, out.1)) put) in
      let (answered, _, _) =
        near.reads request (reply ip cidr) _ [] out.1 (inr refl) refl
          (back ∙ ap (λ l. l ++ (reply ip cidr ∷ [])) (still ∙ at_c ∙ ec)) in
      (got, answered)

  module _ (c d : C) (cs : ConnectState) (ip cidr : String)
      (calm : (get_conn_status cs).0 ≡ ok "connect") where
    -- The round leaves the daemon connected.
    round_request :
        (w : W)
        → (lib.decode d empty_message w).0 ≡ value request
        → (replied d ip cidr w).0 ≡ none
        → (listen_round lib d (served cs ip cidr, w)).1
          ≡ (served (get_conn_status cs).1 ip cidr, (replied d ip cidr w).1)
    unfolding listen_round
    round_request w got put =
        ap (λ r. r.1) (after_decode-request d cs ip cidr (lib.decode d empty_message w) calm got)
        ∙ after_encode-none (served (get_conn_status cs).1 ip cidr) (replied d ip cidr w) put

    after_request_lem :
        (others : Shared lib → Shared lib) (w w' : W) (s : RcnSock)
        → others (s, w) ≡ (served (get_conn_status cs).1 ip cidr, w')
        → (lib.decode c request w').0 ≡ value (reply ip cidr)
        → after_request lib others c s (none, w) ≡ (
          value (reply ip cidr).dial_runetale_status,
          (served (get_conn_status cs).1 ip cidr, (lib.decode c request w').1),
        )
    unfolding after_request
    after_request_lem others w w' s e read =
        ap (λ o. after_reply lib o.0 (lib.decode c request o.1)) e
        ∙ after_reply_lem (served (get_conn_status cs).1 ip cidr) (lib.decode c request w')
            (reply ip cidr) read

  -- A successful `Connect` keeps what it is given.
  after_cleanup-served :
      (cs : ConnectState) (ip cidr : String) (s : RcnSock) (r : Option Error × W) (l : L)
      (s' : RcnSock) (w' : W)
      → after_cleanup lib cs ip cidr s r ≡ (value l, (s', w'))
      → s' ≡ served cs ip cidr
  unfolding after_cleanup
  after_cleanup-served cs ip cidr s (some e, w) l s' w' h = absurd (ground (arith, ap (λ p. p.0) h))
  after_cleanup-served cs ip cidr s (none, w) l s' w' h = sym (ap (λ p. p.1.0) h)

  -- If the daemon listens with its address, the client dials, the connection is a stream with nothing pending at either end,
  -- the writes of the request and of the reply succeed, and the daemon answers in one round, then the client gets that address,
  -- and the status is "connect" whatever it was before: it is connected now.
  pub dial_runetaled_status-Answered :
      (t : System) (ip cidr : String) (peer : C → C) (pending : C → W → List RcnDialSock)
      (s : RcnSock) (w : W) (l : L) (s' : RcnSock) (w₁ w₂ : W) (c : C)
      → Reach t
      → connect_sock lib t.cs ip cidr (s, w) ≡ (value l, (s', w₁))
      → lib.dial sockaddr w₁ ≡ (value c, w₂)
      → Stream pending c (peer c)
      → Stream pending (peer c) c
      → pending c w₂ ≡ []
      → pending (peer c) w₂ ≡ []
      → (lib.encode c request w₂).0 ≡ none
      → (replied (peer c) ip cidr (lib.encode c request w₂).1).0 ≡ none
      → ((dial_runetaled_status lib (round_at peer) (s', w₁)).0
          ≡ value (some (record { ip = ip; cidr = cidr; conn_status = "connect" })))
        × ((dial_runetaled_status lib (round_at peer) (s', w₁)).1.0
            ≡ served (get_conn_status t.cs).1 ip cidr)
        × (is_connected (get_conn_status t.cs).1 ≡ true)
  unfolding connect_sock dial_runetaled_status after_dial close_client
  dial_runetaled_status-Answered t ip cidr peer pending s w l s' w₁ w₂ c reach listens dialed near
        far ec ed sent put =
      let (calm, up) = get_conn_status-connect reach in
      let is = after_cleanup-served t.cs ip cidr s (cleanup lib w) l s' w₁ listens in
      let out = lib.encode c request w₂ in
      let (got, read) =
        exchange pending c (peer c) near far ip cidr w₂ out.1 (ap (λ e. (e, out.1)) sent) ec ed
          put in
      let done = round_request c (peer c) t.cs ip cidr calm out.1 got put in
      let answered =
        after_request_lem c (peer c) t.cs ip cidr calm (round_at peer c) out.1
          (replied (peer c) ip cidr out.1).1 (served t.cs ip cidr) done read in
      let run =
        ap (after_dial lib (round_at peer) s') dialed
        ∙ ap (λ e. close_client lib c (after_request lib (round_at peer c) c s' (e, out.1))) sent
        ∙ ap (λ z. close_client lib c (after_request lib (round_at peer c) c z (none, out.1))) is
        ∙ ap (close_client lib c) answered in
      (ap (λ r. r.0) run, ap (λ r. r.1.0) run, up)
