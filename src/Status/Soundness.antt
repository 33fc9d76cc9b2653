-- ===== src/Status/Soundness.antt =====
-- No waiter is left on a stale channel, and what a missed wake-up and a status request do.
use runetale.Common.{
  ℕ, suc, ◌≤◌, ◌<◌, ◌≡◌, refl, ◌≢◌, inl, inr, true, false, none, some, arith, Bool-cases,
  Option-cases, ok,
}
use runetale.Status.Defs.{
  connect, status_string, ConnectState, close_channel, new_connected_state, is_connected,
  get_conn_chan, connected, dis_connected, get_conn_status,
}
use runetale.Status.Waiting.{
  Pc, tested, blocked, returned, System, goto, Step, finds_connected, finds_disconnected,
  takes_channel, wakes, connects, disconnects, reports, initial, Reach, start, later,
}

-- The field `conn` holds an open channel, and whoever waits on an open channel waits on that one.
pub record IsSound (s : System) : Type 0 where
  pub open_conn : (ch : ℕ) → s.cs.conn ≡ some ch → (ch < s.cs.made) × (s.cs.closed ch ≡ false)
  pub fresh : (ch : ℕ) → s.cs.made ≤ ch → s.cs.closed ch ≡ false
  pub known : (i ch : ℕ) → s.pc i ≡ blocked ch → ch < s.cs.made
  pub current : (i ch : ℕ) → s.pc i ≡ blocked ch → s.cs.closed ch ≡ false → s.cs.conn ≡ some ch

-- A goroutine that goes to a place where it waits on no channel.
goto-IsSound :
    (s : System) (i : ℕ) (p : Pc)
    → ((ch : ℕ) → p ≢ blocked ch)
    → IsSound s
    → IsSound (record s { pc = goto s.pc i p })
goto-IsSound s i p h v = record {
  open_conn = v.open_conn;
  fresh = v.fresh;
  known = λ j ch e. ground (arith, h ch, v.known j ch);
  current = λ j ch e o. ground (arith, h ch, v.current j ch);
}

-- A step that changes the connection alone, and keeps what waiters rely on.
takes-IsSound :
    (s : System) (i : ℕ)
    → IsSound s
    → IsSound
        (record { cs = (get_conn_chan s.cs).1; pc = goto s.pc i (blocked (get_conn_chan s.cs).0) })
unfolding get_conn_chan
takes-IsSound s i v = record {
  open_conn = λ ch e. ground (arith, v.open_conn ch, v.fresh ch);
  fresh = λ ch e. ground (arith, v.fresh ch);
  known = λ j ch e. ground (arith, v.open_conn ch, v.known j ch);
  current = λ j ch e o. ground (arith, v.open_conn ch, v.known j ch, v.current j ch);
}

connected_nil :
    (c : ConnectState) → c.conn ≡ none → connected c ≡ (ok tt, record c { state = connect })
unfolding connected
connected_nil c e = ground arith

connected_open :
    (c : ConnectState) (ch : ℕ)
    → c.conn ≡ some ch
    → c.closed ch ≡ false
    → connected c
      ≡ (ok tt, record c { state = connect; conn = none; closed = close_channel ch c.closed })
unfolding connected
connected_open c ch e o = ground arith

connected-IsSound :
    (s : System)
    → IsSound s
    → ((connected s.cs).0 ≡ ok tt) × IsSound (record s { cs = (connected s.cs).1 })
connected-IsSound s v = elim (Option-cases s.cs.conn) [
  | inl nil ↦ rw (connected_nil s.cs nil) (
    refl,
    record { open_conn = v.open_conn; fresh = v.fresh; known = v.known; current = v.current },
  )
  | inr (it, is) ↦
      let (lt, o) = v.open_conn it is in
      rw (connected_open s.cs it is o) (
        refl,
        record {
          open_conn = λ ch e. cc;
          fresh = λ ch e. ground (arith, v.fresh ch);
          known = v.known;
          current = λ j ch e c. ground (arith, v.current j ch);
        },
      )
]

get_conn_status_lem :
    (c : ConnectState)
    → (connected c).0 ≡ ok tt
    → get_conn_status c ≡ (ok (status_string (connected c).1.state), (connected c).1)
unfolding get_conn_status
get_conn_status_lem c e = ground arith

connected-fields :
    (s : System)
    → IsSound s
    → ((connected s.cs).1.conn ≡ none) × ((connected s.cs).1.state ≡ connect)
connected-fields s v = elim (Option-cases s.cs.conn) [
  | inl nil ↦ rw (connected_nil s.cs nil) (nil, refl)
  | inr (it, is) ↦ rw (connected_open s.cs it is (v.open_conn it is).1) (refl, refl)
]

is_connected_of_state : (c : ConnectState) → c.state ≡ connect → is_connected c ≡ true
unfolding is_connected status_string
is_connected_of_state c e = rw e

get_conn_chan_nil :
    (c : ConnectState)
    → c.conn ≡ none
    → get_conn_chan c ≡ (c.made, record c { conn = some c.made; made = suc c.made })
unfolding get_conn_chan
get_conn_chan_nil c e = ground arith

-- Every step keeps the invariant.
pub Step-IsSound : {s : System} (t : System) → Step s t → IsSound s → IsSound t
unfolding dis_connected
Step-IsSound {s} t (finds_connected i at e st) v = rw st (goto-IsSound s i returned (λ ch. cc) v)
Step-IsSound {s} t (finds_disconnected i at e st) v = rw st (goto-IsSound s i tested (λ ch. cc) v)
Step-IsSound {s} t (takes_channel i at st) v = rw st (takes-IsSound s i v)
Step-IsSound {s} t (wakes i ch at e st) v = rw st (goto-IsSound s i returned (λ ch'. cc) v)
Step-IsSound {s} t (connects e st) v = rw st (connected-IsSound s v).1
Step-IsSound {s} t (disconnects st) v =
    rw st
      (record { open_conn = v.open_conn; fresh = v.fresh; known = v.known; current = v.current })
Step-IsSound {s} t (reports text e st) v =
    rw (st, get_conn_status_lem s.cs (connected-IsSound s v).0) (connected-IsSound s v).1

initial-IsSound : IsSound initial
unfolding new_connected_state
initial-IsSound = record {
  open_conn = λ ch e. cc;
  fresh = λ ch e. refl;
  known = λ i ch e. cc;
  current = λ i ch e o. cc;
}

pub Reach-IsSound : {s : System} → Reach s → IsSound s
Reach-IsSound (start s e) = rw e initial-IsSound
Reach-IsSound (later t r st) = Step-IsSound t st (Reach-IsSound r)

-- In every reachable state Connected does not panic (it never closes a channel twice), and when
-- it has run, no goroutine waits on an open channel: every one in the `select` can go on.
pub connected-wakes :
    {s : System}
    → Reach s
    → ((connected s.cs).0 ≡ ok tt)
      × ((i ch : ℕ) → s.pc i ≡ blocked ch → (connected s.cs).1.closed ch ≡ true)
connected-wakes {s} r =
    let v = Reach-IsSound r in
    let (done, v') = connected-IsSound s v in
    (
      done,
      λ i ch at. elim (Bool-cases ((connected s.cs).1.closed ch)) [
        | inl closed ↦ closed
        | inr opened ↦ cc (v'.current i ch at opened, (connected-fields s v).0)
      ],
    )

-- From every reachable state in which a goroutine has tested IsConnected and not yet called
-- GetConnChan, two steps lead to a state in which it misses the connection: Connected runs, and then
-- the goroutine takes a channel, on which it waits. The channel is open and the state is CONNECT, and
-- no other goroutine has moved.
pub missed_wake_up :
    {s : System} (i : ℕ)
    → Reach s
    → s.pc i ≡ tested
    → (s' : System) × (t : System) × Step s s'
      × Step s' t
      × (s'.cs ≡ (connected s.cs).1)
      × (is_connected t.cs ≡ true)
      × ((ch : ℕ) × (t.pc i ≡ blocked ch) × (t.cs.closed ch ≡ false))
      × ((j : ℕ) → i ≢ j → t.pc j ≡ s.pc j)
missed_wake_up {s} i r at =
    let v = Reach-IsSound r in
    let (done, v') = connected-IsSound s v in
    let s' = let x : System = record s { cs = (connected s.cs).1 } in x in
    let (nil, up) = connected-fields s v in
    let t =
      let x : System = record {
        cs = (get_conn_chan s'.cs).1;
        pc = goto s'.pc i (blocked (get_conn_chan s'.cs).0);
      } in
      x in
    (
      s',
      t,
      connects done refl,
      takes_channel i at refl,
      refl,
      rw (get_conn_chan_nil s'.cs nil) (is_connected_of_state _ up),
      (
        s'.cs.made,
        rw (get_conn_chan_nil s'.cs nil) (ground arith),
        rw (get_conn_chan_nil s'.cs nil) (v'.fresh s'.cs.made (omega arith)),
      ),
      λ j differ. ground (arith, differ),
    )

-- In every reachable state a status request reports "connect" and leaves the state CONNECT,
-- whatever the state was.
pub get_conn_status-connect :
    {s : System}
    → Reach s
    → ((get_conn_status s.cs).0 ≡ ok "connect") × (is_connected (get_conn_status s.cs).1 ≡ true)
unfolding status_string
get_conn_status-connect {s} r =
    let v = Reach-IsSound r in
    let (nil, up) = connected-fields s v in
    rw (get_conn_status_lem s.cs (connected-IsSound s v).0, up) (refl, is_connected_of_state _ up)
