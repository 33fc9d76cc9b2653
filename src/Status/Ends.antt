-- ===== src/Status/Ends.antt =====
-- client/grpc/signal_client.go: `Connect` returns when the stream ends.
use runetale.Common.{
  ℕ, zero, suc, ◌≤◌, ◌<◌, ◌≡◌, refl, Option, none, some, arith, Error, Outcome, ok, err, panic,
  Action,
}
use runetale.Status.Defs.{ConnectState, connected}
use runetale.Status.Stream.{
  RecvError, eof, failed, Negotiation, Shared, after_handler, after_recv, recv_loop, close_deferred,
  after_connected, after_open, connect_stream,
}

module _ {Msg W : Type 0} (neg : Negotiation Msg W)
    (handler : Option Msg → Action (Shared neg) (Unit {0})) where
  -- `left` counts the messages that are still to come: receiving one lowers it, and the handler
  -- adds none.
  pub record Drains (left : W → ℕ) : Type 0 where
    pub recv_lowers : (w : W) → (neg.recv w).0.1 ≡ none → left (neg.recv w).1 < left w
    pub handler_keeps :
        (m : Option Msg) (cs : ConnectState) (w : W) → left (handler m (cs, w)).1.1 ≤ left w

  -- The fuel lasted.
  abbrev pub Returns : Option (Outcome (Unit {0}) × Shared neg) → Type 0
  Returns none = ⊥
  Returns (some r) = Unit {0}

  after_handler-Returns :
      (again : Shared neg → Option (Outcome (Unit {0}) × Shared neg)) (m : Option Msg)
      (r : Outcome (Unit {0}) × Shared neg)
      → Returns (again r.1)
      → Returns (after_handler neg handler again m r)
  unfolding after_handler
  after_handler-Returns again m (ok _, s) h = h
  after_handler-Returns again m (err e, s) h = tt
  after_handler-Returns again m (panic, s) h = tt

  after_recv-Returns :
      (again : Shared neg → Option (Outcome (Unit {0}) × Shared neg)) (m : Option Msg)
      (e : Option RecvError) (s : Shared neg)
      → (e ≡ none → Returns (again (handler m s).1))
      → Returns (after_recv neg handler again m e s)
  unfolding after_recv
  after_recv-Returns again m (some eof) s h = tt
  after_recv-Returns again m (some (failed e)) s h = tt
  after_recv-Returns again m none s h = after_handler-Returns again m (handler m s) (h refl)

  module _ (left : W → ℕ) (drains : Drains left) where
    recv_loop-Returns :
        (fuel : ℕ) (s : Shared neg) → left s.1 < fuel → Returns (recv_loop neg handler fuel s)
    unfolding recv_loop
    recv_loop-Returns zero s h = absurd (omega arith)
    recv_loop-Returns (suc fuel) (cs, w) h =
        let ((m, e), w') = neg.recv w in
        after_recv-Returns (recv_loop neg handler fuel) m e (cs, w')
          λ more.
            recv_loop-Returns fuel (handler m (cs, w')).1
              (omega (arith, drains.recv_lowers w more, drains.handler_keeps m cs w'))

    close_deferred-Returns :
        (o : Option (Outcome (Unit {0}) × Shared neg))
        → Returns o
        → Returns (close_deferred neg handler o)
    unfolding close_deferred
    close_deferred-Returns none h = h
    close_deferred-Returns (some r) h = tt

    after_connected-Returns :
        (fuel : ℕ) (w : W) (r : Outcome (Unit {0}) × ConnectState)
        → left w < fuel
        → Returns (after_connected neg handler fuel w r)
    unfolding after_connected
    after_connected-Returns fuel w (ok _, cs) h =
        close_deferred-Returns (recv_loop neg handler fuel (cs, w))
          (recv_loop-Returns fuel (cs, w) h)
    after_connected-Returns fuel w (err e, cs) h = tt
    after_connected-Returns fuel w (panic, cs) h = tt

    after_open-Returns :
        (fuel : ℕ) (cs : ConnectState) (r : Option Error × W)
        → left r.1 < fuel
        → Returns (after_open neg handler fuel cs r)
    unfolding after_open
    after_open-Returns fuel cs (some e, w) h = tt
    after_open-Returns fuel cs (none, w) h = after_connected-Returns fuel w (connected cs) h

    -- If the stream has finitely many messages left, then Connect returns or panics: fuel for one
    -- round more than there are messages is enough.
    pub connect_stream-Returns :
        (s : Shared neg)
        → Returns (connect_stream neg handler (suc (left (neg.open_stream s.1).1)) s)
    unfolding connect_stream
    connect_stream-Returns (cs, w) =
        after_open-Returns (suc (left (neg.open_stream w).1)) cs (neg.open_stream w) (omega arith)
