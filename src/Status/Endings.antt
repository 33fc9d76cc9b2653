-- ===== src/Status/Endings.antt =====
-- client/grpc/signal_client.go: how `Connect` can end.
use runetale.Common.{
  ℕ, zero, suc, ◌≡◌, refl, ap, ◌≢◌, Option, none, some, arith, Error, Outcome, ok, err, panic,
  Action,
}
use runetale.Status.Defs.{ConnectState, connected}
use runetale.Status.Stream.{
  RecvError, eof, failed, io_eof, Negotiation, Shared, log_and_return, after_handler, after_recv,
  recv_loop, close_deferred, after_connected, after_open, connect_stream,
}

module _ {Msg W : Type 0} (neg : Negotiation Msg W)
    (handler : Option Msg → Action (Shared neg) (Unit {0})) where
  -- A predicate on how a call ended, if the fuel lasted.
  abbrev Ends : (Outcome (Unit {0}) → Type 0) → Option (Outcome (Unit {0}) × Shared neg) → Type 0
  Ends P none = Unit
  Ends P (some (r, s)) = P r

  -- An error that Connect may give back to its caller.
  pub data Given (e : Error) : Type 0 where
    by_open : (w : W) → (neg.open_stream w).0 ≡ some e → Given e
    by_eof : e ≡ io_eof → Given e
    by_handler : (m : Msg) (s : Shared neg) → (handler (some m) s).0 ≡ err e → Given e

  abbrev pub Ending : Outcome (Unit {0}) → Type 0
  Ending (ok _) = ⊥
  Ending (err e) = Given e
  Ending panic = Unit

  module _
      (nil_on_error : (w : W) (e : RecvError)
        → (neg.recv w).0.1 ≡ some e
        → (neg.recv w).0.0 ≡ none) where
    after_handler-Ends :
        (again : Shared neg → Option (Outcome (Unit {0}) × Shared neg)) (m : Option Msg)
        (s : Shared neg) (r : Outcome (Unit {0}) × Shared neg)
        → handler m s ≡ r
        → ((s' : Shared neg) → Ends Ending (again s'))
        → Ends Ending (after_handler neg handler again m r)
    unfolding after_handler log_and_return
    after_handler-Ends again m s (ok _, s') e k = k s'
    after_handler-Ends again none s (err x, s') e k = tt
    after_handler-Ends again (some m) s (err x, s') e k = by_handler m s (ap (λ t. t.0) e)
    after_handler-Ends again m s (panic, s') e k = tt

    after_recv-Ends :
        (again : Shared neg → Option (Outcome (Unit {0}) × Shared neg)) (m : Option Msg)
        (e : Option RecvError) (s : Shared neg)
        → ((x : RecvError) → e ≡ some x → m ≡ none)
        → ((s' : Shared neg) → Ends Ending (again s'))
        → Ends Ending (after_recv neg handler again m e s)
    unfolding after_recv log_and_return
    after_recv-Ends again m (some eof) s nil k = by_eof refl
    after_recv-Ends again none (some (failed x)) s nil k = tt
    after_recv-Ends again (some m) (some (failed x)) s nil k = cc (nil (failed x) refl)
    after_recv-Ends again m none s nil k = after_handler-Ends again m s (handler m s) refl k

    recv_loop-Ends : (fuel : ℕ) (s : Shared neg) → Ends Ending (recv_loop neg handler fuel s)
    unfolding recv_loop
    recv_loop-Ends zero s = tt
    recv_loop-Ends (suc fuel) (cs, w) =
        let ((m, e), w') = neg.recv w in
        after_recv-Ends (recv_loop neg handler fuel) m e (cs, w') (nil_on_error w)
          (recv_loop-Ends fuel)

    close_deferred-Ends :
        (o : Option (Outcome (Unit {0}) × Shared neg))
        → Ends Ending o
        → Ends Ending (close_deferred neg handler o)
    unfolding close_deferred
    close_deferred-Ends none h = tt
    close_deferred-Ends (some r) h = h

    after_connected-Ends :
        (fuel : ℕ) (w : W) (r : Outcome (Unit {0}) × ConnectState)
        → ((e : Error) → r.0 ≢ err e)
        → Ends Ending (after_connected neg handler fuel w r)
    unfolding after_connected
    after_connected-Ends fuel w (ok _, cs) h =
        close_deferred-Ends (recv_loop neg handler fuel (cs, w)) (recv_loop-Ends fuel (cs, w))
    after_connected-Ends fuel w (err e, cs) h = absurd (h e refl)
    after_connected-Ends fuel w (panic, cs) h = tt

    connected-no_error : (cs : ConnectState) (e : Error) → (connected cs).0 ≢ err e
    unfolding connected
    connected-no_error cs e h = ground arith

    after_open-Ends :
        (fuel : ℕ) (cs : ConnectState) (w : W) (r : Option Error × W)
        → neg.open_stream w ≡ r
        → Ends Ending (after_open neg handler fuel cs r)
    unfolding after_open
    after_open-Ends fuel cs w (some e, w') h = by_open w (ap (λ t. t.0) h)
    after_open-Ends fuel cs w (none, w') h =
        after_connected-Ends fuel w' (connected cs) (connected-no_error cs)

    -- Where the stream gives no message beside an error, Connect never returns without an error,
    -- and the errors that it returns are those of opening the stream, the end of the stream, and
    -- the handler's: another error of the stream makes it panic.
    pub connect_stream-Ending :
        (fuel : ℕ) (s : Shared neg) {r : Outcome (Unit {0})} {s' : Shared neg}
        → connect_stream neg handler fuel s ≡ some (r, s')
        → Ending r
    unfolding connect_stream
    connect_stream-Ending fuel (cs, w) e =
        rw e at (after_open-Ends fuel cs w (neg.open_stream w) refl)
