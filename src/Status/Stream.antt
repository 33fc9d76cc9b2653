-- ===== src/Status/Stream.antt =====
-- client/grpc/signal_client.go: `Connect`, which receives negotiation messages until the stream
-- ends. The generated gRPC client is a parameter.
use runetale.Common.{
  ℕ, zero, suc, Option, none, some, Error, message, Outcome, ok, err, panic, Action,
}
use runetale.Status.Defs.{ConnectState, connected}

-- What `stream.Recv` may fail with.
pub data RecvError : Type 0 where
  eof : RecvError
  failed : Error → RecvError

abbrev pub io_eof : Error
io_eof = message "EOF"

-- The negotiation client over the world `W`: opening the stream, receiving a message that may be
-- nil, and `CloseSend`.
pub record Negotiation (Msg W : Type 0) : Type 0 where
  pub open_stream : W → Option Error × W
  pub recv : W → (Option Msg × Option RecvError) × W
  pub close_send : W → Option Error × W

module _ {Msg W : Type 0} (neg : Negotiation Msg W) where
  -- The state that the client shares with other goroutines, and the world.
  abbrev pub Shared : Type 0
  Shared = ConnectState × W

  module _ (handler : Option Msg → Action Shared (Unit {0})) where
    -- An error branch logs `msg.DstNodeKey` first, which panics on a nil message.
    unfoldable pub log_and_return : Option Msg → Error → Action Shared (Unit {0})
    log_and_return none e s = (panic, s)
    log_and_return (some m) e s = (err e, s)

    -- The rest of a round after the handler; `again` is the next round.
    unfoldable pub after_handler :
        (Shared → Option (Outcome (Unit {0}) × Shared))
        → Option Msg
        → Outcome (Unit {0}) × Shared
        → Option (Outcome (Unit {0}) × Shared)
    after_handler again m (ok _, s) = again s
    after_handler again m (err e, s) = some (log_and_return m e s)
    after_handler again m (panic, s) = some (panic, s)

    unfoldable pub after_recv :
        (Shared → Option (Outcome (Unit {0}) × Shared))
        → Option Msg
        → Option RecvError
        → Shared
        → Option (Outcome (Unit {0}) × Shared)
    after_recv again m (some eof) s = some (err io_eof, s)
    after_recv again m (some (failed e)) s = some (log_and_return m e s)
    after_recv again m none s = after_handler again m (handler m s)

    -- The `for` loop; `none` means that the fuel ran out.
    unfoldable pub recv_loop : ℕ → Shared → Option (Outcome (Unit {0}) × Shared)
    recv_loop zero s = none
    recv_loop (suc fuel) (cs, w) =
        let ((m, e), w') = neg.recv w in after_recv (recv_loop fuel) m e (cs, w')

    -- The deferred `CloseSend`, whose error is only logged.
    unfoldable pub close_deferred :
        Option (Outcome (Unit {0}) × Shared) → Option (Outcome (Unit {0}) × Shared)
    close_deferred none = none
    close_deferred (some (r, (cs, w))) = some (r, (cs, (neg.close_send w).1))

    unfoldable pub after_connected :
        ℕ → W → Outcome (Unit {0}) × ConnectState → Option (Outcome (Unit {0}) × Shared)
    after_connected fuel w (ok _, cs) = close_deferred (recv_loop fuel (cs, w))
    after_connected fuel w (err e, cs) = some (err e, (cs, w))
    after_connected fuel w (panic, cs) = some (panic, (cs, w))

    unfoldable pub after_open :
        ℕ → ConnectState → Option Error × W → Option (Outcome (Unit {0}) × Shared)
    after_open fuel cs (some e, w) = some (err e, (cs, w))
    after_open fuel cs (none, w) = after_connected fuel w (connected cs)

    -- `SignalClient.Connect`
    unfoldable pub connect_stream : ℕ → Shared → Option (Outcome (Unit {0}) × Shared)
    connect_stream fuel (cs, w) = after_open fuel cs (neg.open_stream w)
