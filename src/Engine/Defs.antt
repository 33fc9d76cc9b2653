-- ===== src/Engine/Defs.antt =====
-- engine/engine.go, engine/wonderwall/wonderwall.go: the engine and what one goroutine does in Start
-- and Stop. The dial of the daemon's socket changes the world `W`.
use runetale.Common.{
  ℕ, String, Bool, true, false, Option, none, some, List, if◌then◌else◌, Outcome, ok, err, panic,
  Action, Fallible, value, error,
}
use runetale.Rcn.Sock.{DialRunetaleStatus}
use runetale.ControlPlane.Peer.{wg_port_number}

-- The engine, with whether its mutex is locked and whether `rootch` is closed: the WonderWall
-- and the RcnSock have the same channel.
pub record Engine : Type 0 where
  pub nk : String
  pub tun_name : String
  pub ip : String
  pub cidr : String
  pub wg_priv_key : String
  pub wg_port : ℕ
  pub black_list : List String
  pub locked : Bool
  pub closed : Bool

-- NewEngine, over the parameter wgtypes.ParseKey.
unfoldable pub new_engine :
    (String → Fallible (List ℕ))
    → String
    → String
    → String
    → String
    → String
    → List String
    → Fallible Engine
new_engine parse_key tun_name nk ip cidr wg_priv_key black_list = elim (parse_key wg_priv_key) [
  | error e ↦ error e
  | value k ↦ value (record {
    nk = nk;
    tun_name = tun_name;
    ip = ip;
    cidr = cidr;
    wg_priv_key = wg_priv_key;
    wg_port = wg_port_number;
    black_list = black_list;
    locked = false;
    closed = false;
  })
]

-- Where a goroutine stands in `engine.Stop`: before Lock, before `stopWonderWall`, before the deferred Unlock, and at its end.
pub data StopPc : Type 0 where
  entering closing unlocking returned : StopPc

-- Where a goroutine stands: in Start before Lock, before `startWonderWall`, at the receive from `rootch`, in
-- its call of Stop, before the deferred Unlock, and at its end; in a Stop of its own; or in a panic.
pub data Pc : Type 0 where
  start_entering starting receiving : Pc
  in_start : StopPc → Pc
  start_unlocking start_returned : Pc
  in_stop : StopPc → Pc
  panicked : Pc

-- `Lock`, which blocks on a locked mutex, and `Unlock`.
unfoldable pub lock : Engine → Option Engine
lock e = if e.locked then none else some (record e { locked = true })

unfoldable pub unlock : Engine → Engine
unlock e = record e { locked = false }

-- `WonderWall.Stop`: closing a closed channel panics.
unfoldable pub stop_wonder_wall : Action Engine (Unit {0})
stop_wonder_wall e = if e.closed then (panic, e) else (ok tt, record e { closed = true })

-- Closing, and the deferred Unlock of a panic.
unfoldable pub closed_by : Outcome (Unit {0}) × Engine → Option StopPc × Engine
closed_by (ok _, e) = (some unlocking, e)
closed_by (err x, e) = (some unlocking, e)
closed_by (panic, e) = (none, unlock e)

-- One step in Stop: blocked, or to the next place, or into a panic.
unfoldable pub stop_step : StopPc → Engine → Option (Option StopPc × Engine)
unfolding lock
stop_step entering e = elim (lock e) [ none ↦ none | some e' ↦ some (some closing, e') ]
stop_step closing e = some (closed_by (stop_wonder_wall e))
stop_step unlocking e = some (some returned, unlock e)
stop_step returned e = none

module _ {W : Type 0} (dial : W → Fallible (Option DialRunetaleStatus) × W) where
  -- `dialRunetaleStatus`, which logs the fields of the status: a nil one panics.
  unfoldable pub log_status : Fallible (Option DialRunetaleStatus) × W → Outcome (Unit {0}) × W
  log_status (value (some ds), w) = (ok tt, w)
  log_status (value none, w) = (panic, w)
  log_status (error e, w) = (err e, w)

  unfoldable pub dial_runetale_status : Action W (Unit {0})
  dial_runetale_status w = log_status (dial w)

  -- `WonderWall.Start`, whose error is only printed, as a step of Start; a panic unlocks.
  unfoldable pub wonder_wall_started : Engine → Outcome (Unit {0}) × W → Pc × (Engine × W)
  wonder_wall_started e (ok _, w) = (receiving, (e, w))
  wonder_wall_started e (err x, w) = (receiving, (e, w))
  wonder_wall_started e (panic, w) = (panicked, (unlock e, w))

  -- The step in the Stop that Start calls; a panic runs both deferred Unlocks.
  unfoldable pub nested_step : W → Option (Option StopPc × Engine) → Option (Pc × (Engine × W))
  nested_step w none = none
  nested_step w (some (none, e)) = some (panicked, (unlock e, w))
  nested_step w (some (some p, e)) = some (in_start p, (e, w))

  unfoldable pub own_step : W → Option (Option StopPc × Engine) → Option (Pc × (Engine × W))
  own_step w none = none
  own_step w (some (none, e)) = some (panicked, (e, w))
  own_step w (some (some p, e)) = some (in_stop p, (e, w))

  -- One step of a goroutine; `none` where it is blocked or has ended.
  unfoldable pub step : Pc → Engine × W → Option (Pc × (Engine × W))
  unfolding lock
  step start_entering (e, w) = elim (lock e) [ none ↦ none | some e' ↦ some (starting, (e', w)) ]
  step starting (e, w) = some (wonder_wall_started e (dial_runetale_status w))
  step receiving (e, w) = if e.closed then some (in_start entering, (e, w)) else none
  step (in_start returned) (e, w) = some (start_unlocking, (e, w))
  step (in_start p) (e, w) = nested_step w (stop_step p e)
  step start_unlocking (e, w) = some (start_returned, (unlock e, w))
  step start_returned s = none
  step (in_stop p) (e, w) = own_step w (stop_step p e)
  step panicked s = none
