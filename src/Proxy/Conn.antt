-- ===== src/Proxy/Conn.antt =====
-- rcn/conn/conn.go: a connection to one peer, which one end dials and the other accepts.
use Prim.Native.Nat.{Ordering}
use Prim.Native.String.{compare}
use runetale.Common.{
  String, Bool, true, false, Option, none, some, if◌then◌else◌, Outcome, ok, err, panic, Action,
}
use runetale.Proxy.Defs.{ProxyLibraries, WireProxy, Shared, stop_proxy, start_proxy}

-- `s < t` on strings.
abbrev pub less : String → String → Bool
less s t = elim (compare s t) [ Ordering.lt ↦ true | Ordering.eq ↦ false | Ordering.gt ↦ false ]

-- The ICE agent's `Dial` and `Accept`, with the user name and the password.
pub record AgentCalls (R W : Type 0) : Type 0 where
  pub dial : String → String → Action W R
  pub accept : String → String → Action W R

-- Conn, with whether its context is cancelled. `wireproxy` is nil or what the proxy is.
pub record Conn (L R : Type 0) : Type 0 where
  pub remote_conn : Option R
  pub uname : String
  pub pwd : String
  pub wireproxy : Option (WireProxy L R)
  pub remote_wg_pub_key : String
  pub wg_pub_key : String
  pub cancelled : Bool

unfoldable pub new_conn :
    {L R : Type 0} → String → String → Option (WireProxy L R) → String → String → Conn L R
new_conn uname pwd wireproxy remote_wg_pub_key wg_pub_key = record {
  remote_conn = none;
  uname = uname;
  pwd = pwd;
  wireproxy = wireproxy;
  remote_wg_pub_key = remote_wg_pub_key;
  wg_pub_key = wg_pub_key;
  cancelled = false;
}

-- The end whose key is less dials.
unfoldable pub dials : {L R : Type 0} → Conn L R → Bool
dials c = less c.wg_pub_key c.remote_wg_pub_key

module _ {L R W : Type 0} (lib : ProxyLibraries L R W) where
  abbrev pub ConnState : Type 0
  ConnState = Conn L R × W

  -- A call on the proxy, whose state is put back.
  abbrev pub put_proxy : Conn L R → Outcome (Unit {0}) × Shared lib → Outcome (Unit {0}) × ConnState
  put_proxy c (res, (p, w)) = (res, (record c { wireproxy = some p }, w))

  -- A call of a method on a nil proxy panics, since it writes its fields.
  unfoldable pub start_on :
      R → Conn L R → Option (WireProxy L R) → W → Outcome (Unit {0}) × ConnState
  start_on r c none w = (panic, (c, w))
  start_on r c (some p) w = put_proxy c (start_proxy lib r (p, w))

  unfoldable pub after_reach : Conn L R → Outcome R × W → Outcome (Unit {0}) × ConnState
  after_reach c (ok r, w) = start_on r (record c { remote_conn = some r }) c.wireproxy w
  after_reach c (err e, w) = (err e, (record c { remote_conn = none }, w))
  after_reach c (panic, w) = (panic, (c, w))

  -- The context is cancelled only if the proxy has stopped.
  unfoldable pub after_stop :
      Conn L R → Outcome (Unit {0}) × Shared lib → Outcome (Unit {0}) × ConnState
  after_stop c (ok _, (p, w)) = (ok tt, (record c { wireproxy = some p; cancelled = true }, w))
  after_stop c (err e, (p, w)) = (err e, (record c { wireproxy = some p }, w))
  after_stop c (panic, (p, w)) = (panic, (record c { wireproxy = some p }, w))

  unfoldable pub close_with : Conn L R → Option (WireProxy L R) → W → Outcome (Unit {0}) × ConnState
  close_with c none w = (ok tt, (c, w))
  close_with c (some p) w = after_stop c (stop_proxy lib (p, w))

  -- `Close`
  unfoldable pub close_conn : Action ConnState (Unit {0})
  close_conn (c, w) = close_with c c.wireproxy w

  module _ (agent : AgentCalls R W) where
    unfoldable pub reach_peer : Conn L R → Action W R
    unfolding dials
    reach_peer c = if dials c then agent.dial c.uname c.pwd else agent.accept c.uname c.pwd

    -- `Start`; a failed `Dial` or `Accept` returns a nil connection.
    unfoldable pub start_conn : Action ConnState (Unit {0})
    start_conn (c, w) = after_reach c (reach_peer c w)
