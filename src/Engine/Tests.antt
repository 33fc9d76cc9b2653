-- ===== src/Engine/Tests.antt =====
-- engine/engine.go: a goroutine in Start and others in Stop.
use runetale.Common.{
  ℕ, ◌≡◌, refl, ◌≢◌, true, false, Option, some, [], arith, ◌==◌, if◌then◌else◌, Bool-cases,
  external, Fallible, value, error,
}
use runetale.Rcn.Sock.{DialRunetaleStatus}
use runetale.Engine.Defs.{
  Engine, new_engine, entering, Pc, start_entering, starting, receiving, start_returned, in_stop,
  lock, log_status, dial_runetale_status, wonder_wall_started, step,
}
use runetale.Engine.Stuck.{System, Begins, goto, steps, Reach, start, later, start-NeverReturns}

abbrev unreachable : ℕ → Fallible (Option DialRunetaleStatus) × ℕ
unreachable w = (error (external 1), w)

abbrev fresh : Engine
fresh = record {
  nk = "n1";
  tun_name = "rt0";
  ip = "10.0.0.1";
  cidr = "24";
  wg_priv_key = "key";
  wg_port = 51820;
  black_list = [];
  locked = false;
  closed = false;
}

new_engine_fresh : new_engine (λ t. value []) "rt0" "n1" "10.0.0.1" "24" "key" [] ≡ value fresh
unfolding new_engine
new_engine_fresh = refl

abbrev calls : ℕ → Pc
calls i = if i == 0 then start_entering else in_stop entering

abbrev held : Engine
held = let r : Engine = record fresh { locked = true } in r

abbrev system_0 : System ℕ
system_0 = record { shared = (fresh, 0); pc = calls }

abbrev system_1 : System ℕ
system_1 = record { shared = (held, 0); pc = goto calls 0 starting }

abbrev system_2 : System ℕ
system_2 = record { shared = (held, 0); pc = goto system_1.pc 0 receiving }

first_step : step unreachable start_entering (fresh, 0) ≡ some (starting, (held, 0))
unfolding step lock
first_step = refl

second_step : step unreachable starting (held, 0) ≡ some (receiving, (held, 0))
unfolding step wonder_wall_started dial_runetale_status log_status
second_step = refl

begins : (i : ℕ) → Begins (calls i)
begins i = ground (arith, Bool-cases (i == 0))

waits : Reach unreachable fresh 0 system_2
waits =
    later system_2
      (later system_1 (start system_0 refl begins) (steps 0 starting (held, 0) first_step refl))
      (steps 0 receiving (held, 0) second_step refl)

start-NeverReturns_example : receiving ≢ start_returned
start-NeverReturns_example = start-NeverReturns unreachable waits 0
