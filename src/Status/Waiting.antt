-- ===== src/Status/Waiting.antt =====
-- client/grpc/signal_client.go: goroutines in WaitStartConnect, interleaved with the calls that
-- change the state. The context is context.Background, which is never done.
use runetale.Common.{ℕ, String, ◌≡◌, true, false, ◌==◌, if◌then◌else◌, ok}
use runetale.Status.Defs.{
  ConnectState, new_connected_state, is_connected, get_conn_chan, connected, dis_connected,
  get_conn_status,
}

-- Where a goroutine stands in WaitStartConnect: before the test of IsConnected, between the test
-- and GetConnChan, in the `select` on a channel, and after its return.
pub data Pc : Type 0 where
  entered : Pc
  tested : Pc
  blocked : ℕ → Pc
  returned : Pc

pub record System : Type 0 where
  pub cs : ConnectState
  pub pc : ℕ → Pc

-- Goroutine `i` goes to `p`.
abbrev pub goto : (ℕ → Pc) → ℕ → Pc → ℕ → Pc
goto pc i p j = if i == j then p else pc j

-- One step. `connects` and `reports` are SignalClient.Connected (or the call in Connect) and
-- SignalClient.GetConnStatus where they do not panic.
pub data Step (s : System) (t : System) : Type 0 where
  finds_connected :
      (i : ℕ)
      → s.pc i ≡ entered
      → is_connected s.cs ≡ true
      → t ≡ record s { pc = goto s.pc i returned }
      → Step s t
  finds_disconnected :
      (i : ℕ)
      → s.pc i ≡ entered
      → is_connected s.cs ≡ false
      → t ≡ record s { pc = goto s.pc i tested }
      → Step s t
  takes_channel :
      (i : ℕ)
      → s.pc i ≡ tested
      → t
        ≡ record { cs = (get_conn_chan s.cs).1; pc = goto s.pc i (blocked (get_conn_chan s.cs).0) }
      → Step s t
  wakes :
      (i ch : ℕ)
      → s.pc i ≡ blocked ch
      → s.cs.closed ch ≡ true
      → t ≡ record s { pc = goto s.pc i returned }
      → Step s t
  connects : (connected s.cs).0 ≡ ok tt → t ≡ record s { cs = (connected s.cs).1 } → Step s t
  disconnects : t ≡ record s { cs = dis_connected s.cs } → Step s t
  reports :
      (text : String)
      → (get_conn_status s.cs).0 ≡ ok text
      → t ≡ record s { cs = (get_conn_status s.cs).1 }
      → Step s t

abbrev pub initial : System
initial = record { cs = new_connected_state; pc = λ i. entered }

pub data Reach : System → Type 0 where
  start : (s : System) → s ≡ initial → Reach s
  later : {s : System} (t : System) → Reach s → Step s t → Reach t
