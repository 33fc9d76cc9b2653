-- ===== src/Proxy/Monitor.antt =====
-- rcn/proxy/wire_proxy.go: the two loops that forward packets between the connections.
use runetale.Common.{
  ℕ, zero, suc, Bool, true, false, Option, none, some, List, Error, Fallible, value, error,
}

-- The two connections over the world `W`, reading into a buffer of the given size, and whether the
-- proxy's context is done.
pub record Wires (W : Type 0) : Type 0 where
  pub is_done : W → Bool × W
  pub read_local : ℕ → W → Fallible (List ℕ) × W
  pub read_remote : ℕ → W → Fallible (List ℕ) × W
  pub write_local : List ℕ → W → Option Error × W
  pub write_remote : List ℕ → W → Option Error × W

abbrev pub buffer_size : ℕ
buffer_size = 1500

module _ {W : Type 0} where
  -- The `default` branch after its read: what was read is written, and errors are only logged.
  unfoldable pub forward : (List ℕ → W → Option Error × W) → Fallible (List ℕ) × W → W
  forward write (error e, w) = w
  forward write (value b, w) = (write b w).1

  -- One round of the loop; `again` is the next round.
  unfoldable pub after_select :
      (W → Option W)
      → (ℕ → W → Fallible (List ℕ) × W)
      → (List ℕ → W → Option Error × W)
      → Bool × W
      → Option W
  after_select again read write (true, w) = some w
  after_select again read write (false, w) = again (forward write (read buffer_size w))

  -- The `for` loop; `none` means that the fuel ran out.
  unfoldable pub mon_loop :
      (W → Bool × W)
      → (ℕ → W → Fallible (List ℕ) × W)
      → (List ℕ → W → Option Error × W)
      → ℕ
      → W
      → Option W
  mon_loop is_done read write zero w = none
  mon_loop is_done read write (suc fuel) w =
      after_select (mon_loop is_done read write fuel) read write (is_done w)

  module _ (wires : Wires W) where
    unfoldable pub mon_local_to_remote_proxy : ℕ → W → Option W
    mon_local_to_remote_proxy = mon_loop wires.is_done wires.read_local wires.write_remote

    unfoldable pub mon_remote_to_local_proxy : ℕ → W → Option W
    mon_remote_to_local_proxy = mon_loop wires.is_done wires.read_remote wires.write_local
