-- ===== src/Proxy/Forwarding.antt =====
-- rcn/proxy/wire_proxy.go: the loops forward what they read, in order.
use mathlib.Core.Path.{subst}
use mathlib.Core.List.{append_assoc, append-nil}
use runetale.Common.{
  ℕ, zero, suc, ◌≡◌, refl, sym, ap, ◌∙◌, Bool, true, false, Option, none, some, List, [], ◌∷◌, ◌++◌,
  length, Error, Fallible, value, error,
}
use runetale.Proxy.Monitor.{
  Wires, buffer_size, forward, after_select, mon_loop, mon_local_to_remote_proxy,
  mon_remote_to_local_proxy,
}

-- The packets among the results of the reads.
unfoldable pub packets : List (Fallible (List ℕ)) → List (List ℕ)
packets [] = []
packets (value b ∷ rs) = b ∷ packets rs
packets (error e ∷ rs) = packets rs

-- A source of reads and a target of writes, by what is still to be read and what has been written.
-- The context is done when everything is read, and every packet that is written arrives.
pub record Flow {W : Type 0} (is_done : W → Bool × W) (read : ℕ → W → Fallible (List ℕ) × W)
    (write : List ℕ → W → Option Error × W) : Type 0 where
  pub pending : W → List (Fallible (List ℕ))
  pub sent : W → List (List ℕ)
  pub done_at_end : (w : W) → pending w ≡ [] → (is_done w).0 ≡ true
  pub goes_on :
      (w : W) (r : Fallible (List ℕ)) (rs : List (Fallible (List ℕ)))
      → pending w ≡ r ∷ rs
      → (is_done w).0 ≡ false
  pub done_quiet : (w : W) → (pending (is_done w).1 ≡ pending w) × (sent (is_done w).1 ≡ sent w)
  pub read_next :
      (n : ℕ) (w : W) (r : Fallible (List ℕ)) (rs : List (Fallible (List ℕ)))
      → pending w ≡ r ∷ rs
      → ((read n w).0 ≡ r) × (pending (read n w).1 ≡ rs) × (sent (read n w).1 ≡ sent w)
  pub write_arrives :
      (b : List ℕ) (w : W)
      → (pending (write b w).1 ≡ pending w) × (sent (write b w).1 ≡ sent w ++ b ∷ [])

module _ {W : Type 0} {is_done : W → Bool × W} {read : ℕ → W → Fallible (List ℕ) × W}
    {write : List ℕ → W → Option Error × W} (flow : Flow is_done read write) where
  open flow use {pending, sent}

  -- The loop has ended, with everything read and the packets written.
  abbrev pub Forwarded : List (List ℕ) → Option W → Type 0
  Forwarded l none = ⊥
  Forwarded l (some w) = (pending w ≡ []) × (sent w ≡ l)

  forward_lem :
      (rs : List (Fallible (List ℕ))) (out : Fallible (List ℕ) × W)
      → pending out.1 ≡ rs
      → let w' = forward write out in
        (pending w' ≡ rs) × (sent w' ++ packets rs ≡ sent out.1 ++ packets (out.0 ∷ rs))
  unfolding forward packets
  forward_lem rs (value b, w) p =
      let (same, longer) = flow.write_arrives b w in
      (same ∙ p, ap (λ l. l ++ packets rs) longer ∙ append_assoc (sent w) (b ∷ []) (packets rs))
  forward_lem rs (error x, w) p = (p, refl)

  after_select-done :
      (again : W → Option W) (d : Bool × W)
      → d.0 ≡ true
      → after_select again read write d ≡ some d.1
  unfolding after_select
  after_select-done again (true, w) e = refl
  after_select-done again (false, w) e = cc

  after_select-more :
      (again : W → Option W) (d : Bool × W)
      → d.0 ≡ false
      → after_select again read write d ≡ again (forward write (read buffer_size d.1))
  unfolding after_select
  after_select-more again (true, w) e = cc
  after_select-more again (false, w) e = refl

  -- Fuel for one round more than there are reads is enough.
  mon_loop-Forwarded :
      (rs : List (Fallible (List ℕ))) (w : W)
      → pending w ≡ rs
      → Forwarded (sent w ++ packets rs) (mon_loop is_done read write (suc (length rs)) w)
  unfolding mon_loop packets
  mon_loop-Forwarded [] w e =
      let (same, kept) = flow.done_quiet w in
      subst (Forwarded (sent w ++ []))
        (sym
          (after_select-done (mon_loop is_done read write zero) (is_done w) (flow.done_at_end w e)))
        (same ∙ e, kept ∙ sym (append-nil (sent w)))
  mon_loop-Forwarded (r ∷ rs) w e =
      let again = mon_loop is_done read write (suc (length rs)) in
      let (same, kept) = flow.done_quiet w in
      let w₁ = (is_done w).1 in
      let out = read buffer_size w₁ in
      let (is, left, quiet) = flow.read_next buffer_size w₁ r rs (same ∙ e) in
      let (left', total) = forward_lem rs out left in
      subst (Forwarded (sent w ++ packets (r ∷ rs)))
        (sym (after_select-more again (is_done w) (flow.goes_on w r rs e)))
        (subst (λ l. Forwarded l (again (forward write out)))
          (total
            ∙ ap (λ l. l ++ packets (out.0 ∷ rs)) (quiet ∙ kept)
            ∙ ap (λ x. sent w ++ packets (x ∷ rs)) is)
          (mon_loop-Forwarded rs (forward write out) left'))

-- If the context is done when everything from the local connection has been read, and every write to
-- the remote connection arrives, then the loop from local to remote ends (fuel for one round more
-- than there are reads is enough), and it has written exactly the packets that the reads gave, in
-- order, after what had been written before; reads that failed are skipped.
pub mon_local_to_remote_proxy-Forwarded :
    {W : Type 0} (wires : Wires W) (flow : Flow wires.is_done wires.read_local wires.write_remote)
    (w : W)
    → Forwarded flow
        (flow.sent w ++ packets (flow.pending w))
        (mon_local_to_remote_proxy wires (suc (length (flow.pending w))) w)
unfolding mon_local_to_remote_proxy
mon_local_to_remote_proxy-Forwarded wires flow w = mon_loop-Forwarded flow (flow.pending w) w refl

-- The same of the loop from the remote to the local connection.
pub mon_remote_to_local_proxy-Forwarded :
    {W : Type 0} (wires : Wires W) (flow : Flow wires.is_done wires.read_remote wires.write_local)
    (w : W)
    → Forwarded flow
        (flow.sent w ++ packets (flow.pending w))
        (mon_remote_to_local_proxy wires (suc (length (flow.pending w))) w)
unfolding mon_remote_to_local_proxy
mon_remote_to_local_proxy-Forwarded wires flow w = mon_loop-Forwarded flow (flow.pending w) w refl
