-- ===== src/Engine/Stuck.antt =====
-- engine/engine.go: goroutines that call Start and Stop, and why Start does not return.
use mathlib.Core.Path.{subst}
use runetale.Common.{
  ℕ, ◌≡◌, refl, sym, ap, ◌≢◌, ◌⊎◌, inl, inr, Bool, true, false, Option, none, some, arith, ◌==◌,
  if◌then◌else◌, Bool-cases, Outcome, ok, err, panic, Fallible,
}
use runetale.Engine.Defs.{
  Engine, entering, closing, unlocking, returned, Pc, start_entering, starting, receiving, in_start,
  start_unlocking, start_returned, in_stop, panicked, lock, unlock, stop_wonder_wall, closed_by,
  stop_step, dial_runetale_status, wonder_wall_started, nested_step, own_step, step,
}
use runetale.Rcn.Sock.{DialRunetaleStatus}

-- Goroutine `i` stands at `pc i`.
pub record System (W : Type 0) : Type 0 where
  pub shared : Engine × W
  pub pc : ℕ → Pc

-- Where a goroutine begins: in Start or in Stop.
abbrev pub Begins : Pc → Type 0
Begins p = (p ≡ start_entering) ⊎ (p ≡ in_stop entering)

abbrev pub goto : (ℕ → Pc) → ℕ → Pc → ℕ → Pc
goto pc i p j = if i == j then p else pc j

module _ {W : Type 0} (dial : W → Fallible (Option DialRunetaleStatus) × W) where
  -- One goroutine makes a step.
  pub data Step (s t : System W) : Type 0 where
    steps :
        (i : ℕ) (p : Pc) (shared : Engine × W)
        → step dial (s.pc i) s.shared ≡ some (p, shared)
        → t ≡ record { shared = shared; pc = goto s.pc i p }
        → Step s t

  -- What can be reached from an engine and a world.
  pub data Reach (e : Engine) (w : W) : System W → Type 0 where
    start : (t : System W) → t.shared ≡ (e, w) → ((i : ℕ) → Begins (t.pc i)) → Reach e w t
    later : {s : System W} (t : System W) → Reach e w s → Step s t → Reach e w t

-- The places that Start does not get to.
abbrev IsEarly : Pc → Type 0
IsEarly (in_start entering) = Unit
IsEarly (in_start p) = ⊥
IsEarly start_unlocking = ⊥
IsEarly start_returned = ⊥
IsEarly p = Unit

-- Whether a goroutine at a place has the lock.
abbrev holds : Pc → Bool
holds starting = true
holds receiving = true
holds (in_start p) = true
holds (in_stop closing) = true
holds (in_stop unlocking) = true
holds p = false

module _ {W : Type 0} (dial : W → Fallible (Option DialRunetaleStatus) × W) where
  -- What a step from an early place, with the lock where that place has it, does to both.
  record Keeps (p p' : Pc) (e e' : Engine) : Type 0 where
    early : IsEarly p'
    locked : holds p' ≡ true → e'.locked ≡ true
    takes : holds p ≡ false → holds p' ≡ true → e.locked ≡ false
    frees : e.locked ≡ true → e'.locked ≡ false → holds p ≡ true

  abbrev After : Pc → Engine → Option (Pc × (Engine × W)) → Type 0
  After p e none = Unit
  After p e (some (p', (e', w))) = Keeps p p' e e'

  wonder_wall_started-After :
      (e : Engine) (r : Outcome (Unit {0}) × W)
      → e.locked ≡ true
      → After starting e (some (wonder_wall_started dial e r))
  unfolding wonder_wall_started unlock
  wonder_wall_started-After e (ok _, w) l = ground arith
  wonder_wall_started-After e (err x, w) l = ground arith
  wonder_wall_started-After e (panic, w) l = ground arith

  step-After :
      (p : Pc) (e : Engine) (w : W)
      → IsEarly p
      → (holds p ≡ true → e.locked ≡ true)
      → After p e (step dial p (e, w))
  unfolding step lock unlock nested_step own_step stop_step closed_by stop_wonder_wall
  step-After start_entering e w ea l = ground arith
  step-After starting e w ea l = wonder_wall_started-After e (dial_runetale_status dial w) (l refl)
  step-After receiving e w ea l = ground arith
  step-After (in_start entering) e w ea l = rw (l refl) tt
  step-After (in_start closing) e w ea l = absurd ea
  step-After (in_start unlocking) e w ea l = absurd ea
  step-After (in_start returned) e w ea l = absurd ea
  step-After start_unlocking e w ea l = absurd ea
  step-After start_returned e w ea l = absurd ea
  step-After (in_stop entering) e w ea l = ground arith
  step-After (in_stop closing) e w ea l = ground arith
  step-After (in_stop unlocking) e w ea l = ground arith
  step-After (in_stop returned) e w ea l = tt
  step-After panicked e w ea l = tt

  some-After :
      (p p' : Pc) (e : Engine) (o : Option (Pc × (Engine × W))) (z : Engine × W)
      → o ≡ some (p', z)
      → After p e o
      → Keeps p p' e z.0
  some-After p p' e o z is h = subst (After p e) is h

  -- No goroutine is late, and at most one has the lock, which is then locked.
  record Excludes (s : System W) : Type 0 where
    early : (i : ℕ) → IsEarly (s.pc i)
    locked : (i : ℕ) → holds (s.pc i) ≡ true → s.shared.0.locked ≡ true
    alone : (i j : ℕ) → holds (s.pc i) ≡ true → holds (s.pc j) ≡ true → i ≡ j

  Begins-free : (p : Pc) → Begins p → IsEarly p × (holds p ≡ false)
  Begins-free p (inl e) = subst (λ q. IsEarly q × (holds q ≡ false)) (sym e) (tt, refl)
  Begins-free p (inr e) = subst (λ q. IsEarly q × (holds q ≡ false)) (sym e) (tt, refl)

  begin-Excludes : (s : System W) → ((i : ℕ) → Begins (s.pc i)) → Excludes s
  begin-Excludes s b = record {
    early = λ i. (Begins-free (s.pc i) (b i)).0;
    locked = λ i h. absurd (ground (arith, (Begins-free (s.pc i) (b i)).1));
    alone = λ i j h h'. absurd (ground (arith, (Begins-free (s.pc i) (b i)).1));
  }

  moved-Excludes :
      (s : System W) (i : ℕ) (p : Pc) (e : Engine) (w : W)
      → Keeps (s.pc i) p s.shared.0 e
      → Excludes s
      → Excludes (record { shared = (e, w); pc = goto s.pc i p })
  moved-Excludes s i p e w k v = record {
    early = λ j. ground (arith, k.early, v.early j);
    locked = λ j h. ground (arith, k.locked, k.frees, v.locked j, v.alone i j, Bool-cases e.locked);
    alone = λ j l h h'.
        ground (arith, k.takes, v.locked j, v.locked l, v.alone j l, v.alone i l, v.alone i j);
  }

  Step-Excludes : (s t : System W) → Step dial s t → Excludes s → Excludes t
  Step-Excludes s t (steps i p (e, w) go st) v = rw st (
      moved-Excludes s i p e w
        (some-After (s.pc i) p s.shared.0 (step dial (s.pc i) s.shared) (e, w) go
          (step-After (s.pc i) s.shared.0 s.shared.1 (v.early i) (v.locked i)))
        v)

  Reach-Excludes : {e : Engine} {w : W} (s : System W) → Reach dial e w s → Excludes s
  Reach-Excludes _ (start s is b) = begin-Excludes s b
  Reach-Excludes _ (later {s} t r st) = Step-Excludes s t st (Reach-Excludes s r)

  -- In a program whose goroutines call Start and Stop of an engine, no call of Start ever
  -- returns, whatever the engine and the answers of the daemon are.
  pub start-NeverReturns :
      {e : Engine} {w : W} {s : System W} → Reach dial e w s → (i : ℕ) → s.pc i ≢ start_returned
  start-NeverReturns {s = s} r i e = subst IsEarly e ((Reach-Excludes s r).early i)

  step_blocked :
      (p : Pc) (e : Engine) (w : W)
      → IsEarly p
      → (holds p ≡ true → (p ≡ receiving) × (e.closed ≡ false))
      → e.locked ≡ true
      → step dial p (e, w) ≡ none
  unfolding step lock own_step stop_step
  step_blocked start_entering e w ea h l = ground arith
  step_blocked starting e w ea h l = absurd (ground arith)
  step_blocked receiving e w ea h l = ground arith
  step_blocked (in_start entering) e w ea h l = absurd (ground arith)
  step_blocked (in_start closing) e w ea h l = absurd ea
  step_blocked (in_start unlocking) e w ea h l = absurd ea
  step_blocked (in_start returned) e w ea h l = absurd ea
  step_blocked start_unlocking e w ea h l = absurd ea
  step_blocked start_returned e w ea h l = absurd ea
  step_blocked (in_stop entering) e w ea h l = ground arith
  step_blocked (in_stop closing) e w ea h l = absurd (ground arith)
  step_blocked (in_stop unlocking) e w ea h l = absurd (ground arith)
  step_blocked (in_stop returned) e w ea h l = refl
  step_blocked panicked e w ea h l = refl

  -- If Start waits for the channel and it is open, then no goroutine can make another step: each
  -- Stop waits for the lock, so nobody closes the channel.
  pub receiving-Deadlock :
      {e : Engine} {w : W} {s : System W}
      → Reach dial e w s
      → (i : ℕ) → s.pc i ≡ receiving
      → s.shared.0.closed ≡ false
      → (t : System W) → ¬ Step dial s t
  receiving-Deadlock {s = s} r i at o t (steps j p z go st) =
      let v = Reach-Excludes s r in
      let has = v.locked i (ap holds at) in
      let stuck =
        step_blocked (s.pc j) s.shared.0 s.shared.1 (v.early j)
          (λ h.
            let same = v.alone i j (ap holds at) h in (subst (λ k. s.pc k ≡ receiving) same at, o))
          has in
      absurd (ground (arith, stuck, go))
