-- ===== src/Osmem/Returns.antt =====
-- Total correctness of a run: it does not fault, exit or run out of fuel, and its result and final
-- state satisfy `P`.
use operating_system_challen.Base.{◌≡◌, refl}
use operating_system_challen.Osmem.Memory.{State, Run, ok, Cmd, and_then}

pub data Returns {W A : Type 0} (P : A → State W → Type 0) : Run W A → Type 0 where
  returns : {a : A} {s : State W} → P a s → Returns P (ok a s)

module _ {W A : Type 0} {P : A → State W → Type 0} where
  pub bind :
      {B : Type 0} {Q : B → State W → Type 0} {r : Run W A} {f : A → Cmd W B}
      → Returns P r
      → ((a : A) (s : State W) → P a s → Returns Q (f a s))
      → Returns Q (and_then r f)
  bind (returns p) next = next _ _ p

  pub mono :
      {Q : A → State W → Type 0} {r : Run W A}
      → Returns P r
      → ((a : A) (s : State W) → P a s → Q a s)
      → Returns Q r
  mono (returns p) weaken = returns (weaken _ _ p)

  -- The result as a value.
  pub returned : {r : Run W A} → Returns P r → (a : A) × (s : State W) × (r ≡ ok a s) × P a s
  returned (returns {a} {s} p) = (a, s, refl, p)
