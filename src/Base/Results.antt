-- ===== src/Base/Results.antt =====
-- What a call can end in. `check_condition` of switchflow/util/logger.cpp prints and aborts the
-- process, so a failed check is a fault, which ends the run; the other faults stand for undefined
-- behaviour of the C++ code, and for a model's loop that used up its fuel.
use mathlib.Core.Bool.{Bool, true, false}

pub data Fault : Type 0 where
  check_failed : Fault
  null_pointer : Fault
  out_of_bounds : Fault
  out_of_fuel : Fault

pub data Outcome {ℓ} (A : Type ℓ) : Type ℓ where
  ok : A → Outcome A
  fault : Fault → Outcome A

infixl 5 ◌>>=◌ ◌>>◌
abbrev pub ◌>>=◌ {ℓ κ} : {A : Type ℓ} {B : Type κ} → Outcome A → (A → Outcome B) → Outcome B
ok a >>= f = f a
fault e >>= f = fault e

abbrev pub ◌>>◌ {ℓ} : {B : Type ℓ} → Outcome (Unit {0}) → Outcome B → Outcome B
m >> k = m >>= λ _. k

-- The macros CHECK_CONDITION and CHECK_CONDITION_VAL.
abbrev pub check_condition : Bool → Outcome (Unit {0})
check_condition true = ok tt
check_condition false = fault check_failed
