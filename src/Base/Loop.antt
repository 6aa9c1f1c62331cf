-- ===== src/Base/Loop.antt =====
-- `for(;;)` and `while` loops with several ways out, on fuel, and the rule by which the parsers'
-- loops are shown to end without a fault.
use Prim.Native.Nat.{ℕ, zero, suc, ◌≤◌, ◌<◌}
use mathlib.Core.Path.{◌≡◌, refl}
use mathlib.Core.Logic.{◌⊎◌, inl, inr}
use native.Mathlib.Omega.{arith}
use switchflow.Base.Results.{Fault, Outcome, ok, fault, out_of_fuel}

-- One round either goes on with a new state, or returns.
pub data Turn (S A : Type 0) : Type 0 where
  again : S → Turn S A
  finish : A → Turn S A

-- `Returns post r`: the call returns, with no fault, and its result satisfies `post`.
abbrev pub Returns : {A : Type 0} → (A → Type 0) → Outcome A → Type 0
Returns post (ok a) = post a
Returns post (fault e) = ⊥

module _ {S A : Type 0} where
  abbrev pub resume : (S → Outcome A) → Outcome (Turn S A) → Outcome A
  resume next (ok (again s)) = next s
  resume next (ok (finish a)) = ok a
  resume next (fault e) = fault e

  unfoldable pub loop : ℕ → (S → Outcome (Turn S A)) → S → Outcome A
  loop zero body s = fault out_of_fuel
  loop (suc fuel) body s = resume (loop fuel body) (body s)

  -- The rule for one round: no fault; going on keeps the invariant and makes the measure smaller.
  abbrev pub Keeps : (S → Type 0) → (A → Type 0) → (S → ℕ) → ℕ → Outcome (Turn S A) → Type 0
  Keeps inv post measure m (ok (again s)) = inv s × (measure s < m)
  Keeps inv post measure m (ok (finish a)) = post a
  Keeps inv post measure m (fault e) = ⊥

  pub Keeps-le :
      (inv : S → Type 0) (post : A → Type 0) (measure : S → ℕ) (m n : ℕ) (r : Outcome (Turn S A))
      → m ≤ n
      → Keeps inv post measure m r
      → Keeps inv post measure n r
  Keeps-le inv post measure m n (ok (again s)) h k = let lt = k.1 in (k.0, omega arith)
  Keeps-le inv post measure m n (ok (finish a)) h k = k
  Keeps-le inv post measure m n (fault e) h k = k

  resume-Returns :
      (inv : S → Type 0) (post : A → Type 0) (measure : S → ℕ) (m : ℕ) (next : S → Outcome A)
      (r : Outcome (Turn S A))
      → ((s : S) → measure s < m → inv s → Returns post (next s))
      → Keeps inv post measure m r
      → Returns post (resume next r)
  resume-Returns inv post measure m next (ok (again s)) f k = f s k.1 k.0
  resume-Returns inv post measure m next (ok (finish a)) f k = k
  resume-Returns inv post measure m next (fault e) f k = k

  pub loop-Returns :
      (inv : S → Type 0) (post : A → Type 0) (measure : S → ℕ) (body : S → Outcome (Turn S A))
      → ((s : S) → inv s → Keeps inv post measure (measure s) (body s))
      → (fuel : ℕ) (s : S) → measure s < fuel
      → inv s
      → Returns post (loop fuel body s)
  unfolding loop
  loop-Returns inv post measure body keep zero s m h = elim m [ ]
  loop-Returns inv post measure body keep (suc fuel) s m h =
      resume-Returns inv post measure (measure s) (loop fuel body) (body s)
        (λ t lt k. loop-Returns inv post measure body keep fuel t (omega arith) k) (keep s h)

-- The same where the call may also abort, by a fault that satisfies `allowed`.
abbrev pub ReturnsOr : {A : Type 0} → (A → Type 0) → (Fault → Type 0) → Outcome A → Type 0
ReturnsOr post allowed (ok a) = post a
ReturnsOr post allowed (fault e) = allowed e

module _ {S A : Type 0} (allowed : Fault → Type 0) where
  abbrev pub KeepsOr : (S → Type 0) → (A → Type 0) → (S → ℕ) → ℕ → Outcome (Turn S A) → Type 0
  KeepsOr inv post measure m (ok (again s)) = inv s × (measure s < m)
  KeepsOr inv post measure m (ok (finish a)) = post a
  KeepsOr inv post measure m (fault e) = allowed e

  resume-ReturnsOr :
      (inv : S → Type 0) (post : A → Type 0) (measure : S → ℕ) (m : ℕ) (next : S → Outcome A)
      (r : Outcome (Turn S A))
      → ((s : S) → measure s < m → inv s → ReturnsOr post allowed (next s))
      → KeepsOr inv post measure m r
      → ReturnsOr post allowed (resume next r)
  resume-ReturnsOr inv post measure m next (ok (again s)) f k = f s k.1 k.0
  resume-ReturnsOr inv post measure m next (ok (finish a)) f k = k
  resume-ReturnsOr inv post measure m next (fault e) f k = k

  pub loop-ReturnsOr :
      (inv : S → Type 0) (post : A → Type 0) (measure : S → ℕ) (body : S → Outcome (Turn S A))
      → ((s : S) → inv s → KeepsOr inv post measure (measure s) (body s))
      → (fuel : ℕ) (s : S) → measure s < fuel
      → inv s
      → ReturnsOr post allowed (loop fuel body s)
  unfolding loop
  loop-ReturnsOr inv post measure body keep zero s m h = elim m [ ]
  loop-ReturnsOr inv post measure body keep (suc fuel) s m h =
      resume-ReturnsOr inv post measure (measure s) (loop fuel body) (body s)
        (λ t lt k. loop-ReturnsOr inv post measure body keep fuel t (omega arith) k) (keep s h)

pub Returns-eq-ok :
    {A : Type 0} (post : A → Type 0) (r : Outcome A)
    → Returns post r
    → (a : A) × (r ≡ ok a) × post a
Returns-eq-ok post (ok a) h = (a, refl, h)
Returns-eq-ok post (fault e) h = absurd h

pub Returns-mono :
    {A : Type 0} (post post' : A → Type 0) (r : Outcome A)
    → ((a : A) → post a → post' a)
    → Returns post r
    → Returns post' r
Returns-mono post post' (ok a) f h = f a h
Returns-mono post post' (fault e) f h = h

-- The rounds that a loop makes until it finishes, whatever its fuel.
module _ {S A : Type 0} (body : S → Outcome (Turn S A)) where
  pub data Runs (a : A) : S → Type 0 where
    stops : {s : S} → body s ≡ ok (finish a) → Runs a s
    goes_on : {s s' : S} → body s ≡ ok (again s') → Runs a s' → Runs a s

  loop-Runs :
      (fuel : ℕ) {s : S} {a : A}
      → Runs a s
      → Returns (λ r. r ≡ a) (loop fuel body s) ⊎ (loop fuel body s ≡ fault out_of_fuel)
  unfolding loop
  loop-Runs zero r = inr refl
  loop-Runs (suc fuel) (stops e) = rw e (inl refl)
  loop-Runs (suc fuel) (goes_on e r) = rw e (loop-Runs fuel r)

  -- A loop that is known to return gives what its rounds lead to.
  pub loop-eq-ok :
      (post : A → Type 0) (fuel : ℕ) {s : S} {a : A}
      → Returns post (loop fuel body s)
      → Runs a s
      → loop fuel body s ≡ ok a
  loop-eq-ok post fuel {s} {a} t r = decide (loop fuel body s) t (loop-Runs fuel r)
    where
      decide :
          (o : Outcome A)
          → Returns post o
          → Returns (λ x. x ≡ a) o ⊎ (o ≡ fault out_of_fuel)
          → o ≡ ok a
      decide (ok x) t (inl e) = rw e
      decide (ok x) t (inr e) = cc
      decide (fault e) t h = absurd t
