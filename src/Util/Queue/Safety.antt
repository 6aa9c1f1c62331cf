-- ===== src/Util/Queue/Safety.antt =====
-- No check of a shared queue fails, and no two threads are at its list at once.
use switchflow.Base.{
  ℕ, zero, suc, ◌+◌, ◌≤◌, ◌<◌, ◌≡◌, sym, ap, Bool, true, false, Bool-cases, inl, inr, Option, some,
  List, [], ◌∷◌, arith, ◌==◌, length, get_elem?, Outcome, ok, fault,
}
use switchflow.Util.Queue.{
  Shared, Pc, idle, enqueue_check, enqueue_wait, enqueue_lock, enqueue_push, enqueue_unlock,
  enqueue_post, dequeue_wait, dequeue_lock, dequeue_pop, dequeue_unlock, dequeue_post, depth_lock,
  depth_read, depth_unlock, wait, lock, pop, step,
}
use switchflow.Util.Queue.System.{System, Reach}
use switchflow.Util.Queue.Invariant.{claiming, critical, held, total, AllItems}
use switchflow.Util.Queue.Invariant.Reachable.{weight-le-total, Reach-Inv}

-- A step aborts only where null is enqueued.
abbrev pub Goes : Pc → Outcome (Option (Pc × Shared)) → Type 0
Goes p (ok r) = Unit
Goes p (fault e) = p ≡ enqueue_check 0

wait-Goes : (p : Pc) (n : ℕ) (next : ℕ → Pc × Shared) → Goes p (wait n next)
wait-Goes p zero next = tt
wait-Goes p (suc n) next = tt

lock-Goes : (p : Pc) (s : Shared) (next : Pc) → Goes p (lock s next)
lock-Goes p s next = ground arith

pop-Goes : (xs : List ℕ) (s : Shared) → 0 < length xs → AllItems xs → Goes dequeue_pop (pop xs s)
pop-Goes [] s h a = absurd (omega arith)
pop-Goes (x ∷ xs) s h a = elim (Bool-cases (x == 0)) [
  | inl e ↦ absurd (a.0 (ground arith))
  | inr e ↦ rw e tt
]

check-Goes : (item : ℕ) (s : Shared) → Goes (enqueue_check item) (step (enqueue_check item) s)
unfolding step
check-Goes item s = elim (Bool-cases (item == 0)) [
  | inl e ↦ let null : item ≡ 0 = ground arith in rw e (ap enqueue_check null)
  | inr e ↦ rw e tt
]

step-Goes : (p : Pc) (s : Shared) → claiming p ≤ length s.list → AllItems s.list → Goes p (step p s)
unfolding step
step-Goes idle s h a = tt
step-Goes (enqueue_check item) s h a = check-Goes item s
step-Goes (enqueue_wait item) s h a =
    wait-Goes (enqueue_wait item) s.full (λ n. (enqueue_lock item, record s { full = n }))
step-Goes (enqueue_lock item) s h a = lock-Goes (enqueue_lock item) s (enqueue_push item)
step-Goes (enqueue_push item) s h a = tt
step-Goes enqueue_unlock s h a = tt
step-Goes enqueue_post s h a = tt
step-Goes dequeue_wait s h a =
    wait-Goes dequeue_wait s.empty (λ n. (dequeue_lock, record s { empty = n }))
step-Goes dequeue_lock s h a = lock-Goes dequeue_lock s dequeue_pop
step-Goes dequeue_pop s h a = pop-Goes s.list s h a
step-Goes (dequeue_unlock item) s h a = tt
step-Goes (dequeue_post item) s h a = tt
step-Goes depth_lock s h a = lock-Goes depth_lock s depth_read
step-Goes depth_read s h a = tt
step-Goes (depth_unlock n) s h a = tt

two-le-total :
    (weight : Pc → ℕ) (ts : List Pc) (i j : ℕ) (p q : Pc)
    → i < j
    → get_elem? ts i ≡ some p
    → get_elem? ts j ≡ some q
    → weight p + weight q ≤ total weight ts
two-le-total weight [] i j p q h e f = cc
two-le-total weight (t ∷ ts) zero zero p q h e f = absurd (omega arith)
two-le-total weight (t ∷ ts) zero (suc j) p q h e f =
    let same : t ≡ p = cc in
    let rest = weight-le-total weight ts j q f in rw (sym same) (omega arith)
two-le-total weight (t ∷ ts) (suc i) zero p q h e f = absurd (omega arith)
two-le-total weight (t ∷ ts) (suc i) (suc j) p q h e f =
    let rest = two-le-total weight ts i j p q (omega arith) e f in omega arith

pub record IsSafe (size : ℕ) (s : System) : Type 0 where
  pub bounded : length s.shared.list ≤ size
  pub goes : (i : ℕ) (p : Pc) → get_elem? s.threads i ≡ some p → Goes p (step p s.shared)
  pub apart :
      (i j : ℕ) (p q : Pc)
      → i < j
      → get_elem? s.threads i ≡ some p
      → get_elem? s.threads j ≡ some q
      → critical p + critical q ≤ 1

held-le-one : (b : Bool) → held b ≤ 1
held-le-one true = omega arith
held-le-one false = omega arith

-- In every state that threads can bring about from a new queue, the list is no longer than the queue
-- was made for; no thread is about to abort, as by popping from an empty list or popping null, but
-- one that enqueues null; and of two threads one at most is between lock and unlock.
pub Reach-IsSafe : {size n : ℕ} {s : System} → Reach size n s → IsSafe size s
Reach-IsSafe {size} {n} {s} r =
    let inv = Reach-Inv r in
    let room = inv.room in
    let counted = inv.counted in
    let exclusive = inv.exclusive in
    let one = held-le-one s.shared.queue_mutex in
    record {
      bounded = omega arith;
      goes = λ i p at.
          let claims = weight-le-total claiming s.threads i p at in
          step-Goes p s.shared (omega arith) inv.items;
      apart =
          λ i j p q h e f. let both = two-le-total critical s.threads i j p q h e f in omega arith;
    }
