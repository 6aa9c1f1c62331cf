-- ===== src/Util/Queue/Progress.antt =====
-- The threads of a shared queue never wait for each other: if none can go on, those in a call wait for
-- room in a full queue, or for an item in an empty one.
use switchflow.Base.{
  ℕ, zero, suc, ◌≡◌, refl, Bool, true, false, Bool-cases, inl, inr, ◌⊎◌, Option, none, some, List,
  [], ◌∷◌, arith, ◌==◌, length, get_elem?, Outcome, ok, fault,
}
use switchflow.Util.Queue.{
  Shared, Pc, idle, enqueue_check, enqueue_wait, enqueue_lock, enqueue_push, enqueue_unlock,
  enqueue_post, dequeue_wait, dequeue_lock, dequeue_pop, dequeue_unlock, dequeue_post, depth_lock,
  depth_read, depth_unlock, wait, lock, pop, step,
}
use switchflow.Util.Queue.System.{System, Reach}
use switchflow.Util.Queue.Invariant.{
  reserving, announcing, claiming, releasing, critical, held, total,
}
use switchflow.Util.Queue.Invariant.Reachable.{Reach-Inv}

-- A thread that may go on: its step is neither a wait nor outside a call.
abbrev pub may_go : Outcome (Option (Pc × Shared)) → Bool
may_go (ok none) = false
may_go (ok (some r)) = true
may_go (fault e) = true

-- What a thread that can not go on waits for.
abbrev pub Blocked : ℕ → List ℕ → Pc → Type 0
Blocked size list idle = Unit
Blocked size list (enqueue_wait item) = length list ≡ size
Blocked size list dequeue_wait = list ≡ []
Blocked size list _ = ⊥

abbrev pub AllBlocked : ℕ → List ℕ → List Pc → Type 0
AllBlocked size list [] = Unit
AllBlocked size list (p ∷ ps) = Blocked size list p × AllBlocked size list ps

wait-zero : (n : ℕ) (next : ℕ → Pc × Shared) → may_go (wait n next) ≡ false → n ≡ 0
wait-zero zero next h = refl
wait-zero (suc n) next h = cc

lock_taken : (s : Shared) (next : Pc) → s.queue_mutex ≡ false → may_go (lock s next) ≡ true
lock_taken s next e = ground arith

pop_goes : {A : Type 0} (xs : List ℕ) (s : Shared) → may_go (pop xs s) ≡ false → A
pop_goes [] s h = cc
pop_goes (x ∷ xs) s h = elim (Bool-cases (x == 0)) [
  | inl e ↦ let goes : may_go (pop (x ∷ xs) s) ≡ true = rw e refl in cc
  | inr e ↦ let goes : may_go (pop (x ∷ xs) s) ≡ true = rw e refl in cc
]

check_goes : {A : Type 0} (item : ℕ) (s : Shared) → may_go (step (enqueue_check item) s) ≡ false → A
unfolding step
check_goes item s h = elim (Bool-cases (item == 0)) [
  | inl e ↦ let goes : may_go (step (enqueue_check item) s) ≡ true = rw e refl in cc
  | inr e ↦ let goes : may_go (step (enqueue_check item) s) ≡ true = rw e refl in cc
]

-- A thread that can not go on has not the mutex,
wait-critical : (p : Pc) (s : Shared) → may_go (step p s) ≡ false → critical p ≡ 0
unfolding step
wait-critical idle s h = refl
wait-critical (enqueue_check item) s h = refl
wait-critical (enqueue_wait item) s h = refl
wait-critical (enqueue_lock item) s h = refl
wait-critical (enqueue_push item) s h = cc
wait-critical enqueue_unlock s h = cc
wait-critical enqueue_post s h = refl
wait-critical dequeue_wait s h = refl
wait-critical dequeue_lock s h = refl
wait-critical dequeue_pop s h = pop_goes s.list s h
wait-critical (dequeue_unlock item) s h = cc
wait-critical (dequeue_post item) s h = refl
wait-critical depth_lock s h = refl
wait-critical depth_read s h = cc
wait-critical (depth_unlock n) s h = cc

-- and if no thread has it, it is outside a call or waits for a semaphore.
record Waits (s : Shared) (p : Pc) : Type 0 where
  reserves : reserving p ≡ 0
  announces : announcing p ≡ 0
  claims : claiming p ≡ 0
  releases : releasing p ≡ 0
  blocked :
      (size : ℕ)
      → (s.full ≡ 0 → length s.list ≡ size)
      → (s.empty ≡ 0 → s.list ≡ [])
      → Blocked size s.list p

step-Waits : (p : Pc) (s : Shared) → s.queue_mutex ≡ false → may_go (step p s) ≡ false → Waits s p
unfolding step
step-Waits idle s e h = ground arith
step-Waits (enqueue_check item) s e h = check_goes item s h
step-Waits (enqueue_wait item) s e h =
    let none_left = wait-zero s.full (λ n. (enqueue_lock item, record s { full = n })) h in
    ground arith
step-Waits (enqueue_lock item) s e h = let free = lock_taken s (enqueue_push item) e in cc
step-Waits (enqueue_push item) s e h = cc
step-Waits enqueue_unlock s e h = cc
step-Waits enqueue_post s e h = cc
step-Waits dequeue_wait s e h =
    let none_there = wait-zero s.empty (λ n. (dequeue_lock, record s { empty = n })) h in
    ground arith
step-Waits dequeue_lock s e h = let free = lock_taken s dequeue_pop e in cc
step-Waits dequeue_pop s e h = pop_goes s.list s h
step-Waits (dequeue_unlock item) s e h = cc
step-Waits (dequeue_post item) s e h = cc
step-Waits depth_lock s e h = let free = lock_taken s depth_read e in cc
step-Waits depth_read s e h = cc
step-Waits (depth_unlock n) s e h = cc

abbrev AllStill : Shared → List Pc → Type 0
AllStill s [] = Unit
AllStill s (p ∷ ps) = (may_go (step p s) ≡ false) × AllStill s ps

-- A thread that may go on, by its place.
abbrev pub Going : Shared → List Pc → Type 0
Going s ts = (i : ℕ) × (p : Pc) × (get_elem? ts i ≡ some p) × (may_go (step p s) ≡ true)

scan : (s : Shared) (ts : List Pc) → Going s ts ⊎ AllStill s ts
scan s [] = inr tt
scan s (p ∷ ps) = elim (Bool-cases (may_go (step p s))) [
  | inl e ↦ inl (0, p, refl, e)
  | inr e ↦ elim (scan s ps) [
    | inl (i, q, at, f) ↦ inl (suc i, q, at, f)
    | inr still ↦ inr (e, still)
  ]
]

AllStill-critical : (s : Shared) (ts : List Pc) → AllStill s ts → total critical ts ≡ 0
AllStill-critical s [] h = refl
AllStill-critical s (p ∷ ps) h =
    let first = wait-critical p s h.0 in let others = AllStill-critical s ps h.1 in omega arith

record AllWait (s : Shared) (ts : List Pc) : Type 0 where
  reserves : total reserving ts ≡ 0
  announces : total announcing ts ≡ 0
  claims : total claiming ts ≡ 0
  releases : total releasing ts ≡ 0
  blocked :
      (size : ℕ)
      → (s.full ≡ 0 → length s.list ≡ size)
      → (s.empty ≡ 0 → s.list ≡ [])
      → AllBlocked size s.list ts

AllStill-AllWait :
    (s : Shared) (ts : List Pc) → s.queue_mutex ≡ false → AllStill s ts → AllWait s ts
AllStill-AllWait s [] e h = record {
  reserves = refl;
  announces = refl;
  claims = refl;
  releases = refl;
  blocked = λ size f g. tt;
}
AllStill-AllWait s (p ∷ ps) e h =
    let w = step-Waits p s e h.0 in
    let ws = AllStill-AllWait s ps e h.1 in
    record {
      reserves =
          let (a, b) : (reserving p ≡ 0) × (total reserving ps ≡ 0) = (w.reserves, ws.reserves) in
          omega arith;
      announces =
          let (a, b) : (announcing p ≡ 0) × (total announcing ps ≡ 0) =
            (w.announces, ws.announces) in
          omega arith;
      claims =
          let (a, b) : (claiming p ≡ 0) × (total claiming ps ≡ 0) = (w.claims, ws.claims) in
          omega arith;
      releases =
          let (a, b) : (releasing p ≡ 0) × (total releasing ps ≡ 0) = (w.releases, ws.releases) in
          omega arith;
      blocked = λ size f g. (w.blocked size f g, ws.blocked size f g);
    }

free_mutex : (b : Bool) → held b ≡ 0 → b ≡ false
free_mutex true h = cc
free_mutex false h = refl

none_listed : (xs : List ℕ) → length xs ≡ 0 → xs ≡ []
none_listed [] h = refl
none_listed (x ∷ xs) h = cc

-- In every state that threads can bring about from a new queue, a thread may go on with its call (if
-- only to abort, where it enqueues null), or every thread is outside a call or waits for a semaphore:
-- in `enqueue`, and the list is as long as the queue was made for, or in `dequeue`, and it is empty.
pub Reach-progresses :
    {size n : ℕ} {s : System}
    → Reach size n s
    → Going s.shared s.threads ⊎ AllBlocked size s.shared.list s.threads
Reach-progresses {size} {n} {s} r =
    let inv = Reach-Inv r in
    let room = inv.room in
    let counted = inv.counted in
    let exclusive = inv.exclusive in
    elim (scan s.shared s.threads) [
      | inl going ↦ inl going
      | inr still ↦
          let none_inside = AllStill-critical s.shared s.threads still in
          let free = free_mutex s.shared.queue_mutex (omega arith) in
          let w = AllStill-AllWait s.shared s.threads free still in
          let (reserves, releases) : (total reserving s.threads ≡ 0)
              × (total releasing s.threads ≡ 0) =
            (w.reserves, w.releases) in
          let (announces, claims) : (total announcing s.threads ≡ 0)
              × (total claiming s.threads ≡ 0) =
            (w.announces, w.claims) in
          inr (w.blocked size (λ e. omega arith) (λ e. none_listed s.shared.list (omega arith)))
    ]
