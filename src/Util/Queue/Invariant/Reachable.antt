-- ===== src/Util/Queue/Invariant/Reachable.antt =====
-- The invariant of a shared queue holds at the start and is kept by every step.
use Prim.Derive.{subst}
use switchflow.Base.{
  ℕ, zero, suc, ◌+◌, ◌≤◌, ◌≡◌, refl, sym, ap, ◌∙◌, some, List, [], ◌∷◌, ◌++◌, append_assoc, arith,
  get_elem?, set, replicate,
}
use switchflow.Util.Queue.{Shared, Pc, idle}
use switchflow.Util.Queue.System.{
  System, start, pushes, pops, Call, enqueue, dequeue, depth, Step, calls, steps, interrupted,
  Reach, starts, later,
}
use switchflow.Util.Queue.Invariant.{
  reserving, announcing, claiming, releasing, critical, total, Carries, AllCarry, Inv,
}
use switchflow.Util.Queue.Invariant.Effects.{Effect, Effects, step-Effects}

total-set :
    (weight : Pc → ℕ) (ts : List Pc) (i : ℕ) (p p' : Pc)
    → get_elem? ts i ≡ some p
    → total weight (set ts i p') + weight p ≡ total weight ts + weight p'
total-set weight [] i p p' e = cc
total-set weight (t ∷ ts) zero p p' e = let same : t ≡ p = cc in rw (sym same) (omega arith)
total-set weight (t ∷ ts) (suc i) p p' e = let rest = total-set weight ts i p p' e in omega arith

-- A thread weighs no more than all.
pub weight-le-total :
    (weight : Pc → ℕ) (ts : List Pc) (i : ℕ) (p : Pc)
    → get_elem? ts i ≡ some p
    → weight p ≤ total weight ts
weight-le-total weight [] i p e = cc
weight-le-total weight (t ∷ ts) zero p e = let same : t ≡ p = cc in rw (sym same) (omega arith)
weight-le-total weight (t ∷ ts) (suc i) p e =
    let rest = weight-le-total weight ts i p e in omega arith

pub get_elem?-AllCarry :
    (ts : List Pc) (i : ℕ) (p : Pc) → AllCarry ts → get_elem? ts i ≡ some p → Carries p
get_elem?-AllCarry [] i p a e = cc
get_elem?-AllCarry (t ∷ ts) zero p a e = let same : t ≡ p = cc in rw (sym same) a.0
get_elem?-AllCarry (t ∷ ts) (suc i) p a e = get_elem?-AllCarry ts i p a.1 e

AllCarry-set : (ts : List Pc) (i : ℕ) (p : Pc) → AllCarry ts → Carries p → AllCarry (set ts i p)
AllCarry-set [] i p a c = tt
AllCarry-set (t ∷ ts) zero p a c = (c, a.1)
AllCarry-set (t ∷ ts) (suc i) p a c = (a.0, AllCarry-set ts i p a.1 c)

total-replicate : (weight : Pc → ℕ) (n : ℕ) → weight idle ≡ 0 → total weight (replicate n idle) ≡ 0
total-replicate weight zero e = refl
total-replicate weight (suc n) e = let rest = total-replicate weight n e in omega arith

AllCarry-replicate : (n : ℕ) → AllCarry (replicate n idle)
AllCarry-replicate zero = tt
AllCarry-replicate (suc n) = (tt, AllCarry-replicate n)

start-Inv : (size n : ℕ) → Inv size (start size n)
start-Inv size n = record {
  room = omega (arith, total-replicate reserving n refl, total-replicate releasing n refl);
  counted = omega (arith, total-replicate announcing n refl, total-replicate claiming n refl);
  exclusive = total-replicate critical n refl;
  in_order = refl;
  items = tt;
  carried = AllCarry-replicate n;
}

-- A call starts at a place that has no weight and carries nothing.
record IsLight (p : Pc) : Type 0 where
  reserves : reserving p ≡ 0
  announces : announcing p ≡ 0
  claims : claiming p ≡ 0
  releases : releasing p ≡ 0
  is_critical : critical p ≡ 0
  carries : Carries p

Call-IsLight : (p : Pc) → Call p → IsLight p
Call-IsLight p (enqueue item) = ground arith
Call-IsLight p dequeue = ground arith
Call-IsLight p depth = ground arith

module _ {size : ℕ} {s : System} (inv : Inv size s) where
  call-Inv :
      (i : ℕ) (p : Pc)
      → get_elem? s.threads i ≡ some idle
      → IsLight p
      → Inv size (record s { threads = set s.threads i p })
  call-Inv i p at l =
      let room = inv.room in
      let counted = inv.counted in
      let exclusive = inv.exclusive in
      let (reserves, announces) : (reserving p ≡ 0) × (announcing p ≡ 0) =
        (l.reserves, l.announces) in
      let (claims, releases) : (claiming p ≡ 0) × (releasing p ≡ 0) = (l.claims, l.releases) in
      let is_critical = l.is_critical in
      let reserved = total-set reserving s.threads i idle p at in
      let announced = total-set announcing s.threads i idle p at in
      let claimed = total-set claiming s.threads i idle p at in
      let released = total-set releasing s.threads i idle p at in
      let entered = total-set critical s.threads i idle p at in
      record {
        room = omega arith;
        counted = omega arith;
        exclusive = omega arith;
        in_order = inv.in_order;
        items = inv.items;
        carried = AllCarry-set s.threads i p inv.carried l.carries;
      }

  step-Inv :
      (i : ℕ) (p p' : Pc) (shared : Shared)
      → get_elem? s.threads i ≡ some p
      → Effect p s.shared p' shared
      → Inv size (record {
        shared = shared;
        threads = set s.threads i p';
        pushed = s.pushed ++ pushes p;
        popped = s.popped ++ pops p p';
      })
  step-Inv i p p' shared at f =
      let room = inv.room in
      let counted = inv.counted in
      let exclusive = inv.exclusive in
      let room' = f.room in
      let counted' = f.counted in
      let exclusive' = f.exclusive in
      let reserved = total-set reserving s.threads i p p' at in
      let announced = total-set announcing s.threads i p p' at in
      let claimed = total-set claiming s.threads i p p' at in
      let released = total-set releasing s.threads i p p' at in
      let entered = total-set critical s.threads i p p' at in
      record {
        room = omega arith;
        counted = omega arith;
        exclusive = omega arith;
        in_order = rw inv.in_order (
            append_assoc s.popped s.shared.list (pushes p)
            ∙ (ap (λ t. s.popped ++ t) f.in_order
                ∙ sym (append_assoc s.popped (pops p p') shared.list)));
        items = f.items;
        carried = AllCarry-set s.threads i p' inv.carried f.carried;
      }

Step-Inv : {size : ℕ} {s t : System} → Step s t → Inv size s → Inv size t
Step-Inv {s = s} (calls i {p} at c) inv = call-Inv inv i p at (Call-IsLight p c)
Step-Inv {s = s} (steps i {p} {p'} {shared} at st) inv =
    let entered = weight-le-total critical s.threads i p at in
    let exclusive = inv.exclusive in
    step-Inv inv i p p' shared at (
      subst (λ r. Effects p s.shared r) st
        (step-Effects p s.shared (omega arith) inv.items
          (get_elem?-AllCarry s.threads i p inv.carried at)))
Step-Inv interrupted inv = inv

-- In every state that threads can bring about from a new queue: the places that are free, reserved,
-- taken and about to be free again are as many as the queue was made for; the items in the list are
-- those that the semaphore counts, is about to count, and has promised; as many threads as the mutex
-- says are between lock and unlock; and the items pushed are, in order, those popped and those in
-- the list, none of them null.
pub Reach-Inv : {size n : ℕ} {s : System} → Reach size n s → Inv size s
Reach-Inv {size} {n} starts = start-Inv size n
Reach-Inv (later r st) = Step-Inv st (Reach-Inv r)
