-- ===== src/Util/Queue/Invariant.antt =====
-- What holds of a shared queue in every state that its threads can bring about.
pub mod Effects
pub mod Reachable
use Prim.Derive.{subst}
use switchflow.Base.{
  ℕ, zero, suc, ◌+◌, ◌≤◌, ◌<◌, ◌≡◌, ◌≢◌, refl, sym, ap, ◌∙◌, Bool, true, false, not, Bool-cases,
  inl, inr, Option, none, some, List, [], ◌∷◌, ◌++◌, append_assoc, append-nil, arith, ◌==◌, length,
  length-append, get_elem?, set, replicate, Outcome, ok, fault,
}
use switchflow.Util.Queue.{
  Shared, create, Pc, idle, enqueue_check, enqueue_wait, enqueue_lock, enqueue_push, enqueue_unlock,
  enqueue_post, dequeue_wait, dequeue_lock, dequeue_pop, dequeue_unlock, dequeue_post, depth_lock,
  depth_read, depth_unlock, wait, pop, step,
}
use switchflow.Util.Queue.System.{
  System, start, pushes, pops, Call, enqueue, dequeue, depth, Step, calls, steps, interrupted,
  Reach, starts, later,
}

-- Threads that have taken a place and not yet pushed.
abbrev pub reserving : Pc → ℕ
reserving (enqueue_lock item) = 1
reserving (enqueue_push item) = 1
reserving _ = 0

-- Those that have pushed an item and not yet said so.
abbrev pub announcing : Pc → ℕ
announcing enqueue_unlock = 1
announcing enqueue_post = 1
announcing _ = 0

-- Those that have been promised an item and not yet popped it.
abbrev pub claiming : Pc → ℕ
claiming dequeue_lock = 1
claiming dequeue_pop = 1
claiming _ = 0

-- Those that have popped an item and not yet given its place back.
abbrev pub releasing : Pc → ℕ
releasing (dequeue_unlock item) = 1
releasing (dequeue_post item) = 1
releasing _ = 0

-- Those that have the mutex.
abbrev pub critical : Pc → ℕ
critical (enqueue_push item) = 1
critical enqueue_unlock = 1
critical dequeue_pop = 1
critical (dequeue_unlock item) = 1
critical depth_read = 1
critical (depth_unlock n) = 1
critical _ = 0

abbrev pub held : Bool → ℕ
held true = 1
held false = 0

abbrev pub total : (Pc → ℕ) → List Pc → ℕ
total weight [] = 0
total weight (p ∷ ps) = weight p + total weight ps

-- No null pointers.
abbrev pub AllItems : List ℕ → Type 0
AllItems [] = Unit
AllItems (x ∷ xs) = (x ≢ 0) × AllItems xs

abbrev pub Carries : Pc → Type 0
Carries (enqueue_wait item) = item ≢ 0
Carries (enqueue_lock item) = item ≢ 0
Carries (enqueue_push item) = item ≢ 0
Carries _ = Unit

abbrev pub AllCarry : List Pc → Type 0
AllCarry [] = Unit
AllCarry (p ∷ ps) = Carries p × AllCarry ps

pub record Inv (size : ℕ) (s : System) : Type 0 where
  pub room :
      s.shared.full + total reserving s.threads + length s.shared.list + total releasing s.threads
      ≡ size
  pub counted :
      length s.shared.list ≡ s.shared.empty + total announcing s.threads + total claiming s.threads
  pub exclusive : total critical s.threads ≡ held s.shared.queue_mutex
  pub in_order : s.pushed ≡ s.popped ++ s.shared.list
  pub items : AllItems s.shared.list
  pub carried : AllCarry s.threads
