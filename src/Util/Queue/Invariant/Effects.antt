-- ===== src/Util/Queue/Invariant/Effects.antt =====
-- What one step of a thread does to the counts of the invariant.
use switchflow.Base.{
  ℕ, zero, suc, ◌+◌, ◌≤◌, ◌≡◌, ◌≢◌, refl, ◌∙◌, Bool-cases, inl, inr, Option, some, List, [], ◌∷◌,
  ◌++◌, append-nil, arith, ◌==◌, length, length-append, Outcome, ok,
}
use switchflow.Util.Queue.{
  Shared, Pc, idle, enqueue_check, enqueue_wait, enqueue_lock, enqueue_push, enqueue_unlock,
  enqueue_post, dequeue_wait, dequeue_lock, dequeue_pop, dequeue_unlock, dequeue_post, depth_lock,
  depth_read, depth_unlock, wait, pop, step,
}
use switchflow.Util.Queue.System.{pushes, pops}
use switchflow.Util.Queue.Invariant.{
  reserving, announcing, claiming, releasing, critical, held, AllItems, Carries,
}

-- What one step of a thread does to the counts.
pub record Effect (p : Pc) (s : Shared) (p' : Pc) (s' : Shared) : Type 0 where
  pub room :
      s'.full + reserving p' + length s'.list + releasing p'
      ≡ s.full + reserving p + length s.list + releasing p
  pub counted :
      length s'.list + s.empty + announcing p + claiming p
      ≡ length s.list + s'.empty + announcing p' + claiming p'
  pub exclusive : critical p' + held s.queue_mutex ≡ critical p + held s'.queue_mutex
  pub in_order : s.list ++ pushes p ≡ pops p p' ++ s'.list
  pub items : AllItems s'.list
  pub carried : Carries p'

abbrev pub Effects : Pc → Shared → Outcome (Option (Pc × Shared)) → Type 0
Effects p s (ok (some (p', s'))) = Effect p s p' s'
Effects p s _ = Unit

AllItems-append : (xs : List ℕ) (x : ℕ) → AllItems xs → x ≢ 0 → AllItems (xs ++ (x ∷ []))
AllItems-append [] x a h = (h, tt)
AllItems-append (y ∷ xs) x a h = (a.0, AllItems-append xs x a.1 h)

enqueue_wait-Effects :
    (item n : ℕ) (s : Shared)
    → s.full ≡ n
    → AllItems s.list
    → item ≢ 0
    → Effects (enqueue_wait item) s (wait n (λ k. (enqueue_lock item, record s { full = k })))
enqueue_wait-Effects item zero s e a c = tt
enqueue_wait-Effects item (suc n) s e a c = let same = append-nil s.list in ground arith

dequeue_wait-Effects :
    (n : ℕ) (s : Shared)
    → s.empty ≡ n
    → AllItems s.list
    → Effects dequeue_wait s (wait n (λ k. (dequeue_lock, record s { empty = k })))
dequeue_wait-Effects zero s e a = tt
dequeue_wait-Effects (suc n) s e a = let same = append-nil s.list in ground arith

dequeue_pop-Effects :
    (xs : List ℕ) (s : Shared) → s.list ≡ xs → AllItems xs → Effects dequeue_pop s (pop xs s)
dequeue_pop-Effects [] s e a = tt
dequeue_pop-Effects (x ∷ xs) s e a = elim (Bool-cases (x == 0)) [
  | inl e₀ ↦ rw e₀ tt
  | inr e₀ ↦ let longer : s.list ++ [] ≡ x ∷ xs = append-nil s.list ∙ e in rw e₀ (ground arith)
]

pub step-Effects :
    (p : Pc) (s : Shared)
    → critical p ≤ held s.queue_mutex
    → AllItems s.list
    → Carries p
    → Effects p s (step p s)
unfolding step
step-Effects idle s h a c = tt
step-Effects (enqueue_check item) s h a c = elim (Bool-cases (item == 0)) [
  | inl e ↦ rw e tt
  | inr e ↦ let same = append-nil s.list in rw e (ground arith)
]
step-Effects (enqueue_wait item) s h a c = enqueue_wait-Effects item s.full s refl a c
step-Effects (enqueue_lock item) s h a c = let same = append-nil s.list in ground arith
step-Effects (enqueue_push item) s h a c =
    let longer = length-append s.list (item ∷ []) in
    let more = AllItems-append s.list item a c in ground arith
step-Effects enqueue_unlock s h a c = let same = append-nil s.list in ground arith
step-Effects enqueue_post s h a c = let same = append-nil s.list in ground arith
step-Effects dequeue_wait s h a c = dequeue_wait-Effects s.empty s refl a
step-Effects dequeue_lock s h a c = let same = append-nil s.list in ground arith
step-Effects dequeue_pop s h a c = dequeue_pop-Effects s.list s refl a
step-Effects (dequeue_unlock item) s h a c = let same = append-nil s.list in ground arith
step-Effects (dequeue_post item) s h a c = let same = append-nil s.list in ground arith
step-Effects depth_lock s h a c = let same = append-nil s.list in ground arith
step-Effects depth_read s h a c = let same = append-nil s.list in ground arith
step-Effects (depth_unlock n) s h a c = let same = append-nil s.list in ground arith
