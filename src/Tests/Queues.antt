-- ===== src/Tests/Queues.antt =====
-- Runs of the queue of requests in flight, with pointers that are counted up.
use mathlib.Core.Logic.Or
use mathlib.Core.List.{Mem, Nodup, Nodup-cons, Nodup-nil, mem-cons, not-mem-nil}
use mathlib.Core.List.Perm
use native.Mathlib.Bridge.{le_prop}
use switchflow.Base.{ℕ, ◌+◌, ◌≤◌, ◌≡◌, refl, List, [], ◌∷◌, arith, length, Returns}
use switchflow.Sfrp.Proxylib.PipelineQueue.{
  pipeline_depth, Queue, Elements, create_queue, create_elements, queue_element, dequeue_element,
}
use switchflow.Sfrp.Proxylib.PipelineQueue.Fifo.{
  queues, dequeues, IsQueue, apply, Steps, apply-Steps,
}
use switchflow.Sfrp.Proxylib.PipelineQueue.Lifetime.{created, run, Destroyed, run-lifetime}

-- Counts the elements that it creates, and lists those that it deletes.
abbrev heap : Elements (ℕ × List ℕ)
heap = record {
  create = λ s. (s.0, (s.0 + 1, s.1));
  reset = λ s p. s;
  delete = λ s p. (s.0, p ∷ s.1);
}

abbrev pub Increasing : ℕ → List ℕ → Type 0
Increasing n [] = Unit
Increasing n (x ∷ xs) = (n ≤ x) × Increasing (x + 1) xs

le_of_mem-Increasing : {a : ℕ} (n : ℕ) (xs : List ℕ) → Increasing n xs → Mem a xs → n ≤ a
le_of_mem-Increasing n [] h m = absurd (not-mem-nil m)
le_of_mem-Increasing {a} n (x ∷ xs) h m =
    let first = h.0 in
    Or.elim le_prop (mem-cons.0 m) (λ e. rw e first)
      (λ k. let later = le_of_mem-Increasing (x + 1) xs h.1 k in omega arith)

pub Increasing-Nodup : (n : ℕ) (xs : List ℕ) → Increasing n xs → Nodup xs
Increasing-Nodup n [] h = Nodup-nil
Increasing-Nodup n (x ∷ xs) h = Nodup-cons.1 (
  (λ m. let later = le_of_mem-Increasing (x + 1) xs h.1 m in absurd (omega arith)),
  Increasing-Nodup (x + 1) xs h.1,
)

abbrev five : List ℕ
five = 0 ∷ 1 ∷ 2 ∷ 3 ∷ 4 ∷ []

five-Nodup : Nodup five
five-Nodup = Increasing-Nodup 0 five (ground arith)

created-Nodup : Nodup (created heap (0, []))
unfolding create_elements
created-Nodup = five-Nodup

abbrev half_full : Queue
half_full = record { active_queue = 0 ∷ 1 ∷ []; free_list = 2 ∷ 3 ∷ 4 ∷ [] }

half_full-IsQueue : IsQueue five half_full
half_full-IsQueue = record { held = Perm.refl five; distinct = five-Nodup; size = refl }

apply-Steps_example : Steps heap five queues half_full (apply heap queues half_full (5, []))
apply-Steps_example = apply-Steps heap five queues half_full (5, []) half_full-IsQueue

run-lifetime_example :
    (length (created heap (0, [])) ≡ pipeline_depth)
    × Destroyed heap (created heap (0, [])) (
        run heap
          (queues ∷ queues ∷ dequeues ∷ [])
          (create_queue heap (0, [])).0
          (create_queue heap (0, [])).1)
run-lifetime_example = run-lifetime heap (queues ∷ queues ∷ dequeues ∷ []) (0, []) created-Nodup

queue_order :
    Returns
      (λ a. (a.0.active_queue ≡ 1 ∷ []) × (a.0.free_list ≡ 0 ∷ 2 ∷ 3 ∷ 4 ∷ []))
      (run heap
        (queues ∷ queues ∷ dequeues ∷ [])
        (create_queue heap (0, [])).0
        (create_queue heap (0, [])).1)
unfolding run apply create_queue queue_element dequeue_element
queue_order = (refl {a = 1 ∷ []}, refl {a = 0 ∷ 2 ∷ 3 ∷ 4 ∷ []})
