-- ===== src/Sfrp/Proxylib/PipelineQueue/Lifetime.antt =====
-- From the constructor of a queue of requests to its destructor: every element is deleted once.
use mathlib.Core.List.{Perm, Nodup, perm_append_comm}
use mathlib.Core.List.Perm
use switchflow.Base.{
  ℕ, zero, suc, ◌+◌, ◌≡◌, List, [], ◌∷◌, ◌++◌, arith, length, length-append, append-nil, Outcome,
  ok, fault, ◌>>=◌,
}
use switchflow.Sfrp.Proxylib.PipelineQueue.{
  pipeline_depth, Queue, Elements, create_elements, create_queue, delete_all, destroy_queue,
}
use switchflow.Sfrp.Proxylib.PipelineQueue.Fifo.{Operation, IsQueue, apply, Steps, apply-Steps}

module _ {S : Type 0} (elements : Elements S) where
  unfoldable pub run : List Operation → Queue → S → Outcome (Queue × S)
  run [] q s = ok (q, s)
  run (op ∷ ops) q s = apply elements op q s >>= λ (q', s'). run ops q' s'

  abbrev pub created : S → List ℕ
  created s = (create_elements elements pipeline_depth [] s).0

  length-create_elements :
      (n : ℕ) (free : List ℕ) (s : S)
      → length (create_elements elements n free s).0 ≡ length free + n
  unfolding create_elements
  length-create_elements zero free s = omega arith
  length-create_elements (suc n) free s = omega (
    arith,
    length-create_elements n (free ++ ((elements.create s).0 ∷ [])) (elements.create s).1,
    length-append free ((elements.create s).0 ∷ []),
  )

  create_queue-IsQueue :
      (s : S) → Nodup (created s) → IsQueue (created s) (create_queue elements s).0
  unfolding create_queue
  create_queue-IsQueue s distinct = record {
    held = Perm.refl (created s);
    distinct = distinct;
    size = omega (arith, length-create_elements pipeline_depth [] s);
  }

  -- From one state to another by deleting these elements, one by one, and by nothing else.
  pub data Deletes : List ℕ → S → S → Type 0 where
    nothing : {s : S} → Deletes [] s s
    one_more :
        {p : ℕ} {ps : List ℕ} {s s' : S}
        → Deletes ps (elements.delete s p) s'
        → Deletes (p ∷ ps) s s'

  delete_all-Deletes :
      (ps qs : List ℕ) (s s' : S)
      → Deletes qs (delete_all elements ps s) s'
      → Deletes (ps ++ qs) s s'
  unfolding delete_all
  delete_all-Deletes [] qs s s' d = d
  delete_all-Deletes (p ∷ ps) qs s s' d =
      one_more (delete_all-Deletes ps qs (elements.delete s p) s' d)

  abbrev pub Destroyed : List ℕ → Outcome (Queue × S) → Type 0
  Destroyed all (ok (q, s)) =
      (ps : List ℕ) × Deletes ps s (destroy_queue elements q s) × Perm ps all
  Destroyed all (fault e) = Unit

  destroy_queue-Destroyed :
      (all : List ℕ) (q : Queue) (s : S) → IsQueue all q → Destroyed all (ok (q, s))
  unfolding destroy_queue
  destroy_queue-Destroyed all q s i = (
    q.free_list ++ (q.active_queue ++ []),
    delete_all-Deletes q.free_list (q.active_queue ++ []) s _
        (delete_all-Deletes q.active_queue [] (delete_all elements q.free_list s) _ nothing),
    rw (append-nil q.active_queue)
        (Perm.trans (perm_append_comm q.free_list q.active_queue) i.held),
  )

  run-Destroyed :
      (all : List ℕ) (ops : List Operation) (q : Queue) (s : S)
      → IsQueue all q
      → Destroyed all (run ops q s)
  unfolding run
  run-Destroyed all [] q s i = destroy_queue-Destroyed all q s i
  run-Destroyed all (op ∷ ops) q s i =
      and_then (λ q' s' i'. run-Destroyed all ops q' s' i') (apply elements op q s)
        (apply-Steps elements all op q s i)
    where
      and_then :
          ((q' : Queue) (s' : S) → IsQueue all q' → Destroyed all (run ops q' s'))
          → (r : Outcome (Queue × S)) → Steps elements all op q r
          → Destroyed all (r >>= λ (q', s'). run ops q' s')
      and_then later (ok (q', s')) h = later q' s' h.0
      and_then later (fault e) h = tt

  -- A queue is constructed with as many elements as its depth. If the factory creates them distinct
  -- from each other, then, whatever operations run on the queue, and if none of them aborts, the
  -- destructor deletes every one of those elements, each once, and does nothing else.
  pub run-lifetime :
      (ops : List Operation) (s : S)
      → Nodup (created s)
      → (length (created s) ≡ pipeline_depth)
        × Destroyed (created s) (run ops (create_queue elements s).0 (create_queue elements s).1)
  run-lifetime ops s distinct = (
    omega (arith, length-create_elements pipeline_depth [] s),
    run-Destroyed (created s) ops (create_queue elements s).0 (create_queue elements s).1
        (create_queue-IsQueue s distinct),
  )
