-- ===== src/Sfrp/Proxylib/PipelineQueue/Fifo.antt =====
-- The queue of requests in flight is a first-in first-out queue of a bounded number of elements, none
-- of which is lost or handed out twice.
use mathlib.Core.List.{Mem, Perm, Nodup, Nodup-cons, perm_middle, perm_append_comm, mem-append_left}
use mathlib.Core.List.Perm
use switchflow.Base.{
  ℕ, ◌+◌, ◌-◌, true, false, ◌==◌, ◌<◌, ◌≡◌, refl, List, [], ◌∷◌, ◌++◌, append_assoc, arith, length,
  length-append, Outcome, ok, fault, ◌>>=◌,
}
use switchflow.Sfrp.Proxylib.PipelineQueue.{
  pipeline_depth, Queue, Elements, is_empty, dequeue_element, queue_element, empty_queue,
}

-- The specification: a queue that an element joins at the end, if there is room, and leaves at the
-- front, and which can be emptied.
pub data Operation : Type 0 where
  queues : Operation
  dequeues : Operation
  empties : Operation

pub data FifoStep : Operation → List ℕ → List ℕ → Type 0 where
  queued :
      (xs : List ℕ) (p : ℕ)
      → length xs < pipeline_depth
      → ¬ Mem p xs
      → FifoStep queues xs (xs ++ (p ∷ []))
  dequeued : (x : ℕ) (xs : List ℕ) → FifoStep dequeues (x ∷ xs) xs
  emptied : (xs : List ℕ) → FifoStep empties xs []

-- All the elements there are, each once.
pub record IsQueue (all : List ℕ) (q : Queue) : Type 0 where
  pub held : Perm (q.active_queue ++ q.free_list) all
  pub distinct : Nodup all
  pub size : length q.active_queue + length q.free_list ≡ pipeline_depth

-- Why an operation aborts.
abbrev pub Refused : Operation → Queue → Type 0
Refused queues q = length q.active_queue ≡ pipeline_depth
Refused dequeues q = q.active_queue ≡ []
Refused empties q = ⊥

is_empty-append : (xs : List ℕ) (p : ℕ) → is_empty (xs ++ (p ∷ [])) ≡ false
is_empty-append [] p = refl
is_empty-append (x ∷ xs) p = refl

not_queued :
    {all xs ps : List ℕ} {p : ℕ}
    → IsQueue all (record { active_queue = xs; free_list = p ∷ ps })
    → ¬ Mem p xs
not_queued {all} {xs} {ps} {p} i m =
    let apart = Perm.nodup (Perm.trans (Perm.symm i.held) (perm_middle xs ps)) i.distinct in
    (Nodup-cons.0 apart).0 (mem-append_left ps m)

module _ {S : Type 0} (elements : Elements S) where
  unfoldable pub apply : Operation → Queue → S → Outcome (Queue × S)
  apply queues q s = queue_element elements q s >>= λ (p, q', s'). ok (q', s')
  apply dequeues q s = dequeue_element q >>= λ q'. ok (q', s)
  apply empties q s = ok (empty_queue q, s)

  abbrev pub Steps : List ℕ → Operation → Queue → Outcome (Queue × S) → Type 0
  Steps all op q (ok (q', s)) = IsQueue all q' × FifoStep op q.active_queue q'.active_queue
  Steps all op q (fault e) = Refused op q

  lists-Steps :
      (all : List ℕ) (op : Operation) (xs ps : List ℕ) (s : S)
      → IsQueue all (record { active_queue = xs; free_list = ps })
      → Steps all op
          (record { active_queue = xs; free_list = ps })
          (apply op (record { active_queue = xs; free_list = ps }) s)
  unfolding apply queue_element dequeue_element empty_queue
  lists-Steps all queues xs [] s i = let size = i.size in omega arith
  lists-Steps all queues xs (p ∷ ps) s i =
      let size = i.size in
      let longer = length-append xs (p ∷ []) in
      let more : (length (xs ++ (p ∷ [])) == length xs + 1) ≡ true = ground arith in
      let fewer : (length ps == length (p ∷ ps) - 1) ≡ true = ground arith in
      let regrouped = append_assoc xs (p ∷ []) ps in
      rw (is_empty-append xs p, more, fewer)
        (
          record { held = rw regrouped i.held; distinct = i.distinct; size = omega arith },
          queued xs p (omega arith) (not_queued i),
        )
  lists-Steps all dequeues [] ps s i = refl
  lists-Steps all dequeues (x ∷ xs) ps s i =
      let size = i.size in
      let fewer : (length xs == length (x ∷ xs) - 1) ≡ true = ground arith in
      let more : (length (x ∷ ps) == length ps + 1) ≡ true = ground arith in
      rw (fewer, more)
        (
          record {
            held = Perm.trans (perm_middle xs ps) i.held;
            distinct = i.distinct;
            size = omega arith;
          },
          dequeued x xs,
        )
  lists-Steps all empties xs ps s i =
      let size = i.size in
      let both = length-append ps xs in
      (
        record {
          held = Perm.trans (perm_append_comm ps xs) i.held;
          distinct = i.distinct;
          size = omega arith;
        },
        emptied xs,
      )

  -- On a queue of distinct elements, as many as its depth, each operation does what the specification
  -- says, with an element that is not in the queue where one joins, and keeps all the elements; it
  -- aborts only where an element is to join a full queue or to leave an empty one.
  pub apply-Steps :
      (all : List ℕ) (op : Operation) (q : Queue) (s : S)
      → IsQueue all q
      → Steps all op q (apply op q s)
  apply-Steps all op q s i = lists-Steps all op q.active_queue q.free_list s i
