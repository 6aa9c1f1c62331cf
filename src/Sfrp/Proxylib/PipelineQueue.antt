-- ===== src/Sfrp/Proxylib/PipelineQueue.antt =====
-- sfrp/proxylib/pipeline_data_queue.{hpp,cpp}: the requests in flight. An element is a pointer, a
-- number here; the objects behind the pointers are a state of any type.
pub mod Fifo
pub mod Lifetime
use switchflow.Base.{
  ℕ, zero, suc, ◌+◌, ◌-◌, Bool, true, false, not, Option, none, some, List, [], ◌∷◌, ◌++◌, ◌==◌,
  length, Outcome, ok, fault, check_failed, ◌>>=◌, ◌>>◌, check_condition,
}

abbrev pub pipeline_depth : ℕ
pipeline_depth = 5

pub record Queue : Type 0 where
  pub active_queue : List ℕ
  pub free_list : List ℕ

abbrev is_empty : List ℕ → Bool
is_empty [] = true
is_empty (x ∷ xs) = false

-- What the queue asks of i_pipeline_data and of its factory.
pub record Elements (S : Type 0) : Type 0 where
  pub create : S → ℕ × S
  pub reset : S → ℕ → S
  pub delete : S → ℕ → S

module _ {S : Type 0} (elements : Elements S) where
  -- The loop of the constructors, over the free list.
  unfoldable pub create_elements : ℕ → List ℕ → S → List ℕ × S
  create_elements zero free s = (free, s)
  create_elements (suc n) free s =
      create_elements n (free ++ ((elements.create s).0 ∷ [])) (elements.create s).1

  unfoldable pub create_queue : S → Queue × S
  unfolding create_elements
  create_queue s =
      let (free, s') = create_elements pipeline_depth [] s in
      (record { active_queue = []; free_list = free }, s')

  -- The copy constructor: a queue of its own from the same factory, if there is one.
  unfoldable pub copy_queue : Bool → S → Outcome (Queue × S)
  unfolding create_queue
  copy_queue has_factory s = do check_condition has_factory; ok (create_queue s)

  unfoldable pub delete_all : List ℕ → S → S
  delete_all [] s = s
  delete_all (p ∷ ps) s = delete_all ps (elements.delete s p)

  -- The destructor, whose two checks are of lists that its loops have emptied.
  unfoldable pub destroy_queue : Queue → S → S
  unfolding delete_all
  destroy_queue q s = delete_all q.active_queue (delete_all q.free_list s)

abbrev pub queue_full : Queue → Bool
queue_full q = is_empty q.free_list

abbrev pub queue_empty : Queue → Bool
queue_empty q = is_empty q.active_queue

-- The first element goes to the front of the free list.
unfoldable pub dequeue_element : Queue → Outcome Queue
dequeue_element q = elim q.active_queue [
  | [] ↦ fault check_failed
  | x ∷ xs ↦
      check_condition (length xs == length q.active_queue - 1)
      >> (check_condition (length (x ∷ q.free_list) == length q.free_list + 1)
          >> ok (record { active_queue = xs; free_list = x ∷ q.free_list }))
]

-- The first free element goes to the end of the queue, reset.
module _ {S : Type 0} (elements : Elements S) where
  unfoldable pub queue_element : Queue → S → Outcome (ℕ × Queue × S)
  queue_element q s = elim q.free_list [
    | [] ↦ fault check_failed
    | p ∷ ps ↦ do
      let active = q.active_queue ++ (p ∷ [])
      let s' = elements.reset s p
      check_condition (not (is_empty active))
      check_condition (length active == length q.active_queue + 1)
      check_condition (length ps == length q.free_list - 1)
      ok (p, record { active_queue = active; free_list = ps }, s')
  ]

unfoldable pub front : Queue → Outcome ℕ
front q = elim q.active_queue [ [] ↦ fault check_failed | x ∷ xs ↦ ok x ]

-- The whole queue goes to the end of the free list.
unfoldable pub empty_queue : Queue → Queue
empty_queue q = record { active_queue = []; free_list = q.free_list ++ q.active_queue }
