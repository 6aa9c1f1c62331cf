-- ===== src/Util/Queue.antt =====
-- switchflow/util/queue.{hpp,cpp}: a queue that threads share, with two semaphores and a mutex. A
-- thread is where it stands in its call, and each of its steps is one call of the system, or what it
-- does to the list between two of them.
pub mod System
pub mod Invariant
pub mod Safety
pub mod Progress
use switchflow.Base.{
  ℕ, zero, suc, Bool, true, false, not, Option, none, some, List, [], ◌∷◌, ◌++◌, ◌==◌, length,
  Outcome, ok, fault, ◌>>=◌, ◌>>◌, check_condition, check_failed,
}

-- The members, less what `sem_t` and `pthread_mutex_t` hold beside their value. An item is a
-- pointer, 0 for a null pointer.
pub record Shared : Type 0 where
  pub full : ℕ
  pub empty : ℕ
  pub queue_mutex : Bool
  pub list : List ℕ

abbrev pub create : ℕ → Shared
create size = record { full = size; empty = 0; queue_mutex = false; list = [] }

-- Where a thread stands: outside, or in front of the next step of `enqueue`, `dequeue` or `depth`.
pub data Pc : Type 0 where
  idle : Pc
  enqueue_check : ℕ → Pc
  enqueue_wait : ℕ → Pc
  enqueue_lock : ℕ → Pc
  enqueue_push : ℕ → Pc
  enqueue_unlock : Pc
  enqueue_post : Pc
  dequeue_wait : Pc
  dequeue_lock : Pc
  dequeue_pop : Pc
  dequeue_unlock : ℕ → Pc
  dequeue_post : ℕ → Pc
  depth_lock : Pc
  depth_read : Pc
  depth_unlock : ℕ → Pc

-- `sem_wait`, which waits while the value is 0.
abbrev pub wait : ℕ → (ℕ → Pc × Shared) → Outcome (Option (Pc × Shared))
wait zero next = ok none
wait (suc n) next = ok (some (next n))

-- `pthread_mutex_lock`, which waits while another thread has the mutex.
abbrev pub lock : Shared → Pc → Outcome (Option (Pc × Shared))
lock s next = elim s.queue_mutex [
  | true ↦ ok none
  | false ↦ ok (some (next, record s { queue_mutex = true }))
]

abbrev unlock : Shared → Shared
unlock s = record s { queue_mutex = false }

-- `list_.front()` and `list_.pop_front()`, behind their checks.
abbrev pub pop : List ℕ → Shared → Outcome (Option (Pc × Shared))
pop [] s = fault check_failed
pop (item ∷ items) s =
    check_condition (not (item == 0)) >> ok (some (dequeue_unlock item, record s { list = items }))

-- The next step of a thread; `none` if it has to wait. The steps behind `sem_wait` are those of a
-- call that was not interrupted.
unfoldable pub step : Pc → Shared → Outcome (Option (Pc × Shared))
step idle s = ok none
step (enqueue_check item) s = check_condition (not (item == 0)) >> ok (some (enqueue_wait item, s))
step (enqueue_wait item) s = wait s.full (λ n. (enqueue_lock item, record s { full = n }))
step (enqueue_lock item) s = lock s (enqueue_push item)
step (enqueue_push item) s = ok (some (enqueue_unlock, record s { list = s.list ++ (item ∷ []) }))
step enqueue_unlock s = ok (some (enqueue_post, unlock s))
step enqueue_post s = ok (some (idle, record s { empty = suc s.empty }))
step dequeue_wait s = wait s.empty (λ n. (dequeue_lock, record s { empty = n }))
step dequeue_lock s = lock s dequeue_pop
step dequeue_pop s = pop s.list s
step (dequeue_unlock item) s = ok (some (dequeue_post item, unlock s))
step (dequeue_post item) s = ok (some (idle, record s { full = suc s.full }))
step depth_lock s = lock s depth_read
step depth_read s = ok (some (depth_unlock (length s.list), s))
step (depth_unlock n) s = ok (some (idle, unlock s))
