-- ===== src/Tests/Threads.antt =====
-- Two threads on a shared queue, after a few steps.
use switchflow.Base.{refl, ◌⊎◌, false, [], ◌∷◌}
use switchflow.Util.Queue.{enqueue_check, enqueue_wait, enqueue_lock, dequeue_wait, step}
use switchflow.Util.Queue.System.{System, enqueue, dequeue, calls, steps, Reach, starts, later}
use switchflow.Util.Queue.Invariant.{Inv}
use switchflow.Util.Queue.Invariant.Reachable.{Reach-Inv}
use switchflow.Util.Queue.Safety.{IsSafe, Reach-IsSafe}
use switchflow.Util.Queue.Progress.{Going, AllBlocked, Reach-progresses}

-- The first thread has taken a place for item 7, and the second waits for an item.
abbrev busy : System
busy = record {
  shared = record { full = 0; empty = 0; queue_mutex = false; list = [] };
  threads = enqueue_lock 7 ∷ dequeue_wait ∷ [];
  pushed = [];
  popped = [];
}

busy-Reach : Reach 1 2 busy
unfolding step
busy-Reach =
    later
      (later (later (later starts (calls 0 refl (enqueue 7))) (calls 1 refl dequeue))
        (steps 0 {p = enqueue_check 7} {p' = enqueue_wait 7} refl refl))
      (steps 0 {p = enqueue_wait 7} {p' = enqueue_lock 7} refl refl)

Reach-Inv_example : Inv 1 busy
Reach-Inv_example = Reach-Inv busy-Reach

Reach-IsSafe_example : IsSafe 1 busy
Reach-IsSafe_example = Reach-IsSafe busy-Reach

Reach-progresses_example : Going busy.shared busy.threads ⊎ AllBlocked 1 [] busy.threads
Reach-progresses_example = Reach-progresses busy-Reach
