-- ===== src/Util/Queue/System.antt =====
-- Threads that call a shared queue, as a step relation.
use switchflow.Base.{ℕ, ◌≡◌, some, List, [], ◌∷◌, ◌++◌, get_elem?, set, replicate, ok}
use switchflow.Util.Queue.{
  Shared, create, Pc, idle, enqueue_check, enqueue_push, dequeue_wait, dequeue_unlock, depth_lock,
  step,
}

-- The threads with the queue, and the items that were pushed and popped so far, in order.
pub record System : Type 0 where
  pub shared : Shared
  pub threads : List Pc
  pub pushed : List ℕ
  pub popped : List ℕ

abbrev pub start : ℕ → ℕ → System
start size n = record { shared = create size; threads = replicate n idle; pushed = []; popped = [] }

-- What a step of a thread that stands at the first place adds to the items pushed, and one that
-- leads to the second to those popped.
abbrev pub pushes : Pc → List ℕ
pushes (enqueue_push item) = item ∷ []
pushes _ = []

abbrev pub pops : Pc → Pc → List ℕ
pops Pc.dequeue_pop (dequeue_unlock item) = item ∷ []
pops _ _ = []

-- The calls that a thread may make.
pub data Call : Pc → Type 0 where
  enqueue : (item : ℕ) → Call (enqueue_check item)
  dequeue : Call dequeue_wait
  depth : Call depth_lock

pub data Step : System → System → Type 0 where
  calls :
      {s : System} (i : ℕ) {p : Pc}
      → get_elem? s.threads i ≡ some idle
      → Call p
      → Step s (record s { threads = set s.threads i p })
  steps :
      {s : System} (i : ℕ) {p p' : Pc} {shared : Shared}
      → get_elem? s.threads i ≡ some p
      → step p s.shared ≡ ok (some (p', shared))
      → Step s (record {
        shared = shared;
        threads = set s.threads i p';
        pushed = s.pushed ++ pushes p;
        popped = s.popped ++ pops p p';
      })
  interrupted : {s : System} → Step s s

pub data Reach (size n : ℕ) : System → Type 0 where
  starts : Reach size n (start size n)
  later : {s t : System} → Reach size n s → Step s t → Reach size n t
