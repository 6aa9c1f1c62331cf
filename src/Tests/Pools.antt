-- ===== src/Tests/Pools.antt =====
-- Runs of the pooled list, with two values and two free cells, and of the memory manager.
use mathlib.Core.List.{Perm}
use switchflow.Base.{ℕ, ◌≡◌, refl, false, List, [], ◌∷◌, true, ltb, leb, Returns, ok}
use switchflow.Base.{some, arith}
use switchflow.Tests.Queues.{Increasing-Nodup}
use mathlib.Core.List.Perm
use mathlib.Core.List.{Nodup}
use switchflow.Util.MemoryManager.{MemoryManager, create, allocate_element}
use switchflow.Util.MemoryManager.Held.{IsManager, Managed, releases, operation-Managed}
use switchflow.Util.PooledList.{Pooled, insert_range, erase, erase_range, remove_if, assign, unique}
use switchflow.Util.PooledList.Values.{
  cells, pooled, values_of, Inserted, insert_range-Inserted, Erased, erase_range-Erased,
}
use switchflow.Util.PooledList.Removed.{rejected, remove_if-Removed}
use switchflow.Util.PooledList.Assigned.{Assigned, assign-Assigned}
use switchflow.Util.PooledList.Copies.{Attached, copy_assign}
use switchflow.Util.PooledList.Copied.{CopyAssigned, copy_assign-CopyAssigned}

abbrev two : List (ℕ × ℕ)
two = (10, 7) ∷ (11, 8) ∷ []

abbrev pool : List ℕ
pool = 12 ∷ 13 ∷ []

insert_range-run :
    insert_range 1 (4 ∷ 5 ∷ 6 ∷ []) (pooled pool two)
    ≡ (false, pooled [] ((10, 7) ∷ (12, 4) ∷ (13, 5) ∷ (11, 8) ∷ []))
unfolding insert_range switchflow.Util.PooledList.insert
insert_range-run = refl

insert_range-Inserted_example :
    Inserted
      ((10, 7) ∷ [])
      ((11, 8) ∷ [])
      pool
      (4 ∷ 5 ∷ 6 ∷ [])
      (insert_range 1 (4 ∷ 5 ∷ 6 ∷ []) (pooled pool two))
insert_range-Inserted_example =
    insert_range-Inserted (4 ∷ 5 ∷ 6 ∷ []) ((10, 7) ∷ []) ((11, 8) ∷ []) pool 1 refl

erase_range-Erased_example :
    Returns (Erased [] ((10, 7) ∷ []) ((11, 8) ∷ []) pool) (erase_range 0 1 (pooled pool two))
erase_range-Erased_example = erase_range-Erased [] ((10, 7) ∷ []) ((11, 8) ∷ []) pool 0 refl

remove_if-run : remove_if (ltb 7) (pooled pool two) ≡ ok (pooled (11 ∷ pool) ((10, 7) ∷ []))
unfolding remove_if switchflow.Util.PooledList.remove_from erase
remove_if-run = refl

remove_if-Removed_example :
    Returns
      (λ w'.
        (values_of w'.active_list ≡ rejected (ltb 7) (7 ∷ 8 ∷ []))
        × Perm (cells w') (cells (pooled pool two)))
      (remove_if (ltb 7) (pooled pool two))
remove_if-Removed_example = remove_if-Removed (ltb 7) (pooled pool two)

unique-run : unique leb (pooled pool two) ≡ ok (pooled (11 ∷ pool) ((10, 7) ∷ []))
unfolding unique switchflow.Util.PooledList.unique_from erase
unique-run = refl

assign-Assigned_example :
    Returns
      (Assigned (1 ∷ 2 ∷ 3 ∷ []) (pooled pool two))
      (assign (1 ∷ 2 ∷ 3 ∷ []) (pooled pool two))
assign-Assigned_example = assign-Assigned (1 ∷ 2 ∷ 3 ∷ []) (pooled pool two)

-- A list with two values is assigned to one with a single value, at a pool of two cells.
abbrev attached : Attached ℕ
attached = record { free_list = pool; active_list = (14, 9) ∷ []; x = two }

copy_assign-run :
    copy_assign attached
    ≡ ok (true, record { free_list = 14 ∷ []; active_list = (12, 7) ∷ (13, 8) ∷ []; x = two })
unfolding copy_assign switchflow.Util.PooledList.Copies.copy switchflow.Util.PooledList.clear
    erase_range erase insert_range switchflow.Util.PooledList.insert
copy_assign-run = refl

-- With one free cell, the assignment throws, and that cell is gone.
copy_assign-drained :
    copy_assign (record attached { free_list = 12 ∷ [] })
    ≡ ok (false, record attached { free_list = [] })
unfolding copy_assign switchflow.Util.PooledList.Copies.copy insert_range
    switchflow.Util.PooledList.insert
copy_assign-drained = refl

copy_assign-CopyAssigned_example : Returns (CopyAssigned attached) (copy_assign attached)
copy_assign-CopyAssigned_example = copy_assign-CopyAssigned attached

abbrev objects : List ℕ
objects = 20 ∷ 21 ∷ []

objects-Nodup : Nodup objects
objects-Nodup = Increasing-Nodup 20 objects (ground arith)

abbrev one_held : MemoryManager
one_held = record { free_data_stack = objects; current_free_position = 1 }

one_held-IsManager : IsManager objects (20 ∷ []) one_held
one_held-IsManager = record {
  shared = Perm.refl objects;
  distinct = objects-Nodup;
  counted = refl;
  size = refl;
  fits = omega arith;
  small = omega arith;
}

allocate_element-run : allocate_element (create objects) ≡ ok (some 20, one_held)
unfolding allocate_element
allocate_element-run = refl

operation-Managed_example : Managed objects (20 ∷ []) one_held (releases [] 20 [])
operation-Managed_example =
    operation-Managed objects (20 ∷ []) one_held (releases [] 20 []) one_held-IsManager refl
