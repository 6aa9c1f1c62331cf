-- ===== src/Util/PooledList/Copies.antt =====
-- The copy constructor and the copy assignment of pooled_list.hpp, where two lists are attached to one
-- pool: the list that is assigned to and the one that is copied.
use switchflow.Base.{ℕ, Bool, true, false, List, ◌>>=◌, Outcome, ok}
use switchflow.Util.PooledList.{Pooled, create, insert_range, clear}
use switchflow.Util.PooledList.Values.{pooled, values_of}

pub record Attached (T : Type 0) : Type 0 where
  pub free_list : List ℕ
  pub active_list : List (ℕ × T)
  pub x : List (ℕ × T)

module _ {T : Type 0} where
  -- The copy constructor; `false` if `std::bad_alloc` is thrown.
  unfoldable pub copy : List (ℕ × T) → List ℕ → Bool × Pooled T
  unfolding insert_range
  copy x free = insert_range 0 (values_of x) (create free)

  -- `swap(temp)`, and the end of `temp`, or what is left if `temp` could not be made: its destructor
  -- is not run then, so that the pool remains without the cells that it had taken.
  abbrev pub take_over : Attached T → Bool × Pooled T → Outcome (Bool × Attached T)
  take_over w (true, temp) = clear (pooled temp.free_list w.active_list) >>= λ t.
      ok (true, record w { free_list = t.free_list; active_list = temp.active_list })
  take_over w (false, temp) = ok (false, record w { free_list = temp.free_list })

  -- `operator=`; `false` if `std::bad_alloc` is thrown.
  unfoldable pub copy_assign : Attached T → Outcome (Bool × Attached T)
  unfolding copy clear
  copy_assign w = take_over w (copy w.x w.free_list)
