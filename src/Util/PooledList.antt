-- ===== src/Util/PooledList.antt =====
-- switchflow/util/pooled_list.hpp: a list whose cells come from a pool that is made beforehand. A cell
-- is a pointer, a number here, with the value that was put into it; an iterator is a position. The
-- model is of one list and its pool, so that the pool's free list stands beside the list.
pub mod Values
pub mod Removed
pub mod Assigned
pub mod Copies
pub mod Copied
use switchflow.Base.{
  ℕ, zero, suc, ◌+◌, ◌-◌, Bool, true, false, List, [], ◌∷◌, ◌++◌, map, ltb, if◌then◌else◌, length,
  take, drop, replicate, Outcome, ok, fault, out_of_bounds, out_of_fuel, ◌>>=◌,
}

pub record Pooled (T : Type 0) : Type 0 where
  pub free_list : List ℕ
  pub active_list : List (ℕ × T)

module _ {T : Type 0} where
  -- `pool::pool`, with the cells that `new` gives, and an empty list attached to it.
  abbrev pub create : List ℕ → Pooled T
  create cells = record { free_list = cells; active_list = [] }

  abbrev pub elements_remaining : Pooled T → ℕ
  elements_remaining w = length w.free_list

  -- In front of position `pos`; `false` if `std::bad_alloc` is thrown.
  unfoldable pub insert : ℕ → T → Pooled T → Bool × Pooled T
  insert pos value w = elim w.free_list [
    | [] ↦ (false, w)
    | cell ∷ cells ↦ (
      true,
      record {
        free_list = cells;
        active_list = take pos w.active_list ++ ((cell, value) ∷ drop pos w.active_list);
      },
    )
  ]

  -- Both loops that insert several values: the position stays in front of the same element.
  unfoldable pub insert_range : ℕ → List T → Pooled T → Bool × Pooled T
  unfolding insert
  insert_range pos [] w = (true, w)
  insert_range pos (value ∷ values) w =
      let (done, w') = insert pos value w in
      let rest = insert_range (pos + 1) values w' in if done then rest else (false, w')

  -- The first list is what stands from `pos` on.
  abbrev pub erase_first : List (ℕ × T) → ℕ → Pooled T → Outcome (Pooled T)
  erase_first [] pos w = fault out_of_bounds
  erase_first (item ∷ items) pos w =
      ok
        (record { free_list = item.0 ∷ w.free_list; active_list = take pos w.active_list ++ items })

  -- The end of the list has nothing to erase, which is undefined behaviour.
  unfoldable pub erase : ℕ → Pooled T → Outcome (Pooled T)
  erase pos w = erase_first (drop pos w.active_list) pos w

  -- `erase(first, last)`, where `n` elements stand between the two.
  unfoldable pub erase_range : ℕ → ℕ → Pooled T → Outcome (Pooled T)
  unfolding erase
  erase_range first zero w = ok w
  erase_range first (suc n) w = erase first w >>= λ w'. erase_range first n w'

  unfoldable pub clear : Pooled T → Outcome (Pooled T)
  unfolding erase_range
  clear w = erase_range 0 (length w.active_list) w

  unfoldable pub assign : List T → Pooled T → Outcome (Bool × Pooled T)
  unfolding clear insert_range
  assign values w = clear w >>= λ w'. ok (insert_range 0 values w')

  unfoldable pub pop_back : Pooled T → Outcome (Pooled T)
  unfolding erase
  pop_back w = if ltb 0 (length w.active_list) then erase (length w.active_list - 1) w else ok w

  unfoldable pub pop_front : Pooled T → Outcome (Pooled T)
  unfolding erase
  pop_front w = if ltb 0 (length w.active_list) then erase 0 w else ok w

  unfoldable pub push_back : T → Pooled T → Bool × Pooled T
  unfolding insert
  push_back value w = insert (length w.active_list) value w

  unfoldable pub push_front : T → Pooled T → Bool × Pooled T
  unfolding insert
  push_front value w = insert 0 value w

  -- The end of the loop of `remove_if`, or its test of an element, with what follows either way.
  abbrev pub remove_one :
      (T → Bool)
      → List (ℕ × T)
      → Pooled T
      → Outcome (Pooled T)
      → Outcome (Pooled T)
      → Outcome (Pooled T)
  remove_one pred [] w removed kept = ok w
  remove_one pred (item ∷ items) w removed kept = if pred item.1 then removed else kept

  -- The loop of `remove_if` from a position on, with `fuel` elements behind it.
  unfoldable pub remove_from : (T → Bool) → ℕ → ℕ → Pooled T → Outcome (Pooled T)
  unfolding erase
  remove_from pred zero pos w = if ltb pos (length w.active_list) then fault out_of_fuel else ok w
  remove_from pred (suc fuel) pos w =
      let removed = erase pos w >>= λ w'. remove_from pred fuel pos w' in
      let kept = remove_from pred fuel (pos + 1) w in
      remove_one pred (drop pos w.active_list) w removed kept

  unfoldable pub remove_if : (T → Bool) → Pooled T → Outcome (Pooled T)
  unfolding remove_from
  remove_if pred w = remove_from pred (length w.active_list) 0 w

  unfoldable pub resize : ℕ → T → Pooled T → Outcome (Bool × Pooled T)
  unfolding erase_range insert_range
  resize new_size value w =
      if ltb (length w.active_list) new_size
      then ok (
          insert_range (length w.active_list) (replicate (new_size - length w.active_list) value) w)
      else erase_range new_size (length w.active_list - new_size) w >>= λ w'. ok (true, w')

  -- The end of the loop of `unique`, or its test of two elements, with what follows either way. The
  -- lists are what stands from `cur` and from `next` on.
  abbrev pub unique_one :
      (T → T → Bool)
      → List (ℕ × T)
      → List (ℕ × T)
      → Pooled T
      → Outcome (Pooled T)
      → Outcome (Pooled T)
      → Outcome (Pooled T)
  unique_one pred curs [] w erased kept = ok w
  unique_one pred [] (item ∷ items) w erased kept = fault out_of_bounds
  unique_one pred (c ∷ cs) (item ∷ items) w erased kept = if pred c.1 item.1 then erased else kept

  -- The loop of `unique`, with `fuel` elements from `next` on.
  unfoldable pub unique_from : (T → T → Bool) → ℕ → ℕ → ℕ → Pooled T → Outcome (Pooled T)
  unfolding erase
  unique_from pred zero cur next w =
      if ltb next (length w.active_list) then fault out_of_fuel else ok w
  unique_from pred (suc fuel) cur next w =
      let erased = erase next w >>= λ w'. unique_from pred fuel cur next w' in
      let kept = unique_from pred fuel next (next + 1) w in
      unique_one pred (drop cur w.active_list) (drop next w.active_list) w erased kept

  unfoldable pub unique : (T → T → Bool) → Pooled T → Outcome (Pooled T)
  unfolding unique_from
  unique pred w =
      if ltb 0 (length w.active_list) then unique_from pred (length w.active_list) 0 1 w else ok w
