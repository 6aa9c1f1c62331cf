-- ===== src/Util/MemoryManager.antt =====
-- switchflow/util/pessimistic_memory_manager.hpp: a stack of objects that are created beforehand. An
-- object is a pointer, a number here.
pub mod Held
use switchflow.Base.{
  ℕ, ◌+◌, ◌-◌, ◌^◌, Option, none, some, List, length, get_elem?, set, leb, ltb, ◌==◌, u32,
  if◌then◌else◌, Outcome, ok, fault, out_of_bounds, check_condition, ◌>>=◌, ◌>>◌,
}

pub record MemoryManager : Type 0 where
  pub free_data_stack : List ℕ
  pub current_free_position : ℕ

-- With the objects that `new` or `clone` gives.
abbrev pub create : List ℕ → MemoryManager
create objects = record { free_data_stack = objects; current_free_position = 0 }

-- The destructor, with the objects that it deletes.
unfoldable pub destroy : MemoryManager → Outcome (List ℕ)
destroy m = check_condition (m.current_free_position == 0) >> ok m.free_data_stack

-- One less, as an `unsigned int`.
abbrev pub before : ℕ → ℕ
before n = u32 (n + (2 ^ 32 - 1))

abbrev pub within : Option ℕ → Outcome ℕ
within none = fault out_of_bounds
within (some p) = ok p

-- An element of the vector.
abbrev pub element : MemoryManager → ℕ → Outcome ℕ
element m i = within (get_elem? m.free_data_stack i)

-- `none` is the null pointer.
unfoldable pub allocate_element : MemoryManager → Outcome (Option ℕ × MemoryManager)
allocate_element m =
    let next = u32 (m.current_free_position + 1) in
    if leb (length m.free_data_stack) m.current_free_position
    then ok (none, m)
    else element m (before next) >>= λ p. ok (some p, record m { current_free_position = next })

unfoldable pub release_element : ℕ → MemoryManager → Outcome MemoryManager
release_element p m =
    let position = before m.current_free_position in
    if ltb position (length m.free_data_stack)
    then ok (record {
      free_data_stack = set m.free_data_stack position p;
      current_free_position = position;
    })
    else fault out_of_bounds
