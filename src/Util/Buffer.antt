-- ===== src/Util/Buffer.antt =====
-- switchflow/util/read_write_buffer.{hpp,cpp}. `p_buffer` is the vector behind the pointer, `none`
-- for a null pointer; the model copies a static vector where the code shares it, and no operation
-- writes through a static one but the assignment through `operator[]`.
pub mod Valid
pub mod Content
pub mod Compare
pub mod Unwritten
use switchflow.Base.{
  ℕ, ◌+◌, ◌-◌, Bool, true, false, not, ◌&&◌, Option, none, some, List, [], ◌∷◌, ◌++◌, ltb, leb,
  ◌==◌, if◌then◌else◌, u32, int_leb, Bytes, length, get_elem?, set, take, drop, replicate, Outcome,
  ok, fault, null_pointer, out_of_bounds, ◌>>=◌, ◌>>◌, check_condition,
}

pub record Buffer : Type 0 where
  pub p_buffer : Option Bytes
  pub using_static_buffer : Bool
  pub working_length : ℕ
  pub process_position : ℕ
  pub write_end_position : ℕ
  pub write_position : ℕ

-- `*p_buffer_`
abbrev pub get_raw_buffer : Buffer → Outcome Bytes
get_raw_buffer b = elim b.p_buffer [ none ↦ fault null_pointer | some raw ↦ ok raw ]

-- The lengths that `reset` sets, from `b_using_static_buffer_` and `p_buffer_`.
unfoldable pub reset_length : Bool → Option Bytes → ℕ
reset_length false p = 0
reset_length true none = 0
reset_length true (some raw) = u32 (length raw)

unfoldable pub reset : Buffer → Buffer
unfolding reset_length
reset b = record b {
  working_length = reset_length b.using_static_buffer b.p_buffer;
  process_position = 0;
  write_end_position = reset_length b.using_static_buffer b.p_buffer;
  write_position = 0;
}

-- A constructor leaves the other members to the `reset` at its end.
abbrev construct : Option Bytes → Bool → Buffer
construct p is_static = reset (record {
  p_buffer = p;
  using_static_buffer = is_static;
  working_length = 0;
  process_position = 0;
  write_end_position = 0;
  write_position = 0;
})

unfoldable pub of_length : ℕ → Buffer
unfolding reset
of_length physical_length = construct (some (replicate physical_length 0)) false

unfoldable pub of_static : Bytes → Buffer
unfolding reset
of_static raw = construct (some raw) true

unfoldable pub no_buffer : Buffer
unfolding reset
no_buffer = construct none true

-- A copy shares a static vector, and has a fresh one of the same size otherwise.
unfoldable pub copy : Buffer → Outcome Buffer
unfolding reset
copy rhs =
    if rhs.using_static_buffer
    then ok (construct rhs.p_buffer true)
    else get_raw_buffer rhs >>= λ raw. ok (construct (some (replicate (length raw) 0)) false)

unfoldable pub set_static_buffer : Bytes → Buffer
unfolding of_static
set_static_buffer raw = of_static raw

unfoldable pub get_physical_length : Buffer → Outcome ℕ
get_physical_length b = do raw ← get_raw_buffer b; ok (u32 (length raw))

unfoldable pub set_write_end_position : Buffer → ℕ → Outcome Buffer
set_write_end_position b write_end = do
  check_condition (leb write_end b.working_length)
  ok (record b { write_end_position = write_end })

unfoldable pub set_write_position : Buffer → ℕ → Outcome Buffer
set_write_position b write_position = do
  check_condition (leb write_position b.working_length)
  ok (record b { write_position = write_position })

unfoldable pub set_process_position : Buffer → ℕ → Outcome Buffer
set_process_position b processed = do
  check_condition (leb processed b.working_length)
  ok (record b { process_position = processed })

unfoldable pub set_working_length : Buffer → ℕ → Outcome Buffer
unfolding set_write_end_position set_write_position
set_working_length b working_length = do
  raw ← get_raw_buffer b
  check_condition (leb working_length (length raw))
  check_condition (not b.using_static_buffer)
  b' ←
      set_write_end_position (record b { working_length = working_length; process_position = 0 })
        working_length
  set_write_position b' 0

unfoldable pub fully_written : Buffer → Bool
fully_written b = leb b.working_length b.write_position

-- `operator[]`, read; an index past the vector is undefined behaviour.
unfoldable pub at : Buffer → ℕ → Outcome ℕ
at b i = do
  check_condition (ltb i b.working_length)
  raw ← get_raw_buffer b
  elim (get_elem? raw i) [ none ↦ fault out_of_bounds | some c ↦ ok c ]

-- `operator[]`, assigned to.
unfoldable pub put : Buffer → ℕ → ℕ → Outcome Buffer
put b i c = do
  check_condition (ltb i b.working_length)
  raw ← get_raw_buffer b
  if ltb i (length raw)
      then ok (record b { p_buffer = some (set raw i c) })
      else fault out_of_bounds

-- `memcpy(&raw[at], src, length src)`
unfoldable pub overwrite : Bytes → ℕ → Bytes → Bytes
overwrite raw i src = take i raw ++ (src ++ drop (i + length src) raw)

-- The argument is the range [begin, end) that the iterators span.
unfoldable pub copy_from_buffer : Buffer → Bytes → Outcome Buffer
copy_from_buffer b src = do
  check_condition (not b.using_static_buffer)
  raw ← get_raw_buffer b
  check_condition (int_leb (length src) (length raw))
  ok (record b { p_buffer = some (overwrite raw 0 src); working_length = u32 (length src) })

unfoldable pub append_from_buffer : Buffer → Bytes → Outcome Buffer
append_from_buffer b src = do
  check_condition (not b.using_static_buffer)
  raw ← get_raw_buffer b
  check_condition (int_leb (b.working_length + length src) (length raw))
  ok (record b {
    p_buffer = some (overwrite raw b.working_length src);
    working_length = u32 (b.working_length + length src);
    write_end_position = u32 (b.working_length + length src);
  })

-- `size` is an unsigned int, and so is the sum.
unfoldable pub fits_in_buffer : Buffer → ℕ → Outcome Bool
unfolding get_physical_length
fits_in_buffer b size = do
  physical ← get_physical_length b
  ok (leb (u32 (b.working_length + u32 size)) physical)

-- Writes from the front of the vector, whatever the buffer held.
unfoldable pub append_from_string : Buffer → Bytes → Outcome Buffer
unfolding set_working_length set_write_end_position get_physical_length
append_from_string b str = do
  physical ← get_physical_length b
  check_condition (leb (length str) physical)
  raw ← get_raw_buffer b
  b' ← set_working_length (record b { p_buffer = some (overwrite raw 0 str) }) (length str)
  set_write_end_position b' (length str)

-- What is appended to the string: bytes [begin, end) of the vector.
unfoldable pub append_to_string : Buffer → Bytes → ℕ → ℕ → Outcome Bytes
append_to_string b s begin end = do
  check_condition (leb begin end && leb end b.working_length)
  raw ← get_raw_buffer b
  ok (s ++ take (end - begin) (drop begin raw))

-- `asio::const_buffer(&raw[write_position_], write_end_position_)`: where it starts and its size.
unfoldable pub get_const_buffer : Buffer → ℕ × ℕ
get_const_buffer b = (b.write_position, b.write_end_position)

-- The bytes that `operator[]` can reach: those of the vector below the working length.
abbrev pub working_bytes : Buffer → Bytes
working_bytes b = elim b.p_buffer [ none ↦ [] | some raw ↦ take b.working_length raw ]

-- Bytes [begin, end) of the buffer, as a range of iterators.
abbrev pub slice : Buffer → ℕ → ℕ → Bytes
slice b begin end = take (end - begin) (drop begin (working_bytes b))

-- What is left to process.
abbrev pub unprocessed : Buffer → Bytes
unprocessed b = drop b.process_position (working_bytes b)
