-- ===== src/Util/Buffer/Valid.antt =====
-- The positions of a read_write_buffer stay in range, whatever operation runs.
use switchflow.Base.{
  ℕ, ◌+◌, ◌^◌, ◌≤◌, ◌<◌, ◌≡◌, ◌⊎◌, true, inl, inr, none, some, ◌++◌, arith, Bytes, length, take,
  drop, length-append, length-take, length-drop, length-set, Option-cases, Outcome, ok, fault,
}
use switchflow.Util.Buffer.{
  Buffer, reset, set_write_end_position, set_write_position, set_process_position,
  set_working_length, put, overwrite, copy_from_buffer, append_from_buffer, append_from_string,
}

abbrev pub capacity : Buffer → ℕ
capacity b = elim b.p_buffer [ none ↦ 0 | some raw ↦ length raw ]

pub record IsValid (b : Buffer) : Type 0 where
  pub small : capacity b < 2 ^ 31
  pub fits : b.working_length ≤ capacity b
  pub processed : b.process_position ≤ b.working_length
  pub write_end : b.write_end_position ≤ b.working_length
  pub written : b.write_position ≤ b.working_length

-- The members that change a buffer, with their arguments.
pub data Operation : Type 0 where
  resets : Operation
  sets_working_length : ℕ → Operation
  sets_write_end_position : ℕ → Operation
  sets_write_position : ℕ → Operation
  sets_process_position : ℕ → Operation
  puts : ℕ → ℕ → Operation
  copies_from_buffer : Bytes → Operation
  appends_from_buffer : Bytes → Operation
  appends_from_string : Bytes → Operation

pub apply : Operation → Buffer → Outcome Buffer
apply resets b = ok (reset b)
apply (sets_working_length n) b = set_working_length b n
apply (sets_write_end_position n) b = set_write_end_position b n
apply (sets_write_position n) b = set_write_position b n
apply (sets_process_position n) b = set_process_position b n
apply (puts i c) b = put b i c
apply (copies_from_buffer src) b = copy_from_buffer b src
apply (appends_from_buffer src) b = append_from_buffer b src
apply (appends_from_string str) b = append_from_string b str

-- `copy_from_buffer` leaves the positions as they are, so what it copies must reach them. The
-- lengths that are cast to `int` must fit it.
abbrev pub Allowed : Operation → Buffer → Type 0
Allowed (copies_from_buffer src) b =
    (length src < 2 ^ 31)
    × (b.process_position ≤ length src)
    × (b.write_end_position ≤ length src)
    × (b.write_position ≤ length src)
Allowed (appends_from_buffer src) b = b.working_length + length src < 2 ^ 31
Allowed _ b = Unit

-- The vector can not take so many bytes.
abbrev pub NoRoom : ℕ → Buffer → Type 0
NoRoom n b = (b.p_buffer ≡ none) ⊎ ((b.using_static_buffer ≡ true) ⊎ (capacity b < n))

-- Why an operation aborts.
abbrev pub Refused : Operation → Buffer → Type 0
Refused resets b = ⊥
Refused (sets_working_length n) b = NoRoom n b
Refused (sets_write_end_position n) b = b.working_length < n
Refused (sets_write_position n) b = b.working_length < n
Refused (sets_process_position n) b = b.working_length < n
Refused (puts i c) b = b.working_length ≤ i
Refused (copies_from_buffer src) b = NoRoom (length src) b
Refused (appends_from_buffer src) b = NoRoom (b.working_length + length src) b
Refused (appends_from_string str) b = NoRoom (length str) b

abbrev pub Preserved : Operation → Buffer → Outcome Buffer → Type 0
Preserved op b (ok b') = IsValid b'
Preserved op b (fault e) = Refused op b

pub length-overwrite :
    (raw : Bytes) (i : ℕ) (src : Bytes)
    → i + length src ≤ length raw
    → length (overwrite raw i src) ≡ length raw
unfolding overwrite
length-overwrite raw i src h = omega (
  arith,
  length-append (take i raw) (src ++ drop (i + length src) raw),
  length-append src (drop (i + length src) raw),
  length-take i raw,
  length-drop (i + length src) raw,
)

-- On a valid buffer an operation leaves a valid buffer, or it aborts, which it does only for a
-- position behind the working length, an index that is not below it, or more bytes than the
-- buffer's own vector has room for (a buffer without one has none). Lengths that the code casts to
-- `int` must fit one, and `copy_from_buffer` must copy up to the positions at least.
pub apply-IsValid :
    (op : Operation) (b : Buffer) → Allowed op b → IsValid b → Preserved op b (apply op b)
unfolding apply reset set_working_length set_process_position put copy_from_buffer
    append_from_buffer append_from_string
apply-IsValid resets b a v = ground arith
apply-IsValid (sets_working_length n) b a v = ground arith
apply-IsValid (sets_write_end_position n) b a v = ground arith
apply-IsValid (sets_write_position n) b a v = ground arith
apply-IsValid (sets_process_position n) b a v = ground arith
apply-IsValid (puts i c) b a v = elim (Option-cases b.p_buffer) [
  | inl e ↦ ground arith
  | inr (raw, e) ↦ ground (arith, length-set raw i c)
]
apply-IsValid (copies_from_buffer src) b a v = elim (Option-cases b.p_buffer) [
  | inl e ↦ ground arith
  | inr (raw, e) ↦ ground (arith, length-overwrite raw 0 src)
]
apply-IsValid (appends_from_buffer src) b a v = elim (Option-cases b.p_buffer) [
  | inl e ↦ ground arith
  | inr (raw, e) ↦ ground (arith, length-overwrite raw b.working_length src)
]
apply-IsValid (appends_from_string str) b a v = elim (Option-cases b.p_buffer) [
  | inl e ↦ ground arith
  | inr (raw, e) ↦ ground (arith, length-overwrite raw 0 str)
]
