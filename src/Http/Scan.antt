-- ===== src/Http/Scan.antt =====
-- The scanning functions of switchflow/http/http.cpp over a read_write_buffer. Their loops are
-- recursions on the bytes from the offset to the end of the buffer; offsets are `int`s there, and
-- a buffer is shorter than 2 ^ 31 bytes. A scan's `end` is what it assigns to `end_offset`,
-- `none` where it leaves that alone.
pub mod Token
pub mod Take
pub mod Offsets
use switchflow.Base.{
  ℕ, suc, ◌+◌, ◌-◌, ◌%◌, ◌^◌, Bool, true, false, Option, none, some, [], ◌∷◌, ltb, leb, ◌==◌,
  if◌then◌else◌, Bytes, drop, Outcome, ok, ◌>>=◌, ◌>>◌, check_condition,
}
use switchflow.Util.Buffer.{Buffer, at, set_process_position, working_bytes}
use switchflow.Http.{
  Status, complete, incomplete, invalid, data_overflow, space_delimiters, contains, is_ctl_char,
}

pub record Scan : Type 0 where
  pub status : Status
  pub end : Option ℕ
  pub current_length : ℕ

abbrev pub end_or : Scan → ℕ → ℕ
end_or s old = elim s.end [ none ↦ old | some e ↦ e ]

module _ (max_length : ℕ) where
  -- behind the loop: the buffer ended at offset `i`
  abbrev pub at_end : ℕ → ℕ → Scan
  at_end i current_length =
      if leb max_length current_length
      then record { status = data_overflow; end = none; current_length = current_length }
      else record { status = incomplete; end = some i; current_length = current_length }

  -- behind the loop: the token is as long as it may be
  abbrev pub too_long : ℕ → Scan
  too_long current_length = record {
    status = data_overflow;
    end = none;
    current_length = current_length;
  }

  -- The loop of `parse_token`, from offset `i`.
  unfoldable pub scan_token : Bytes → Bytes → ℕ → ℕ → Scan
  scan_token delimiters [] i current_length = at_end i current_length
  scan_token delimiters (c ∷ cs) i current_length =
      if ltb current_length max_length
      then if contains delimiters c
        then record { status = complete; end = some (i + 1); current_length = current_length }
        else if is_ctl_char c
        then record { status = invalid; end = none; current_length = current_length }
        else scan_token delimiters cs (i + 1) (current_length + 1)
      else too_long current_length

  -- The loop of `parse_equal`. It tests against `s_space_delimiters`, not its own argument.
  unfoldable pub scan_equal : Bytes → ℕ → ℕ → Scan
  scan_equal [] i current_length = at_end i current_length
  scan_equal (c ∷ cs) i current_length =
      if ltb current_length max_length
      then if contains space_delimiters c
        then scan_equal cs (i + 1) (current_length + 1)
        else record { status = complete; end = some i; current_length = current_length }
      else too_long current_length

unfoldable pub parse_token : Buffer → ℕ → ℕ → ℕ → Bytes → Scan
unfolding scan_token
parse_token b begin_offset current_length max_length delimiters =
    scan_token max_length delimiters (drop begin_offset (working_bytes b)) begin_offset
      current_length

unfoldable pub parse_equal : Buffer → ℕ → ℕ → ℕ → Bytes → Scan
unfolding scan_equal
parse_equal b begin_offset current_length max_length compare_chars =
    scan_equal max_length (drop begin_offset (working_bytes b)) begin_offset current_length

-- `parse_char` with offsets: the status and what `end_offset` is set to.
unfoldable pub parse_char_at : Buffer → ℕ → ℕ → Outcome (Status × Option ℕ)
parse_char_at b begin_offset c =
    if leb b.working_length begin_offset
    then ok (incomplete, some begin_offset)
    else (at b begin_offset >>= λ d.
        ok (if d == c then (complete, some (begin_offset + 1)) else (invalid, none)))

-- `parse_char` at the process position.
unfoldable pub parse_char : Buffer → ℕ → Outcome (Status × Buffer)
parse_char b c =
    if leb b.working_length b.process_position
    then ok (incomplete, b)
    else (at b b.process_position >>= λ d.
        if d == c
        then (set_process_position b (b.process_position + 1) >>= λ b'. ok (complete, b'))
        else ok (invalid, b))

-- `unsigned int` subtraction
abbrev pub sub_u32 : ℕ → ℕ → ℕ
sub_u32 a b = (a + 2 ^ 32 - b) % 2 ^ 32

abbrev pub min_u32 : ℕ → ℕ → ℕ
min_u32 a b = if ltb a b then a else b

-- The status, the new `current_length`, and the buffer.
unfoldable pub parse_n_length_buffer : Buffer → ℕ → ℕ → Outcome (Status × ℕ × Buffer)
parse_n_length_buffer b current_length max_length = do
  let chars_left_in_buffer = sub_u32 b.working_length b.process_position
  let chars_to_add = min_u32 chars_left_in_buffer (sub_u32 max_length current_length)
  let length' = (current_length + chars_to_add) % 2 ^ 32
  check_condition (leb length' max_length)
  b' ← set_process_position b ((b.process_position + chars_to_add) % 2 ^ 32)
  ok (if ltb length' max_length then incomplete else complete, length', b')
