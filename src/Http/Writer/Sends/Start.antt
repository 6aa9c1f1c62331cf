-- ===== src/Http/Writer/Sends/Start.antt =====
-- The piece that the writer starts with, and the state that it starts it in.
use switchflow.Base.{◌≤◌, ◌<◌, ◌≡◌, refl, ◌==◌, inl, inr, arith, length, drop_all, Bool-cases}
use switchflow.Http.Message.{MessageBuffer}
use switchflow.Http.Writer.{
  State, start_line_token1, start_line_seperator1, start_line_token2, start_line_seperator2,
  start_line_token3, start_line_end, field_name, field_value_seperator, field_value,
  field_seperator, end_fields, Writer, start_state,
}
use switchflow.Http.Writer.Pieces.{rank, IsWriting, remaining, Piece}
use switchflow.Http.Writer.Pieces.Strings.{
  Piece-line1, Piece-line2, Piece-line3, Piece-seperator1, Piece-seperator2, Piece-line_end,
  Piece-value_seperator, Piece-field_seperator, Piece-end,
}
use switchflow.Http.Writer.Pieces.Fields.{Piece-field_name, Piece-field_value}

pub Piece-of :
    (st : State) (wr : Writer) (m : MessageBuffer)
    → IsWriting st wr m
    → (st ≡ field_name → wr.current_dump_header < m.current_num_fields)
    → Piece st wr m
Piece-of start_line_token1 wr m v h = Piece-line1 wr m v
Piece-of start_line_seperator1 wr m v h = Piece-seperator1 wr m v
Piece-of start_line_token2 wr m v h = Piece-line2 wr m v
Piece-of start_line_seperator2 wr m v h = Piece-seperator2 wr m v
Piece-of start_line_token3 wr m v h = Piece-line3 wr m v
Piece-of start_line_end wr m v h = Piece-line_end wr m v
Piece-of field_name wr m v h = Piece-field_name wr m v (h refl)
Piece-of field_value_seperator wr m v h = Piece-value_seperator wr m v
Piece-of field_value wr m v h = Piece-field_value wr m v
Piece-of field_seperator wr m v h = Piece-field_seperator wr m v
Piece-of end_fields wr m v h = Piece-end wr m v

-- The state in front of a piece, with the same bytes to come.
pub record Starts (st st' : State) (wr : Writer) (m : MessageBuffer) : Type 0 where
  pub writing : IsWriting st' (record wr { write_header_state = st' }) m
  pub same : remaining st' (record wr { write_header_state = st' }) m ≡ remaining st wr m
  pub field : st' ≡ field_name → wr.current_dump_header < m.current_num_fields
  pub rank_le :
      rank st' wr.current_dump_header m.current_num_fields
      ≤ rank st wr.current_dump_header m.current_num_fields

pub start_state-Starts :
    (st : State) (wr : Writer) (m : MessageBuffer)
    → IsWriting st wr m
    → Starts st (start_state st wr.current_dump_header m.current_num_fields) wr m
start_state-Starts field_name wr m v =
    elim (Bool-cases (wr.current_dump_header == m.current_num_fields)) [
      | inl e ↦
          let counted = v.counted in
          let at_last : length m.headers ≤ wr.current_dump_header = ground arith in
          let none_left = drop_all wr.current_dump_header m.headers at_last in rw e (ground arith)
      | inr e ↦ rw e (ground arith)
    ]
start_state-Starts start_line_token1 wr m v = ground arith
start_state-Starts start_line_seperator1 wr m v = ground arith
start_state-Starts start_line_token2 wr m v = ground arith
start_state-Starts start_line_seperator2 wr m v = ground arith
start_state-Starts start_line_token3 wr m v = ground arith
start_state-Starts start_line_end wr m v = ground arith
start_state-Starts field_value_seperator wr m v = ground arith
start_state-Starts field_value wr m v = ground arith
start_state-Starts field_seperator wr m v = ground arith
start_state-Starts end_fields wr m v = ground arith
