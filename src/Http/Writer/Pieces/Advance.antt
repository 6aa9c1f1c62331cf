-- ===== src/Http/Writer/Pieces/Advance.antt =====
-- The step of header_writer from a piece that is complete to the next.
use switchflow.Base.{
  ◌+◌, ◌^◌, ◌<◌, ◌≡◌, refl, ◌∙◌, List, [], ◌∷◌, ◌++◌, append-nil, arith, Bytes, length, take_self,
  drop, Turn, again, finish,
}
use switchflow.Util.Buffer.{Buffer, reset as reset_buffer, reset_length}
use switchflow.Util.Buffer.Valid.{capacity}
use switchflow.Util.Buffer.Unwritten.{unwritten, IsOrdered, unwritten-working}
use switchflow.Http.Message.{HeaderBuffer, MessageBuffer}
use switchflow.Socketlib.{Status, complete}
use switchflow.Http.Writer.{
  space, endline, fieldsep, State, start_line_token1, start_line_seperator1, start_line_token2,
  start_line_seperator2, start_line_token3, start_line_end, field_name, field_value_seperator,
  field_value, field_seperator, end_fields, next_state, Writer, World, reset_strings, after_piece,
}
use switchflow.Http.Writer.Pieces.Fields.{current}
use switchflow.Http.Writer.Pieces.{
  all_fields, behind, piece, rank, IsText, IsWriting, left, remaining,
}

pub reset-IsText :
    (text : Bytes) (b : Buffer)
    → length text < 2 ^ 31
    → IsText text b
    → IsText text (reset_buffer b) × (unwritten (reset_buffer b) ≡ text)
unfolding reset_buffer
reset-IsText text b small t =
    let fits : reset_length b.using_static_buffer b.p_buffer ≡ length text =
      rw (t.static, t.shows) (omega arith) in
    let room : capacity b ≡ length text = rw t.shows refl in
    let o : IsOrdered (reset_buffer b) = record {
      valid = ground arith;
      raw = text;
      has_raw = t.shows;
      ordered = ground arith;
    } in
    (
      record { buffer = o; shows = t.shows; static = t.static },
      unwritten-working (reset_buffer b) o refl refl
          ∙ rw (fits, t.shows) (take_self (length text) text refl),
    )

-- The three strings, whole again.
record Whole (wr : Writer) : Type 0 where
  space_text : IsText space wr.space_buf
  space_whole : unwritten wr.space_buf ≡ space
  endline_text : IsText endline wr.endline_buf
  endline_whole : unwritten wr.endline_buf ≡ endline
  fieldsep_text : IsText fieldsep wr.field_sep
  fieldsep_whole : unwritten wr.field_sep ≡ fieldsep

reset_strings-Whole :
    (st : State) (wr : Writer) (m : MessageBuffer) → IsWriting st wr m → Whole (reset_strings wr)
unfolding reset_strings
reset_strings-Whole st wr m v =
    let s = reset-IsText space wr.space_buf (omega arith) v.space_text in
    let e = reset-IsText endline wr.endline_buf (omega arith) v.endline_text in
    let f = reset-IsText fieldsep wr.field_sep (omega arith) v.fieldsep_text in
    record {
      space_text = s.0;
      space_whole = s.1;
      endline_text = e.0;
      endline_whole = e.1;
      fieldsep_text = f.0;
      fieldsep_whole = f.1;
    }

field_name-all :
    (wr : Writer) (m : MessageBuffer) (hs : List HeaderBuffer)
    → piece field_name wr m hs ++ behind field_name m hs ≡ all_fields hs
field_name-all wr m [] = append-nil endline
field_name-all wr m (h ∷ hs) = refl

module _ {S : Type 0} where
  -- Where the next round starts: at what came behind the piece.
  pub record Next (st : State) (w w' : World S) : Type 0 where
    pub writing : IsWriting w'.writer.write_header_state w'.writer w'.message
    pub same_message : w'.message ≡ w.message
    pub same_dest : w'.dest ≡ w.dest
    pub same_system : w'.system ≡ w.system
    pub continues :
        remaining w'.writer.write_header_state w'.writer w'.message
        ≡ behind st w.message (left w.writer w.message)
    pub fewer :
        rank w'.writer.write_header_state w'.writer.current_dump_header
          w'.message.current_num_fields
        < rank st w.writer.current_dump_header w.message.current_num_fields

  abbrev pub Advances : State → World S → Turn (World S) (Status × World S) → Type 0
  Advances st w (again w') = Next st w w'
  Advances st w (finish (status, w')) =
      (st ≡ end_fields) × (status ≡ complete) × (w'.system ≡ w.system) × (w'.dest ≡ w.dest)

  pub after_piece-Advances :
      (st : State) (w : World S)
      → IsWriting st w.writer w.message
      → (st ≡ field_name → w.writer.current_dump_header < w.message.current_num_fields)
      → Advances st w (after_piece st w)
  unfolding after_piece next_state
  after_piece-Advances start_line_token1 w v h =
      let r = reset_strings-Whole start_line_token1 w.writer w.message v in ground arith
  after_piece-Advances start_line_seperator1 w v h =
      let r = reset_strings-Whole start_line_seperator1 w.writer w.message v in ground arith
  after_piece-Advances start_line_token2 w v h =
      let r = reset_strings-Whole start_line_token2 w.writer w.message v in ground arith
  after_piece-Advances start_line_seperator2 w v h =
      let r = reset_strings-Whole start_line_seperator2 w.writer w.message v in ground arith
  after_piece-Advances start_line_token3 w v h =
      let r = reset_strings-Whole start_line_token3 w.writer w.message v in ground arith
  after_piece-Advances start_line_end w v h =
      let r = reset_strings-Whole start_line_end w.writer w.message v in
      let a = field_name-all w.writer w.message (left w.writer w.message) in ground arith
  after_piece-Advances field_name w v h =
      let r = reset_strings-Whole field_name w.writer w.message v in
      let c = current field_name w.writer w.message v (h refl) in ground arith
  after_piece-Advances field_value_seperator w v h =
      let r = reset_strings-Whole field_value_seperator w.writer w.message v in
      let c = current field_value_seperator w.writer w.message v v.within in ground arith
  after_piece-Advances field_value w v h =
      let r = reset_strings-Whole field_value w.writer w.message v in
      let c = current field_value w.writer w.message v v.within in ground arith
  after_piece-Advances field_seperator w v h =
      let r = reset_strings-Whole field_seperator w.writer w.message v in
      let c = current field_seperator w.writer w.message v v.within in
      let a =
        field_name-all w.writer w.message
          (drop (w.writer.current_dump_header + 1) w.message.headers) in
      ground arith
  after_piece-Advances end_fields w v h = (refl, refl, refl, refl)
