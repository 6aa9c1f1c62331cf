-- ===== src/Http/Writer/Pieces.antt =====
-- What header_writer has still to write, state by state, and how each piece shortens it.
pub mod Strings
pub mod Fields
pub mod Advance
use switchflow.Base.{
  ℕ, zero, suc, ◌+◌, ◌-◌, ◌*◌, ◌^◌, ◌≤◌, ◌<◌, ◌≡◌, ◌≢◌, refl, sym, ap, ◌∙◌, true, false, some, List,
  [], ◌∷◌, ◌++◌, append-nil, arith, Bytes, length, length-set, length-append, get_elem?, set, drop,
  get_elem?-drop, ltb, lt→ltb, u32, Outcome, ok, Turn, again, finish,
}
use switchflow.Util.Buffer.{Buffer, of_static, reset as reset_buffer, working_bytes}
use switchflow.Util.Buffer.Valid.{IsValid}
use switchflow.Util.Buffer.Unwritten.{unwritten, IsOrdered, unwritten-working}
use switchflow.Http.Message.{HeaderBuffer, MessageBuffer, get_header, put_header}
use switchflow.Socketlib.{Status, complete}
use switchflow.Http.Writer.{
  space, endline, fieldsep, State, start_line_token1, start_line_seperator1, start_line_token2,
  start_line_seperator2, start_line_token3, start_line_end, field_name, field_value_seperator,
  field_value, field_seperator, end_fields, next_state, Writer, World, reset_strings, get_buffer,
  put_buffer, after_piece,
}

-- Fields that are wholly to be written, and the empty line behind them.
abbrev pub all_fields : List HeaderBuffer → Bytes
all_fields [] = endline
all_fields (h ∷ hs) =
    unwritten h.name ++ (fieldsep ++ (unwritten h.value ++ (endline ++ all_fields hs)))

abbrev behind_line2 : MessageBuffer → List HeaderBuffer → Bytes
behind_line2 m hs = space ++ (unwritten m.start_line3 ++ (endline ++ all_fields hs))

-- What comes behind the piece of a state, with the fields from the current one on.
abbrev pub behind : State → MessageBuffer → List HeaderBuffer → Bytes
behind start_line_token1 m hs = space ++ (unwritten m.start_line2 ++ behind_line2 m hs)
behind start_line_seperator1 m hs = unwritten m.start_line2 ++ behind_line2 m hs
behind start_line_token2 m hs = behind_line2 m hs
behind start_line_seperator2 m hs = unwritten m.start_line3 ++ (endline ++ all_fields hs)
behind start_line_token3 m hs = endline ++ all_fields hs
behind start_line_end m hs = all_fields hs
behind field_name m (h ∷ hs) = fieldsep ++ (unwritten h.value ++ (endline ++ all_fields hs))
behind field_value_seperator m (h ∷ hs) = unwritten h.value ++ (endline ++ all_fields hs)
behind field_value m (h ∷ hs) = endline ++ all_fields hs
behind field_seperator m (h ∷ hs) = all_fields hs
behind _ m hs = []

-- What the piece of a state has still to write.
abbrev pub piece : State → Writer → MessageBuffer → List HeaderBuffer → Bytes
piece start_line_token1 wr m hs = unwritten m.start_line1
piece start_line_seperator1 wr m hs = unwritten wr.space_buf
piece start_line_token2 wr m hs = unwritten m.start_line2
piece start_line_seperator2 wr m hs = unwritten wr.space_buf
piece start_line_token3 wr m hs = unwritten m.start_line3
piece start_line_end wr m hs = unwritten wr.endline_buf
piece field_name wr m [] = endline
piece field_name wr m (h ∷ hs) = unwritten h.name
piece field_value_seperator wr m hs = unwritten wr.field_sep
piece field_value wr m [] = []
piece field_value wr m (h ∷ hs) = unwritten h.value
piece field_seperator wr m hs = unwritten wr.endline_buf
piece end_fields wr m hs = unwritten wr.endline_buf

-- One of the writer's own buffers, which show a text.
pub record IsText (text : Bytes) (b : Buffer) : Type 0 where
  pub buffer : IsOrdered b
  pub shows : b.p_buffer ≡ some text
  pub static : b.using_static_buffer ≡ true

abbrev pub AllOrdered : List HeaderBuffer → Type 0
AllOrdered [] = Unit
AllOrdered (h ∷ hs) = IsOrdered h.name × IsOrdered h.value × AllOrdered hs

-- The pieces of a field need one; elsewhere the count may be at the end.
abbrev pub Within : State → ℕ → ℕ → Type 0
Within field_value_seperator i n = i < n
Within field_value i n = i < n
Within field_seperator i n = i < n
Within _ i n = i ≤ n

-- In front of a field the end of the lines is still whole, as it may be next.
abbrev pub Fresh : State → Writer → Type 0
Fresh field_name wr = unwritten wr.endline_buf ≡ endline
Fresh _ wr = Unit

-- More rounds than there are still to come, less one: 4 for a field, and the lines in front.
abbrev pub rank : State → ℕ → ℕ → ℕ
rank start_line_token1 i n = 4 * (n - i) + 7
rank start_line_seperator1 i n = 4 * (n - i) + 6
rank start_line_token2 i n = 4 * (n - i) + 5
rank start_line_seperator2 i n = 4 * (n - i) + 4
rank start_line_token3 i n = 4 * (n - i) + 3
rank start_line_end i n = 4 * (n - i) + 2
rank field_name i n = 4 * (n - i) + 1
rank field_value_seperator i n = 4 * (n - i)
rank field_value i n = 4 * (n - i) - 1
rank field_seperator i n = 4 * (n - i) - 2
rank end_fields i n = 0

pub record IsWriting (st : State) (wr : Writer) (m : MessageBuffer) : Type 0 where
  pub line1 : IsOrdered m.start_line1
  pub line2 : IsOrdered m.start_line2
  pub line3 : IsOrdered m.start_line3
  pub fields : AllOrdered m.headers
  pub counted : length m.headers ≡ m.current_num_fields
  pub few : m.current_num_fields < 2 ^ 32
  pub space_text : IsText space wr.space_buf
  pub endline_text : IsText endline wr.endline_buf
  pub fieldsep_text : IsText fieldsep wr.field_sep
  pub within : Within st wr.current_dump_header m.current_num_fields
  pub fresh : Fresh st wr

-- The fields from the current one on.
abbrev pub left : Writer → MessageBuffer → List HeaderBuffer
left wr m = drop wr.current_dump_header m.headers

abbrev pub remaining : State → Writer → MessageBuffer → Bytes
remaining st wr m = piece st wr m (left wr m) ++ behind st m (left wr m)

-- The write position has moved.
abbrev pub Moved : Buffer → Buffer → Type 0
Moved b b' = IsOrdered b' × (b' ≡ record b { write_position = b'.write_position })

pub IsText-Moved : (text : Bytes) (b b' : Buffer) → IsText text b → Moved b b' → IsText text b'
IsText-Moved text b b' t (o, e) = record {
  buffer = o;
  shows = rw e t.shows;
  static = rw e t.static;
}

-- A piece that the system took some of.
pub record Put (st : State) (wr : Writer) (m : MessageBuffer) (b : Buffer)
    (p : Writer × MessageBuffer) : Type 0 where
  pub writing : IsWriting st p.0 p.1
  pub same_state : p.0.write_header_state ≡ wr.write_header_state
  pub same_count : p.0.current_dump_header ≡ wr.current_dump_header
  pub same_fields : p.1.current_num_fields ≡ m.current_num_fields
  pub rest : piece st p.0 p.1 (left p.0 p.1) ≡ unwritten b
  pub same_behind : behind st p.1 (left p.0 p.1) ≡ behind st m (left wr m)

pub record Piece (st : State) (wr : Writer) (m : MessageBuffer) : Type 0 where
  pub buffer : Buffer
  pub gets : get_buffer st wr m ≡ ok buffer
  pub is_ordered : IsOrdered buffer
  pub is_piece : unwritten buffer ≡ piece st wr m (left wr m)
  pub puts :
      (b : Buffer)
      → Moved buffer b
      → (p : Writer × MessageBuffer) × (put_buffer st wr m b ≡ ok p) × Put st wr m b p
