-- ===== src/Http/Writer.antt =====
-- switchflow/http/header_writer.{hpp,cpp} and static_strings.cpp: the start line and the fields of
-- a message, written to a connection piece by piece. The message and the connection that the
-- writer points to stand beside it, as they do once `reset` has set the pointers.
pub mod Pieces
pub mod Sends
pub mod Render
use switchflow.Base.{
  ℕ, zero, suc, ◌+◌, Bool, true, false, List, [], ◌∷◌, ◌==◌, if◌then◌else◌, u32, Bytes, codes,
  Outcome, ok, fault, check_failed, ◌>>=◌, Turn, again, finish, loop,
}
use switchflow.Util.Buffer.{Buffer, of_static, reset as reset_buffer}
use switchflow.Http.{cr, lf}
use switchflow.Http.Message.{MessageBuffer, get_header, put_header}
use switchflow.Socketlib.{Status, complete, incomplete, dest_closed}
use switchflow.Socketlib.Os.{Os}
use switchflow.Socketlib.Connection as Connection
use switchflow.Socketlib.Connection.{Connection, non_blocking_write}

-- `strings_`
abbrev pub space : Bytes
space = codes " "

abbrev pub endline : Bytes
endline = cr ∷ lf ∷ []

abbrev pub fieldsep : Bytes
fieldsep = codes ": "

pub data State : Type 0 where
  start_line_token1 : State
  start_line_seperator1 : State
  start_line_token2 : State
  start_line_seperator2 : State
  start_line_token3 : State
  start_line_end : State
  field_name : State
  field_value_seperator : State
  field_value : State
  field_seperator : State
  end_fields : State

-- `++write_header_state_`; the last state is not left so.
pub next_state : State → State
next_state start_line_token1 = start_line_seperator1
next_state start_line_seperator1 = start_line_token2
next_state start_line_token2 = start_line_seperator2
next_state start_line_seperator2 = start_line_token3
next_state start_line_token3 = start_line_end
next_state start_line_end = field_name
next_state field_name = field_value_seperator
next_state field_value_seperator = field_value
next_state field_value = field_seperator
next_state field_seperator = end_fields
next_state end_fields = end_fields

pub record Writer : Type 0 where
  pub space_buf : Buffer
  pub endline_buf : Buffer
  pub field_sep : Buffer
  pub current_dump_header : ℕ
  pub write_header_state : State

-- The constructor leaves the state and the count to `reset`.
unfoldable pub reset : Writer → Writer
unfolding reset_buffer
reset w = record {
  space_buf = reset_buffer w.space_buf;
  endline_buf = reset_buffer w.endline_buf;
  field_sep = reset_buffer w.field_sep;
  current_dump_header = 0;
  write_header_state = start_line_token1;
}

unfoldable pub create : Writer
unfolding of_static
create = record {
  space_buf = of_static space;
  endline_buf = of_static endline;
  field_sep = of_static fieldsep;
  current_dump_header = 0;
  write_header_state = start_line_token1;
}

-- The writer with the message and the connection, and the system behind it.
pub record World (S : Type 0) : Type 0 where
  pub writer : Writer
  pub message : MessageBuffer
  pub dest : Connection
  pub system : S

-- The three buffers are reset whenever a piece is complete.
unfoldable pub reset_strings : Writer → Writer
unfolding reset_buffer
reset_strings w = record w {
  space_buf = reset_buffer w.space_buf;
  endline_buf = reset_buffer w.endline_buf;
  field_sep = reset_buffer w.field_sep;
}

-- `get_header_buffer_to_write` gives a reference: the buffer,
unfoldable pub get_buffer : State → Writer → MessageBuffer → Outcome Buffer
get_buffer start_line_token1 w m = ok m.start_line1
get_buffer start_line_seperator1 w m = ok w.space_buf
get_buffer start_line_token2 w m = ok m.start_line2
get_buffer start_line_seperator2 w m = ok w.space_buf
get_buffer start_line_token3 w m = ok m.start_line3
get_buffer start_line_end w m = ok w.endline_buf
get_buffer field_name w m = get_header m w.current_dump_header >>= λ h. ok h.name
get_buffer field_value_seperator w m = ok w.field_sep
get_buffer field_value w m = get_header m w.current_dump_header >>= λ h. ok h.value
get_buffer field_seperator w m = ok w.endline_buf
get_buffer end_fields w m = ok w.endline_buf

-- and what is changed through it.
unfoldable pub put_buffer :
    State → Writer → MessageBuffer → Buffer → Outcome (Writer × MessageBuffer)
put_buffer start_line_token1 w m b = ok (w, record m { start_line1 = b })
put_buffer start_line_seperator1 w m b = ok (record w { space_buf = b }, m)
put_buffer start_line_token2 w m b = ok (w, record m { start_line2 = b })
put_buffer start_line_seperator2 w m b = ok (record w { space_buf = b }, m)
put_buffer start_line_token3 w m b = ok (w, record m { start_line3 = b })
put_buffer start_line_end w m b = ok (record w { endline_buf = b }, m)
put_buffer field_name w m b = do
  h ← get_header m w.current_dump_header
  ok (w, put_header m w.current_dump_header (record h { name = b }))
put_buffer field_value_seperator w m b = ok (record w { field_sep = b }, m)
put_buffer field_value w m b = do
  h ← get_header m w.current_dump_header
  ok (w, put_header m w.current_dump_header (record h { value = b }))
put_buffer field_seperator w m b = ok (record w { endline_buf = b }, m)
put_buffer end_fields w m b = ok (record w { endline_buf = b }, m)

-- The test in front of a piece: behind the last field comes the end.
abbrev pub start_state : State → ℕ → ℕ → State
start_state field_name current num_fields = if current == num_fields then end_fields else field_name
start_state st current num_fields = st

module _ {S : Type 0} where
  abbrev pub start_piece : World S → World S
  start_piece w = record w {
    writer = record (w.writer) {
      write_header_state =
          start_state w.writer.write_header_state w.writer.current_dump_header
            w.message.current_num_fields;
    };
  }

  -- What follows a piece that is complete, whose state is `st`.
  unfoldable pub after_piece : State → World S → Turn (World S) (Status × World S)
  unfolding reset_strings next_state
  after_piece field_seperator w = again (record w {
    writer = record (reset_strings w.writer) {
      write_header_state = field_name;
      current_dump_header = u32 (w.writer.current_dump_header + 1);
    };
  })
  after_piece end_fields w = finish (complete, record w { writer = reset_strings w.writer })
  after_piece st w =
      again (record w {
        writer = record (reset_strings w.writer) { write_header_state = next_state st };
      })

  abbrev pub by_status : State → World S → Status → Outcome (Turn (World S) (Status × World S))
  by_status st w complete = ok (after_piece st w)
  by_status st w incomplete = ok (finish (incomplete, w))
  by_status st w dest_closed = ok (finish (dest_closed, w))
  by_status st w _ = fault check_failed

module _ {S : Type 0} (os : Os S) where
  -- One piece; `fuel` is that of `non_blocking_write`.
  unfoldable pub piece_round : ℕ → World S → Outcome (Turn (World S) (Status × World S))
  unfolding get_buffer put_buffer after_piece
  piece_round fuel w = do
    let w₁ = start_piece w
    let st = w₁.writer.write_header_state
    b ← get_buffer st w₁.writer w₁.message
    (status, sent) ←
        non_blocking_write os fuel (record { dest = w₁.dest; buffer = b; system = w₁.system })
    (writer, message) ← put_buffer st w₁.writer w₁.message sent.buffer
    by_status st
        (record { writer = writer; message = message; dest = sent.dest; system = sent.system })
        status

  unfoldable pub write_header : ℕ → World S → Outcome (Status × World S)
  unfolding piece_round
  write_header fuel w = loop fuel (piece_round fuel) w
