-- ===== src/Tests/Writers.antt =====
-- A header that header_writer sends, over the wire of Tests/Connections.
use switchflow.Base.{
  ◌<◌, ◌^◌, ◌≡◌, u32, refl, true, [], ◌∷◌, ◌++◌, arith, Bytes, codes, length, loop, Returns,
}
use switchflow.Util.Buffer.{of_static, get_physical_length, set_write_position}
use switchflow.Http.Message.{MessageBuffer, HeaderBuffer, get_header}
use switchflow.Http.Message.Buffers.{get_const_buffers}
use switchflow.Socketlib.{complete}
use switchflow.Socketlib.Connection.{write_round, non_blocking_write}
use switchflow.Http.Writer.{
  World, create, reset, get_buffer, put_buffer, after_piece, piece_round, write_header, endline,
  field_value_seperator,
}
use switchflow.Http.Writer.Pieces.{IsText, IsWriting}
use switchflow.Http.Writer.Sends.{Sends, write_header-Sends}
use switchflow.Http.Writer.Render.{
  IsWhole, IsWholeMessage, IsWriter, Rendered, render, join, started, write_header-Rendered,
}
use switchflow.Http.ErrorResponse.{error_response, Answered, error_response-Answered}
use switchflow.Tests.{holding}
use switchflow.Tests.Connections.{Wire, wire, streams, wire-IsPosix, quiet, socket}

abbrev host : HeaderBuffer
host = record { name = holding (codes "Host"); value = holding (codes "a") }

-- `GET / HTTP/1.1` with a host.
abbrev message : MessageBuffer
message = record {
  current_num_fields = 1;
  max_fields = 8;
  start_line1 = holding (codes "GET");
  start_line2 = holding (codes "/");
  start_line3 = holding (codes "HTTP/1.1");
  headers = host ∷ [];
  has_cache = true;
}

holding-IsWhole : (bytes : Bytes) → length bytes < 2 ^ 31 → IsWhole (holding bytes)
holding-IsWhole bytes small = record {
  buffer = record {
    valid = record {
      small = small;
      fits = omega arith;
      processed = omega arith;
      write_end = omega arith;
      written = omega arith;
    };
    raw = bytes;
    has_raw = refl;
    ordered = omega arith;
  };
  from_start = refl;
  to_end = refl;
}

message-IsWholeMessage : IsWholeMessage message
message-IsWholeMessage = record {
  line1 = holding-IsWhole (codes "GET") (omega arith);
  line2 = holding-IsWhole (codes "/") (omega arith);
  line3 = holding-IsWhole (codes "HTTP/1.1") (omega arith);
  fields =
      (holding-IsWhole (codes "Host") (omega arith), holding-IsWhole (codes "a") (omega arith), tt);
  counted = refl;
  few = omega arith;
}

static-IsText : (text : Bytes) → length text < 2 ^ 31 → IsText text (of_static text)
unfolding of_static
static-IsText text small =
    let size : u32 (length text) ≡ length text = omega arith in
    record {
      buffer = record {
        valid = record {
          small = small;
          fits = omega arith;
          processed = omega arith;
          write_end = omega arith;
          written = omega arith;
        };
        raw = text;
        has_raw = refl;
        ordered = omega arith;
      };
      shows = refl;
      static = refl;
    }

create-IsWriter : IsWriter create
unfolding create
create-IsWriter = record {
  space_text = static-IsText (codes " ") (omega arith);
  endline_text = static-IsText endline (omega arith);
  fieldsep_text = static-IsText (codes ": ") (omega arith);
}

write_header-Rendered_example :
    Returns
      (Rendered wire streams (started create message (socket host.name) quiet))
      (write_header wire 64 (started create message (socket host.name) quiet))
    × Returns (λ bs. join bs ≡ render message) (get_const_buffers message)
write_header-Rendered_example =
    write_header-Rendered wire streams wire-IsPosix 64 create message (socket host.name) quiet
      create-IsWriter message-IsWholeMessage refl (omega arith) (omega arith)

-- In the middle of the header: the colon behind the name of the field is next.
abbrev half_way : World Wire
half_way = record {
  writer = record create { write_header_state = field_value_seperator; current_dump_header = 0 };
  message = message;
  dest = socket host.name;
  system = quiet;
}

half_way-IsWriting : IsWriting field_value_seperator half_way.writer message
half_way-IsWriting = record {
  line1 = message-IsWholeMessage.line1.buffer;
  line2 = message-IsWholeMessage.line2.buffer;
  line3 = message-IsWholeMessage.line3.buffer;
  fields = (message-IsWholeMessage.fields.0.buffer, message-IsWholeMessage.fields.1.buffer, tt);
  counted = refl;
  few = omega arith;
  space_text = create-IsWriter.space_text;
  endline_text = create-IsWriter.endline_text;
  fieldsep_text = create-IsWriter.fieldsep_text;
  within = omega arith;
  fresh = tt;
}

write_header-Sends_example : Returns (Sends wire streams half_way) (write_header wire 20 half_way)
unfolding create
write_header-Sends_example =
    write_header-Sends wire streams wire-IsPosix 20 half_way half_way-IsWriting refl (omega arith)
      (omega arith)

write_header-all :
    Returns
      (λ a. (a.0 ≡ complete) × (a.1.system.taken ≡ codes "x" ++ render message))
      (write_header wire 64 (started create message (socket host.name) quiet))
unfolding write_header loop piece_round get_buffer put_buffer after_piece reset create get_header
    non_blocking_write write_round get_physical_length set_write_position
write_header-all = (refl {a = complete}, refl {a = codes "x" ++ render message})

error_response-Answered_example :
    Returns
      (λ m.
        Returns
          (Answered wire streams (socket host.name) quiet)
          (write_header wire 64 (started create m (socket host.name) quiet)))
      error_response
error_response-Answered_example =
    error_response-Answered wire streams wire-IsPosix 64 create (socket host.name) quiet
      create-IsWriter refl (omega arith)
