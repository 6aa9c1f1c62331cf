-- ===== src/Http/ErrorResponse.antt =====
-- switchflow/http/error_response.cpp: the answer to a bad request, and what header_writer sends of it.
use switchflow.Base.{
  ℕ, ◌+◌, ◌^◌, ◌<◌, ◌≡◌, refl, true, false, some, List, [], ◌∷◌, ◌++◌, arith, Bytes, codes, length,
  Outcome, ok, ◌>>=◌, Returns, Returns-mono,
}
use switchflow.Util.Buffer.{Buffer, set_static_buffer, copy, reset}
use switchflow.Http.Message.{
  HeaderBuffer, MessageBuffer, copy_headers, static_message_buffer, reset_message, reset_header,
}
use switchflow.Socketlib.{Status, complete}
use switchflow.Socketlib.Os.{Os, Streams, IsPosix}
use switchflow.Socketlib.Connection.{Connection}
use switchflow.Http.Writer.{Writer, World, write_header, endline}
use switchflow.Http.Writer.Render.{
  IsWhole, IsWholeMessage, IsWriter, Rendered, started, write_header-Rendered,
}

abbrev pub start_line_1 : Bytes
start_line_1 = codes "HTTP/1.x"

abbrev pub start_line_2 : Bytes
start_line_2 = codes "400"

abbrev pub start_line_3 : Bytes
start_line_3 = codes "Bad Request"

-- `field`, and `field_list` with it alone.
unfoldable pub field_list : List HeaderBuffer
unfolding set_static_buffer
field_list =
    record {
      name = set_static_buffer (codes "Connection");
      value = set_static_buffer (codes "close");
    }
    ∷ []

-- `error_response_`, behind the `reset` of the constructor.
unfoldable pub error_response : Outcome MessageBuffer
unfolding field_list static_message_buffer reset_message
error_response = do
  m ← static_message_buffer start_line_1 start_line_2 start_line_3 field_list
  s ← reset_message (record { message = m; cache = [] })
  ok s.message

-- The message that it is.
abbrev static : Bytes → Buffer
static text = record {
  p_buffer = some text;
  using_static_buffer = true;
  working_length = length text;
  process_position = 0;
  write_end_position = length text;
  write_position = 0;
}

abbrev pub bad_request : MessageBuffer
bad_request = record {
  current_num_fields = 1;
  max_fields = 1;
  start_line1 = static start_line_1;
  start_line2 = static start_line_2;
  start_line3 = static start_line_3;
  headers = record { name = static (codes "Connection"); value = static (codes "close") } ∷ [];
  has_cache = false;
}

error_response-is : error_response ≡ ok bad_request
unfolding error_response copy_headers reset copy reset_header
error_response-is = refl

static-IsWhole : (text : Bytes) → length text < 2 ^ 31 → IsWhole (static text)
static-IsWhole text small = record {
  buffer = record {
    valid = record {
      small = small;
      fits = omega arith;
      processed = omega arith;
      write_end = omega arith;
      written = omega arith;
    };
    raw = text;
    has_raw = refl;
    ordered = omega arith;
  };
  from_start = refl;
  to_end = refl;
}

bad_request-IsWholeMessage : IsWholeMessage bad_request
bad_request-IsWholeMessage = record {
  line1 = static-IsWhole start_line_1 (omega arith);
  line2 = static-IsWhole start_line_2 (omega arith);
  line3 = static-IsWhole start_line_3 (omega arith);
  fields = (
    static-IsWhole (codes "Connection") (omega arith),
    static-IsWhole (codes "close") (omega arith),
    tt,
  );
  counted = refl;
  few = omega arith;
}

-- The text of the answer.
abbrev pub bad_request_text : Bytes
bad_request_text =
    codes "HTTP/1.x 400 Bad Request"
    ++ (endline ++ (codes "Connection: close" ++ (endline ++ endline)))

module _ {S : Type 0} (os : Os S) (streams : Streams S) where
  open streams use {sent, IsOpen, interrupts}

  -- COMPLETE: the whole answer has been sent; otherwise a part of it from its front.
  abbrev pub Answered : Connection → S → Status × World S → Type 0
  Answered dest s (complete, w) = sent w.system dest.fd ≡ sent s dest.fd ++ bad_request_text
  Answered dest s (status, w) =
      (to_come : Bytes) × (sent w.system dest.fd ++ to_come ≡ sent s dest.fd ++ bad_request_text)

  -- The error response is made without a fault, and a writer that was reset sends it to an open
  -- connection, with enough fuel: with COMPLETE it has sent the status line `HTTP/1.x 400 Bad
  -- Request`, the field `Connection: close` and an empty line, and otherwise a part of that from its
  -- front.
  pub error_response-Answered :
      (posix : IsPosix streams os) (fuel : ℕ) (wr : Writer) (dest : Connection) (s : S)
      → IsWriter wr
      → IsOpen s dest.fd
      → 47 + interrupts s < fuel
      → Returns
          (λ m. Returns (Answered dest s) (write_header os fuel (started wr m dest s)))
          error_response
  error_response-Answered posix fuel wr dest s t o enough = rw error_response-is (
      Returns-mono (Rendered os streams (started wr bad_request dest s)) (Answered dest s)
        (write_header os fuel (started wr bad_request dest s)) (λ a. answered a)
        (write_header-Rendered os streams posix fuel wr bad_request dest s t
          bad_request-IsWholeMessage o enough (omega arith)).0)
    where
      answered :
          (a : Status × World S)
          → Rendered os streams (started wr bad_request dest s) a
          → Answered dest s a
      answered (complete, w) h = h
      answered (st, w) h = h
