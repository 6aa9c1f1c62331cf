-- ===== src/Http/Handler.antt =====
-- switchflow/http/header_handler.{hpp,cpp}: the receiver of the header parser that stores a message
-- in a message_buffer and learns from its fields how the body is coded, with `get_http_version` of
-- request_buffer_wrapper.cpp. The range of the buffer that a member is handed is the list of its
-- bytes. `log_error` only logs.
pub mod Values
pub mod Names
pub mod Receiver
use switchflow.Base.{
  ℕ, ◌+◌, ◌-◌, ◌*◌, ◌%◌, ◌^◌, Bool, true, false, not, ◌&&◌, ◌||◌, List, [], ◌∷◌, ltb, leb, ◌==◌,
  if◌then◌else◌, u32, Bytes, codes, length, set, Outcome, ok, fault, out_of_bounds, ◌>>=◌, some,
}
use switchflow.Util.Buffer.{Buffer, get_raw_buffer}
use switchflow.Util.Buffer.Compare.{
  CompareResult, equal, substring, not_equal, compare_no_case, equals,
}
use switchflow.Http.{
  Status, complete, invalid, data_overflow, BodyEncoding, no_body, chunked, end_connection,
  content_length,
}
use switchflow.Http.Message.{
  HeaderBuffer, name_equals, value_equals, Shared, reset_message, append_to_status_line_1,
  append_to_status_line_2, append_to_status_line_3, get_header, put_header, append_to_name,
  append_to_value, add_field,
}

-- STREAM_TYPE
pub data StreamType : Type 0 where
  request : StreamType
  response : StreamType

pub record Handler : Type 0 where
  pub current_field : ℕ
  pub message_size : ℕ
  pub have_host_header : Bool
  pub ignore_body_encoding_headers : Bool
  pub body_encoding : BodyEncoding
  pub stream_type : StreamType

-- The handler with the message that it stores into, and the cache of that.
pub record World : Type 0 where
  pub handler : Handler
  pub shared : Shared

abbrev pub valid_methods : List Bytes
valid_methods = codes "GET" ∷ codes "POST" ∷ codes "HEAD" ∷ []

abbrev pub initial_encoding : StreamType → BodyEncoding
initial_encoding request = no_body
initial_encoding response = end_connection

unfoldable pub reset_handler : World → Outcome World
reset_handler w = do
  s ← reset_message w.shared
  ok (record {
    handler = record {
      current_field = 0;
      message_size = 0;
      have_host_header = false;
      ignore_body_encoding_headers = false;
      body_encoding = initial_encoding w.handler.stream_type;
      stream_type = w.handler.stream_type;
    };
    shared = s;
  })

-- One test of the loop over the methods, by the answer of `compare_no_case`.
abbrev method_fits : Bool → CompareResult → Bool
method_fits b_complete equal = b_complete
method_fits b_complete substring = not b_complete
method_fits b_complete not_equal = false

abbrev pub is_method : List Bytes → Buffer → Bool → Bool
is_method [] line b_complete = false
is_method (m ∷ ms) line b_complete =
    method_fits b_complete (compare_no_case line m) || is_method ms line b_complete

abbrev method_status : StreamType → Buffer → Bool → Status
method_status request line b_complete =
    if is_method valid_methods line b_complete then complete else invalid
method_status response line b_complete = complete

unfoldable pub start_line_token1 : World → Bytes → Bool → Outcome (Status × World)
start_line_token1 w src b_complete = do
  (done, m) ← append_to_status_line_1 w.shared.message src
  ok (
    if done then method_status w.handler.stream_type m.start_line1 b_complete else data_overflow,
    record w { shared = record (w.shared) { message = m } },
  )

unfoldable pub scan_return_code : World → World
scan_return_code w =
    if equals w.shared.message.start_line2 (codes "304")
    then record w {
      handler = record (w.handler) { body_encoding = no_body; ignore_body_encoding_headers = true };
    }
    else w

abbrev is_response : StreamType → Bool
is_response request = false
is_response response = true

unfoldable pub start_line_token2 : World → Bytes → Bool → Outcome (Status × World)
unfolding scan_return_code
start_line_token2 w src b_complete = do
  (done, m) ← append_to_status_line_2 w.shared.message src
  let w' = record w { shared = record (w.shared) { message = m } }
  ok (
      if done
      then (
        complete,
        if b_complete && is_response w.handler.stream_type then scan_return_code w' else w',
      )
      else (data_overflow, w'))

unfoldable pub start_line_token3 : World → Bytes → Bool → Outcome (Status × World)
start_line_token3 w src b_complete = do
  (done, m) ← append_to_status_line_3 w.shared.message src
  ok (
    if done then complete else data_overflow,
    record w { shared = record (w.shared) { message = m } },
  )

-- Behind the part that makes room for a new field.
unfoldable pub name_appended : World → Bytes → Outcome (Status × World)
name_appended w src = do
  (done, m) ← append_to_name w.shared.message w.handler.current_field src
  ok (
    if done then complete else data_overflow,
    record w { shared = record (w.shared) { message = m } },
  )

unfoldable pub set_field_name : World → Bytes → Bool → Outcome (Status × World)
set_field_name w src b_complete =
    let h = w.handler in
    let m = w.shared.message in
    if m.current_num_fields == h.current_field
    then if leb m.max_fields h.current_field
      then ok (data_overflow, w)
      else (add_field w.shared >>= λ (added, s).
          if added
          then name_appended (record w { shared = s }) src
          else ok (data_overflow, record w { shared = s }))
    else name_appended w src

-- `*field_value.working_end() = 0`, which no length is checked for.
unfoldable pub terminated : Buffer → Outcome Buffer
terminated b = do
  raw ← get_raw_buffer b
  if ltb b.working_length (length raw)
      then ok (record b { p_buffer = some (set raw b.working_length 0) })
      else fault out_of_bounds

abbrev is_space : ℕ → Bool
is_space c = c == b' ' || (leb 9 c && leb c 13)

abbrev is_digit : ℕ → Bool
is_digit c = leb b'0' c && leb c b'9'

abbrev digits : ℕ → Bytes → ℕ
digits n [] = n
digits n (c ∷ cs) = let rest = digits (10 * n + (c - b'0')) cs in if is_digit c then rest else n

-- `strtol` stops at the ends of a `long` of 64 bits, and the cast to `int` drops the upper half.
abbrev positive : ℕ → ℕ
positive n = u32 (if ltb n (2 ^ 63) then n else 2 ^ 63 - 1)

abbrev negative : ℕ → ℕ
negative n = u32 (2 ^ 32 - u32 (if leb n (2 ^ 63) then n else 2 ^ 63))

abbrev signed : Bytes → ℕ
signed [] = 0
signed (c ∷ cs) =
    if c == b'-'
    then negative (digits 0 cs)
    else if c == b'+'
    then positive (digits 0 cs)
    else positive (digits 0 (c ∷ cs))

-- `atoi` as the C library of Linux has it, as the bits of the `int`.
abbrev pub atoi : Bytes → ℕ
atoi [] = 0
atoi (c ∷ cs) = let rest = atoi cs in if is_space c then rest else signed (c ∷ cs)

-- The part of `scan_field` behind the test for a host, on the header `f` of the current field.
unfoldable pub scan_encoding : World → HeaderBuffer → Outcome World
unfolding terminated
scan_encoding w f = elim (name_equals f (codes "content-length")) [
  | true ↦ elim w.handler.body_encoding [
    | chunked ↦ ok w
    | _ ↦
        (terminated f.value >>= λ value. get_raw_buffer value >>= λ raw. ok (record w {
          handler = record (w.handler) { body_encoding = content_length; message_size = atoi raw };
          shared = record (w.shared) {
            message =
                put_header w.shared.message w.handler.current_field (record f { value = value });
          };
        }))
  ]
  | false ↦ ok (
      if name_equals f (codes "transfer-encoding") && value_equals f (codes "chunked")
      then record w { handler = record (w.handler) { body_encoding = chunked } }
      else w)
]

unfoldable pub scan_field : World → Outcome World
scan_field w = do
  f ← get_header w.shared.message w.handler.current_field
  let host = w.handler.have_host_header || name_equals f (codes "host")
  let w' = record w { handler = record (w.handler) { have_host_header = host } }
  if w.handler.ignore_body_encoding_headers then ok w' else scan_encoding w' f

unfoldable pub set_field_value : World → Bytes → Bool → Outcome (Status × World)
set_field_value w src b_complete = do
  (done, m) ← append_to_value w.shared.message w.handler.current_field src
  let w₁ = record w { shared = record (w.shared) { message = m } }
  if done
      then if b_complete
        then (scan_field w₁ >>= λ w₂. ok (
          complete,
          record w₂ {
            handler = record (w₂.handler) { current_field = w₂.handler.current_field + 1 };
          },
        ))
        else ok (complete, w₁)
      else ok (data_overflow, w₁)

pub data Version : Type 0 where
  http1 : Version
  http1_1 : Version
  invalid_version : Version

pub get_http_version : Shared → Version
get_http_version s =
    if equals s.message.start_line3 (codes "HTTP/1.1")
    then http1_1
    else if equals s.message.start_line3 (codes "HTTP/1.0")
    then http1
    else invalid_version

abbrev lacks_host : StreamType → Version → Bool → Bool
lacks_host request http1_1 host = not host
lacks_host _ v host = false

unfoldable pub end_fields : World → Status × World
unfolding get_http_version
end_fields w = (
  if lacks_host w.handler.stream_type (get_http_version w.shared) w.handler.have_host_header
      then invalid
      else complete,
  w,
)
