-- ===== src/Http/Header.antt =====
-- switchflow/http/header_parser.{hpp,cpp}: the start line and the header fields of a message, read
-- buffer by buffer. `chunk_size_buffer_` and `message_size_` are used by no member.
pub mod StatusLine
pub mod Fields
pub mod StatusTotal
pub mod FieldsTotal
use switchflow.Base.{
  ℕ, Bool, true, false, ◌||◌, if◌then◌else◌, ◌==◌, ◌≡◌, Bytes, Fault, Outcome, ok, fault,
  check_failed, ◌>>=◌, ◌>>◌, check_condition,
}
use switchflow.Http.{Status, space_delimiters, endline_delimiters, space_endline_delimiters, cr, sp}

-- switchflow/http/i_header_receiver.hpp. The range of the buffer that a member is handed is the
-- list of its bytes.
pub record HeaderReceiver (R : Type 0) : Type 0 where
  pub start_line_token1 : R → Bytes → Bool → Outcome (Status × R)
  pub start_line_token2 : R → Bytes → Bool → Outcome (Status × R)
  pub start_line_token3 : R → Bytes → Bool → Outcome (Status × R)
  pub set_field_name : R → Bytes → Bool → Outcome (Status × R)
  pub set_field_value : R → Bytes → Bool → Outcome (Status × R)
  pub end_fields : R → Outcome (Status × R)

-- A call of a member aborts with this fault.
pub data Aborts {R : Type 0} (receiver : HeaderReceiver R) (e : Fault) : Type 0 where
  at_token1 :
      (r : R) (t : Bytes) (c : Bool)
      → receiver.start_line_token1 r t c ≡ fault e
      → Aborts receiver e
  at_token2 :
      (r : R) (t : Bytes) (c : Bool)
      → receiver.start_line_token2 r t c ≡ fault e
      → Aborts receiver e
  at_token3 :
      (r : R) (t : Bytes) (c : Bool)
      → receiver.start_line_token3 r t c ≡ fault e
      → Aborts receiver e
  at_name :
      (r : R) (t : Bytes) (c : Bool) → receiver.set_field_name r t c ≡ fault e → Aborts receiver e
  at_value :
      (r : R) (t : Bytes) (c : Bool) → receiver.set_field_value r t c ≡ fault e → Aborts receiver e
  at_end : (r : R) → receiver.end_fields r ≡ fault e → Aborts receiver e

-- PARSE_OPTION
pub data ParseOption : Type 0 where
  strict : ParseOption
  loose : ParseOption

-- STATUS_LINE_PARSE_STATE
pub data StatusLineState : Type 0 where
  status_line_token1 : StatusLineState
  status_line_token2 : StatusLineState
  status_line_token3 : StatusLineState
  status_line_lf : StatusLineState

-- PARSE_STATE
pub data ParseState : Type 0 where
  status_line : ParseState
  end_headers_cr : ParseState
  end_headers_lf : ParseState
  field_name : ParseState
  field_value_leading_lws : ParseState
  field_value_lws_lf : ParseState
  field_value_lws : ParseState
  field_value_content : ParseState

pub record Parser : Type 0 where
  pub current_state : ParseState
  pub status_line_state : StatusLineState
  pub current_length : ℕ

-- RESET_CURRENT_LENGTH is the default of `transition_to_state`.
abbrev pub transition_to_state : Parser → ParseState → Parser
transition_to_state p new_state = record p { current_state = new_state; current_length = 0 }

abbrev pub transition_keeping_length : Parser → ParseState → Parser
transition_keeping_length p new_state = record p { current_state = new_state }

unfoldable pub reset : Parser → Parser
reset p = transition_to_state (record p { status_line_state = status_line_token1 }) status_line

unfoldable pub next_status_line_state : StatusLineState → ℕ → Outcome StatusLineState
next_status_line_state status_line_token1 delimiter = do
  check_condition (delimiter == sp)
  ok status_line_token2
next_status_line_state status_line_token2 delimiter =
    if delimiter == cr
    then ok status_line_lf
    else if delimiter == sp
    then ok status_line_token3
    else fault check_failed
next_status_line_state status_line_token3 delimiter = do
  check_condition (delimiter == cr)
  ok status_line_lf
next_status_line_state status_line_lf delimiter = ok status_line_token1

unfoldable pub get_status_token_delimiters : StatusLineState → ParseOption → Outcome Bytes
get_status_token_delimiters status_line_token1 option = ok space_delimiters
get_status_token_delimiters status_line_token2 strict = ok space_delimiters
get_status_token_delimiters status_line_token2 loose = ok space_endline_delimiters
get_status_token_delimiters status_line_token3 option = ok endline_delimiters
get_status_token_delimiters status_line_lf option = fault check_failed

module _ {R : Type 0} (receiver : HeaderReceiver R) where
  unfoldable pub receive_status_line_token :
      StatusLineState → R → Bytes → Bool → Outcome (Status × R)
  receive_status_line_token status_line_token1 r token is_complete =
      receiver.start_line_token1 r token is_complete
  receive_status_line_token status_line_token2 r token is_complete =
      receiver.start_line_token2 r token is_complete
  receive_status_line_token status_line_token3 r token is_complete =
      receiver.start_line_token3 r token is_complete
  receive_status_line_token status_line_lf r token is_complete = fault check_failed
