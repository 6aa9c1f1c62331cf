-- ===== src/Http/Body/ContentLength.antt =====
-- switchflow/http/content_length_body_parser.{hpp,cpp}: a body of a length that is known. The loop
-- runs at most twice, so two units of fuel are enough for it.
pub mod Total
pub mod Stream
use switchflow.Base.{
  ℕ, Bool, true, false, if◌then◌else◌, Outcome, ok, ◌>>=◌, Turn, again, finish, loop,
}
use switchflow.Util.Buffer.{Buffer, set_write_position, set_write_end_position}
use switchflow.Http.{Status, complete, incomplete, write_incomplete, is_complete, is_incomplete}
use switchflow.Http.Scan.{parse_n_length_buffer}
use switchflow.Http.Body.Receiver.{BodyReceiver}

pub data ParseState : Type 0 where
  message_body_parse : ParseState
  incomplete_message_body_forward : ParseState
  complete_message_body_forward : ParseState

-- `current_offset_` is only ever reset.
pub record Parser : Type 0 where
  pub parse_state : ParseState
  pub content_length : ℕ
  pub current_offset : ℕ
  pub current_length : ℕ

unfoldable pub reset : ℕ → Parser
reset message_size = record {
  parse_state = message_body_parse;
  content_length = message_size;
  current_offset = 0;
  current_length = 0;
}

-- The parser with the objects that it works on.
pub record World (R : Type 0) : Type 0 where
  pub parser : Parser
  pub buffer : Buffer
  pub receiver : R

abbrev pub transition_to_state : Parser → ParseState → Parser
transition_to_state p new_state = record p { parse_state = new_state }

-- The state that follows a count of the bytes, by its status.
abbrev next_state : Status → ParseState
next_state st =
    if is_complete st
    then complete_message_body_forward
    else if is_incomplete st
    then incomplete_message_body_forward
    else message_body_parse

module _ {R : Type 0} (receiver : BodyReceiver R) where
  -- case MESSAGE_BODY_PARSE
  abbrev parse_body : World R → Outcome (Turn (World R) (Status × World R))
  parse_body w = do
    let p = w.parser
    b₁ ← set_write_position w.buffer w.buffer.process_position
    (st, length', b₂) ← parse_n_length_buffer b₁ p.current_length p.content_length
    b₃ ← set_write_end_position b₂ b₂.process_position
    ok (
        again (record w {
          parser = record p { current_length = length'; parse_state = next_state st };
          buffer = b₃;
        }))

  -- case INCOMPLETE_MESSAGE_BODY_FORWARD
  abbrev forward_incomplete : World R → Outcome (Turn (World R) (Status × World R))
  forward_incomplete w =
      let (st, b, r) = receiver.set_body w.receiver w.buffer false in
      let w' = record w { buffer = b; receiver = r } in
      ok (
        finish (
          if is_complete st
          then (incomplete, record w' { parser = transition_to_state w.parser message_body_parse })
          else if is_incomplete st
          then (write_incomplete, w')
          else (st, w')))

  -- case COMPLETE_MESSAGE_BODY_FORWARD
  abbrev forward_complete : World R → Outcome (Turn (World R) (Status × World R))
  forward_complete w =
      let (st, b, r) = receiver.set_body w.receiver w.buffer true in
      let w' = record w { buffer = b; receiver = r } in
      ok (finish (if is_incomplete st then (write_incomplete, w') else (st, w')))

  unfoldable pub round_in : ParseState → World R → Outcome (Turn (World R) (Status × World R))
  round_in message_body_parse w = parse_body w
  round_in incomplete_message_body_forward w = forward_incomplete w
  round_in complete_message_body_forward w = forward_complete w

  abbrev pub round : World R → Outcome (Turn (World R) (Status × World R))
  round w = round_in w.parser.parse_state w

  pub parse_content_length_body : World R → Outcome (Status × World R)
  parse_content_length_body w = loop 2 round w
