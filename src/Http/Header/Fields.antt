-- ===== src/Http/Header/Fields.antt =====
-- `parse_headers` of switchflow/http/header_parser.cpp. A round of its loop passes over a byte or
-- goes on to a state of lower rank, of which there are four, so that its fuel is enough.
use switchflow.Base.{
  ℕ, ◌+◌, ◌-◌, ◌*◌, Bool, true, false, not, ◌&&◌, none, some, if◌then◌else◌, ◌==◌, Outcome, ok,
  ◌>>=◌, Turn, again, finish, loop,
}
use switchflow.Util.Buffer.{Buffer, slice, set_process_position, set_write_position}
use switchflow.Http.{
  Status, complete, incomplete, invalid, data_overflow, is_complete, is_data_overflow, cr, lf,
  max_field_length, field_delimiters, white_space, endline_delimiters,
}
use switchflow.Http.Scan.{Scan, end_or, parse_token, parse_equal, parse_char_at}
use switchflow.Http.Header.{
  HeaderReceiver, ParseOption, ParseState, status_line, end_headers_cr, end_headers_lf, field_name,
  field_value_leading_lws, field_value_lws_lf, field_value_lws, field_value_content, Parser,
  transition_to_state, transition_keeping_length,
}
use switchflow.Http.Header.StatusLine.{parse_status_line}

-- The parser, the buffer, `current_offset` and the receiver.
pub record World (R : Type 0) : Type 0 where
  pub parser : Parser
  pub buffer : Buffer
  pub offset : ℕ
  pub receiver : R

-- What the loop ends with: `return_value` and `finished`.
pub record Result (R : Type 0) : Type 0 where
  pub status : Status
  pub finished : Bool
  pub last : World R

module _ {R : Type 0} where
  abbrev pub go_to : World R → ParseState → World R
  go_to w s = record w { parser = transition_to_state w.parser s }

  abbrev pub stop : Status → World R → Turn (World R) (Result R)
  stop st w = finish (record { status = st; finished = false; last = w })

  -- What a scan leaves behind.
  abbrev pub scanned : World R → Scan → World R
  scanned w s = record w {
    parser = record (w.parser) { current_length = s.current_length };
    offset = end_or s w.offset;
  }

abbrev pub fuel_for : Buffer → ℕ
fuel_for b = 4 * (b.working_length - b.process_position) + 4

module _ {R : Type 0} (receiver : HeaderReceiver R) where
  abbrev Round : Type 0
  Round = Outcome (Turn (World R) (Result R))

  abbrev status_line_round : ParseOption → World R → Round
  status_line_round option w = do
    (st, l, b) ← parse_status_line receiver w.buffer option w.parser w.receiver
    let w' = record w { parser = l.parser; receiver = l.receiver; buffer = b }
    ok (
        if is_complete st
        then again (record (go_to w' end_headers_cr) { offset = b.process_position })
        else stop st w')

  -- The states that want one character.
  abbrev char_round : ℕ → (Status → World R → Round) → World R → Round
  char_round c next w = do
    (st, end) ← parse_char_at w.buffer w.offset c
    next st (record w { offset = elim end [ none ↦ w.offset | some e ↦ e ] })

  abbrev after_end_cr : Status → World R → Round
  after_end_cr complete w = ok (again (go_to w end_headers_lf))
  after_end_cr invalid w = ok (again (go_to w field_name))
  after_end_cr st w = ok (stop st w)

  abbrev after_end_lf : Status → World R → Round
  after_end_lf complete w = do
    (st, r) ← receiver.end_fields w.receiver
    ok (
        finish
          (record { status = st; finished = is_complete st; last = record w { receiver = r } }))
  after_end_lf st w = ok (stop st w)

  abbrev after_lws_lf : Status → World R → Round
  after_lws_lf complete w = ok (again (go_to w field_value_lws))
  after_lws_lf st w = ok (stop st w)

  -- By what `parse_token` found in case FIELD_NAME; `begin` is where the token begins.
  abbrev after_name : Status → ℕ → World R → Round
  after_name complete begin w = do
    (st, r) ← receiver.set_field_name w.receiver (slice w.buffer begin (w.offset - 1)) true
    let w' = record w { receiver = r }
    ok (
        if is_data_overflow st
        then stop data_overflow w'
        else again (go_to w' field_value_leading_lws))
  after_name incomplete begin w = do
    (st, r) ← receiver.set_field_name w.receiver (slice w.buffer begin w.offset) false
    ok (
        stop (if is_data_overflow st then data_overflow else incomplete)
          (record w { receiver = r }))
  after_name st begin w = ok (stop st w)

  abbrev after_leading_lws : Status → World R → Turn (World R) (Result R)
  after_leading_lws complete w =
      again (record w { parser = transition_keeping_length w.parser field_value_content })
  after_leading_lws st w = stop st w

  abbrev after_lws : Status → ℕ → World R → Turn (World R) (Result R)
  after_lws complete begin w =
      again (go_to w (if w.offset == begin then end_headers_cr else field_value_content))
  after_lws st begin w = stop st w

  -- On COMPLETE the state changes whatever the receiver answers.
  abbrev after_content : Status → ℕ → World R → Round
  after_content complete begin w = do
    (st, r) ← receiver.set_field_value w.receiver (slice w.buffer begin (w.offset - 1)) true
    let w' = go_to (record w { receiver = r }) field_value_lws_lf
    ok (if is_data_overflow st then stop data_overflow w' else again w')
  after_content incomplete begin w = do
    (st, r) ← receiver.set_field_value w.receiver (slice w.buffer begin w.offset) false
    ok (
        stop (if is_data_overflow st then data_overflow else incomplete)
          (record w { receiver = r }))
  after_content st begin w = ok (stop st w)

  unfoldable pub name_round : World R → Round
  name_round w =
      let s =
        parse_token w.buffer w.offset w.parser.current_length max_field_length field_delimiters in
      after_name s.status w.offset (scanned w s)

  unfoldable pub leading_lws_round : World R → Turn (World R) (Result R)
  leading_lws_round w =
      let s = parse_equal w.buffer w.offset w.parser.current_length max_field_length white_space in
      after_leading_lws s.status (scanned w s)

  unfoldable pub lws_round : World R → Turn (World R) (Result R)
  lws_round w =
      let s = parse_equal w.buffer w.offset w.parser.current_length max_field_length white_space in
      after_lws s.status w.offset (scanned w s)

  unfoldable pub content_round : World R → Round
  content_round w =
      let s =
        parse_token w.buffer w.offset w.parser.current_length max_field_length endline_delimiters in
      after_content s.status w.offset (scanned w s)

  unfoldable pub round_in : ParseState → ParseOption → World R → Round
  round_in status_line option w = status_line_round option w
  round_in end_headers_cr option w = char_round cr after_end_cr w
  round_in end_headers_lf option w = char_round lf after_end_lf w
  round_in field_name option w = name_round w
  round_in field_value_leading_lws option w = ok (leading_lws_round w)
  round_in field_value_lws_lf option w = char_round lf after_lws_lf w
  round_in field_value_lws option w = ok (lws_round w)
  round_in field_value_content option w = content_round w

  abbrev pub round : ParseOption → World R → Round
  round option w = round_in w.parser.current_state option w

  unfoldable pub parse_headers :
      ParseOption → Parser → Buffer → R → Outcome (Status × Parser × Buffer × R)
  parse_headers option p b r = do
    res ←
        loop (fuel_for b) (round option)
          (record { parser = p; buffer = b; offset = b.process_position; receiver = r })
    let w = res.last
    b₁ ← set_process_position w.buffer w.offset
    b₂ ← set_write_position b₁ w.offset
    ok (
      if is_complete res.status && not res.finished then incomplete else res.status,
      w.parser,
      b₂,
      w.receiver,
    )
