-- ===== src/Http/Header/StatusLine.antt =====
-- `parse_status_token` and `parse_status_line` of switchflow/http/header_parser.cpp. The loop goes
-- from one of the four states to a later one, so four units of fuel are enough.
use switchflow.Base.{
  ℕ, ◌-◌, Bool, true, false, ◌||◌, none, some, if◌then◌else◌, Outcome, ok, ◌>>=◌, Turn, again,
  finish, loop,
}
use switchflow.Util.Buffer.{Buffer, at, slice, set_process_position, set_write_position}
use switchflow.Http.{
  Status, complete, incomplete, invalid, is_complete, is_invalid, is_data_overflow, lf,
  max_field_length,
}
use switchflow.Http.Scan.{end_or, parse_token, parse_char_at}
use switchflow.Http.Header.{
  HeaderReceiver, ParseOption, StatusLineState, status_line_lf, Parser, next_status_line_state,
  get_status_token_delimiters, receive_status_line_token,
}

-- The parser, `current_offset` and the receiver, in a buffer that stays as it is.
pub record Line (R : Type 0) : Type 0 where
  pub parser : Parser
  pub offset : ℕ
  pub receiver : R

-- A receiver's refusal.
abbrev pub refuses : Status → Bool
refuses st = is_data_overflow st || is_invalid st

module _ {R : Type 0} (receiver : HeaderReceiver R) (b : Buffer) where
  -- `parse_status_token`, by what `parse_token` found; the line holds its `current_length_`
  unfoldable pub token_found : Status → Line R → ℕ → Outcome (Status × Line R)
  token_found complete l end_offset = do
    let state = l.parser.status_line_state
    (st, r) ←
        receive_status_line_token receiver state l.receiver (slice b l.offset (end_offset - 1)) true
    let l' = record l { offset = end_offset; receiver = r }
    if refuses st
        then ok (st, l')
        else (at b (end_offset - 1) >>= λ delimiter.
            next_status_line_state state delimiter >>= λ state'. ok (
              st,
              record l' {
                parser = record (l.parser) { status_line_state = state'; current_length = 0 };
              },
            ))
  token_found incomplete l end_offset = do
    (st, r) ←
        receive_status_line_token receiver l.parser.status_line_state l.receiver
          (slice b l.offset end_offset) false
    ok (if refuses st then st else incomplete, record l { offset = end_offset; receiver = r })
  token_found _ l end_offset = ok (invalid, record l { offset = end_offset })

  unfoldable pub parse_status_token : ParseOption → Line R → Outcome (Status × Line R)
  parse_status_token option l = do
    let p = l.parser
    delimiters ← get_status_token_delimiters p.status_line_state option
    let s = parse_token b l.offset p.current_length max_field_length delimiters
    let l' = record l { parser = record p { current_length = s.current_length } }
    token_found s.status l' (end_or s l.offset)

  abbrev token_round : ParseOption → Line R → Outcome (Turn (Line R) (Status × Line R))
  token_round option l = do
    (st, l') ← parse_status_token option l
    ok (if is_complete st then again l' else finish (st, l'))

  abbrev lf_round : Line R → Outcome (Turn (Line R) (Status × Line R))
  lf_round l = do
    (st, end) ← parse_char_at b l.offset lf
    ok (finish (st, record l { offset = elim end [ none ↦ l.offset | some e ↦ e ] }))

  unfoldable pub line_round_in :
      StatusLineState → ParseOption → Line R → Outcome (Turn (Line R) (Status × Line R))
  line_round_in status_line_lf option l = lf_round l
  line_round_in _ option l = token_round option l

  abbrev pub line_round : ParseOption → Line R → Outcome (Turn (Line R) (Status × Line R))
  line_round option l = line_round_in l.parser.status_line_state option l

  -- The status, the parser and the receiver, and the buffer with its positions moved.
  unfoldable pub parse_status_line : ParseOption → Parser → R → Outcome (Status × Line R × Buffer)
  parse_status_line option p r = do
    (st, l) ←
        loop 4 (line_round option)
          (record { parser = p; offset = b.process_position; receiver = r })
    b₁ ← set_process_position b l.offset
    b₂ ← set_write_position b₁ l.offset
    ok (st, l, b₂)
