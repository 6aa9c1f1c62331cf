-- ===== src/Http/Line.antt =====
-- `line_parser` of switchflow/http/http.{hpp,cpp}: a line that ends in CR LF, read piece by piece.
-- Its loop goes on once at most, so that two units of fuel are enough. `line_end_option_` is set and
-- never read.
pub mod Total
use switchflow.Base.{
  ℕ, Option, none, some, Outcome, ok, fault, check_failed, ◌>>=◌, Turn, again, finish, loop,
}
use switchflow.Util.Buffer.{Buffer}
use switchflow.Http.{Status, complete, incomplete, invalid, data_overflow, lf, endline_delimiters}
use switchflow.Http.Scan.{Scan, parse_token, parse_char_at}

pub data LineEndOption : Type 0 where
  allow_only_lf : LineEndOption
  require_crlf : LineEndOption

pub data LineState : Type 0 where
  parsing_line : LineState
  parsing_lf : LineState
  parse_complete : LineState

pub record LineParser : Type 0 where
  pub current_length : ℕ
  pub max_length : ℕ
  pub state : LineState
  pub line_end_option : LineEndOption

unfoldable pub reset_line : LineParser → LineEndOption → ℕ → LineParser
reset_line p option max_length = record {
  current_length = 0;
  max_length = max_length;
  state = parsing_line;
  line_end_option = option;
}

-- The parser, `begin_offset`, and `end_offset`, which the caller gives.
pub record LineWorld : Type 0 where
  pub parser : LineParser
  pub begin_offset : ℕ
  pub end_offset : ℕ

abbrev LineRound : Type 0
LineRound = Outcome (Turn LineWorld (Status × LineWorld))

abbrev in_state : LineWorld → LineState → LineWorld
in_state w s = record w { parser = record (w.parser) { state = s } }

abbrev end_at : LineWorld → Option ℕ → LineWorld
end_at w none = w
end_at w (some e) = record w { end_offset = e }

-- The first `switch`, by the status.
abbrev token_case : Status → LineWorld → LineRound
token_case complete w = ok (again (in_state (record w { begin_offset = w.end_offset }) parsing_lf))
token_case invalid w = ok (finish (invalid, in_state w parse_complete))
token_case data_overflow w = ok (finish (data_overflow, in_state w parse_complete))
token_case incomplete w = ok (finish (incomplete, w))
token_case _ w = fault check_failed

-- The second one.
abbrev char_case : Status → LineWorld → LineRound
char_case complete w = ok (finish (complete, in_state w parse_complete))
char_case invalid w = ok (finish (invalid, in_state w parse_complete))
char_case data_overflow w = ok (finish (data_overflow, in_state w parse_complete))
char_case incomplete w = ok (finish (incomplete, w))
char_case _ w = fault check_failed

module _ (b : Buffer) where
  unfoldable pub line_state_round : LineState → LineWorld → LineRound
  line_state_round parse_complete w = ok (finish (invalid, w))
  line_state_round parsing_line w =
      let p = w.parser in
      let s = parse_token b w.begin_offset p.current_length p.max_length endline_delimiters in
      token_case s.status
        (end_at (record w { parser = record p { current_length = s.current_length } }) s.end)
  line_state_round parsing_lf w = do
    (st, end) ← parse_char_at b w.begin_offset lf
    char_case st (end_at w end)

  abbrev pub one_round : LineWorld → LineRound
  one_round w = line_state_round w.parser.state w

  unfoldable pub parse_line : LineParser → ℕ → ℕ → Outcome (Status × LineWorld)
  parse_line p begin_offset end_offset =
      loop 2 one_round (record { parser = p; begin_offset = begin_offset; end_offset = end_offset })
