-- ===== src/Http/StartLine.antt =====
-- switchflow/http/start_line_parser.{hpp,cpp}, and `parse_token` and `parse_char` over a
-- const_buffer of switchflow/http/http.cpp. A const_buffer is the list of its bytes, less than
-- 2 ^ 31 of them. Each round of the loop reads a byte at least, so that fuel for each byte is
-- enough.
pub mod Token
pub mod Total
use switchflow.Base.{
  ℕ, suc, ◌+◌, Bool, true, false, ◌||◌, Option, none, some, [], ◌∷◌, ltb, leb, ◌==◌, if◌then◌else◌,
  Bytes, length, Outcome, ok, fault, out_of_bounds, check_failed, ◌>>=◌, ◌>>◌, check_condition,
  Turn, again, finish, loop,
}
use switchflow.Http.{
  Status, complete, incomplete, invalid, data_overflow, is_complete, is_invalid, is_data_overflow,
  contains, is_ctl_char, sp, cr, lf, space_delimiters, space_endline_delimiters, endline_delimiters,
}

-- `delimiter` is left unset but where one was found.
pub record ParseResult : Type 0 where
  pub status : Status
  pub result_buffer : Bytes
  pub remaining_buffer : Bytes
  pub delimiter : Option ℕ

-- Neither buffer is set.
abbrev pub stopped : Status → ParseResult
stopped st = record { status = st; result_buffer = []; remaining_buffer = []; delimiter = none }

-- One byte more in front of the token that was found, or begun.
abbrev pub behind_byte : ℕ → ParseResult → ParseResult
behind_byte c r = elim r.status [
  | complete ↦ record r { result_buffer = c ∷ r.result_buffer }
  | incomplete ↦ record r { result_buffer = c ∷ r.result_buffer }
  | _ ↦ r
]

-- `http::parse_token`
unfoldable pub parse_buffer_token : Bytes → ℕ → ℕ → Bytes → ParseResult
parse_buffer_token [] current_length max_length delimiters =
    stopped (if leb max_length current_length then data_overflow else incomplete)
parse_buffer_token (c ∷ cs) current_length max_length delimiters =
    let rest = parse_buffer_token cs (current_length + 1) max_length delimiters in
    if ltb current_length max_length
    then if contains delimiters c
      then record {
        status = complete;
        result_buffer = [];
        remaining_buffer = cs;
        delimiter = some c;
      }
      else if is_ctl_char c
      then stopped invalid
      else behind_byte c rest
    else stopped data_overflow

unfoldable pub parse_buffer_char : Bytes → ℕ → Status × Bytes
parse_buffer_char [] c = (incomplete, [])
parse_buffer_char (d ∷ ds) c = if d == c then (complete, ds) else (invalid, d ∷ ds)

-- i_start_line_receiver
pub record StartLineReceiver (R : Type 0) : Type 0 where
  pub token1 : R → Bytes → Bool → Status × R
  pub token2 : R → Bytes → Bool → Status × R
  pub token3 : R → Bytes → Bool → Status × R

pub data ParseOption : Type 0 where
  strict : ParseOption
  loose : ParseOption

pub data State : Type 0 where
  state_token_1 : State
  state_token_2 : State
  state_token_3 : State
  state_lf : State

pub record Parser : Type 0 where
  pub state : State
  pub current_length : ℕ
  pub token1_max_length : ℕ
  pub token2_max_length : ℕ
  pub token3_max_length : ℕ

unfoldable pub create : ℕ → ℕ → ℕ → Parser
create max1 max2 max3 = record {
  state = state_token_1;
  current_length = 0;
  token1_max_length = max1;
  token2_max_length = max2;
  token3_max_length = max3;
}

unfoldable pub reset : Parser → Parser
reset p = record p { state = state_token_1; current_length = 0 }

unfoldable pub next_state : State → ℕ → Outcome State
next_state state_token_1 delimiter = do check_condition (delimiter == sp); ok state_token_2
next_state state_token_2 delimiter =
    if delimiter == cr
    then ok state_lf
    else if delimiter == sp
    then ok state_token_3
    else fault check_failed
next_state state_token_3 delimiter = do check_condition (delimiter == cr); ok state_lf
next_state state_lf delimiter = ok state_token_1

unfoldable pub get_token_delimiters : State → ParseOption → Outcome Bytes
get_token_delimiters state_token_1 option = ok space_delimiters
get_token_delimiters state_token_2 strict = ok space_delimiters
get_token_delimiters state_token_2 loose = ok space_endline_delimiters
get_token_delimiters state_token_3 option = ok endline_delimiters
get_token_delimiters state_lf option = fault check_failed

-- The parser, what is left of the buffer, and the receiver.
pub record World (R : Type 0) : Type 0 where
  pub parser : Parser
  pub buffer : Bytes
  pub receiver : R

abbrev pub refuses : Status → Bool
refuses st = is_data_overflow st || is_invalid st

-- `OVERFLOW` is a macro of the C library's math.h: `is_overflow` compares with it.
module _ {R : Type 0} (is_overflow : Status → Bool) (receiver : StartLineReceiver R) where
  unfoldable pub set_token : State → R → Bytes → Bool → Outcome (Status × R)
  set_token state_token_1 r token b_complete = ok (receiver.token1 r token b_complete)
  set_token state_token_2 r token b_complete = ok (receiver.token2 r token b_complete)
  set_token state_token_3 r token b_complete = ok (receiver.token3 r token b_complete)
  set_token state_lf r token b_complete = fault check_failed

  -- `next_state(result.delimiter)`
  abbrev delimited : Parser → Option ℕ → Outcome Parser
  delimited p none = fault out_of_bounds
  delimited p (some d) = do
    s ← next_state p.state d
    ok (record p { state = s; current_length = 0 })

  -- Behind `http::parse_token`, by its result.
  unfoldable pub token_parsed : ParseResult → World R → Outcome (Status × World R)
  token_parsed result w =
      if is_overflow result.status || is_invalid result.status
      then ok (result.status, record w { buffer = result.result_buffer })
      else (let p = record (w.parser) {
        current_length = w.parser.current_length + length result.result_buffer;
      } in
          set_token p.state w.receiver result.result_buffer (is_complete result.status)
          >>= λ (st, r).
              if refuses st
              then ok (
                result.status,
                record { parser = p; buffer = result.remaining_buffer; receiver = r },
              )
              else ((if is_complete result.status then delimited p result.delimiter else ok p)
                  >>= λ p'. ok (
                    result.status,
                    record { parser = p'; buffer = result.remaining_buffer; receiver = r },
                  )))

  unfoldable pub parse_token : ParseOption → ℕ → World R → Outcome (Status × World R)
  parse_token option max_length w = do
    delimiters ← get_token_delimiters w.parser.state option
    token_parsed (parse_buffer_token w.buffer w.parser.current_length max_length delimiters) w

  -- The cases of the tokens fall through to the last one, and so to its maximum.
  abbrev token_round : ParseOption → World R → Outcome (Turn (World R) (Status × World R))
  token_round option w = do
    (st, w') ← parse_token option w.parser.token3_max_length w
    ok (if is_complete st then again w' else finish (st, w'))

  abbrev lf_round : World R → Outcome (Turn (World R) (Status × World R))
  lf_round w =
      let (st, b) = parse_buffer_char w.buffer lf in ok (finish (st, record w { buffer = b }))

  unfoldable pub round_in :
      State → ParseOption → World R → Outcome (Turn (World R) (Status × World R))
  round_in state_lf option w = lf_round w
  round_in _ option w = token_round option w

  -- The loop ends with an empty buffer, where what it has last is INCOMPLETE.
  abbrev pub round : ParseOption → World R → Outcome (Turn (World R) (Status × World R))
  round option w = elim w.buffer [
    | [] ↦ ok (finish (incomplete, w))
    | c ∷ cs ↦ round_in w.parser.state option w
  ]

  unfoldable pub parse_start_line : ParseOption → World R → Outcome (Status × World R)
  parse_start_line option w = loop (length w.buffer + 1) (round option) w
