-- ===== src/Http/Header/StatusTotal.antt =====
-- About every call of `parse_status_line`.
use switchflow.Base.{
  ℕ, ◌≤◌, ◌<◌, ◌≡◌, refl, arith, ◌-◌, Bytes, Bool, true, false, Fault, ReturnsOr, KeepsOr,
  loop-ReturnsOr,
}
use switchflow.Util.Buffer.{Buffer, slice, set_process_position, set_write_position}
use switchflow.Util.Buffer.Valid.{IsValid}
use switchflow.Http.{
  Status, contains, lf, max_field_length, space_delimiters, endline_delimiters,
  space_endline_delimiters,
}
use switchflow.Http.Scan.{end_or, parse_token}
use switchflow.Http.Scan.Offsets.{parse_token-TokenEnds, parse_char_at-CharEnds}
use switchflow.Http.Header.{
  HeaderReceiver, ParseState, ParseOption, strict, loose, StatusLineState, status_line_token1,
  status_line_token2, status_line_token3, status_line_lf, Parser, next_status_line_state,
  get_status_token_delimiters, receive_status_line_token,
}
use switchflow.Http.Header.StatusLine.{
  Line, token_found, parse_status_token, line_round_in, line_round, parse_status_line,
}

rank : StatusLineState → ℕ
rank status_line_token1 = 3
rank status_line_token2 = 2
rank status_line_token3 = 1
rank status_line_lf = 0

rank-lt : (s : StatusLineState) → rank s < 4
unfolding rank
rank-lt status_line_token1 = omega arith
rank-lt _ = omega arith

-- What is allowed of the faults of a receiver's members.
pub record FailsBy {R : Type 0} (receiver : HeaderReceiver R) (allowed : Fault → Type 0)
    : Type 0 where
  pub token1 :
      (r : R) (t : Bytes) (c : Bool)
      → ReturnsOr (λ _. Unit {0}) allowed (receiver.start_line_token1 r t c)
  pub token2 :
      (r : R) (t : Bytes) (c : Bool)
      → ReturnsOr (λ _. Unit {0}) allowed (receiver.start_line_token2 r t c)
  pub token3 :
      (r : R) (t : Bytes) (c : Bool)
      → ReturnsOr (λ _. Unit {0}) allowed (receiver.start_line_token3 r t c)
  pub name :
      (r : R) (t : Bytes) (c : Bool)
      → ReturnsOr (λ _. Unit {0}) allowed (receiver.set_field_name r t c)
  pub value :
      (r : R) (t : Bytes) (c : Bool)
      → ReturnsOr (λ _. Unit {0}) allowed (receiver.set_field_value r t c)

module _ {R : Type 0} (receiver : HeaderReceiver R) (allowed : Fault → Type 0)
    (fails : FailsBy receiver allowed) (b : Buffer) (v : IsValid b) (state : ParseState) where
  pub record IsIn (l : Line R) : Type 0 where
    pub from : b.process_position ≤ l.offset
    pub upto : l.offset ≤ b.working_length
    pub length_le : l.parser.current_length ≤ max_field_length
    pub same_state : l.parser.current_state ≡ state

  abbrev InBuffer : Status × Line R → Type 0
  InBuffer (st, l) = IsIn l

  line_round_in-Keeps :
      (s : StatusLineState) (option : ParseOption) (l : Line R)
      → l.parser.status_line_state ≡ s
      → IsIn l
      → KeepsOr allowed IsIn InBuffer
          (λ u. rank u.parser.status_line_state)
          (rank s)
          (line_round_in receiver b s option l)
  unfolding line_round_in rank parse_status_token token_found receive_status_line_token
      next_status_line_state get_status_token_delimiters contains
  line_round_in-Keeps status_line_lf option l e h =
      ground (arith, parse_char_at-CharEnds b v l.offset lf)
  line_round_in-Keeps status_line_token1 option l e h = ground (
    arith,
    parse_token-TokenEnds b v l.offset l.parser.current_length max_field_length space_delimiters,
    fails.token1 l.receiver
        (slice b l.offset (
          end_or (parse_token b l.offset l.parser.current_length max_field_length space_delimiters)
            l.offset
          - 1))
        true,
    fails.token1 l.receiver
        (slice b l.offset (
          end_or (parse_token b l.offset l.parser.current_length max_field_length space_delimiters)
            l.offset))
        false,
  )
  line_round_in-Keeps status_line_token2 strict l e h = ground (
    arith,
    parse_token-TokenEnds b v l.offset l.parser.current_length max_field_length space_delimiters,
    fails.token2 l.receiver
        (slice b l.offset (
          end_or (parse_token b l.offset l.parser.current_length max_field_length space_delimiters)
            l.offset
          - 1))
        true,
    fails.token2 l.receiver
        (slice b l.offset (
          end_or (parse_token b l.offset l.parser.current_length max_field_length space_delimiters)
            l.offset))
        false,
  )
  line_round_in-Keeps status_line_token2 loose l e h = ground (
    arith,
    parse_token-TokenEnds b v l.offset l.parser.current_length max_field_length
        space_endline_delimiters,
    fails.token2 l.receiver
        (slice b l.offset (
          end_or
            (parse_token b l.offset l.parser.current_length max_field_length
              space_endline_delimiters)
            l.offset
          - 1))
        true,
    fails.token2 l.receiver
        (slice b l.offset (
          end_or
            (parse_token b l.offset l.parser.current_length max_field_length
              space_endline_delimiters)
            l.offset))
        false,
  )
  line_round_in-Keeps status_line_token3 option l e h = ground (
    arith,
    parse_token-TokenEnds b v l.offset l.parser.current_length max_field_length endline_delimiters,
    fails.token3 l.receiver
        (slice b l.offset (
          end_or
            (parse_token b l.offset l.parser.current_length max_field_length endline_delimiters)
            l.offset
          - 1))
        true,
    fails.token3 l.receiver
        (slice b l.offset (
          end_or
            (parse_token b l.offset l.parser.current_length max_field_length endline_delimiters)
            l.offset))
        false,
  )

  -- The line that is left, and the buffer moved there.
  abbrev pub Reads : Status × Line R × Buffer → Type 0
  Reads (st, l, b') =
      IsIn l × (b' ≡ record b { process_position = l.offset; write_position = l.offset })

  -- On a valid buffer, and for a token within the limit so far, a call does not run on, whatever
  -- statuses the receiver answers, and aborts only by a fault that its members abort by: it leaves the token within its limit and the state of
  -- the header parser as it is, stops between where it began and the end of the buffer, and moves
  -- the process position and the write position there and nothing else of the buffer.
  pub parse_status_line-Reads :
      (option : ParseOption) (p : Parser) (r : R)
      → p.current_length ≤ max_field_length
      → p.current_state ≡ state
      → ReturnsOr Reads allowed (parse_status_line receiver b option p r)
  unfolding parse_status_line set_process_position set_write_position
  parse_status_line-Reads option p r h same =
      let start : Line R = record { parser = p; offset = b.process_position; receiver = r } in
      let reads =
        loop-ReturnsOr allowed IsIn InBuffer (λ u. rank u.parser.status_line_state)
          (line_round receiver b option)
          (λ u k. line_round_in-Keeps u.parser.status_line_state option u refl k) 4 start
          (rank-lt p.status_line_state)
          (record { from = omega arith; upto = v.processed; length_le = h; same_state = same }) in
      ground (arith, reads)
