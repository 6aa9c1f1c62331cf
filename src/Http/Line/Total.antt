-- ===== src/Http/Line/Total.antt =====
-- Every call of `line_parser::parse_line` returns, and what its answer means.
use switchflow.Base.{ℕ, ◌≤◌, ◌<◌, ◌≡◌, refl, ◌≢◌, ◌+◌, ◌-◌, arith, ok, Returns, Keeps, loop-Returns}
use switchflow.Util.Buffer.{Buffer, at}
use switchflow.Util.Buffer.Valid.{IsValid}
use switchflow.Http.{
  Status, complete, incomplete, invalid, data_overflow, contains, cr, lf, endline_delimiters,
}
use switchflow.Http.Scan.Offsets.{parse_token-TokenEnds, parse_char_at-CharEnds}
use switchflow.Http.Line.{
  LineState, parsing_line, parsing_lf, parse_complete, LineParser, LineWorld, line_state_round,
  one_round, parse_line,
}

rank : LineState → ℕ
rank parsing_line = 1
rank _ = 0

rank-lt : (s : LineState) → rank s < 2
unfolding rank
rank-lt parsing_line = omega arith
rank-lt _ = omega arith

module _ (b : Buffer) (v : IsValid b) (start : ℕ) where
  pub record IsIn (w : LineWorld) : Type 0 where
    pub from : start ≤ w.begin_offset
    pub upto : w.begin_offset ≤ b.working_length
    pub length_le : w.parser.current_length ≤ w.parser.max_length
    pub behind_cr :
        w.parser.state ≡ parsing_lf → start < w.begin_offset → at b (w.begin_offset - 1) ≡ ok cr

  -- What a call that begins at `start` answers.
  abbrev pub Ends : Status × LineWorld → Type 0
  Ends (complete, w) =
      IsIn w
      × (w.parser.state ≡ parse_complete)
      × (start < w.end_offset)
      × (w.end_offset ≤ b.working_length)
      × (at b (w.end_offset - 1) ≡ ok lf)
      × (start + 1 < w.end_offset → at b (w.end_offset - 2) ≡ ok cr)
  Ends (incomplete, w) =
      IsIn w × (w.parser.state ≢ parse_complete) × (w.end_offset ≡ b.working_length)
  Ends (invalid, w) = IsIn w × (w.parser.state ≡ parse_complete)
  Ends (data_overflow, w) = IsIn w × (w.parser.state ≡ parse_complete)
  Ends (_, w) = ⊥

  line_state_round-Keeps :
      (s : LineState) (w : LineWorld)
      → w.parser.state ≡ s
      → IsIn w
      → Keeps IsIn Ends (λ u. rank u.parser.state) (rank s) (line_state_round b s w)
  unfolding line_state_round rank contains
  line_state_round-Keeps parsing_line w e h = ground (
    arith,
    parse_token-TokenEnds b v w.begin_offset w.parser.current_length w.parser.max_length
        endline_delimiters,
  )
  line_state_round-Keeps parsing_lf w e h =
      ground (arith, parse_char_at-CharEnds b v w.begin_offset lf)
  line_state_round-Keeps parse_complete w e h = ground arith

  -- On a valid buffer, from an offset in it, and with no more bytes of the line read than its
  -- maximum, a call neither aborts nor runs on. It answers COMPLETE with an end behind the
  -- beginning and in the buffer, the last byte before it a line feed, and, where it has passed over
  -- more than that, a carriage return before the line feed, INCOMPLETE with the end of the buffer, and can go on only behind
  -- INCOMPLETE: behind any other answer the parser is in its last state. The line stays within its
  -- maximum.
  pub parse_line-Ends :
      (p : LineParser) (end_offset : ℕ)
      → start ≤ b.working_length
      → p.current_length ≤ p.max_length
      → Returns Ends (parse_line b p start end_offset)
  unfolding parse_line
  parse_line-Ends p end_offset s h =
      let w : LineWorld = record { parser = p; begin_offset = start; end_offset = end_offset } in
      loop-Returns IsIn Ends (λ u. rank u.parser.state) (one_round b)
        (λ u k. line_state_round-Keeps u.parser.state u refl k) 2 w (rank-lt p.state)
        (record {
          from = omega arith;
          upto = s;
          length_le = h;
          behind_cr = λ e lt. absurd (omega arith);
        })
