-- ===== src/Http/Header/FieldsTotal.antt =====
-- About every call of `parse_headers`, and a start line that is not all there.
use switchflow.Base.{
  ℕ, ◌+◌, ◌-◌, ◌*◌, ◌≤◌, ◌≡◌, ◌≢◌, refl, arith, true, false, Fault, Outcome, ok, fault, ReturnsOr,
  KeepsOr, loop-ReturnsOr,
}
use switchflow.Util.Buffer.{Buffer, slice, set_process_position, set_write_position}
use switchflow.Util.Buffer.Valid.{IsValid}
use switchflow.Http.{
  Status, incomplete, is_complete, lf, cr, max_field_length, field_delimiters, endline_delimiters,
  white_space,
}
use switchflow.Http.Scan.{end_or, parse_token}
use switchflow.Http.Scan.Offsets.{
  parse_token-TokenEnds, parse_equal-EqualEnds, parse_char_at-CharEnds,
}
use switchflow.Http.Header.{
  HeaderReceiver, Aborts, at_token1, at_token2, at_token3, at_name, at_value, at_end, ParseOption,
  ParseState, status_line, end_headers_cr, end_headers_lf, field_name, field_value_leading_lws,
  field_value_lws_lf, field_value_lws, field_value_content, Parser,
}
use switchflow.Http.Header.StatusTotal.{FailsBy, parse_status_line-Reads}
use switchflow.Http.Header.Fields.{
  World, Result, name_round, leading_lws_round, lws_round, content_round, round_in, round, fuel_for,
  parse_headers,
}

rank : ParseState → ℕ
rank status_line = 3
rank field_value_lws = 3
rank end_headers_cr = 2
rank field_value_leading_lws = 2
rank field_name = 1
rank field_value_content = 1
rank _ = 0

-- `end_fields` judges the header; it does not ask to be called again.
pub record Judges {R : Type 0} (receiver : HeaderReceiver R) : Type 0 where
  pub judges : (r : R) → ReturnsOr (λ a. a.0 ≢ incomplete) (λ _. Unit {0}) (receiver.end_fields r)

module _ {R : Type 0} where
  -- From `w₀` to `w`.
  record Follows (w₀ w : World R) : Type 0 where
    valid : IsValid w.buffer
    same_bytes : w.buffer.p_buffer ≡ w₀.buffer.p_buffer
    same_end : w.buffer.working_length ≡ w₀.buffer.working_length
    from : w₀.offset ≤ w.offset
    upto : w.offset ≤ w.buffer.working_length
    length_le : w.parser.current_length ≤ max_field_length
    in_start_line : w.parser.current_state ≡ status_line → w.offset ≡ w₀.offset

  -- In the start line nothing has been passed over yet.
  abbrev Starts : ParseState → World R → Type 0
  Starts status_line w = w.buffer.process_position ≡ w.offset
  Starts _ w = Unit

  record Ends (w₀ : World R) (r : Result R) : Type 0 where
    follows : Follows w₀ r.last
    finished_is : r.finished ≡ is_complete r.status
    wants_more :
        r.status ≡ incomplete
        → r.last.parser.current_state ≢ status_line
        → r.last.offset ≡ r.last.buffer.working_length

  abbrev measure_of : World R → ℕ
  measure_of w = 4 * (w.buffer.working_length - w.offset) + rank w.parser.current_state

  abbrev Inv : World R → World R → Type 0
  Inv w₀ w = Follows w₀ w × Starts w.parser.current_state w

  Starts-self : (s : ParseState) (w : World R) → w.buffer.process_position ≡ w.offset → Starts s w
  Starts-self status_line w e = e
  Starts-self _ w e = tt

  starts :
      (w : World R)
      → IsValid w.buffer
      → w.parser.current_length ≤ max_field_length
      → w.buffer.process_position ≡ w.offset
      → Inv w w
  starts w v h e = (
    record {
      valid = v;
      same_bytes = refl;
      same_end = refl;
      from = omega arith;
      upto = omega (arith, v.processed);
      length_le = h;
      in_start_line = λ _. refl;
    },
    Starts-self w.parser.current_state w e,
  )

rank-le : (s : ParseState) → rank s ≤ 3
unfolding rank
rank-le status_line = omega arith
rank-le _ = omega arith

module _ {R : Type 0} where
  -- What a call of `parse_headers` on `b` answers.
  abbrev pub Delivers : Buffer → Status × Parser × Buffer × R → Type 0
  Delivers b (st, p, b', r) =
      IsValid b'
      × (b'.p_buffer ≡ b.p_buffer)
      × (b'.working_length ≡ b.working_length)
      × (b.process_position ≤ b'.process_position)
      × (b'.write_position ≡ b'.process_position)
      × (p.current_length ≤ max_field_length)
      × (st ≡ incomplete → p.current_state ≢ status_line → b'.process_position ≡ b'.working_length)
      × (p.current_state ≡ status_line → b'.process_position ≡ b.process_position)

module _ {R : Type 0} (receiver : HeaderReceiver R) (allowed : Fault → Type 0)
    (fails : FailsBy receiver allowed)
    (judged : (r : R) → ReturnsOr (λ a. a.0 ≢ incomplete) allowed (receiver.end_fields r)) where
  round_in-Keeps :
      (s : ParseState) (option : ParseOption) (w₀ w : World R)
      → w.parser.current_state ≡ s
      → Follows w₀ w
      → Starts s w
      → KeepsOr allowed
          (Inv w₀)
          (Ends w₀)
          measure_of
          (4 * (w.buffer.working_length - w.offset) + rank s)
          (round_in receiver s option w)
  unfolding round_in rank name_round leading_lws_round lws_round content_round
  round_in-Keeps status_line option w₀ w e f z = ground (
    arith,
    parse_status_line-Reads receiver allowed fails w.buffer f.valid status_line option w.parser
        w.receiver,
  )
  round_in-Keeps end_headers_cr option w₀ w e f z =
      ground (arith, parse_char_at-CharEnds w.buffer f.valid w.offset cr)
  round_in-Keeps end_headers_lf option w₀ w e f z =
      ground (arith, judged w.receiver, parse_char_at-CharEnds w.buffer f.valid w.offset lf)
  round_in-Keeps field_name option w₀ w e f z = ground (
    arith,
    parse_token-TokenEnds w.buffer f.valid w.offset w.parser.current_length max_field_length
        field_delimiters,
    fails.name w.receiver
        (slice w.buffer w.offset (
          end_or
            (parse_token w.buffer w.offset w.parser.current_length max_field_length
              field_delimiters)
            w.offset
          - 1))
        true,
    fails.name w.receiver
        (slice w.buffer w.offset (
          end_or
            (parse_token w.buffer w.offset w.parser.current_length max_field_length
              field_delimiters)
            w.offset))
        false,
  )
  round_in-Keeps field_value_leading_lws option w₀ w e f z = ground (
    arith,
    parse_equal-EqualEnds w.buffer f.valid w.offset w.parser.current_length max_field_length
        white_space,
  )
  round_in-Keeps field_value_lws_lf option w₀ w e f z =
      ground (arith, parse_char_at-CharEnds w.buffer f.valid w.offset lf)
  round_in-Keeps field_value_lws option w₀ w e f z = ground (
    arith,
    parse_equal-EqualEnds w.buffer f.valid w.offset w.parser.current_length max_field_length
        white_space,
  )
  round_in-Keeps field_value_content option w₀ w e f z = ground (
    arith,
    parse_token-TokenEnds w.buffer f.valid w.offset w.parser.current_length max_field_length
        endline_delimiters,
    fails.value w.receiver
        (slice w.buffer w.offset (
          end_or
            (parse_token w.buffer w.offset w.parser.current_length max_field_length
              endline_delimiters)
            w.offset
          - 1))
        true,
    fails.value w.receiver
        (slice w.buffer w.offset (
          end_or
            (parse_token w.buffer w.offset w.parser.current_length max_field_length
              endline_delimiters)
            w.offset))
        false,
  )

  parse_headers-DeliversOr :
      (option : ParseOption) (p : Parser) (b : Buffer) (r : R)
      → IsValid b
      → p.current_length ≤ max_field_length
      → ReturnsOr (Delivers b) allowed (parse_headers receiver option p b r)
  unfolding parse_headers set_process_position set_write_position
  parse_headers-DeliversOr option p b r v h =
      let start : World R = record {
        parser = p;
        buffer = b;
        offset = b.process_position;
        receiver = r;
      } in
      let ends =
        loop-ReturnsOr allowed (Inv start) (Ends start) measure_of (round receiver option)
          (λ u k. round_in-Keeps u.parser.current_state option start u refl k.0 k.1) (fuel_for b)
          start (omega (arith, rank-le p.current_state)) (starts start v h refl) in
      ground (arith, ends)

ReturnsOr-fault :
    {A : Type 0} (allowed : Fault → Type 0) (o : Outcome A)
    → ((e : Fault) → o ≡ fault e → allowed e)
    → ReturnsOr (λ _. Unit {0}) allowed o
ReturnsOr-fault allowed (ok a) h = tt
ReturnsOr-fault allowed (fault e) h = h e refl

ReturnsOr-both :
    {A : Type 0} (post : A → Type 0) (allowed : Fault → Type 0) (o : Outcome A)
    → ReturnsOr post (λ _. Unit {0}) o
    → ((e : Fault) → o ≡ fault e → allowed e)
    → ReturnsOr post allowed o
ReturnsOr-both post allowed (ok a) k h = k
ReturnsOr-both post allowed (fault e) k h = h e refl

module _ {R : Type 0} (receiver : HeaderReceiver R) where
  self-FailsBy : FailsBy receiver (Aborts receiver)
  self-FailsBy = record {
    token1 = λ r t c. ReturnsOr-fault (Aborts receiver) _ (λ e k. at_token1 r t c k);
    token2 = λ r t c. ReturnsOr-fault (Aborts receiver) _ (λ e k. at_token2 r t c k);
    token3 = λ r t c. ReturnsOr-fault (Aborts receiver) _ (λ e k. at_token3 r t c k);
    name = λ r t c. ReturnsOr-fault (Aborts receiver) _ (λ e k. at_name r t c k);
    value = λ r t c. ReturnsOr-fault (Aborts receiver) _ (λ e k. at_value r t c k);
  }

  -- On a valid buffer, with a token no longer than the limit so far, and a receiver whose
  -- `end_fields` never answers INCOMPLETE, a call does not run on, and it aborts only where a call of
  -- one of the receiver's members aborts. It leaves the buffer valid with the same bytes, the write
  -- position with the process position, that position not behind where it was, and the token within
  -- its limit. If it answers INCOMPLETE behind the start line, the buffer is used up. If the start
  -- line is not complete, the process position is back where the call began.
  pub parse_headers-Delivers :
      (option : ParseOption) (p : Parser) (b : Buffer) (r : R)
      → Judges receiver
      → IsValid b
      → p.current_length ≤ max_field_length
      → ReturnsOr (Delivers b) (Aborts receiver) (parse_headers receiver option p b r)
  parse_headers-Delivers option p b r judges v h =
      parse_headers-DeliversOr receiver (Aborts receiver) self-FailsBy
        (λ u. ReturnsOr-both _ (Aborts receiver) _ (judges.judges u) (λ e k. at_end u k)) option p b
        r v h
