-- ===== src/Http/Body/ContentLength/Total.antt =====
-- Every call of `parse_content_length_body` returns, and counts what it passes over.
use switchflow.Base.{
  ℕ, ◌+◌, ◌^◌, ◌≤◌, ◌<◌, ◌≡◌, refl, true, false, arith, Returns, Keeps, loop-Returns,
}
use switchflow.Util.Buffer.{set_process_position, set_write_position, set_write_end_position}
use switchflow.Util.Buffer.Valid.{IsValid}
use switchflow.Http.{Status, complete, incomplete}
use switchflow.Http.Scan.{parse_n_length_buffer}
use switchflow.Http.Body.Receiver.{BodyReceiver, WritesOnly}
use switchflow.Http.Body.ContentLength.{
  ParseState, message_body_parse, incomplete_message_body_forward, complete_message_body_forward,
  World, round_in, round, parse_content_length_body,
}

-- What each state knows of the count.
abbrev pub Counted : ParseState → ℕ → ℕ → Type 0
Counted message_body_parse current total = current ≤ total
Counted incomplete_message_body_forward current total = current < total
Counted complete_message_body_forward current total = current ≡ total

-- The rounds that may be left, less one.
measure_of : ParseState → ℕ
measure_of message_body_parse = 1
measure_of _ = 0

module _ {R : Type 0} where
  pub record IsReady (w : World R) : Type 0 where
    pub buffer_valid : IsValid w.buffer
    pub small : w.parser.content_length < 2 ^ 32
    pub counted : Counted w.parser.parse_state w.parser.current_length w.parser.content_length
    pub at_end :
        w.parser.parse_state ≡ incomplete_message_body_forward
        → w.buffer.process_position ≡ w.buffer.working_length

  -- From `w₀` to `w`: what was counted is what was passed over.
  pub record Follows (w₀ w : World R) : Type 0 where
    pub ready : IsReady w
    pub same_total : w.parser.content_length ≡ w₀.parser.content_length
    pub same_end : w.buffer.working_length ≡ w₀.buffer.working_length
    pub forwards : w₀.buffer.process_position ≤ w.buffer.process_position
    pub progress :
        w.parser.current_length + w₀.buffer.process_position
        ≡ w₀.parser.current_length + w.buffer.process_position

  abbrev pub Delivers : World R → Status × World R → Type 0
  Delivers w₀ (st, w) =
      Follows w₀ w
      × (st ≡ complete → w.parser.current_length ≡ w.parser.content_length)
      × (st ≡ incomplete → w.buffer.process_position ≡ w.buffer.working_length)

measure_of-lt : (st : ParseState) → measure_of st < 2
unfolding measure_of
measure_of-lt message_body_parse = omega arith
measure_of-lt _ = omega arith

module _ {R : Type 0} (receiver : BodyReceiver R) (writes : WritesOnly receiver) where
  round_in-Keeps :
      (st : ParseState) (w₀ w : World R)
      → w.parser.parse_state ≡ st
      → Follows w₀ w
      → Keeps
          (Follows w₀)
          (Delivers w₀)
          (λ u. measure_of u.parser.parse_state)
          (measure_of st)
          (round_in receiver st w)
  unfolding round_in measure_of set_write_position set_write_end_position parse_n_length_buffer
      set_process_position
  round_in-Keeps message_body_parse w₀ w e f = ground arith
  round_in-Keeps incomplete_message_body_forward w₀ w e f =
      ground (arith, writes.wrote w.receiver w.buffer false)
  round_in-Keeps complete_message_body_forward w₀ w e f =
      ground (arith, writes.wrote w.receiver w.buffer true)

  -- From a valid buffer, with a count that fits the state of the parser and a receiver that moves no
  -- more than the write position, a call neither aborts nor runs on: it leaves them so, it counts
  -- exactly the bytes that it passes over, and it answers COMPLETE only when the whole content length
  -- has been counted, and INCOMPLETE only where the whole buffer has been passed over.
  pub parse_content_length_body-Delivers :
      (w : World R) → IsReady w → Returns (Delivers w) (parse_content_length_body receiver w)
  unfolding parse_content_length_body measure_of
  parse_content_length_body-Delivers w v =
      loop-Returns (Follows w) (Delivers w) (λ u. measure_of u.parser.parse_state) (round receiver)
        (λ u f. round_in-Keeps u.parser.parse_state w u refl f) 2 w
        (measure_of-lt w.parser.parse_state)
        (record {
          ready = v;
          same_total = refl;
          same_end = refl;
          forwards = omega arith;
          progress = refl;
        })
