-- ===== src/Http/Body/Chunked/Total.antt =====
-- Every call of `chunked_body_parser::parse_body` returns, and INCOMPLETE means that it wants more
-- to read.
use switchflow.Base.{
  ℕ, ◌+◌, ◌-◌, ◌*◌, ◌≤◌, ◌<◌, ◌≡◌, refl, ◌≢◌, ◌⊎◌, inl, inr, false, Option-cases, get_elem?-drop,
  arith, Returns, Keeps, loop-Returns,
}
use switchflow.Util.Buffer.{
  Buffer, at, set_process_position, set_write_position, set_write_end_position,
}
use switchflow.Util.Buffer.Valid.{IsValid}
use switchflow.Http.{Status, complete, incomplete, lf, cr}
use switchflow.Http.Scan.{parse_char}
use switchflow.Http.Scan.Take.{parse_n_length_buffer-TakesLength}
use switchflow.Http.Body.Receiver.{BodyReceiver, WritesOnly}
use switchflow.Http.Body.Chunked.{
  State, parse_chunksize, parse_chunk, parse_chunksize_lf, forward_chunksize,
  forward_incomplete_chunk, forward_complete_chunk, parse_trailer_cr, parse_trailer_lf,
  forward_trailer_crlf, Parser, create, reset, World, round_in, round, parse_body,
}
use switchflow.Http.Body.Chunked.Size.{SizeBound, parse_chunk_size-Scanned, size_small}

-- What each state knows of the count of the chunk's bytes, and of the place in the buffer.
abbrev pub Counted : State → Parser → Buffer → Type 0
Counted parse_chunksize p b = p.current_chunk_length ≡ 0
Counted forward_incomplete_chunk p b =
    (p.current_chunk_length ≤ p.chunksize) × (b.process_position ≡ b.working_length)
Counted _ p b = p.current_chunk_length ≤ p.chunksize

rank : State → ℕ
rank forward_chunksize = 4
rank parse_chunk = 3
rank forward_incomplete_chunk = 2
rank forward_complete_chunk = 2
rank parse_trailer_cr = 1
rank forward_trailer_crlf = 1
rank _ = 0

module _ {R : Type 0} where
  pub record IsReady (w : World R) : Type 0 where
    pub buffer_valid : IsValid w.buffer
    pub bound : SizeBound w.parser
    pub counted : Counted w.parser.state w.parser w.buffer

  -- From `w₀` to `w` the buffer is the same but for its positions, and processing went on.
  pub record Follows (w₀ w : World R) : Type 0 where
    pub ready : IsReady w
    pub same_bytes : w.buffer.p_buffer ≡ w₀.buffer.p_buffer
    pub same_end : w.buffer.working_length ≡ w₀.buffer.working_length
    pub forwards : w₀.buffer.process_position ≤ w.buffer.process_position

  abbrev measure_of : World R → ℕ
  measure_of w = 5 * (w.buffer.working_length - w.buffer.process_position) + rank w.parser.state

  abbrev pub Delivers : World R → Status × World R → Type 0
  Delivers w₀ (st, w) =
      Follows w₀ w × (st ≡ incomplete → w.buffer.process_position ≡ w.buffer.working_length)

-- `parse_char` moves by one byte on COMPLETE, and stays otherwise; it says INCOMPLETE at the end.
abbrev ReadsOne : Buffer → Status × Buffer → Type 0
ReadsOne b (st, b') =
    ((st ≡ complete)
      × (b' ≡ record b { process_position = b.process_position + 1 })
      × (b.process_position < b.working_length))
    ⊎ ((st ≢ complete) × (b' ≡ b) × (st ≡ incomplete → b.process_position ≡ b.working_length))

parse_char-ReadsOne : (b : Buffer) (c : ℕ) → IsValid b → Returns (ReadsOne b) (parse_char b c)
unfolding parse_char set_process_position at
parse_char-ReadsOne b c v = elim (Option-cases b.p_buffer) [
  | inl e ↦ ground arith
  | inr (raw, e) ↦ ground (arith, get_elem?-drop b.process_position raw)
]

rank-le : (s : State) → rank s ≤ 4
unfolding rank
rank-le forward_chunksize = omega arith
rank-le _ = omega arith

module _ {R : Type 0} (receiver : BodyReceiver R) (writes : WritesOnly receiver) where
  round_in-Keeps :
      (st : State) (w₀ w : World R)
      → w.parser.state ≡ st
      → Follows w₀ w
      → Keeps
          (Follows w₀)
          (Delivers w₀)
          measure_of
          (5 * (w.buffer.working_length - w.buffer.process_position) + rank st)
          (round_in receiver st w)
  unfolding round_in rank reset create set_write_position set_write_end_position
  round_in-Keeps parse_chunksize w₀ w e f =
      ground (arith, parse_chunk_size-Scanned w.parser w.buffer)
  round_in-Keeps parse_chunksize_lf w₀ w e f = ground (arith, parse_char-ReadsOne w.buffer lf)
  round_in-Keeps forward_chunksize w₀ w e f = ground arith
  round_in-Keeps parse_chunk w₀ w e f = ground (
    arith,
    size_small w.parser,
    parse_n_length_buffer-TakesLength
        (record (w.buffer) { write_position = w.buffer.process_position })
        w.parser.current_chunk_length w.parser.chunksize,
  )
  round_in-Keeps forward_incomplete_chunk w₀ w e f =
      ground (arith, writes.wrote w.receiver w.buffer false)
  round_in-Keeps forward_complete_chunk w₀ w e f =
      ground (arith, writes.wrote w.receiver w.buffer false)
  round_in-Keeps parse_trailer_cr w₀ w e f = ground (arith, parse_char-ReadsOne w.buffer cr)
  round_in-Keeps parse_trailer_lf w₀ w e f = ground (arith, parse_char-ReadsOne w.buffer lf)
  round_in-Keeps forward_trailer_crlf w₀ w e f = ground arith

  -- From a valid buffer and a parser whose counts are in bounds, with a receiver that moves no more
  -- than the write position, whatever statuses it answers, a call neither aborts nor runs on: it
  -- leaves them so, it only moves forwards in the same bytes, and it answers INCOMPLETE only where
  -- it has passed over the whole buffer.
  pub parse_body-Delivers : (w : World R) → IsReady w → Returns (Delivers w) (parse_body receiver w)
  unfolding parse_body
  parse_body-Delivers w v =
      loop-Returns (Follows w) (Delivers w) measure_of (round receiver)
        (λ u f. round_in-Keeps u.parser.state w u refl f)
        (5 * (w.buffer.working_length - w.buffer.process_position) + 6) w
        (omega (arith, rank-le w.parser.state))
        (record { ready = v; same_bytes = refl; same_end = refl; forwards = omega arith })
