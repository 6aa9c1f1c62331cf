-- ===== src/Http/Body/Chunked.antt =====
-- switchflow/http/chunked_body_parser.{hpp,cpp}, and the hexadecimal digits of
-- switchflow/util/conversions.hpp. A round of the loop passes over a byte or goes on to a state of
-- lower rank, of which there are five, so that the fuel of `parse_body` is enough.
pub mod Size
pub mod Total
pub mod Rounds
pub mod Decode
use switchflow.Base.{
  ℕ, ◌+◌, ◌-◌, ◌*◌, Bool, true, false, ◌&&◌, ◌||◌, [], ◌∷◌, ltb, leb, ◌==◌, if◌then◌else◌, u32,
  Bytes, Outcome, ok, ◌>>=◌, Turn, again, finish, loop,
}
use switchflow.Util.Buffer.{
  Buffer, of_length, set_process_position, set_write_position, set_write_end_position, unprocessed,
}
use switchflow.Http.{
  Status, complete, incomplete, write_incomplete, invalid, data_overflow, is_complete,
  is_incomplete, cr, lf,
}
use switchflow.Http.Scan.{parse_char, parse_n_length_buffer}
use switchflow.Http.Body.Receiver.{BodyReceiver}

-- ISDIGIT, ISHEXCHAR and ISHEX
abbrev between : ℕ → ℕ → ℕ → Bool
between lo hi c = leb lo c && leb c hi

unfoldable pub is_hex : ℕ → Bool
is_hex c = between b'0' b'9' c || (between b'a' b'f' c || between b'A' b'F' c)

-- HC2INT
unfoldable pub hc2int : ℕ → ℕ
hc2int c =
    if between b'a' b'f' c
    then c - b'a' + 10
    else if between b'A' b'F' c
    then c - b'A' + 10
    else c - b'0'

pub data State : Type 0 where
  parse_chunksize : State
  parse_chunk : State
  parse_chunksize_lf : State
  forward_chunksize : State
  forward_incomplete_chunk : State
  forward_complete_chunk : State
  parse_trailer_cr : State
  parse_trailer_lf : State
  forward_trailer_crlf : State

pub record Parser : Type 0 where
  pub state : State
  pub chunksize : ℕ
  pub current_chunksize_length : ℕ
  pub max_chunksize_length : ℕ
  pub current_chunk_length : ℕ
  pub num_chunk_size_spaces : ℕ

unfoldable pub create : ℕ → Parser
create max_chunksize_length = record {
  state = parse_chunksize;
  chunksize = 0;
  current_chunksize_length = 0;
  max_chunksize_length = max_chunksize_length;
  current_chunk_length = 0;
  num_chunk_size_spaces = 0;
}

unfoldable pub reset : Parser → Parser
unfolding create
reset p = create p.max_chunksize_length

-- One digit more.
abbrev pub with_digit : Parser → ℕ → Parser
with_digit p ch = record p {
  chunksize = u32 (16 * p.chunksize + hc2int ch);
  current_chunksize_length = u32 (p.current_chunksize_length + 1);
}

abbrev pub with_space : Parser → Parser
with_space p = record p { num_chunk_size_spaces = u32 (p.num_chunk_size_spaces + 1) }

abbrev no_spaces : Parser → Parser
no_spaces p = record p { num_chunk_size_spaces = 0 }

-- The loop of `parse_chunk_size`, over the bytes that are left to process.
unfoldable pub size_loop : Bytes → Parser → Buffer → Outcome (Status × Parser × Buffer)
size_loop [] p b = ok (incomplete, p, b)
size_loop (ch ∷ cs) p b =
    if is_hex ch && p.num_chunk_size_spaces == 0
    then if leb p.max_chunksize_length p.current_chunksize_length
      then ok (data_overflow, no_spaces p, b)
      else (set_process_position b (b.process_position + 1) >>= λ b'.
          size_loop cs (with_digit p ch) b')
    else if ch == b' ' && ltb p.num_chunk_size_spaces 256
    then (set_process_position b (b.process_position + 1) >>= λ b'. size_loop cs (with_space p) b')
    else if ch == cr
    then (set_process_position b (b.process_position + 1) >>= λ b'. ok (complete, no_spaces p, b'))
    else ok (invalid, no_spaces p, b)

unfoldable pub parse_chunk_size : Parser → Buffer → Outcome (Status × Parser × Buffer)
unfolding size_loop
parse_chunk_size p b = size_loop (unprocessed b) p b

pub record World (R : Type 0) : Type 0 where
  pub parser : Parser
  pub buffer : Buffer
  pub receiver : R

abbrev to_state : Parser → State → Parser
to_state p s = record p { state = s }

-- Where `parse_n_length_buffer` leads.
abbrev chunk_state : Status → State
chunk_state st =
    if is_complete st
    then forward_complete_chunk
    else if is_incomplete st
    then forward_incomplete_chunk
    else parse_chunk

-- `if(status == INCOMPLETE) return WRITE_INCOMPLETE; return status;`
abbrev or_write_incomplete : Status → Status
or_write_incomplete st = if is_incomplete st then write_incomplete else st

module _ {R : Type 0} (receiver : BodyReceiver R) where
  abbrev Round : Type 0
  Round = Outcome (Turn (World R) (Status × World R))

  -- Behind `parse_char`: on success what is read is not to be written, and the next state follows.
  abbrev one_read : State → Status → World R → Round
  one_read next st w =
      if is_complete st
      then (set_write_position w.buffer w.buffer.process_position >>= λ b.
          ok (again (record w { parser = to_state w.parser next; buffer = b })))
      else ok (finish (st, w))

  -- The states that read one character of a trailer.
  abbrev parse_one : World R → ℕ → State → Round
  parse_one w c next = do
    (st, b) ← parse_char w.buffer c
    one_read next st (record w { buffer = b })

  abbrev round_chunksize : World R → Round
  round_chunksize w = do
    (st, p, b) ← parse_chunk_size w.parser w.buffer
    b₁ ← set_write_position b b.process_position
    b₂ ← set_write_end_position b₁ b₁.process_position
    let w' = record w { parser = p; buffer = b₂ }
    ok (
        if is_complete st
        then again (record w' { parser = to_state p parse_chunksize_lf })
        else finish (st, w'))

  abbrev round_chunksize_lf : World R → Round
  round_chunksize_lf w = do
    (st, b) ← parse_char w.buffer lf
    let w' = record w { buffer = b }
    ok (
        if is_complete st
        then again (record w' {
          parser = to_state w.parser forward_chunksize;
          receiver = receiver.set_chunk_size w.receiver w.parser.chunksize;
        })
        else finish (st, w'))

  abbrev round_forward_chunksize : World R → Round
  round_forward_chunksize w =
      let (st, r) = receiver.forward_chunk_size w.receiver in
      let w' = record w { receiver = r } in
      if is_complete st
      then (if ltb 0 w.parser.chunksize
          then ok (again (record w' { parser = to_state w.parser parse_chunk }))
          else (set_write_position w.buffer w.buffer.process_position >>= λ b.
              ok (again (record w' { parser = to_state w.parser parse_trailer_cr; buffer = b }))))
      else ok (finish (or_write_incomplete st, w'))

  abbrev round_chunk : World R → Round
  round_chunk w = do
    b₁ ← set_write_position w.buffer w.buffer.process_position
    (st, length', b₂) ← parse_n_length_buffer b₁ w.parser.current_chunk_length w.parser.chunksize
    b₃ ← set_write_end_position b₂ b₂.process_position
    ok (
        again (record w {
          parser = record (w.parser) { state = chunk_state st; current_chunk_length = length' };
          buffer = b₃;
        }))

  -- Both FORWARD states: `set_body(buffer, false)`, and on success the whole buffer may be written.
  abbrev forward_chunk : (World R → Turn (World R) (Status × World R)) → World R → Round
  forward_chunk success w =
      let (st, b, r) = receiver.set_body w.receiver w.buffer false in
      let w' = record w { buffer = b; receiver = r } in
      if is_complete st
      then (set_write_end_position b b.working_length >>= λ b'.
          ok (success (record w' { buffer = b' })))
      else ok (finish (or_write_incomplete st, w'))

  abbrev round_trailer : World R → Round
  round_trailer w =
      let (st, r) = receiver.forward_chunk_trailer w.receiver in
      let w' = record w { receiver = r } in
      if is_complete st
      then (if w.parser.chunksize == 0
          then (let (_, _, r') = receiver.set_body r (of_length 0) true in
              ok (finish (complete, record w' { receiver = r' })))
          else ok (again (record w' { parser = reset w.parser })))
      else ok (finish (or_write_incomplete st, w'))

  unfoldable pub round_in : State → World R → Round
  unfolding reset of_length
  round_in parse_chunksize w = round_chunksize w
  round_in parse_chunksize_lf w = round_chunksize_lf w
  round_in forward_chunksize w = round_forward_chunksize w
  round_in parse_chunk w = round_chunk w
  round_in forward_incomplete_chunk w =
      forward_chunk (λ u. finish (incomplete, record u { parser = to_state w.parser parse_chunk }))
        w
  round_in forward_complete_chunk w =
      forward_chunk (λ u. again (record u { parser = to_state w.parser parse_trailer_cr })) w
  round_in parse_trailer_cr w = parse_one w cr parse_trailer_lf
  round_in parse_trailer_lf w = parse_one w lf forward_trailer_crlf
  round_in forward_trailer_crlf w = round_trailer w

  abbrev pub round : World R → Round
  round w = round_in w.parser.state w

  unfoldable pub parse_body : World R → Outcome (Status × World R)
  parse_body w = loop (5 * (w.buffer.working_length - w.buffer.process_position) + 6) round w
