-- ===== src/Http/Body/Dispatch.antt =====
-- A call of `body_parser::parse_body` returns, whatever the encoding.
use switchflow.Base.{
  ◌≤◌, ◌≡◌, refl, arith, false, Outcome, ok, fault, if◌then◌else◌, Returns, Returns-eq-ok,
}
use switchflow.Util.Buffer.Valid.{IsValid}
use switchflow.Http.{
  Status, complete, incomplete, write_incomplete, is_complete, is_incomplete, BodyEncoding, no_body,
  chunked, end_connection, content_length,
}
use switchflow.Http.Body.Receiver.{BodyReceiver, WritesOnly}
use switchflow.Http.Body.ContentLength
use switchflow.Http.Body.ContentLength.Total as ContentLengthTotal
use switchflow.Http.Body.Chunked
use switchflow.Http.Body.Chunked.Total as ChunkedTotal
use switchflow.Http.Body.{World, parse_end_connection_body, parse_in, parse_body}

-- What the body that lasts as long as the connection answers, by the receiver's status.
abbrev pub Converted : Status → Status → Type 0
Converted complete st = st ≡ incomplete
Converted incomplete st = st ≡ write_incomplete
Converted received st = st ≡ received

-- The encodings whose parsers count the bytes themselves.
abbrev pub Counts : BodyEncoding → Type 0
Counts chunked = Unit
Counts content_length = Unit
Counts _ = ⊥

module _ {R : Type 0} where
  abbrev pub chunked_world : World R → Chunked.World R
  chunked_world w = record {
    parser = w.parser.chunked_body_parser;
    buffer = w.buffer;
    receiver = w.receiver;
  }

  abbrev pub length_world : World R → ContentLength.World R
  length_world w = record {
    parser = w.parser.content_length_body_parser;
    buffer = w.buffer;
    receiver = w.receiver;
  }

  -- What the parser of an encoding asks for before a call.
  abbrev pub IsReadyIn : BodyEncoding → World R → Type 0
  IsReadyIn chunked w = ChunkedTotal.IsReady (chunked_world w)
  IsReadyIn content_length w = ContentLengthTotal.IsReady (length_world w)
  IsReadyIn _ w = IsValid w.buffer

  abbrev pub IsReady : World R → Type 0
  IsReady w = IsReadyIn w.parser.body_encoding w

  -- The answer is that of the parser of the encoding, which the call leaves its state, and the other
  -- parser stays as it is.
  abbrev pub Dispatched : BodyReceiver R → BodyEncoding → World R → Status → World R → Type 0
  Dispatched receiver no_body w₀ st w = (st ≡ complete) × (w ≡ w₀)
  Dispatched receiver chunked w₀ st w =
      (Chunked.parse_body receiver (chunked_world w₀) ≡ ok (st, chunked_world w))
      × (w.parser.content_length_body_parser ≡ w₀.parser.content_length_body_parser)
  Dispatched receiver content_length w₀ st w =
      (ContentLength.parse_content_length_body receiver (length_world w₀) ≡ ok (st, length_world w))
      × (w.parser.chunked_body_parser ≡ w₀.parser.chunked_body_parser)
  Dispatched receiver end_connection w₀ st w =
      (w ≡ (
        let (st', b, r) = receiver.set_body w₀.receiver w₀.buffer false in
        record w₀ { buffer = b; receiver = r }))
      × Converted (receiver.set_body w₀.receiver w₀.buffer false).0 st

  abbrev Moves : World R → Status × World R → Type 0
  Moves w₀ (st, w) =
      IsReadyIn w₀.parser.body_encoding w
      × (w.parser.body_encoding ≡ w₀.parser.body_encoding)
      × (w.buffer.working_length ≡ w₀.buffer.working_length)
      × (w₀.buffer.process_position ≤ w.buffer.process_position)
      × (Counts w₀.parser.body_encoding
          → st ≡ incomplete
          → w.buffer.process_position ≡ w.buffer.working_length)

  abbrev pub Answers : BodyReceiver R → World R → Status × World R → Type 0
  Answers receiver w₀ a = Dispatched receiver w₀.parser.body_encoding w₀ a.0 a.1 × Moves w₀ a

Returns-both :
    {A : Type 0} (post post' : A → Type 0) (r : Outcome A)
    → Returns post r
    → Returns post' r
    → Returns (λ a. post a × post' a) r
Returns-both post post' (ok a) h h' = (h, h')
Returns-both post post' (fault e) h h' = h

Converted-status :
    (st : Status)
    → Converted st
        (if is_complete st then incomplete else if is_incomplete st then write_incomplete else st)
Converted-status complete = refl
Converted-status incomplete = refl
Converted-status _ = refl

module _ {R : Type 0} (receiver : BodyReceiver R) (writes : WritesOnly receiver) where
  parse_in-Moves :
      (e : BodyEncoding) (w : World R)
      → w.parser.body_encoding ≡ e
      → IsReadyIn e w
      → Returns (Moves w) (parse_in receiver e w)
  unfolding parse_in
  parse_in-Moves no_body w e v = ground arith
  parse_in-Moves end_connection w e v = ground (arith, writes.wrote w.receiver w.buffer false)
  parse_in-Moves chunked w e v =
      ground (arith, ChunkedTotal.parse_body-Delivers receiver writes (chunked_world w) v)
  parse_in-Moves content_length w e v = ground (
    arith,
    ContentLengthTotal.parse_content_length_body-Delivers receiver writes (length_world w) v,
  )

  parse_in-Dispatched :
      (e : BodyEncoding) (w : World R)
      → IsReadyIn e w
      → Returns (λ a. Dispatched receiver e w a.0 a.1) (parse_in receiver e w)
  unfolding parse_in parse_end_connection_body
  parse_in-Dispatched no_body w v = (refl, refl)
  parse_in-Dispatched end_connection w v =
      (refl, Converted-status (receiver.set_body w.receiver w.buffer false).0)
  parse_in-Dispatched chunked w v =
      let (a, same, post) =
        Returns-eq-ok (ChunkedTotal.Delivers (chunked_world w))
          (Chunked.parse_body receiver (chunked_world w))
          (ChunkedTotal.parse_body-Delivers receiver writes (chunked_world w) v) in
      rw same (refl, refl)
  parse_in-Dispatched content_length w v =
      let (a, same, post) =
        Returns-eq-ok (ContentLengthTotal.Delivers (length_world w))
          (ContentLength.parse_content_length_body receiver (length_world w))
          (ContentLengthTotal.parse_content_length_body-Delivers receiver writes (length_world w)
            v) in
      rw same (refl, refl)

  -- Whatever the encoding, a call on a valid buffer with a parser in bounds and a receiver that moves
  -- no more than the write position returns the answer of the parser of that encoding, or, where a body
  -- lasts as long as the connection, INCOMPLETE for a receiver's COMPLETE and WRITE_INCOMPLETE for its
  -- INCOMPLETE, and COMPLETE where there is no body; it changes no other parser, leaves buffer and
  -- parser in bounds and the process position at its place or further on. For the chunked encoding and for a
  -- content length, INCOMPLETE means that the buffer is used up.
  pub parse_body-Answers :
      (w : World R) → IsReady w → Returns (Answers receiver w) (parse_body receiver w)
  unfolding parse_body
  parse_body-Answers w v =
      let e = w.parser.body_encoding in
      Returns-both (λ a. Dispatched receiver e w a.0 a.1) (Moves w) (parse_in receiver e w)
        (parse_in-Dispatched e w v) (parse_in-Moves e w refl v)
