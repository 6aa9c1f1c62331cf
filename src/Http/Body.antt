-- ===== src/Http/Body.antt =====
-- switchflow/http/body_parser.{hpp,cpp}, which hands a body to the parser of its encoding, and
-- switchflow/http/end_connection_body_parser.cpp.
pub mod Receiver
pub mod ContentLength
pub mod Chunked
pub mod Dispatch
use switchflow.Base.{ℕ, false, if◌then◌else◌, u32, Outcome, ok, ◌>>=◌}
use switchflow.Util.Buffer.{Buffer}
use switchflow.Http.{
  Status, complete, incomplete, write_incomplete, is_complete, is_incomplete, BodyEncoding, no_body,
  chunked, end_connection, content_length, chunk_size_length,
}
use Receiver.{BodyReceiver}
use ContentLength
use Chunked

pub record BodyParser : Type 0 where
  pub body_encoding : BodyEncoding
  pub chunked_body_parser : Chunked.Parser
  pub content_length_body_parser : ContentLength.Parser

-- The constructor leaves `body_encoding_` to `reset`; the argument stands for what it holds.
unfoldable pub create : BodyEncoding → BodyParser
create encoding = record {
  body_encoding = encoding;
  chunked_body_parser = Chunked.create chunk_size_length;
  content_length_body_parser = ContentLength.reset 0;
}

-- An `int` message size is read as an `unsigned int`; the argument is its bit pattern.
unfoldable pub reset : BodyParser → BodyEncoding → ℕ → BodyParser
reset p body_encoding message_size = record {
  body_encoding = body_encoding;
  chunked_body_parser = Chunked.reset p.chunked_body_parser;
  content_length_body_parser = ContentLength.reset (u32 message_size);
}

pub record World (R : Type 0) : Type 0 where
  pub parser : BodyParser
  pub buffer : Buffer
  pub receiver : R

module _ {R : Type 0} (receiver : BodyReceiver R) where
  unfoldable pub parse_end_connection_body : World R → Status × World R
  parse_end_connection_body w =
      let (st, b, r) = receiver.set_body w.receiver w.buffer false in
      (
        if is_complete st then incomplete else if is_incomplete st then write_incomplete else st,
        record w { buffer = b; receiver = r },
      )

  unfoldable pub parse_in : BodyEncoding → World R → Outcome (Status × World R)
  unfolding parse_end_connection_body
  parse_in no_body w = ok (complete, w)
  parse_in chunked w = do
    let p = w.parser
    (st, u) ←
        Chunked.parse_body receiver
          (record { parser = p.chunked_body_parser; buffer = w.buffer; receiver = w.receiver })
    ok (
      st,
      record {
        parser = record p { chunked_body_parser = u.parser };
        buffer = u.buffer;
        receiver = u.receiver;
      },
    )
  parse_in end_connection w = ok (parse_end_connection_body w)
  parse_in content_length w = do
    let p = w.parser
    (st, u) ←
        ContentLength.parse_content_length_body receiver (record {
          parser = p.content_length_body_parser;
          buffer = w.buffer;
          receiver = w.receiver;
        })
    ok (
      st,
      record {
        parser = record p { content_length_body_parser = u.parser };
        buffer = u.buffer;
        receiver = u.receiver;
      },
    )

  unfoldable pub parse_body : World R → Outcome (Status × World R)
  parse_body w = parse_in w.parser.body_encoding w
