-- ===== src/Tests/Bodies.antt =====
-- Runs of the parsers of the body.
use switchflow.Base.{◌≡◌, refl, [], ◌∷◌, ◌++◌, arith, Bytes, codes, ok, Returns}
use switchflow.Util.Buffer.{Buffer, unprocessed}
use switchflow.Util.Buffer.Valid.{IsValid}
use switchflow.Http.{complete, lf}
use switchflow.Http.{no_body, content_length}
use switchflow.Http.Body as Body
use switchflow.Http.Body.Dispatch as Dispatch
use switchflow.Http.Body.Receiver.{Collected, collector, collector-WritesOnly}
use switchflow.Http.Body.ContentLength as ContentLength
use switchflow.Http.Body.ContentLength.Total as LengthTotal
use switchflow.Http.Body.ContentLength.Stream.{Fed, feed, feed-Fed}
use switchflow.Http.Body.Chunked as Chunked
use switchflow.Http.Body.Chunked.{is_hex, hc2int}
use switchflow.Http.Body.Chunked.Size.{Scanned, parse_chunk_size-Scanned, parse_chunk_size-digits}
use switchflow.Http.Body.Chunked.Total as ChunkedTotal
use switchflow.Http.Body.Chunked.Decode.{SizeLine, last_chunk, chunk_of, parse_body-Coded}
use switchflow.Tests.{crlf, holding, hello, hello-IsValid}

abbrev nothing : Collected
nothing = record { body = []; chunk_sizes = []; trailers = 0 }

abbrev sent : Bytes
sent =
    codes "5 "
    ++ (crlf ++ (codes "hello" ++ (crlf ++ (codes "0" ++ (crlf ++ (crlf ++ codes "GET"))))))

sent-IsValid : IsValid (holding sent)
sent-IsValid = record {
  small = omega arith;
  fits = omega arith;
  processed = omega arith;
  write_end = omega arith;
  written = omega arith;
}

five : SizeLine 5 (codes "hello" ++ (crlf ++ (codes "0" ++ (crlf ++ (crlf ++ codes "GET"))))) sent
unfolding is_hex hc2int
five = record {
  digits = codes "5";
  blanks = 1;
  all_hex = (refl, tt);
  few_digits = omega arith;
  few_blanks = omega arith;
  writes_size = refl;
  input_is = refl;
}

zero_size : SizeLine 0 (crlf ++ codes "GET") (codes "0" ++ (crlf ++ (crlf ++ codes "GET")))
unfolding is_hex hc2int
zero_size = record {
  digits = codes "0";
  blanks = 0;
  all_hex = (refl, tt);
  few_digits = omega arith;
  few_blanks = omega arith;
  writes_size = refl;
  input_is = refl;
}

parse_body-Coded_example :
    (w : Chunked.World Collected) × (Chunked.parse_body collector
        (record { parser = Chunked.create 8; buffer = holding sent; receiver = nothing })
      ≡ ok (complete, w))
    × (w.receiver.body ≡ codes "hello")
    × (unprocessed w.buffer ≡ codes "GET")
parse_body-Coded_example =
    parse_body-Coded (holding sent) nothing sent-IsValid
      (chunk_of (codes "hello") (omega arith) (omega arith) five (last_chunk zero_size))

abbrev chunk_world : Chunked.World Collected
chunk_world = record { parser = Chunked.create 8; buffer = holding sent; receiver = nothing }

chunk_world-IsReady : ChunkedTotal.IsReady chunk_world
unfolding Chunked.create
chunk_world-IsReady = record {
  buffer_valid = sent-IsValid;
  bound = record { length_le = omega arith; max_le = omega arith; size_lt = omega arith };
  counted = refl;
}

parse_body-Delivers_example :
    Returns (ChunkedTotal.Delivers chunk_world) (Chunked.parse_body collector chunk_world)
parse_body-Delivers_example =
    ChunkedTotal.parse_body-Delivers collector collector-WritesOnly chunk_world chunk_world-IsReady

abbrev length_world : ContentLength.World Collected
length_world = record { parser = ContentLength.reset 8; buffer = hello; receiver = nothing }

length_world-IsReady : LengthTotal.IsReady length_world
unfolding ContentLength.reset
length_world-IsReady = record {
  buffer_valid = hello-IsValid;
  small = omega arith;
  counted = omega arith;
  at_end = λ e. absurd (cc);
}

parse_content_length_body-Delivers_example :
    Returns
      (LengthTotal.Delivers length_world)
      (ContentLength.parse_content_length_body collector length_world)
parse_content_length_body-Delivers_example =
    LengthTotal.parse_content_length_body-Delivers collector collector-WritesOnly length_world
      length_world-IsReady

-- Eight bytes of body in two buffers of five.
feed-Fed_example :
    Returns (Fed length_world (codes "hellohello")) (feed length_world (hello ∷ hello ∷ []))
unfolding ContentLength.reset
feed-Fed_example =
    feed-Fed length_world (hello ∷ hello ∷ []) (hello-IsValid, (hello-IsValid, tt)) refl
      (omega arith) (omega arith)

abbrev any_world : Body.World Collected
any_world = record {
  parser = Body.reset (Body.create no_body) content_length 8;
  buffer = hello;
  receiver = nothing;
}

any_world-IsReady : Dispatch.IsReady any_world
unfolding Body.reset Body.create ContentLength.reset
any_world-IsReady = record {
  buffer_valid = hello-IsValid;
  small = omega arith;
  counted = omega arith;
  at_end = λ e. absurd (cc);
}

parse_body-Answers_example :
    Returns (Dispatch.Answers collector any_world) (Body.parse_body collector any_world)
parse_body-Answers_example =
    Dispatch.parse_body-Answers collector collector-WritesOnly any_world any_world-IsReady

abbrev size_line : Buffer
size_line = holding (codes "1F " ++ crlf)

size_line-IsValid : IsValid size_line
size_line-IsValid = record {
  small = omega arith;
  fits = omega arith;
  processed = omega arith;
  write_end = omega arith;
  written = omega arith;
}

parse_chunk_size-Scanned_example :
    Returns
      (Scanned (Chunked.create 8) size_line)
      (Chunked.parse_chunk_size (Chunked.create 8) size_line)
unfolding Chunked.create
parse_chunk_size-Scanned_example =
    parse_chunk_size-Scanned (Chunked.create 8) size_line size_line-IsValid
      (record { length_le = omega arith; max_le = omega arith; size_lt = omega arith })

parse_chunk_size-digits_example :
    Chunked.parse_chunk_size (Chunked.create 8) size_line
    ≡ ok (
      complete,
      record (Chunked.create 8) { chunksize = 31; current_chunksize_length = 2 },
      record size_line { process_position = 4 },
    )
unfolding is_hex hc2int
parse_chunk_size-digits_example =
    parse_chunk_size-digits (codes "1F") 1 (lf ∷ []) size_line size_line-IsValid (refl, (refl, tt))
      (omega arith) (omega arith) refl
