-- ===== src/Tests.antt =====
-- Runs of the model at concrete messages, and the theorems at them: the messages that they share.
mod Buffers
mod Headers
mod Bodies
mod Messages
mod StartLines
mod Connections
mod Writers
mod Queues
mod Threads
mod Pools
mod Proxies
use switchflow.Base.{
  ℕ, ◌+◌, ◌^◌, ◌≤◌, ◌<◌, ◌≡◌, refl, true, false, none, some, List, [], ◌∷◌, ◌++◌, Bool, arith,
  Bytes, codes, length, drop, Outcome, ok, fault, check_failed, Returns,
}
use switchflow.Util.Buffer.{
  Buffer, of_length, fits_in_buffer, append_from_buffer, working_bytes, unprocessed,
}
use switchflow.Util.Buffer.{overwrite}
use switchflow.Http.Message.{HeaderBuffer, Shared, append_to_value, get_header, append_if_fits}
use switchflow.Http.Message.Room.{IsRoom}
use switchflow.Http.Message.Owned as Owned
use switchflow.Http.Message.Owned.{IsMessage}
use switchflow.Http.Handler as Handler
use switchflow.Http.Handler.Values.{IsHandler, Valued, set_field_value-Valued}
use switchflow.Http.Handler.Names.{Named, set_field_name-Named, set_field_value-continued}
use switchflow.Util.Buffer.Valid.{IsValid, appends_from_string, apply, Preserved, apply-IsValid}
use switchflow.Util.Buffer.Content.{Appends, append_from_buffer-Appends}
use switchflow.Util.Buffer.Compare as Compare
use switchflow.Http.{Status, complete, incomplete, cr, lf, space_delimiters, max_field_length}
use switchflow.Http.{no_body, content_length, contains, is_ctl_char}
use switchflow.Base.{loop}
use switchflow.Http.Scan.{Scan, parse_token, scan_token, parse_n_length_buffer}
use switchflow.Http.Scan.Token.{Finds, parse_token-Finds, scan_token-split}
use switchflow.Http.Scan.Take.{TakesLength, parse_n_length_buffer-TakesLength}
use switchflow.Http.Line.{LineParser, parsing_line, require_crlf, parse_line}
use switchflow.Http.Line.Total as LineTotal
use switchflow.Http.Body as Body
use switchflow.Http.Body.Dispatch as Dispatch
use switchflow.Http.Body.Receiver.{Collected, collector, collector-WritesOnly}
use switchflow.Http.Body.ContentLength as ContentLength
use switchflow.Http.Body.ContentLength.Total as LengthTotal
use switchflow.Http.Body.ContentLength.Stream.{Fed, feed, feed-Fed}
use switchflow.Http.Body.Chunked as Chunked
use switchflow.Http.Body.Chunked.{is_hex, hc2int}
use switchflow.Http.Body.Chunked.Size.{Scanned, parse_chunk_size-Scanned, parse_chunk_size-digits}
use switchflow.Http.Body.Chunked.Total as ChunkedTotal
use switchflow.Http.Body.Chunked.Decode.{SizeLine, last_chunk, chunk_of, parse_body-Coded}
use switchflow.Http.Header.{HeaderReceiver, strict, status_line, status_line_token1, Parser}
use switchflow.Http.Header.StatusLine.{parse_status_line}
use switchflow.Http.Header.Fields.{parse_headers}
use switchflow.Http.Header.FieldsTotal.{Judges, Delivers, parse_headers-Delivers}

abbrev pub crlf : Bytes
crlf = cr ∷ lf ∷ []

-- A buffer of its own that holds these bytes, as it was read.
abbrev pub holding : Bytes → Buffer
holding bytes = record {
  p_buffer = some bytes;
  using_static_buffer = false;
  working_length = length bytes;
  process_position = 0;
  write_end_position = length bytes;
  write_position = 0;
}

abbrev pub hello : Buffer
hello = holding (codes "hello")

pub hello-IsValid : IsValid hello
hello-IsValid = record {
  small = omega arith;
  fits = omega arith;
  processed = omega arith;
  write_end = omega arith;
  written = omega arith;
}

abbrev pub request : Bytes
request = codes "GET / HTTP/1.1" ++ (crlf ++ (codes "Host: a" ++ (crlf ++ crlf)))

pub request-IsValid : IsValid (holding request)
request-IsValid = record {
  small = omega arith;
  fits = omega arith;
  processed = omega arith;
  write_end = omega arith;
  written = omega arith;
}
