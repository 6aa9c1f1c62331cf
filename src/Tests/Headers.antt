-- ===== src/Tests/Headers.antt =====
-- Runs of the header parser, with a receiver that keeps every piece.
use switchflow.Base.{
  ℕ, ◌+◌, ◌^◌, ◌≤◌, ◌<◌, ◌≡◌, refl, true, false, none, some, List, [], ◌∷◌, ◌++◌, Bool, arith,
  Bytes, codes, length, drop, Outcome, ok, fault, check_failed, Returns, ReturnsOr,
}
use switchflow.Util.Buffer.{
  Buffer, of_length, fits_in_buffer, append_from_buffer, working_bytes, unprocessed,
}
use switchflow.Util.Buffer.{overwrite}
use switchflow.Http.{Status, complete, incomplete, cr, lf, space_delimiters, max_field_length}
use switchflow.Http.{no_body, content_length, contains, is_ctl_char}
use switchflow.Base.{loop}
use switchflow.Http.Scan.{Scan, parse_token, scan_token, parse_n_length_buffer}
use switchflow.Http.Header.{HeaderReceiver, strict, status_line, status_line_token1, Parser}
use switchflow.Http.Header.StatusLine.{parse_status_line}
use switchflow.Http.Header.Fields.{parse_headers}
use switchflow.Http.Header.FieldsTotal.{Delivers, parse_headers-Delivers}
use switchflow.Util.Buffer.Compare as Compare
use switchflow.Http.Header.{Aborts}
use switchflow.Http.Handler as Handler
use switchflow.Http.Handler.Receiver.{header_handler, header_handler-Judges}
use switchflow.Http.Message.{
  append_if_fits, append_to_name, append_to_value, append_to_status_line_1, append_to_status_line_2,
  append_to_status_line_3, add_field, alloc_header, reset_header, get_header,
}
use switchflow.Tests.Messages.{unused, spare}
use switchflow.Tests.{crlf, holding, request, request-IsValid}

-- Keeps every piece that it is handed.
abbrev keep : List Bytes → Bytes → Bool → Outcome (Status × List Bytes)
keep r token is_complete = ok (complete, r ++ (token ∷ []))

abbrev keeper : HeaderReceiver (List Bytes)
keeper = record {
  start_line_token1 = keep;
  start_line_token2 = keep;
  start_line_token3 = keep;
  set_field_name = keep;
  set_field_value = keep;
  end_fields = λ r. ok (complete, r);
}

abbrev fresh : Parser
fresh = record {
  current_state = status_line;
  status_line_state = status_line_token1;
  current_length = 0;
}

parse_headers-request :
    Returns
      (λ a.
        (a.0 ≡ complete)
        × (a.3 ≡ codes "GET" ∷ codes "/" ∷ codes "HTTP/1.1" ∷ codes "Host" ∷ codes "a" ∷ []))
      (parse_headers keeper strict fresh (holding request) [])
unfolding parse_headers switchflow.Base.loop switchflow.Http.Header.Fields.round_in
    parse_status_line switchflow.Http.Header.StatusLine.line_round_in
    switchflow.Http.Header.StatusLine.parse_status_token
    switchflow.Http.Header.get_status_token_delimiters switchflow.Http.Header.StatusLine.token_found
    parse_token switchflow.Http.contains switchflow.Http.is_ctl_char
    switchflow.Http.Header.receive_status_line_token switchflow.Util.Buffer.at
    switchflow.Http.Header.next_status_line_state switchflow.Http.Scan.parse_char_at
    switchflow.Util.Buffer.set_process_position switchflow.Util.Buffer.set_write_position
    switchflow.Http.Header.Fields.name_round switchflow.Http.Header.Fields.content_round
    switchflow.Http.Header.Fields.leading_lws_round switchflow.Http.Header.Fields.lws_round
    switchflow.Http.Scan.parse_equal switchflow.Http.Scan.scan_equal scan_token
parse_headers-request = (
  refl {a = complete},
  refl {a = codes "GET" ∷ codes "/" ∷ codes "HTTP/1.1" ∷ codes "Host" ∷ codes "a" ∷ []},
)

-- A line that goes on with a blank is a second value for the same name.
abbrev continued : Bytes
continued =
    codes "GET / HTTP/1.1"
    ++ (crlf ++ (codes "Host: a" ++ (crlf ++ (codes " b" ++ (crlf ++ crlf)))))

parse_headers-continued :
    Returns
      (λ a.
        (a.0 ≡ complete)
        × (a.3
            ≡ codes "GET"
              ∷ codes "/"
              ∷ codes "HTTP/1.1"
              ∷ codes "Host"
              ∷ codes "a"
              ∷ codes "b"
              ∷ []))
      (parse_headers keeper strict fresh (holding continued) [])
unfolding parse_headers switchflow.Base.loop switchflow.Http.Header.Fields.round_in
    parse_status_line switchflow.Http.Header.StatusLine.line_round_in
    switchflow.Http.Header.StatusLine.parse_status_token
    switchflow.Http.Header.get_status_token_delimiters switchflow.Http.Header.StatusLine.token_found
    parse_token switchflow.Http.contains switchflow.Http.is_ctl_char
    switchflow.Http.Header.receive_status_line_token switchflow.Util.Buffer.at
    switchflow.Http.Header.next_status_line_state switchflow.Http.Scan.parse_char_at
    switchflow.Util.Buffer.set_process_position switchflow.Util.Buffer.set_write_position
    switchflow.Http.Header.Fields.name_round switchflow.Http.Header.Fields.content_round
    switchflow.Http.Header.Fields.leading_lws_round switchflow.Http.Header.Fields.lws_round
    switchflow.Http.Scan.parse_equal switchflow.Http.Scan.scan_equal scan_token
parse_headers-continued = (
  refl {a = complete},
  refl {a = codes "GET" ∷ codes "/" ∷ codes "HTTP/1.1" ∷ codes "Host" ∷ codes "a" ∷ codes "b" ∷ []},
)

-- The handler of requests, before a message, with two headers in the cache.
abbrev listening : Handler.World
listening = record {
  handler = record {
    current_field = 0;
    message_size = 0;
    have_host_header = false;
    ignore_body_encoding_headers = false;
    body_encoding = no_body;
    stream_type = Handler.request;
  };
  shared = record {
    message = record {
      current_num_fields = 0;
      max_fields = 2;
      start_line1 = unused;
      start_line2 = unused;
      start_line3 = unused;
      headers = [];
      has_cache = true;
    };
    cache = spare ∷ spare ∷ [];
  };
}

-- The line that goes on aborts the handler.
parse_headers-aborts :
    parse_headers header_handler strict fresh (holding continued) listening ≡ fault check_failed
unfolding parse_headers switchflow.Base.loop switchflow.Http.Header.Fields.round_in
    parse_status_line switchflow.Http.Header.StatusLine.line_round_in
    switchflow.Http.Header.StatusLine.parse_status_token
    switchflow.Http.Header.get_status_token_delimiters switchflow.Http.Header.StatusLine.token_found
    parse_token switchflow.Http.contains switchflow.Http.is_ctl_char
    switchflow.Http.Header.receive_status_line_token switchflow.Util.Buffer.at
    switchflow.Http.Header.next_status_line_state switchflow.Http.Scan.parse_char_at
    switchflow.Util.Buffer.set_process_position switchflow.Util.Buffer.set_write_position
    switchflow.Http.Header.Fields.name_round switchflow.Http.Header.Fields.content_round
    switchflow.Http.Header.Fields.leading_lws_round switchflow.Http.Header.Fields.lws_round
    switchflow.Http.Scan.parse_equal switchflow.Http.Scan.scan_equal scan_token overwrite
    Handler.start_line_token1 Handler.start_line_token2 Handler.start_line_token3
    Handler.set_field_name Handler.name_appended Handler.set_field_value Handler.scan_field
    Handler.scan_encoding Handler.terminated append_if_fits append_to_name append_to_value
    append_to_status_line_1 append_to_status_line_2 append_to_status_line_3 add_field alloc_header
    reset_header get_header fits_in_buffer append_from_buffer Compare.equals Compare.compare_no_case
    Compare.compare_from Compare.asci_tolower Compare.is_equal switchflow.Util.Buffer.reset
parse_headers-aborts = refl

parse_headers-Delivers_example :
    ReturnsOr
      (Delivers (holding request))
      (Aborts header_handler)
      (parse_headers header_handler strict fresh (holding request) listening)
parse_headers-Delivers_example =
    parse_headers-Delivers header_handler strict fresh (holding request) listening
      header_handler-Judges request-IsValid (omega arith)
