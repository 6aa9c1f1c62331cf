-- ===== src/Tests/Buffers.antt =====
-- Runs of the buffer and of the scanning functions.
use switchflow.Base.{◌≡◌, refl, true, some, ◌++◌, arith, codes, drop, Returns}
use switchflow.Util.Buffer.{Buffer, fits_in_buffer, append_from_buffer, working_bytes}
use switchflow.Util.Buffer.Valid.{IsValid, appends_from_string, apply, Preserved, apply-IsValid}
use switchflow.Util.Buffer.Content.{Appends, append_from_buffer-Appends}
use switchflow.Util.Buffer.Compare as Compare
use switchflow.Http.{complete, space_delimiters, max_field_length}
use switchflow.Http.{contains, is_ctl_char}
use switchflow.Http.Scan.{parse_token, scan_token, parse_n_length_buffer}
use switchflow.Http.Scan.Token.{Finds, parse_token-Finds, scan_token-split}
use switchflow.Http.Scan.Take.{TakesLength, parse_n_length_buffer-TakesLength}
use switchflow.Http.Line.{LineParser, parsing_line, require_crlf, parse_line}
use switchflow.Http.Line.Total as LineTotal
use switchflow.Tests.{holding, hello, hello-IsValid, request, request-IsValid}

apply-IsValid_example :
    Preserved
      (appends_from_string (codes "bye"))
      hello
      (apply (appends_from_string (codes "bye")) hello)
apply-IsValid_example = apply-IsValid (appends_from_string (codes "bye")) hello tt hello-IsValid

-- Room for three more bytes.
abbrev half_full : Buffer
half_full = record hello { working_length = 2; write_end_position = 2 }

half_full-IsValid : IsValid half_full
half_full-IsValid = record {
  small = omega arith;
  fits = omega arith;
  processed = omega arith;
  write_end = omega arith;
  written = omega arith;
}

append_from_buffer-Appends_example :
    Appends half_full
      (codes "bye")
      (fits_in_buffer half_full 3)
      (append_from_buffer half_full (codes "bye"))
append_from_buffer-Appends_example =
    append_from_buffer-Appends half_full (codes "hello") (codes "bye") half_full-IsValid refl refl
      (omega arith)

compare_no_case-Means_example :
    Compare.Means
      (Compare.compare_no_case hello (codes "HeLLo"))
      (Compare.lower (working_bytes hello))
      (Compare.lower (codes "HeLLo"))
compare_no_case-Means_example = Compare.compare_no_case-Means hello (codes "HeLLo")

compare_no_case-hello : Compare.equals hello (codes "HeLLo") ≡ true
unfolding Compare.equals Compare.compare_no_case Compare.compare_from Compare.asci_tolower
    Compare.is_equal
compare_no_case-hello = refl

parse_token-Finds_example :
    let s = parse_token (holding request) 0 0 max_field_length space_delimiters in
    Finds max_field_length space_delimiters
      (drop 0 (working_bytes (holding request)))
      0
      0
      s.status
      s.end
      s.current_length
parse_token-Finds_example =
    parse_token-Finds (holding request) 0 0 max_field_length space_delimiters (omega arith)

scan_token-split_example :
    scan_token 5 space_delimiters (codes "GE" ++ codes "T /") 0 0
    ≡ record { status = complete; end = some 4; current_length = 3 }
unfolding scan_token contains is_ctl_char
scan_token-split_example =
    scan_token-split 5 space_delimiters (codes "GE") (codes "T /") 0 0 (omega arith)

parse_n_length_buffer-TakesLength_example :
    Returns (TakesLength hello 3 6) (parse_n_length_buffer hello 3 6)
parse_n_length_buffer-TakesLength_example =
    parse_n_length_buffer-TakesLength hello 3 6 hello-IsValid (omega arith) (omega arith)

abbrev line : LineParser
line = record {
  current_length = 0;
  max_length = 64;
  state = parsing_line;
  line_end_option = require_crlf;
}

parse_line-Ends_example :
    Returns
      (LineTotal.Ends (holding request) request-IsValid 0)
      (parse_line (holding request) line 0 0)
parse_line-Ends_example =
    LineTotal.parse_line-Ends (holding request) request-IsValid 0 line 0 (omega arith) (omega arith)
