-- ===== src/Tests/StartLines.antt =====
-- Runs of start_line_parser at concrete lines, and the theorem at one.
use switchflow.Base.{◌≡◌, refl, Bool, List, [], ◌∷◌, ◌++◌, Bytes, codes, loop, Returns}
use switchflow.Http.{Status, complete, is_invalid, cr, lf, contains, is_ctl_char}
use switchflow.Http.StartLine.{
  StartLineReceiver, strict, create, World, parse_buffer_token, parse_buffer_char,
  get_token_delimiters, next_state, set_token, token_parsed, parse_token, round_in,
  parse_start_line,
}
use switchflow.Http.StartLine.Total.{Answers, parse_start_line-Answers}

-- Keeps every piece that it is handed.
abbrev keep : List Bytes → Bytes → Bool → Status × List Bytes
keep r token b_complete = (complete, r ++ (token ∷ []))

abbrev keeper : StartLineReceiver (List Bytes)
keeper = record { token1 = keep; token2 = keep; token3 = keep }

abbrev request_line : Bytes
request_line = codes "GET / HTTP/1.1" ++ (cr ∷ lf ∷ codes "Host")

abbrev world : World (List Bytes)
world = record { parser = create 8 64 16; buffer = request_line; receiver = [] }

-- In the C library of Linux `OVERFLOW` is 3, the value of INVALID.
parse_start_line-Answers_example :
    Returns (Answers request_line) (parse_start_line is_invalid keeper strict world)
parse_start_line-Answers_example = parse_start_line-Answers is_invalid keeper refl refl strict world

parse_start_line-request :
    Returns
      (λ a.
        (a.0 ≡ complete)
        × (a.1.buffer ≡ codes "Host")
        × (a.1.receiver ≡ codes "GET" ∷ codes "/" ∷ codes "HTTP/1.1" ∷ []))
      (parse_start_line is_invalid keeper strict world)
unfolding parse_start_line loop round_in parse_token get_token_delimiters parse_buffer_token
    parse_buffer_char token_parsed set_token next_state contains is_ctl_char create
parse_start_line-request = (
  refl {a = complete},
  refl {a = codes "Host"},
  refl {a = codes "GET" ∷ codes "/" ∷ codes "HTTP/1.1" ∷ []},
)
