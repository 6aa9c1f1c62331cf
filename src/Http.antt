-- ===== src/Http.antt =====
-- switchflow/http: the constants of http.{hpp,cpp}; its functions are in Scan and Line, the parsers of
-- a message in Header, StartLine and Body, the message and its handler in Message and Handler.
pub mod Scan
pub mod Body
pub mod Header
pub mod Message
pub mod Handler
pub mod StartLine
pub mod Writer
pub mod ErrorResponse
pub mod Line
use switchflow.Base.{ℕ, Bool, true, false, ◌||◌, [], ◌∷◌, leb, ◌==◌, Bytes}

-- `enum STATUS`
pub data Status : Type 0 where
  complete : Status
  incomplete : Status
  write_incomplete : Status
  invalid : Status
  data_overflow : Status
  io_failure : Status

-- `enum BODY_ENCODING`
pub data BodyEncoding : Type 0 where
  no_body : BodyEncoding
  chunked : BodyEncoding
  end_connection : BodyEncoding
  content_length : BodyEncoding

-- One comparison `status == X` of the code.
abbrev pub is_complete : Status → Bool
is_complete complete = true
is_complete _ = false

abbrev pub is_incomplete : Status → Bool
is_incomplete incomplete = true
is_incomplete _ = false

abbrev pub is_invalid : Status → Bool
is_invalid invalid = true
is_invalid _ = false

abbrev pub is_data_overflow : Status → Bool
is_data_overflow data_overflow = true
is_data_overflow _ = false

abbrev pub cr : ℕ
cr = 13

abbrev pub lf : ℕ
lf = 10

abbrev pub sp : ℕ
sp = 32

abbrev pub ht : ℕ
ht = 9

abbrev pub del : ℕ
del = 127

abbrev pub chunk_size_length : ℕ
chunk_size_length = 8

abbrev pub max_field_length : ℕ
max_field_length = 512

-- The sets that `init` fills, as lists of their elements.
abbrev pub space_delimiters : Bytes
space_delimiters = sp ∷ []

abbrev pub field_delimiters : Bytes
field_delimiters = b':' ∷ []

abbrev pub endline_delimiters : Bytes
endline_delimiters = cr ∷ []

abbrev pub white_space : Bytes
white_space = ht ∷ sp ∷ []

abbrev pub space_endline_delimiters : Bytes
space_endline_delimiters = sp ∷ cr ∷ []

-- `set.find(c) != set.end()`
unfoldable pub contains : Bytes → ℕ → Bool
contains [] c = false
contains (d ∷ ds) c = d == c || contains ds c

-- The argument is a `char`. It is signed where the program is built (x86), so that a byte from 128
-- on is negative, and below 31.
unfoldable pub is_ctl_char : ℕ → Bool
is_ctl_char c = leb c 31 || leb 128 c || c == del
