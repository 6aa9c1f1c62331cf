-- ===== src/Http/Message.antt =====
-- switchflow/http/header_buffer.cpp, header_cache.cpp and message_buffer.cpp: a message with its
-- start line and its fields, which it takes from a cache that all messages share and gives back.
pub mod Room
pub mod Owned
pub mod Moved
pub mod Find
pub mod Buffers
use switchflow.Base.{
  ℕ, ◌+◌, Bool, true, false, not, Option, none, some, List, [], ◌∷◌, ◌++◌, map, ltb, ◌==◌,
  if◌then◌else◌, Bytes, length, get_elem?, set, Outcome, ok, fault, out_of_bounds, check_failed,
  ◌>>=◌, ◌>>◌, check_condition,
}
use switchflow.Util.Buffer.{
  Buffer, of_length, of_static, reset, fits_in_buffer, append_from_buffer, append_to_string, copy,
}
use switchflow.Util.Buffer.Compare.{equals}

pub record HeaderBuffer : Type 0 where
  pub name : Buffer
  pub value : Buffer

unfoldable pub header_buffer : ℕ → ℕ → HeaderBuffer
header_buffer max_name_length max_value_length = record {
  name = of_length max_name_length;
  value = of_length max_value_length;
}

unfoldable pub reset_header : HeaderBuffer → HeaderBuffer
reset_header h = record { name = reset h.name; value = reset h.value }

abbrev pub name_equals : HeaderBuffer → Bytes → Bool
name_equals h compare_string = equals h.name compare_string

abbrev pub value_equals : HeaderBuffer → Bytes → Bool
value_equals h compare_string = equals h.value compare_string

-- header_cache: the list `headers_`.
abbrev pub HeaderCache : Type 0
HeaderCache = List HeaderBuffer

abbrev pub is_empty : {A : Type 0} → List A → Bool
is_empty [] = true
is_empty (x ∷ xs) = false

-- The cache and the list that gets the header.
unfoldable pub alloc_header :
    HeaderCache → List HeaderBuffer → Outcome (HeaderCache × List HeaderBuffer)
alloc_header [] headers = fault check_failed
alloc_header (h ∷ cache) headers = ok (cache, headers ++ (reset_header h ∷ []))

-- The cache that gets all the headers of a list; that list is empty then.
unfoldable pub release_headers : HeaderCache → List HeaderBuffer → Outcome HeaderCache
release_headers cache headers = do check_condition (not (is_empty cache)); ok (cache ++ headers)

-- `cache_` is a pointer: whether there is one. The cache itself stands in Shared.
pub record MessageBuffer : Type 0 where
  pub current_num_fields : ℕ
  pub max_fields : ℕ
  pub start_line1 : Buffer
  pub start_line2 : Buffer
  pub start_line3 : Buffer
  pub headers : List HeaderBuffer
  pub has_cache : Bool

-- A message, and the cache as it is at the time.
pub record Shared : Type 0 where
  pub message : MessageBuffer
  pub cache : HeaderCache

pub message_buffer : ℕ → ℕ → ℕ → ℕ → MessageBuffer
message_buffer max1 max2 max3 max_num_headers = record {
  current_num_fields = 0;
  max_fields = max_num_headers;
  start_line1 = of_length max1;
  start_line2 = of_length max2;
  start_line3 = of_length max3;
  headers = [];
  has_cache = true;
}

-- `push_back` copies each field.
unfoldable pub copy_headers : List HeaderBuffer → Outcome (List HeaderBuffer)
copy_headers [] = ok []
copy_headers (h ∷ hs) = copy h.name >>= λ name. copy h.value >>= λ value.
    copy_headers hs >>= λ copies. ok (record { name = name; value = value } ∷ copies)

unfoldable pub static_message_buffer :
    Bytes → Bytes → Bytes → List HeaderBuffer → Outcome MessageBuffer
static_message_buffer line1 line2 line3 fields = do
  copies ← copy_headers fields
  ok (record {
    current_num_fields = length fields;
    max_fields = length fields;
    start_line1 = of_static line1;
    start_line2 = of_static line2;
    start_line3 = of_static line3;
    headers = copies;
    has_cache = false;
  })

abbrev reset_lines : MessageBuffer → MessageBuffer
reset_lines m = record m {
  start_line1 = reset m.start_line1;
  start_line2 = reset m.start_line2;
  start_line3 = reset m.start_line3;
}

unfoldable pub reset_message : Shared → Outcome Shared
reset_message s =
    if s.message.has_cache
    then (release_headers s.cache s.message.headers >>= λ cache. ok (record {
      message = reset_lines (record (s.message) { headers = []; current_num_fields = 0 });
      cache = cache;
    }))
    else ok (record s {
      message = reset_lines (record (s.message) { headers = map reset_header s.message.headers });
    })

-- Append where there is room; the answer says whether there was.
unfoldable pub append_if_fits : Buffer → Bytes → Outcome (Bool × Buffer)
append_if_fits b src = do
  fits ← fits_in_buffer b (length src)
  if fits then (append_from_buffer b src >>= λ b'. ok (true, b')) else ok (false, b)

unfoldable pub append_to_status_line_1 : MessageBuffer → Bytes → Outcome (Bool × MessageBuffer)
append_to_status_line_1 m src = do
  (done, b) ← append_if_fits m.start_line1 src
  ok (done, record m { start_line1 = b })

unfoldable pub append_to_status_line_2 : MessageBuffer → Bytes → Outcome (Bool × MessageBuffer)
append_to_status_line_2 m src = do
  (done, b) ← append_if_fits m.start_line2 src
  ok (done, record m { start_line2 = b })

unfoldable pub append_to_status_line_3 : MessageBuffer → Bytes → Outcome (Bool × MessageBuffer)
append_to_status_line_3 m src = do
  (done, b) ← append_if_fits m.start_line3 src
  ok (done, record m { start_line3 = b })

-- Past the end of the list is undefined behaviour.
unfoldable pub get_header : MessageBuffer → ℕ → Outcome HeaderBuffer
get_header m n = do
  check_condition (ltb n m.current_num_fields)
  elim (get_elem? m.headers n) [ none ↦ fault out_of_bounds | some h ↦ ok h ]

-- A header changed through the reference that `get_header` gives.
abbrev pub put_header : MessageBuffer → ℕ → HeaderBuffer → MessageBuffer
put_header m n h = record m { headers = set m.headers n h }

unfoldable pub append_to_name : MessageBuffer → ℕ → Bytes → Outcome (Bool × MessageBuffer)
append_to_name m n src = do
  h ← get_header m n
  (done, b) ← append_if_fits h.name src
  ok (done, put_header m n (record h { name = b }))

unfoldable pub append_to_value : MessageBuffer → ℕ → Bytes → Outcome (Bool × MessageBuffer)
append_to_value m n src = do
  h ← get_header m n
  (done, b) ← append_if_fits h.value src
  ok (done, put_header m n (record h { value = b }))

abbrev pub field_name_equals : MessageBuffer → ℕ → Bytes → Outcome Bool
field_name_equals m n compare_string = do h ← get_header m n; ok (name_equals h compare_string)

abbrev pub field_value_equals : MessageBuffer → ℕ → Bytes → Outcome Bool
field_value_equals m n compare_string = do h ← get_header m n; ok (value_equals h compare_string)

unfoldable pub add_field : Shared → Outcome (Bool × Shared)
add_field s = do
  let m = s.message
  check_condition (ltb m.current_num_fields m.max_fields)
  check_condition m.has_cache
  if is_empty s.cache
      then ok (false, s)
      else (alloc_header s.cache m.headers >>= λ (cache, headers).
          check_condition (length headers == m.current_num_fields + 1)
          >> ok (
            true,
            record {
              message = record m {
                headers = headers;
                current_num_fields = m.current_num_fields + 1;
              };
              cache = cache;
            },
          ))

-- The loop of `get_header_index_by_name`, from index `i`.
pub index_from : List HeaderBuffer → Bytes → ℕ → Option ℕ
index_from [] header_name i = none
index_from (h ∷ hs) header_name i =
    if name_equals h header_name then some i else index_from hs header_name (i + 1)

pub get_header_index_by_name : MessageBuffer → Bytes → Option ℕ
get_header_index_by_name m header_name = index_from m.headers header_name 0

-- Whether there is such a header, and the string with its value behind.
unfoldable pub get_header_value : MessageBuffer → Bytes → Bytes → Outcome (Bool × Bytes)
unfolding get_header_index_by_name
get_header_value m header_name header_value = elim (get_header_index_by_name m header_name) [
  | none ↦ ok (false, header_value)
  | some i ↦
      (get_header m i >>= λ h.
      append_to_string h.value header_value 0 h.value.working_length >>= λ v. ok (true, v))
]
