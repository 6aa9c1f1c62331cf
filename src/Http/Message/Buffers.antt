-- ===== src/Http/Message/Buffers.antt =====
-- `message_buffer::get_const_buffers`: the header of a message as a list of pieces for asio.
use switchflow.Base.{
  ◌+◌, List, [], ◌∷◌, ltb, if◌then◌else◌, Bytes, codes, length, take, drop, Outcome, ok, fault,
  out_of_bounds, ◌>>=◌,
}
use switchflow.Util.Buffer.{Buffer, get_raw_buffer, get_const_buffer}
use switchflow.Http.{cr, lf}
use switchflow.Http.Message.{HeaderBuffer, MessageBuffer}

abbrev pub new_line : Bytes
new_line = cr ∷ lf ∷ []

abbrev pub field_sep : Bytes
field_sep = codes ": "

abbrev pub space : Bytes
space = codes " "

-- The bytes that a const_buffer refers to; past the end of the vector is undefined behaviour.
unfoldable pub const_bytes : Buffer → Outcome Bytes
unfolding get_const_buffer
const_bytes b = do
  raw ← get_raw_buffer b
  let (start, size) = get_const_buffer b
  if ltb (length raw) (start + size) then fault out_of_bounds else ok (take size (drop start raw))

unfoldable pub field_const_buffers : List HeaderBuffer → Outcome (List Bytes)
unfolding const_bytes
field_const_buffers [] = ok (new_line ∷ [])
field_const_buffers (h ∷ hs) = const_bytes h.name >>= λ name. const_bytes h.value >>= λ value.
    field_const_buffers hs >>= λ buffers. ok (name ∷ field_sep ∷ value ∷ new_line ∷ buffers)

unfoldable pub get_const_buffers : MessageBuffer → Outcome (List Bytes)
unfolding field_const_buffers
get_const_buffers m = do
  line1 ← const_bytes m.start_line1
  line2 ← const_bytes m.start_line2
  line3 ← const_bytes m.start_line3
  fields ← field_const_buffers m.headers
  ok (line1 ∷ space ∷ line2 ∷ space ∷ line3 ∷ new_line ∷ fields)
