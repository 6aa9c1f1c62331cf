-- ===== src/Tests/Messages.antt =====
-- Runs of the message and of its handler at a message of one field, and the theorems at them.
use switchflow.Base.{
  ℕ, ◌≡◌, refl, true, false, some, [], ◌∷◌, ◌++◌, Bool, arith, Bytes, codes, length, ok, fault,
  check_failed,
}
use switchflow.Util.Buffer.{Buffer, fits_in_buffer, append_from_buffer}
use switchflow.Util.Buffer.{overwrite}
use switchflow.Http.Message.{HeaderBuffer, Shared, append_to_value, get_header, append_if_fits}
use switchflow.Http.Message.{get_header_index_by_name}
use switchflow.Http.Message.Find.{Found, get_header_index_by_name-Found}
use switchflow.Http.Message.Room.{IsRoom}
use switchflow.Http.Message.Owned as Owned
use switchflow.Http.Message.Moved.{KeptMoved, apply_to_message-KeptMoved}
use switchflow.Http.Message.Owned.{IsMessage}
use switchflow.Http.Handler as Handler
use switchflow.Http.Handler.Values.{IsHandler, Valued, set_field_value-Valued}
use switchflow.Http.Handler.Names.{Named, set_field_name-Named, set_field_value-continued}
use switchflow.Util.Buffer.Compare as Compare
use switchflow.Http.{complete}
use switchflow.Http.{no_body}

-- A text in a vector of eight bytes of its own.
abbrev roomy : Bytes → Bytes → Buffer
roomy text rest = record {
  p_buffer = some (text ++ rest);
  using_static_buffer = false;
  working_length = length text;
  process_position = 0;
  write_end_position = length text;
  write_position = 0;
}

abbrev four_zeros : Bytes
four_zeros = 0 ∷ 0 ∷ 0 ∷ 0 ∷ []

abbrev pub unused : Buffer
unused = roomy [] (four_zeros ++ four_zeros)

abbrev host_name : Buffer
host_name = roomy (codes "Host") four_zeros

unused-IsRoom : IsRoom unused
unused-IsRoom = record {
  valid = record {
    small = omega arith;
    fits = omega arith;
    processed = omega arith;
    write_end = omega arith;
    written = omega arith;
  };
  owned = refl;
  raw = four_zeros ++ four_zeros;
  has_raw = refl;
}

host_name-IsRoom : IsRoom host_name
host_name-IsRoom = record {
  valid = record {
    small = omega arith;
    fits = omega arith;
    processed = omega arith;
    write_end = omega arith;
    written = omega arith;
  };
  owned = refl;
  raw = codes "Host" ++ four_zeros;
  has_raw = refl;
}

abbrev pub spare : HeaderBuffer
spare = record { name = unused; value = unused }

-- One field, whose name is there, in a message of two at most; one more in the cache.
abbrev one_name : Shared
one_name = record {
  message = record {
    current_num_fields = 1;
    max_fields = 2;
    start_line1 = unused;
    start_line2 = unused;
    start_line3 = unused;
    headers = record { name = host_name; value = unused } ∷ [];
    has_cache = true;
  };
  cache = spare ∷ [];
}

one_name-IsMessage : IsMessage one_name
one_name-IsMessage = record {
  from_cache = refl;
  counted = refl;
  few = omega arith;
  room1 = unused-IsRoom;
  room2 = unused-IsRoom;
  room3 = unused-IsRoom;
  headers_room = (record { name_room = host_name-IsRoom; value_room = unused-IsRoom }, tt);
  cache_room = (record { name_room = unused-IsRoom; value_room = unused-IsRoom }, tt);
}

apply_to_message-KeptMoved_example :
    KeptMoved Owned.adds_field one_name (Owned.apply_to_message Owned.adds_field one_name)
apply_to_message-KeptMoved_example =
    apply_to_message-KeptMoved Owned.adds_field one_name one_name-IsMessage tt

abbrev handler_at : ℕ → Bool → Handler.Handler
handler_at n host = record {
  current_field = n;
  message_size = 0;
  have_host_header = host;
  ignore_body_encoding_headers = false;
  body_encoding = no_body;
  stream_type = Handler.request;
}

-- Before the value of the first field, and before the name of the second.
abbrev at_value : Handler.World
at_value = record { handler = handler_at 0 false; shared = one_name }

abbrev at_name : Handler.World
at_name = record { handler = handler_at 1 false; shared = one_name }

at_value-IsHandler : IsHandler at_value
at_value-IsHandler = record { message = one_name-IsMessage; from = omega arith; upto = omega arith }

at_name-IsHandler : IsHandler at_name
at_name-IsHandler = record { message = one_name-IsMessage; from = omega arith; upto = omega arith }

set_field_name-Named_example : Named at_name (Handler.set_field_name at_name (codes "Accept") true)
set_field_name-Named_example =
    set_field_name-Named at_name (codes "Accept") true at_name-IsHandler (omega arith)

set_field_value-Valued_example :
    Valued at_value (codes "a") true (Handler.set_field_value at_value (codes "a") true)
set_field_value-Valued_example =
    set_field_value-Valued at_value (codes "a") true at_value-IsHandler refl (omega arith)

-- Behind the value "a" of the host.
abbrev behind_value : Handler.World
behind_value = record {
  handler = handler_at 1 true;
  shared = record one_name {
    message = record (one_name.message) {
      headers =
          record { name = host_name; value = roomy (codes "a") (0 ∷ 0 ∷ 0 ∷ four_zeros) } ∷ [];
    };
  };
}

set_field_value-host :
    Handler.set_field_value at_value (codes "a") true ≡ ok (complete, behind_value)
unfolding Handler.set_field_value append_to_value get_header append_if_fits fits_in_buffer
    append_from_buffer overwrite Handler.scan_field Handler.scan_encoding Compare.equals
    Compare.compare_no_case Compare.compare_from Compare.asci_tolower Compare.is_equal
set_field_value-host = refl {a = ok (complete, behind_value)}

set_field_value-continued_example :
    Handler.set_field_value behind_value (codes "b") true ≡ fault check_failed
set_field_value-continued_example =
    set_field_value-continued at_value behind_value (codes "a") (codes "b") true at_value-IsHandler
      refl (omega arith) set_field_value-host

get_header_index_by_name-Found_example :
    Found
      (codes "HOST")
      one_name.message.headers
      (get_header_index_by_name one_name.message (codes "HOST"))
get_header_index_by_name-Found_example =
    get_header_index_by_name-Found one_name.message (codes "HOST")
