-- ===== src/Http/Handler/Receiver.antt =====
-- header_handler as the receiver that i_header_receiver.hpp asks for.
use switchflow.Base.{◌≢◌, if◌then◌else◌, Bool, true, false, ok}
use switchflow.Http.{complete, incomplete, invalid}
use switchflow.Http.Header.{HeaderReceiver}
use switchflow.Http.Header.FieldsTotal.{Judges}
use switchflow.Http.Handler.{
  World, start_line_token1, start_line_token2, start_line_token3, set_field_name, set_field_value,
  end_fields,
}

abbrev pub header_handler : HeaderReceiver World
header_handler = record {
  start_line_token1 = start_line_token1;
  start_line_token2 = start_line_token2;
  start_line_token3 = start_line_token3;
  set_field_name = set_field_name;
  set_field_value = set_field_value;
  end_fields = λ w. ok (end_fields w);
}

judged-invalid : (b : Bool) → (if b then invalid else complete) ≢ incomplete
judged-invalid true e = cc
judged-invalid false e = cc

-- `end_fields` never answers INCOMPLETE.
pub header_handler-Judges : Judges header_handler
unfolding end_fields
header_handler-Judges = record { judges = λ w. judged-invalid _ }
