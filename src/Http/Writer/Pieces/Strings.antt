-- ===== src/Http/Writer/Pieces/Strings.antt =====
-- The pieces of header_writer that are not in a field's buffer: the start line, and the strings
-- between.
use switchflow.Base.{refl, arith}
use switchflow.Http.Message.{MessageBuffer}
use switchflow.Http.Writer.{
  space, endline, fieldsep, start_line_token1, start_line_seperator1, start_line_token2,
  start_line_seperator2, start_line_token3, start_line_end, field_value_seperator, field_seperator,
  end_fields, Writer, get_buffer, put_buffer,
}
use switchflow.Http.Writer.Pieces.{IsWriting, Piece, IsText-Moved}

pub Piece-line1 :
    (wr : Writer) (m : MessageBuffer)
    → IsWriting start_line_token1 wr m
    → Piece start_line_token1 wr m
unfolding get_buffer put_buffer
Piece-line1 wr m v = record {
  buffer = m.start_line1;
  gets = refl;
  is_ordered = v.line1;
  is_piece = refl;
  puts = λ b' moved. ((wr, record m { start_line1 = b' }), refl, let o = moved.0 in ground arith);
}

pub Piece-line2 :
    (wr : Writer) (m : MessageBuffer)
    → IsWriting start_line_token2 wr m
    → Piece start_line_token2 wr m
unfolding get_buffer put_buffer
Piece-line2 wr m v = record {
  buffer = m.start_line2;
  gets = refl;
  is_ordered = v.line2;
  is_piece = refl;
  puts = λ b' moved. ((wr, record m { start_line2 = b' }), refl, let o = moved.0 in ground arith);
}

pub Piece-line3 :
    (wr : Writer) (m : MessageBuffer)
    → IsWriting start_line_token3 wr m
    → Piece start_line_token3 wr m
unfolding get_buffer put_buffer
Piece-line3 wr m v = record {
  buffer = m.start_line3;
  gets = refl;
  is_ordered = v.line3;
  is_piece = refl;
  puts = λ b' moved. ((wr, record m { start_line3 = b' }), refl, let o = moved.0 in ground arith);
}

pub Piece-seperator1 :
    (wr : Writer) (m : MessageBuffer)
    → IsWriting start_line_seperator1 wr m
    → Piece start_line_seperator1 wr m
unfolding get_buffer put_buffer
Piece-seperator1 wr m v = record {
  buffer = wr.space_buf;
  gets = refl;
  is_ordered = v.space_text.buffer;
  is_piece = refl;
  puts = λ b' moved. (
    (record wr { space_buf = b' }, m),
    refl,
    let t = IsText-Moved space wr.space_buf b' v.space_text moved in ground arith,
  );
}

pub Piece-seperator2 :
    (wr : Writer) (m : MessageBuffer)
    → IsWriting start_line_seperator2 wr m
    → Piece start_line_seperator2 wr m
unfolding get_buffer put_buffer
Piece-seperator2 wr m v = record {
  buffer = wr.space_buf;
  gets = refl;
  is_ordered = v.space_text.buffer;
  is_piece = refl;
  puts = λ b' moved. (
    (record wr { space_buf = b' }, m),
    refl,
    let t = IsText-Moved space wr.space_buf b' v.space_text moved in ground arith,
  );
}

pub Piece-line_end :
    (wr : Writer) (m : MessageBuffer) → IsWriting start_line_end wr m → Piece start_line_end wr m
unfolding get_buffer put_buffer
Piece-line_end wr m v = record {
  buffer = wr.endline_buf;
  gets = refl;
  is_ordered = v.endline_text.buffer;
  is_piece = refl;
  puts = λ b' moved. (
    (record wr { endline_buf = b' }, m),
    refl,
    let t = IsText-Moved endline wr.endline_buf b' v.endline_text moved in ground arith,
  );
}

pub Piece-value_seperator :
    (wr : Writer) (m : MessageBuffer)
    → IsWriting field_value_seperator wr m
    → Piece field_value_seperator wr m
unfolding get_buffer put_buffer
Piece-value_seperator wr m v = record {
  buffer = wr.field_sep;
  gets = refl;
  is_ordered = v.fieldsep_text.buffer;
  is_piece = refl;
  puts = λ b' moved. (
    (record wr { field_sep = b' }, m),
    refl,
    let t = IsText-Moved fieldsep wr.field_sep b' v.fieldsep_text moved in ground arith,
  );
}

pub Piece-field_seperator :
    (wr : Writer) (m : MessageBuffer) → IsWriting field_seperator wr m → Piece field_seperator wr m
unfolding get_buffer put_buffer
Piece-field_seperator wr m v = record {
  buffer = wr.endline_buf;
  gets = refl;
  is_ordered = v.endline_text.buffer;
  is_piece = refl;
  puts = λ b' moved. (
    (record wr { endline_buf = b' }, m),
    refl,
    let t = IsText-Moved endline wr.endline_buf b' v.endline_text moved in ground arith,
  );
}

pub Piece-end :
    (wr : Writer) (m : MessageBuffer) → IsWriting end_fields wr m → Piece end_fields wr m
unfolding get_buffer put_buffer
Piece-end wr m v = record {
  buffer = wr.endline_buf;
  gets = refl;
  is_ordered = v.endline_text.buffer;
  is_piece = refl;
  puts = λ b' moved. (
    (record wr { endline_buf = b' }, m),
    refl,
    let t = IsText-Moved endline wr.endline_buf b' v.endline_text moved in ground arith,
  );
}
