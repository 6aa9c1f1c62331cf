-- ===== src/Http/Writer/Pieces/Fields.antt =====
-- The pieces of header_writer that are names and values of fields.
use switchflow.Base.{
  drop-set, ℕ, zero, suc, ◌+◌, ◌<◌, ◌≡◌, refl, sym, some, List, [], ◌∷◌, arith, length-set,
  get_elem?, set, drop, get_elem?-drop, lt→ltb, ok,
}
use switchflow.Util.Buffer.Unwritten.{IsOrdered}
use switchflow.Http.Message.{HeaderBuffer, MessageBuffer, get_header, put_header}
use switchflow.Http.Writer.{State, field_name, field_value, Writer, get_buffer, put_buffer}
use switchflow.Http.Writer.Pieces.{AllOrdered, IsWriting, Piece}

AllOrdered-set :
    (hs : List HeaderBuffer) (i : ℕ) (h : HeaderBuffer)
    → AllOrdered hs
    → IsOrdered h.name × IsOrdered h.value
    → AllOrdered (set hs i h)
AllOrdered-set [] i h a o = tt
AllOrdered-set (k ∷ hs) zero h a o = (o.0, o.1, a.2)
AllOrdered-set (k ∷ hs) (suc i) h a o = (a.0, a.1, AllOrdered-set hs i h a.2 o)

-- The current field.
pub record Current (m : MessageBuffer) (i : ℕ) : Type 0 where
  pub header : HeaderBuffer
  pub found : get_header m i ≡ ok header
  pub first : drop i m.headers ≡ header ∷ drop (i + 1) m.headers
  pub name_ordered : IsOrdered header.name
  pub value_ordered : IsOrdered header.value

AllOrdered-at :
    (hs : List HeaderBuffer) (i : ℕ) (h : HeaderBuffer)
    → AllOrdered hs
    → get_elem? hs i ≡ some h
    → IsOrdered h.name × IsOrdered h.value
AllOrdered-at [] i h a e = cc
AllOrdered-at (k ∷ hs) zero h a e = let same : k ≡ h = cc in rw (sym same) (a.0, a.1)
AllOrdered-at (k ∷ hs) (suc i) h a e = AllOrdered-at hs i h a.2 e

pub current :
    (st : State) (wr : Writer) (m : MessageBuffer)
    → IsWriting st wr m
    → wr.current_dump_header < m.current_num_fields
    → Current m wr.current_dump_header
unfolding get_header
current st wr m v h =
    let counted = v.counted in
    let i = wr.current_dump_header in
    let (x, at, first) = get_elem?-drop i m.headers (omega arith) in
    let (name, value) = AllOrdered-at m.headers i x v.fields at in
    record {
      header = x;
      found = rw (lt→ltb i m.current_num_fields h, at) refl;
      first = first;
      name_ordered = name;
      value_ordered = value;
    }

pub Piece-field_name :
    (wr : Writer) (m : MessageBuffer)
    → IsWriting field_name wr m
    → wr.current_dump_header < m.current_num_fields
    → Piece field_name wr m
unfolding get_buffer put_buffer
Piece-field_name wr m v h =
    let c = current field_name wr m v h in
    let i = wr.current_dump_header in
    let x = c.header in
    record {
      buffer = x.name;
      gets = rw (c.found) refl;
      is_ordered = c.name_ordered;
      is_piece = rw (c.first) refl;
      puts = λ b' moved.
          let y : HeaderBuffer = record x { name = b' } in
          let counted = v.counted in
          let same = length-set m.headers i y in
          let o = AllOrdered-set m.headers i y v.fields (moved.0, c.value_ordered) in
          let f = drop-set i m.headers y (omega arith) in
          (
            (wr, put_header m i y),
            rw (c.found) refl,
            record {
              writing = ground arith;
              same_state = refl;
              same_count = refl;
              same_fields = refl;
              rest = rw f refl;
              same_behind = rw (f, c.first) refl;
            },
          );
    }

pub Piece-field_value :
    (wr : Writer) (m : MessageBuffer) → IsWriting field_value wr m → Piece field_value wr m
unfolding get_buffer put_buffer
Piece-field_value wr m v =
    let c = current field_value wr m v v.within in
    let i = wr.current_dump_header in
    let x = c.header in
    record {
      buffer = x.value;
      gets = rw (c.found) refl;
      is_ordered = c.value_ordered;
      is_piece = rw (c.first) refl;
      puts = λ b' moved.
          let y : HeaderBuffer = record x { value = b' } in
          let counted = v.counted in
          let within = v.within in
          let same = length-set m.headers i y in
          let o = AllOrdered-set m.headers i y v.fields (c.name_ordered, moved.0) in
          let f = drop-set i m.headers y (omega arith) in
          (
            (wr, put_header m i y),
            rw (c.found) refl,
            record {
              writing = ground arith;
              same_state = refl;
              same_count = refl;
              same_fields = refl;
              rest = rw f refl;
              same_behind = rw (f, c.first) refl;
            },
          );
    }
