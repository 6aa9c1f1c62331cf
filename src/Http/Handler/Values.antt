-- ===== src/Http/Handler/Values.antt =====
-- A value that the header parser hands to `header_handler` completes a field, and tells how the
-- body is coded.
use switchflow.Base.{
  ◌+◌, ◌^◌, ◌≤◌, ◌<◌, ◌≡◌, refl, ◌⊎◌, inl, inr, Bool, ◌||◌, ◌&&◌, true, false, some, arith, ltb,
  if◌then◌else◌, Bytes, codes, length, length-set, set, Outcome, ok, fault, out_of_bounds, ◌>>=◌,
  Bool-cases, Returns-eq-ok,
}
use switchflow.Util.Buffer.{Buffer}
use switchflow.Util.Buffer.Valid.{capacity}
use switchflow.Http.{Status, is_complete, complete, data_overflow, chunked}
use switchflow.Http.Message.{
  HeaderBuffer, name_equals, Shared, get_header, append_if_fits, append_to_value,
}
use switchflow.Http.Message.Room.{IsRoom, HeaderRoom, AppendsIfFits, append_if_fits-AppendsIfFits}
use switchflow.Http.Message.Owned.{
  IsMessage, total, changed, get_header-HeaderRoom, get_header-put_header, put_header-Kept,
}
use switchflow.Http.Handler.{World, terminated, scan_encoding, scan_field, set_field_value}

-- The field that the handler is at: a field that the message has, its last one, or the next.
pub record IsHandler (w : World) : Type 0 where
  pub message : IsMessage w.shared
  pub from : w.handler.current_field ≤ w.shared.message.current_num_fields
  pub upto : w.shared.message.current_num_fields ≤ w.handler.current_field + 1

abbrev IsLast : World → Type 0
IsLast w = w.shared.message.current_num_fields ≡ w.handler.current_field + 1

-- What `scan_field` leaves as it is; a chunked body stays chunked, and the encoding that the
-- status 304 gives stays.
pub record Scans (w w' : World) : Type 0 where
  pub message : IsMessage w'.shared
  pub same_total : total w'.shared ≡ total w.shared
  pub same_num : w'.shared.message.current_num_fields ≡ w.shared.message.current_num_fields
  pub same_field : w'.handler.current_field ≡ w.handler.current_field
  pub stays_chunked : w.handler.body_encoding ≡ chunked → w'.handler.body_encoding ≡ chunked
  pub stays_ignored :
      w.handler.ignore_body_encoding_headers ≡ true
      → w'.handler.body_encoding ≡ w.handler.body_encoding

terminated_value : Buffer → Bytes → Buffer
terminated_value b raw = record b { p_buffer = some (set raw b.working_length 0) }

terminated-IsRoom :
    (b : Buffer) (r : IsRoom b)
    → b.working_length < length r.raw
    → IsRoom (terminated_value b r.raw) × (terminated b ≡ ok (terminated_value b r.raw))
unfolding terminated terminated_value
terminated-IsRoom b r h = ground (arith, length-set r.raw b.working_length 0)

terminated-fault :
    (b : Buffer) (r : IsRoom b)
    → length r.raw ≤ b.working_length
    → terminated b ≡ fault out_of_bounds
unfolding terminated
terminated-fault b r h = ground arith

abbrev Scanned : World → HeaderBuffer → Outcome World → Type 0
Scanned w f (ok w') = Scans w w'
Scanned w f (fault e) = (e ≡ out_of_bounds) × (capacity f.value ≤ f.value.working_length)

scan_encoding-Scanned :
    (w : World) (f : HeaderBuffer)
    → IsMessage w.shared
    → HeaderRoom f
    → w.handler.ignore_body_encoding_headers ≡ false
    → Scanned w f (scan_encoding w f)
unfolding scan_encoding terminated_value
scan_encoding-Scanned w f v r ig =
    elim (Bool-cases (ltb f.value.working_length (length r.value_room.raw))) [
      | inl lt ↦
          let t = terminated-IsRoom f.value r.value_room (ground arith) in
          let k =
            put_header-Kept w.shared w.handler.current_field
              (record f { value = terminated_value f.value r.value_room.raw }) v
              (record { name_room = r.name_room; value_room = t.0 }) in
          ground (arith, t.1, k)
      | inr ge ↦ ground (arith, terminated-fault f.value r.value_room)
    ]

-- The field that the handler is at has a value as long as its vector.
abbrev IsFull : World → Type 0
IsFull w =
    (f : HeaderBuffer) × (get_header w.shared.message w.handler.current_field ≡ ok f)
    × (capacity f.value ≤ f.value.working_length)

abbrev FieldScanned : World → Outcome World → Type 0
FieldScanned w (ok w') = Scans w w'
FieldScanned w (fault e) = (e ≡ out_of_bounds) × IsFull w

abbrev with_host : World → Bool → World
with_host w host = record w { handler = record (w.handler) { have_host_header = host } }

Scanned-FieldScanned :
    (w : World) (f : HeaderBuffer) (host : Bool) (o : Outcome World)
    → get_header w.shared.message w.handler.current_field ≡ ok f
    → Scanned (with_host w host) f o
    → FieldScanned w o
Scanned-FieldScanned w f host (ok w') e s = record {
  message = s.message;
  same_total = s.same_total;
  same_num = s.same_num;
  same_field = s.same_field;
  stays_chunked = s.stays_chunked;
  stays_ignored = s.stays_ignored;
}
Scanned-FieldScanned w f host (fault x) e s = (s.0, (f, e, s.1))

ignoring-FieldScanned :
    (w : World) (host b : Bool) (o : Outcome World)
    → w.handler.ignore_body_encoding_headers ≡ b
    → IsMessage w.shared
    → (b ≡ false → FieldScanned w o)
    → FieldScanned w (if b then ok (with_host w host) else o)
ignoring-FieldScanned w host false o e v f = f refl
ignoring-FieldScanned w host true o e v f = record {
  message = v;
  same_total = refl;
  same_num = refl;
  same_field = refl;
  stays_chunked = λ c. c;
  stays_ignored = λ i. refl;
}

scan_field-FieldScanned :
    (w : World)
    → IsMessage w.shared
    → w.handler.current_field < w.shared.message.current_num_fields
    → FieldScanned w (scan_field w)
unfolding scan_field
scan_field-FieldScanned w v l =
    let (f, e, r) = get_header-HeaderRoom w.shared w.handler.current_field v l in
    let host = w.handler.have_host_header || name_equals f (codes "host") in
    rw e (
      ignoring-FieldScanned w host w.handler.ignore_body_encoding_headers
        (scan_encoding (with_host w host) f) refl v
        (λ n.
          Scanned-FieldScanned w f host (scan_encoding (with_host w host) f) e
            (scan_encoding-Scanned (with_host w host) f v r n)))

-- The value of the field that the handler is at would be as long as its vector, or longer.
abbrev pub FillsUp : World → Bytes → Type 0
FillsUp w src =
    (f : HeaderBuffer) × (get_header w.shared.message w.handler.current_field ≡ ok f)
    × (capacity f.value ≤ f.value.working_length + length src)

-- What `set_field_value` answers.
abbrev pub Valued : World → Bytes → Bool → Outcome (Status × World) → Type 0
Valued w src b_complete (ok (st, w')) =
    IsHandler w'
    × (total w'.shared ≡ total w.shared)
    × (w'.shared.message.current_num_fields ≡ w.shared.message.current_num_fields)
    × ((st ≡ complete) ⊎ (st ≡ data_overflow))
    × (w'.handler.current_field ≡ (
        if b_complete && is_complete st
        then w.handler.current_field + 1
        else w.handler.current_field))
    × (w.handler.body_encoding ≡ chunked → w'.handler.body_encoding ≡ chunked)
    × (w.handler.ignore_body_encoding_headers ≡ true
        → w'.handler.body_encoding ≡ w.handler.body_encoding)
Valued w src b_complete (fault e) = (b_complete ≡ true) × (e ≡ out_of_bounds) × FillsUp w src

abbrev next_field : World → World
next_field w = record w {
  handler = record (w.handler) { current_field = w.handler.current_field + 1 };
}

fills :
    (b b' : Buffer) (src : Bytes)
    → capacity b' ≡ capacity b
    → b'.working_length ≤ b.working_length + length src
    → capacity b' ≤ b'.working_length
    → capacity b ≤ b.working_length + length src
fills b b' src e l h = omega (arith, e, l, h)

-- By whether the value fitted, and by what `scan_field` gave.
append-Valued :
    (w : World) (src : Bytes) (s : Shared) (done b_complete : Bool) (o : Outcome World)
    → IsHandler w
    → w.shared.message.current_num_fields ≡ w.handler.current_field + 1
    → IsMessage s × (total s ≡ total w.shared)
    → s.message.current_num_fields ≡ w.shared.message.current_num_fields
    → FieldScanned (record w { shared = s }) o
    → (IsFull (record w { shared = s }) → FillsUp w src)
    → Valued w src b_complete (
        if done
        then if b_complete
          then (o >>= λ w₂. ok (complete, next_field w₂))
          else ok (complete, record w { shared = s })
        else ok (data_overflow, record w { shared = s }))
append-Valued w src s false b_complete o v l k n f full = ground arith
append-Valued w src s true false o v l k n f full = ground arith
append-Valued w src s true true (fault e) v l k n f full = (refl, f.0, full f.1)
append-Valued w src s true true (ok w₂) v l k n f full = ground arith

-- With a handler at the last field of its message, a value (of less than 2 ^ 31 bytes) is answered
-- by COMPLETE or DATAOVERFLOW, and no header is lost between the message and the cache. The handler
-- goes on to the next field if the value is the whole rest and is COMPLETE, and stays otherwise. A
-- body that is chunked stays so, and so does the encoding where the status line was one to ignore
-- the headers for. The one way to fail is out of bounds, at a value that is complete: the
-- terminating zero behind it.
pub set_field_value-Valued :
    (w : World) (src : Bytes) (b_complete : Bool)
    → IsHandler w
    → w.shared.message.current_num_fields ≡ w.handler.current_field + 1
    → length src < 2 ^ 31
    → Valued w src b_complete (set_field_value w src b_complete)
unfolding set_field_value append_to_value
set_field_value-Valued w src b_complete v l h =
    let n = w.handler.current_field in
    let (k, e, r) = get_header-HeaderRoom w.shared n v.message (omega (arith, l)) in
    let ((done, b), f, post) =
      Returns-eq-ok (AppendsIfFits k.value src) (append_if_fits k.value src)
        (append_if_fits-AppendsIfFits k.value src r.value_room h) in
    let kept =
      put_header-Kept w.shared n (record k { value = b }) v.message
        (record { name_room = r.name_room; value_room = post.0 }) in
    let w₁ : World = record w { shared = changed w.shared n (record k { value = b }) } in
    let s = scan_field-FieldScanned w₁ kept.0 (omega (arith, l)) in
    let full : IsFull w₁ → FillsUp w src = λ (g, e', le).
      let same : g ≡ record k { value = b } =
        ground (arith, get_header-put_header w.shared.message n k (record k { value = b }) e) in
      (k, e, fills k.value b src post.1 post.2 (rw same at le)) in
    rw (e, f)
      (append-Valued w src (changed w.shared n (record k { value = b })) done b_complete
        (scan_field w₁) v l kept refl s full)
