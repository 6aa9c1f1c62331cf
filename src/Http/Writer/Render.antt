-- ===== src/Http/Writer/Render.antt =====
-- What header_writer sends of a message that has just been read: the bytes of its buffers, which are
-- those that `get_const_buffers` gives as well.
use switchflow.Base.{
  ℕ, ◌+◌, ◌*◌, ◌^◌, ◌<◌, ◌≡◌, refl, ap, ◌∙◌, List, [], ◌∷◌, ◌++◌, append-nil, arith, Bytes, length,
  ok, Returns, Returns-mono, Returns-eq-ok, false, ltb, le→ltb,
}
use switchflow.Util.Buffer.{Buffer, working_bytes}
use switchflow.Util.Buffer.Valid.{capacity}
use switchflow.Http.Writer.Pieces.Advance.{reset-IsText}
use switchflow.Util.Buffer.Unwritten.{unwritten, IsOrdered, unwritten-working}
use switchflow.Http.Message.{HeaderBuffer, MessageBuffer}
use switchflow.Http.Message.Buffers.{get_const_buffers, field_const_buffers, const_bytes}
use switchflow.Socketlib.{
  Status, complete, incomplete, dest_closed, read_incomplete, write_incomplete, connection_failed,
  src_closed, deny,
}
use switchflow.Socketlib.Os.{Os, Streams, IsPosix}
use switchflow.Socketlib.Connection.{Connection}
use switchflow.Http.Writer.{
  space, endline, fieldsep, start_line_token1, Writer, World, reset, write_header,
}
use switchflow.Http.Writer.Pieces.{all_fields, IsText, AllOrdered, IsWriting}
use switchflow.Http.Writer.Sends.{Sends, rest, write_header-Sends}

-- To be written from its start to the end of what it holds.
pub record IsWhole (b : Buffer) : Type 0 where
  pub buffer : IsOrdered b
  pub from_start : b.write_position ≡ 0
  pub to_end : b.write_end_position ≡ b.working_length

abbrev pub AllWhole : List HeaderBuffer → Type 0
AllWhole [] = Unit
AllWhole (h ∷ hs) = IsWhole h.name × IsWhole h.value × AllWhole hs

pub record IsWholeMessage (m : MessageBuffer) : Type 0 where
  pub line1 : IsWhole m.start_line1
  pub line2 : IsWhole m.start_line2
  pub line3 : IsWhole m.start_line3
  pub fields : AllWhole m.headers
  pub counted : length m.headers ≡ m.current_num_fields
  pub few : m.current_num_fields < 2 ^ 30

abbrev pub render_fields : List HeaderBuffer → Bytes
render_fields [] = endline
render_fields (h ∷ hs) =
    working_bytes h.name ++ (fieldsep ++ (working_bytes h.value ++ (endline ++ render_fields hs)))

-- The header of a message, as it stands in its buffers.
abbrev pub render : MessageBuffer → Bytes
render m =
    working_bytes m.start_line1
    ++ (space
        ++ (working_bytes m.start_line2
            ++ (space ++ (working_bytes m.start_line3 ++ (endline ++ render_fields m.headers)))))

abbrev pub join : List Bytes → Bytes
join [] = []
join (b ∷ bs) = b ++ join bs

whole_bytes : (b : Buffer) → IsWhole b → unwritten b ≡ working_bytes b
whole_bytes b w = unwritten-working b w.buffer w.from_start w.to_end

all_fields-whole : (hs : List HeaderBuffer) → AllWhole hs → all_fields hs ≡ render_fields hs
all_fields-whole [] a = refl
all_fields-whole (h ∷ hs) a =
    rw (whole_bytes h.name a.0, whole_bytes h.value a.1, all_fields-whole hs a.2) refl

AllWhole-AllOrdered : (hs : List HeaderBuffer) → AllWhole hs → AllOrdered hs
AllWhole-AllOrdered [] a = tt
AllWhole-AllOrdered (h ∷ hs) a = (a.0.buffer, a.1.buffer, AllWhole-AllOrdered hs a.2)

const_bytes-whole : (b : Buffer) → IsWhole b → const_bytes b ≡ ok (working_bytes b)
unfolding const_bytes
const_bytes-whole b w =
    let o = w.buffer in
    let fits = o.valid.fits in
    let room : capacity b ≡ length o.raw = rw o.has_raw refl in
    let inside : ltb (length o.raw) (0 + b.working_length) ≡ false =
      le→ltb (length o.raw) (0 + b.working_length) (omega arith) in
    rw (w.from_start, w.to_end, o.has_raw, inside) refl

field_const_buffers-whole :
    (hs : List HeaderBuffer)
    → AllWhole hs
    → Returns (λ bs. join bs ≡ render_fields hs) (field_const_buffers hs)
unfolding field_const_buffers
field_const_buffers-whole [] a = append-nil endline
field_const_buffers-whole (h ∷ hs) a =
    let (bs, done, same) =
      Returns-eq-ok (λ bs. join bs ≡ render_fields hs) (field_const_buffers hs)
        (field_const_buffers-whole hs a.2) in
    rw (const_bytes-whole h.name a.0, const_bytes-whole h.value a.1, done, same) refl

-- The pieces that `get_const_buffers` gives are, joined, the header as it stands in the buffers.
get_const_buffers-whole :
    (m : MessageBuffer)
    → IsWholeMessage m
    → Returns (λ bs. join bs ≡ render m) (get_const_buffers m)
unfolding get_const_buffers
get_const_buffers-whole m w =
    let (bs, done, same) =
      Returns-eq-ok (λ bs. join bs ≡ render_fields m.headers) (field_const_buffers m.headers)
        (field_const_buffers-whole m.headers w.fields) in
    rw
      (
        const_bytes-whole m.start_line1 w.line1,
        const_bytes-whole m.start_line2 w.line2,
        const_bytes-whole m.start_line3 w.line3,
        done,
        same,
      )
      refl

-- A writer whose three strings show their texts, as the constructor makes it.
pub record IsWriter (wr : Writer) : Type 0 where
  pub space_text : IsText space wr.space_buf
  pub endline_text : IsText endline wr.endline_buf
  pub fieldsep_text : IsText fieldsep wr.field_sep

reset-IsWriting :
    (wr : Writer) (m : MessageBuffer)
    → IsWriter wr
    → IsWholeMessage m
    → IsWriting start_line_token1 (reset wr) m
unfolding reset
reset-IsWriting wr m t w = record {
  line1 = w.line1.buffer;
  line2 = w.line2.buffer;
  line3 = w.line3.buffer;
  fields = AllWhole-AllOrdered m.headers w.fields;
  counted = w.counted;
  few = let few = w.few in omega arith;
  space_text = (reset-IsText space wr.space_buf (omega arith) t.space_text).0;
  endline_text = (reset-IsText endline wr.endline_buf (omega arith) t.endline_text).0;
  fieldsep_text = (reset-IsText fieldsep wr.field_sep (omega arith) t.fieldsep_text).0;
  within = omega arith;
  fresh = tt;
}

module _ {S : Type 0} where
  -- The writer behind `reset`.
  abbrev pub started : Writer → MessageBuffer → Connection → S → World S
  started wr m dest s = record { writer = reset wr; message = m; dest = dest; system = s }

module _ {S : Type 0} (os : Os S) (streams : Streams S) where
  open streams use {sent, IsOpen, interrupts}

  -- COMPLETE: the whole header has been sent; otherwise a part of it from its front.
  abbrev pub Rendered : World S → Status × World S → Type 0
  Rendered w₀ (complete, w) =
      sent w.system w₀.dest.fd ≡ sent w₀.system w₀.dest.fd ++ render w₀.message
  Rendered w₀ (status, w) =
      (to_come : Bytes) × (sent w.system w₀.dest.fd ++ to_come
        ≡ sent w₀.system w₀.dest.fd ++ render w₀.message)

  rest-render :
      (wr : Writer) (m : MessageBuffer) (dest : Connection) (s : S)
      → IsWholeMessage m
      → rest os streams (started wr m dest s) ≡ render m
  unfolding reset
  rest-render wr m dest s w =
      rw
        (
          whole_bytes m.start_line1 w.line1,
          whole_bytes m.start_line2 w.line2,
          whole_bytes m.start_line3 w.line3,
          all_fields-whole m.headers w.fields,
        )
        refl

  Sends-Rendered :
      (w₀ : World S) (a : Status × World S)
      → rest os streams w₀ ≡ render w₀.message
      → Sends os streams w₀ a
      → Rendered w₀ a
  Sends-Rendered w₀ (complete, w) e s = s ∙ ap (λ t. sent w₀.system w₀.dest.fd ++ t) e
  Sends-Rendered w₀ (incomplete, w) e (f, stop) =
      (rest os streams w, f.conserved ∙ ap (λ t. sent w₀.system w₀.dest.fd ++ t) e)
  Sends-Rendered w₀ (dest_closed, w) e (f, stop) =
      (rest os streams w, f.conserved ∙ ap (λ t. sent w₀.system w₀.dest.fd ++ t) e)
  Sends-Rendered w₀ (read_incomplete, w) e s = elim s [ ]
  Sends-Rendered w₀ (write_incomplete, w) e s = elim s [ ]
  Sends-Rendered w₀ (connection_failed, w) e s = elim s [ ]
  Sends-Rendered w₀ (src_closed, w) e s = elim s [ ]
  Sends-Rendered w₀ (deny, w) e s = elim s [ ]

  module _ (posix : IsPosix streams os) where
    -- For a message whose buffers are to be written from their starts to their ends, a writer that
    -- was reset, and an open connection, with enough fuel: `write_header` returns. With COMPLETE it
    -- has sent the start line and every field, as they stand in the buffers, with the spaces, colons
    -- and line ends between, and otherwise a part of that from its front; `get_const_buffers` gives
    -- the same bytes, joined.
    pub write_header-Rendered :
        (fuel : ℕ) (wr : Writer) (m : MessageBuffer) (dest : Connection) (s : S)
        → IsWriter wr
        → IsWholeMessage m
        → IsOpen s dest.fd
        → length (render m) + interrupts s < fuel
        → 4 * m.current_num_fields + 7 < fuel
        → Returns (Rendered (started wr m dest s)) (write_header os fuel (started wr m dest s))
          × Returns (λ bs. join bs ≡ render m) (get_const_buffers m)
    unfolding reset
    write_header-Rendered fuel wr m dest s t w open_fd enough rounds =
        let e = rest-render wr m dest s w in
        (
          Returns-mono (Sends os streams (started wr m dest s)) (Rendered (started wr m dest s))
              (write_header os fuel (started wr m dest s))
              (λ a. Sends-Rendered (started wr m dest s) a e)
              (write_header-Sends os streams posix fuel (started wr m dest s)
                (reset-IsWriting wr m t w) open_fd (rw e enough) (omega arith)),
          get_const_buffers-whole m w,
        )
