-- ===== src/Http/Body/Chunked/Decode.antt =====
-- Decoding: a chunked body that stands whole in the buffer is handed on chunk by chunk.
use switchflow.Base.{
  ℕ, ◌+◌, ◌^◌, ◌≤◌, ◌<◌, ◌≡◌, refl, sym, ◌∙◌, [], ◌∷◌, ◌++◌, append_assoc, append-nil, arith, Bytes,
  length, ok, Runs, stops, goes_on, finish, loop-eq-ok,
}
use switchflow.Util.Buffer.{Buffer, of_length, unprocessed}
use switchflow.Util.Buffer.Valid.{IsValid}
use switchflow.Http.{complete, cr, lf}
use switchflow.Http.Body.Receiver.{Collected, collector, collector-WritesOnly}
use switchflow.Http.Body.Chunked.{forward_trailer_crlf, create, World, round_in, round, parse_body}
use switchflow.Http.Body.Chunked.Size.{AllHex, hex_value, spaces}
use switchflow.Http.Body.Chunked.Rounds.{
  world, sized, reads_size, reads_lf, forwards_size, forwards_zero, reads_trailer_cr,
  reads_trailer_lf, counts_chunk, hands_chunk, ends_chunk,
}
use switchflow.Http.Body.Chunked.Total.{IsReady, Delivers, parse_body-Delivers}

-- A size line: at most eight hexadecimal digits and at most 256 spaces, then CR LF.
pub record SizeLine (size : ℕ) (behind input : Bytes) : Type 0 where
  pub digits : Bytes
  pub blanks : ℕ
  pub all_hex : AllHex digits
  pub few_digits : length digits ≤ 8
  pub few_blanks : blanks ≤ 256
  pub writes_size : hex_value 0 digits ≡ size
  pub input_is : input ≡ digits ++ (spaces blanks ++ (cr ∷ lf ∷ behind))

-- `Coded rest input body`: the input is the chunked coding of the body, with `rest` behind it.
pub data Coded (rest : Bytes) : Bytes → Bytes → Type 0 where
  last_chunk : {input : Bytes} → SizeLine 0 (cr ∷ lf ∷ rest) input → Coded rest input []
  chunk_of :
      {input more body : Bytes} (chunk : Bytes)
      → 0 < length chunk
      → length chunk < 2 ^ 31
      → SizeLine (length chunk) (chunk ++ (cr ∷ lf ∷ more)) input
      → Coded rest more body
      → Coded rest input (chunk ++ body)

-- The rounds lead to COMPLETE, with the body handed on and `rest` left.
record Decodes (b : Buffer) (c : Collected) (rest body : Bytes) : Type 0 where
  last : World Collected
  runs : Runs (round collector) (complete, last) (world (create 8) b c)
  body_is : last.receiver.body ≡ c.body ++ body
  left_is : unprocessed last.buffer ≡ rest

ends_body :
    (ds : Bytes) (b : Buffer) (c : Collected)
    → hex_value 0 ds ≡ 0
    → (last : World Collected) × (round collector (world (sized ds forward_trailer_crlf 0) b c)
        ≡ ok (finish (complete, last)))
      × (last.receiver.body ≡ c.body)
      × (last.buffer ≡ b)
unfolding round_in of_length
ends_body ds b c h = (
  world (sized ds forward_trailer_crlf 0) b
      (record c { trailers = c.trailers + 1; body = c.body ++ [] }),
  ground arith,
  append-nil c.body,
  refl,
)

last-Decodes :
    (b : Buffer) (c : Collected) (rest : Bytes)
    → IsValid b
    → SizeLine 0 (cr ∷ lf ∷ rest) (unprocessed b)
    → Decodes b c rest []
last-Decodes b c rest v l =
    let s₁ = reads_size b c v l.digits l.blanks _ l.all_hex l.few_digits l.few_blanks l.input_is in
    let s₂ = reads_lf s₁.next c s₁.valid l.digits _ s₁.left_is in
    let s₃ = forwards_zero s₂.next _ s₂.valid l.digits _ l.writes_size s₂.left_is in
    let s₄ = reads_trailer_cr s₃.next _ s₃.valid l.digits _ 0 s₃.left_is in
    let s₅ = reads_trailer_lf s₄.next _ s₄.valid l.digits _ 0 s₄.left_is in
    let (last, e, body, same) = ends_body l.digits s₅.next _ l.writes_size in
    record {
      last = last;
      runs =
          goes_on s₁.runs
            (goes_on s₂.runs (goes_on s₃.runs (goes_on s₄.runs (goes_on s₅.runs (stops e)))));
      body_is = body ∙ sym (append-nil c.body);
      left_is = rw same s₅.left_is;
    }

chunk-Decodes :
    (b : Buffer) (c : Collected) (rest chunk more body : Bytes)
    → IsValid b
    → 0 < length chunk
    → length chunk < 2 ^ 31
    → SizeLine (length chunk) (chunk ++ (cr ∷ lf ∷ more)) (unprocessed b)
    → ((b' : Buffer) (c' : Collected)
        → IsValid b'
        → unprocessed b' ≡ more
        → Decodes b' c' rest body)
    → Decodes b c rest (chunk ++ body)
chunk-Decodes b c rest chunk more body v pos small l then_more =
    let n = length chunk in
    let big : 0 < hex_value 0 l.digits = omega (arith, l.writes_size) in
    let s₁ = reads_size b c v l.digits l.blanks _ l.all_hex l.few_digits l.few_blanks l.input_is in
    let s₂ = reads_lf s₁.next c s₁.valid l.digits _ s₁.left_is in
    let s₃ = forwards_size s₂.next _ s₂.valid l.digits _ big s₂.left_is in
    let e₄ = counts_chunk s₃.next _ s₃.valid l.digits chunk _ l.writes_size small s₃.left_is in
    let s₅ = hands_chunk s₃.next _ s₃.valid l.digits chunk _ l.writes_size s₃.left_is in
    let s₆ = reads_trailer_cr s₅.next _ s₅.valid l.digits _ n s₅.left_is in
    let s₇ = reads_trailer_lf s₆.next _ s₆.valid l.digits _ n s₆.left_is in
    let e₈ = ends_chunk s₇.next _ s₇.valid l.digits n big in
    let d = then_more s₇.next _ s₇.valid s₇.left_is in
    record {
      last = d.last;
      runs = goes_on s₁.runs (
          goes_on s₂.runs (
            goes_on s₃.runs (
              goes_on e₄
                (goes_on s₅.runs (goes_on s₆.runs (goes_on s₇.runs (goes_on e₈ d.runs)))))));
      body_is = d.body_is ∙ append_assoc c.body chunk body;
      left_is = d.left_is;
    }

Coded-Decodes :
    {rest input body : Bytes} (b : Buffer) (c : Collected)
    → IsValid b
    → unprocessed b ≡ input
    → Coded rest input body
    → Decodes b c rest body
Coded-Decodes {rest} b c v u (last_chunk l) = last-Decodes b c rest v (rw u l)
Coded-Decodes {rest} b c v u (chunk_of {more} {body} chunk pos small l k) =
    chunk-Decodes b c rest chunk more body v pos small (rw u l)
      (λ b' c' v' u'. Coded-Decodes b' c' v' u' k)

created-IsReady : (b : Buffer) (c : Collected) → IsValid b → IsReady (world (create 8) b c)
unfolding create
created-IsReady b c v = record {
  buffer_valid = v;
  bound = record { length_le = omega arith; max_le = omega arith; size_lt = omega arith };
  counted = refl;
}

-- From a fresh parser, and a valid buffer whose unprocessed bytes are the chunked coding of `body`
-- and then `rest`, the call answers COMPLETE; a receiver that takes everything has then been handed
-- exactly `body`, in order, and exactly `rest` is left to process.
pub parse_body-Coded :
    {rest body : Bytes} (b : Buffer) (c : Collected)
    → IsValid b
    → Coded rest (unprocessed b) body
    → (w : World Collected) × (parse_body collector
          (record { parser = create 8; buffer = b; receiver = c })
        ≡ ok (complete, w))
      × (w.receiver.body ≡ c.body ++ body)
      × (unprocessed w.buffer ≡ rest)
unfolding parse_body
parse_body-Coded b c v k =
    let d = Coded-Decodes b c v refl k in
    let w₀ = world (create 8) b c in
    let total = parse_body-Delivers collector collector-WritesOnly w₀ (created-IsReady b c v) in
    (d.last, loop-eq-ok (round collector) (Delivers w₀) _ total d.runs, d.body_is, d.left_is)
