-- ===== src/Http/Body/ContentLength/Stream.antt =====
-- A body that arrives in several buffers, with a receiver that takes everything.
use switchflow.Base.{
  ℕ, zero, suc, ◌+◌, ◌-◌, ◌^◌, ◌≤◌, ◌<◌, ◌≡◌, refl, sym, ap, ◌∙◌, true, false, inl, inr, List, [],
  ◌∷◌, ◌++◌, append_assoc, append-nil, arith, ltb, if◌then◌else◌, Bool-cases, Bytes, length,
  length-append, take, take-nil, take_self, Outcome, ok, ◌>>=◌, loop, Returns, Returns-mono,
}
use switchflow.Util.Buffer.{
  Buffer, unprocessed, set_process_position, set_write_position, set_write_end_position,
}
use switchflow.Util.Buffer.Valid.{IsValid}
use switchflow.Http.{Status, complete, incomplete, is_incomplete}
use switchflow.Http.Scan.{parse_n_length_buffer, min_u32}
use switchflow.Http.Scan.Take.{length-unprocessed}
use switchflow.Http.Body.Receiver.{Collected, collector}
use switchflow.Http.Body.ContentLength.{
  message_body_parse, complete_message_body_forward, Parser, World, round_in,
  parse_content_length_body,
}

-- The bytes of `b` that belong to the body: at most as many as are still missing.
abbrev taken : Parser → Buffer → ℕ
taken p b = min_u32 (b.working_length - b.process_position) (p.content_length - p.current_length)

-- The parser behind a call that found `n` bytes.
abbrev counted : Parser → ℕ → Parser
counted p n = record p {
  current_length = p.current_length + n;
  parse_state =
      if ltb (p.current_length + n) p.content_length
      then message_body_parse
      else complete_message_body_forward;
}

abbrev answer : Parser → ℕ → Status
answer p n = if ltb (p.current_length + n) p.content_length then incomplete else complete

-- All of it behind a call that found `n` bytes.
abbrev behind : World Collected → ℕ → World Collected
behind w n = record {
  parser = counted w.parser n;
  buffer = record (w.buffer) {
    process_position = w.buffer.process_position + n;
    write_end_position = w.buffer.process_position + n;
    write_position = w.buffer.process_position + n;
  };
  receiver = record (w.receiver) { body = w.receiver.body ++ take n (unprocessed w.buffer) };
}

take_once :
    (w : World Collected)
    → IsValid w.buffer
    → w.parser.parse_state ≡ message_body_parse
    → w.parser.current_length < w.parser.content_length
    → w.parser.content_length < 2 ^ 32
    → parse_content_length_body collector w
      ≡ ok (answer w.parser (taken w.parser w.buffer), behind w (taken w.parser w.buffer))
unfolding parse_content_length_body round_in loop parse_n_length_buffer set_process_position
    set_write_position set_write_end_position
take_once w v e h small = ground arith

-- Buffer after buffer, until the parser answers other than INCOMPLETE.
pub feed : World Collected → List Buffer → Outcome (Status × World Collected)
feed w [] = ok (incomplete, w)
feed w (b ∷ bs) = parse_content_length_body collector (record w { buffer = b }) >>= λ a.
    elim (is_incomplete a.0) [ true ↦ feed a.1 bs | false ↦ ok a ]

abbrev pub stream : List Buffer → Bytes
stream [] = []
stream (b ∷ bs) = unprocessed b ++ stream bs

abbrev pub AllValid : List Buffer → Type 0
AllValid [] = Unit
AllValid (b ∷ bs) = IsValid b × AllValid bs

-- The outcome of `feed`: the body so far, and whether it is all.
abbrev pub Fed : World Collected → Bytes → Status × World Collected → Type 0
Fed w bytes (st, w') =
    let missing = w.parser.content_length - w.parser.current_length in
    (w'.receiver.body ≡ w.receiver.body ++ take missing bytes)
    × (st ≡ (if ltb (length bytes) missing then incomplete else complete))

take-append-sub :
    (m k : ℕ) (xs ys : Bytes) → m ≡ length xs + k → take m (xs ++ ys) ≡ xs ++ take k ys
take-append-sub m k [] ys e = ap (λ t. take t ys) (omega arith)
take-append-sub zero k (x ∷ xs) ys e = absurd (omega arith)
take-append-sub (suc m) k (x ∷ xs) ys e = ap (λ t. x ∷ t) (take-append-sub m k xs ys (omega arith))

take-append-le : (m : ℕ) (xs ys : Bytes) → m ≤ length xs → take m (xs ++ ys) ≡ take m xs
take-append-le zero xs ys h = refl
take-append-le (suc m) [] ys h = absurd (omega arith)
take-append-le (suc m) (x ∷ xs) ys h = ap (λ t. x ∷ t) (take-append-le m xs ys (omega arith))

-- The parser in the middle of a body.
abbrev go : World Collected → World Collected
go w = record w { parser = record (w.parser) { parse_state = message_body_parse } }

-- A buffer that is wholly part of the body.
Fed-cons :
    (w w₁ : World Collected) (b : Buffer) (rest : Bytes) (a : Status × World Collected)
    → w₁.parser.content_length ≡ w.parser.content_length
    → w₁.parser.current_length ≡ w.parser.current_length + length (unprocessed b)
    → w₁.receiver.body ≡ w.receiver.body ++ unprocessed b
    → w₁.parser.current_length < w.parser.content_length
    → Fed w₁ rest a
    → Fed w (unprocessed b ++ rest) a
Fed-cons w w₁ b rest (st, w') total current body more (f, g) =
    let missing = w.parser.content_length - w.parser.current_length in
    let missing₁ = w₁.parser.content_length - w₁.parser.current_length in
    let e : missing ≡ length (unprocessed b) + missing₁ = omega arith in
    (
      f
          ∙ ap (λ t. t ++ take missing₁ rest) body
          ∙ append_assoc w.receiver.body (unprocessed b) (take missing₁ rest)
          ∙ ap (λ t. w.receiver.body ++ t)
              (sym (take-append-sub missing missing₁ (unprocessed b) rest e)),
      ground (arith, length-append (unprocessed b) rest),
    )

-- With a valid parser in the middle of a body and valid buffers, each as it was read, the receiver
-- that takes everything is handed the first `content_length` bytes of the stream, less those of
-- earlier calls, in order and nothing else; the answer is COMPLETE as soon as they have arrived,
-- and INCOMPLETE before.
pub feed-Fed :
    (w : World Collected) (bs : List Buffer)
    → AllValid bs
    → w.parser.parse_state ≡ message_body_parse
    → w.parser.current_length < w.parser.content_length
    → w.parser.content_length < 2 ^ 32
    → Returns (Fed w (stream bs)) (feed w bs)
unfolding feed
feed-Fed w [] v e h small = (
  let n : take {A = ℕ} (w.parser.content_length - w.parser.current_length) [] ≡ [] =
        take-nil (w.parser.content_length - w.parser.current_length) in
      rw n (sym (append-nil w.receiver.body)),
  ground arith,
)
feed-Fed w (b ∷ bs) v e h small =
    let len = length-unprocessed b v.0 in
    rw (take_once (record w { buffer = b }) v.0 e h small)
      (elim (Bool-cases
        (ltb (w.parser.current_length + taken w.parser b) w.parser.content_length)) [
          | inl more ↦
              let w₁ = behind (record w { buffer = b }) (taken w.parser b) in
              let n : taken w.parser b ≡ length (unprocessed b) = ground arith in
              rw more (
                Returns-mono (Fed (go w₁) (stream bs)) (Fed w (stream (b ∷ bs))) (feed (go w₁) bs)
                  (λ a f.
                    Fed-cons w (go w₁) b (stream bs) a refl (omega arith)
                      (ap (λ t. w.receiver.body ++ t)
                        (take_self (taken w.parser b) (unprocessed b) n))
                      (ground arith) f)
                  (feed-Fed (go w₁) bs v.1 refl (ground arith) small))
          | inr done ↦
              let n : taken w.parser b ≡ w.parser.content_length - w.parser.current_length =
                ground arith in
              rw done (
                rw n (
                    ap (λ t. w.receiver.body ++ t)
                      (sym (take-append-le _ (unprocessed b) (stream bs) (ground arith)))),
                ground (arith, length-append (unprocessed b) (stream bs)),
              )
        ])
