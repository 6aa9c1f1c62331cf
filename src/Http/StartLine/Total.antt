-- ===== src/Http/StartLine/Total.antt =====
-- Every call of `start_line_parser::parse_start_line` returns, and what it leaves of the buffer.
use switchflow.Base.{
  if◌then◌else◌, ◌==◌, ==_iff, ℕ, ◌+◌, ◌<◌, ◌≡◌, refl, sym, ap, ◌∙◌, Bool, false, Option, [], ◌∷◌,
  ◌++◌, append_assoc, append-nil, arith, Bytes, length, length-append, Bool-cases, inl, inr,
  Outcome, ok, fault, ◌>>=◌, Turn, again, finish, Returns, Keeps, loop-Returns,
}
use switchflow.Http.{
  Status, is_complete, complete, incomplete, write_incomplete, invalid, data_overflow, io_failure,
  contains, lf, space_delimiters, space_endline_delimiters, endline_delimiters,
}
use switchflow.Http.StartLine.{
  parse_buffer_token, parse_buffer_char, StartLineReceiver, ParseOption, strict, loose, State,
  state_token_1, state_token_2, state_token_3, state_lf, Parser, next_state, get_token_delimiters,
  World, set_token, token_parsed, parse_token, round_in, round, parse_start_line,
}
use switchflow.Http.StartLine.Token.{Splits, parse_buffer_token-IsSplit}

-- From `b₀` to `b` some bytes were read.
pub record Follows (b₀ b : Bytes) : Type 0 where
  pub read : Bytes
  pub splits : b₀ ≡ read ++ b

Follows-more :
    (b₀ b token rest : Bytes) (d : ℕ) → Follows b₀ b → b ≡ token ++ d ∷ rest → Follows b₀ rest
Follows-more b₀ b token rest d f e = record {
  read = f.read ++ (token ++ d ∷ []);
  splits =
      f.splits
      ∙ ap (λ t. f.read ++ t) (e ∙ sym (append_assoc token (d ∷ []) rest))
      ∙ sym (append_assoc f.read (token ++ d ∷ []) rest);
}

shorter : (token rest : Bytes) (d : ℕ) (b : Bytes) → b ≡ token ++ d ∷ rest → length rest < length b
shorter token rest d b e = omega (arith, ap length e, length-append token (d ∷ rest))

-- What a call answers on the bytes `b₀`, and what it leaves of them.
abbrev pub Answers : {R : Type 0} → Bytes → Status × World R → Type 0
Answers b₀ (complete, w) = (line : Bytes) × (b₀ ≡ line ++ lf ∷ w.buffer)
Answers b₀ (incomplete, w) = w.buffer ≡ []
Answers b₀ (invalid, w) = Follows b₀ w.buffer
Answers b₀ (data_overflow, w) = w.buffer ≡ []
Answers b₀ (_, w) = ⊥

-- One token: on COMPLETE the parser goes on behind it, with less of the buffer.
abbrev Parses : {R : Type 0} → Bytes → Bytes → Outcome (Status × World R) → Type 0
Parses b₀ b (ok (complete, w)) = Follows b₀ w.buffer × (length w.buffer < length b)
Parses b₀ b (ok (incomplete, w)) = w.buffer ≡ []
Parses b₀ b (ok (invalid, w)) = w.buffer ≡ []
Parses b₀ b (ok (data_overflow, w)) = w.buffer ≡ []
Parses b₀ b _ = ⊥

module _ {R : Type 0} (is_overflow : Status → Bool) (receiver : StartLineReceiver R)
    (not_complete : is_overflow complete ≡ false)
    (not_incomplete : is_overflow incomplete ≡ false) where
  token_parsed-Parses :
      (s : State) (ds : Bytes) (option : ParseOption) (b₀ : Bytes) (w : World R) (st : Status)
      (token remaining : Bytes) (delimiter : Option ℕ)
      → w.parser.state ≡ s
      → get_token_delimiters s option ≡ ok ds
      → Follows b₀ w.buffer
      → Splits ds w.buffer st token remaining delimiter
      → Parses b₀ w.buffer (
          token_parsed is_overflow receiver
            (record {
              status = st;
              result_buffer = token;
              remaining_buffer = remaining;
              delimiter = delimiter;
            })
            w)
  unfolding token_parsed set_token next_state get_token_delimiters contains
  token_parsed-Parses state_lf ds option b₀ w st token remaining delimiter e g f x = cc
  token_parsed-Parses state_token_1 ds option b₀ w complete token remaining delimiter e g f
        (d, x, k, y) =
      let more = Follows-more b₀ w.buffer token remaining d f y in
      let less = shorter token remaining d w.buffer y in ground arith
  token_parsed-Parses state_token_2 ds strict b₀ w complete token remaining delimiter e g f
        (d, x, k, y) =
      let more = Follows-more b₀ w.buffer token remaining d f y in
      let less = shorter token remaining d w.buffer y in ground arith
  token_parsed-Parses state_token_2 ds loose b₀ w complete token remaining delimiter e g f
        (d, x, k, y) =
      let more = Follows-more b₀ w.buffer token remaining d f y in
      let less = shorter token remaining d w.buffer y in ground arith
  token_parsed-Parses state_token_3 ds option b₀ w complete token remaining delimiter e g f
        (d, x, k, y) =
      let more = Follows-more b₀ w.buffer token remaining d f y in
      let less = shorter token remaining d w.buffer y in ground arith
  token_parsed-Parses state_token_1 ds option b₀ w st token remaining delimiter e g f x =
      ground arith
  token_parsed-Parses state_token_2 ds option b₀ w st token remaining delimiter e g f x =
      ground arith
  token_parsed-Parses state_token_3 ds option b₀ w st token remaining delimiter e g f x =
      ground arith

  parse_token-Parses :
      (ds : Bytes) (option : ParseOption) (b₀ : Bytes) (w : World R) (max : ℕ)
      → get_token_delimiters w.parser.state option ≡ ok ds
      → Follows b₀ w.buffer
      → Parses b₀ w.buffer (parse_token is_overflow receiver option max w)
  unfolding parse_token
  parse_token-Parses ds option b₀ w max g f =
      let r = parse_buffer_token w.buffer w.parser.current_length max ds in
      rw g (
        token_parsed-Parses w.parser.state ds option b₀ w r.status r.result_buffer
          r.remaining_buffer r.delimiter refl g f
          (parse_buffer_token-IsSplit w.buffer w.parser.current_length max ds))

  abbrev KeepsRound : Bytes → Bytes → Outcome (Turn (World R) (Status × World R)) → Type 0
  KeepsRound b₀ b = Keeps (λ u. Follows b₀ u.buffer) (Answers b₀) (λ u. length u.buffer) (length b)

  parsed-KeepsRound :
      (b₀ b : Bytes) (o : Outcome (Status × World R))
      → Parses b₀ b o
      → KeepsRound b₀ b
          (o >>= λ (st, w'). ok (if is_complete st then again w' else finish (st, w')))
  parsed-KeepsRound b₀ b (ok (complete, w)) p = p
  parsed-KeepsRound b₀ b (ok (incomplete, w)) p = p
  parsed-KeepsRound b₀ b (ok (invalid, w)) p = record {
    read = b₀;
    splits = rw p (sym (append-nil b₀));
  }
  parsed-KeepsRound b₀ b (ok (data_overflow, w)) p = p
  parsed-KeepsRound b₀ b (ok (write_incomplete, w)) p = absurd p
  parsed-KeepsRound b₀ b (ok (io_failure, w)) p = absurd p
  parsed-KeepsRound b₀ b (fault e) p = absurd p

  lf-Answers :
      (b₀ b : Bytes)
      → Follows b₀ b
      → (p : Parser) (r : R)
      → let (st, b') = parse_buffer_char b lf in
        Answers b₀ (st, record { parser = p; buffer = b'; receiver = r })
  unfolding parse_buffer_char
  lf-Answers b₀ [] f p r = refl
  lf-Answers b₀ (c ∷ cs) f p r = elim (Bool-cases (c == lf)) [
    | inl e ↦ rw e (f.read, f.splits ∙ ap (λ x. f.read ++ x ∷ cs) ((==_iff c lf).0 e))
    | inr e ↦ rw e f
  ]

  round_in-KeepsRound :
      (s : State) (option : ParseOption) (b₀ : Bytes) (w : World R)
      → w.parser.state ≡ s
      → Follows b₀ w.buffer
      → KeepsRound b₀ w.buffer (round_in is_overflow receiver s option w)
  unfolding round_in get_token_delimiters
  round_in-KeepsRound state_lf option b₀ w e f = lf-Answers b₀ w.buffer f w.parser w.receiver
  round_in-KeepsRound state_token_1 option b₀ w e f =
      parsed-KeepsRound b₀ w.buffer _ (
        parse_token-Parses space_delimiters option b₀ w w.parser.token3_max_length (ground arith) f)
  round_in-KeepsRound state_token_2 strict b₀ w e f =
      parsed-KeepsRound b₀ w.buffer _ (
        parse_token-Parses space_delimiters strict b₀ w w.parser.token3_max_length (ground arith) f)
  round_in-KeepsRound state_token_2 loose b₀ w e f = parsed-KeepsRound b₀ w.buffer _ (
      parse_token-Parses space_endline_delimiters loose b₀ w w.parser.token3_max_length
        (ground arith) f)
  round_in-KeepsRound state_token_3 option b₀ w e f = parsed-KeepsRound b₀ w.buffer _ (
      parse_token-Parses endline_delimiters option b₀ w w.parser.token3_max_length (ground arith) f)

  round-KeepsRound :
      (option : ParseOption) (b₀ : Bytes) (p : Parser) (b : Bytes) (r : R)
      → Follows b₀ b
      → KeepsRound b₀ b
          (round is_overflow receiver option (record { parser = p; buffer = b; receiver = r }))
  round-KeepsRound option b₀ p [] r f = refl
  round-KeepsRound option b₀ p (c ∷ cs) r f =
      round_in-KeepsRound p.state option b₀ (record { parser = p; buffer = c ∷ cs; receiver = r })
        refl f

  -- If `OVERFLOW` is neither COMPLETE nor INCOMPLETE, then a call neither aborts nor runs on,
  -- whatever statuses the receiver answers. COMPLETE means that a part of the buffer up to a line
  -- feed was read, and what is behind it is left; INCOMPLETE and DATAOVERFLOW that nothing is left;
  -- INVALID that an end of the buffer is left. It answers no other status.
  pub parse_start_line-Answers :
      (option : ParseOption) (w : World R)
      → Returns (Answers w.buffer) (parse_start_line is_overflow receiver option w)
  unfolding parse_start_line
  parse_start_line-Answers option w =
      loop-Returns (λ u. Follows w.buffer u.buffer) (Answers w.buffer) (λ u. length u.buffer)
        (round is_overflow receiver option)
        (λ u f. round-KeepsRound option w.buffer u.parser u.buffer u.receiver f)
        (length w.buffer + 1) w (omega arith) (record { read = []; splits = refl })
