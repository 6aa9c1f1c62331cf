-- ===== src/Http/StartLine/Token.antt =====
-- What `http::parse_token` over a const_buffer finds.
use switchflow.Base.{
  ℕ, ◌+◌, ◌≡◌, refl, ap, true, Option, some, [], ◌∷◌, ◌++◌, arith, ltb, Bytes, Bool-cases, inl, inr,
}
use switchflow.Http.{
  Status, complete, incomplete, write_incomplete, invalid, data_overflow, io_failure, contains,
  is_ctl_char,
}
use switchflow.Http.StartLine.{ParseResult, behind_byte, parse_buffer_token}

-- What `http::parse_token` makes of the bytes: the status, the token, what remains, and the
-- delimiter.
abbrev pub Splits : Bytes → Bytes → Status → Bytes → Bytes → Option ℕ → Type 0
Splits delimiters bytes complete token remaining delimiter =
    (d : ℕ) × (delimiter ≡ some d)
    × (contains delimiters d ≡ true)
    × (bytes ≡ token ++ d ∷ remaining)
Splits delimiters bytes incomplete token remaining delimiter = (token ≡ bytes) × (remaining ≡ [])
Splits delimiters bytes invalid token remaining delimiter = (token ≡ []) × (remaining ≡ [])
Splits delimiters bytes data_overflow token remaining delimiter = (token ≡ []) × (remaining ≡ [])
Splits delimiters bytes _ token remaining delimiter = ⊥

abbrev pub IsSplit : Bytes → Bytes → ParseResult → Type 0
IsSplit delimiters bytes r =
    Splits delimiters bytes r.status r.result_buffer r.remaining_buffer r.delimiter

Splits-behind :
    (delimiters bytes : Bytes) (c : ℕ) (st : Status) (token remaining : Bytes)
    (delimiter : Option ℕ)
    → Splits delimiters bytes st token remaining delimiter
    → IsSplit delimiters (c ∷ bytes) (
        behind_byte c (record {
          status = st;
          result_buffer = token;
          remaining_buffer = remaining;
          delimiter = delimiter;
        }))
Splits-behind ds bytes c complete t r d (x, e, k, s) = (x, e, k, ap (λ q. c ∷ q) s)
Splits-behind ds bytes c incomplete t r d s = (ap (λ q. c ∷ q) s.0, s.1)
Splits-behind ds bytes c invalid t r d s = s
Splits-behind ds bytes c data_overflow t r d s = s
Splits-behind ds bytes c write_incomplete t r d s = s
Splits-behind ds bytes c io_failure t r d s = s

pub parse_buffer_token-IsSplit :
    (bytes : Bytes) (current max : ℕ) (delimiters : Bytes)
    → IsSplit delimiters bytes (parse_buffer_token bytes current max delimiters)
unfolding parse_buffer_token
parse_buffer_token-IsSplit [] current max ds = ground arith
parse_buffer_token-IsSplit (c ∷ cs) current max ds =
    let r = parse_buffer_token cs (current + 1) max ds in
    let behind =
      Splits-behind ds cs c r.status r.result_buffer r.remaining_buffer r.delimiter
        (parse_buffer_token-IsSplit cs (current + 1) max ds) in
    elim (Bool-cases (ltb current max)) [
      | inr e ↦ rw e (refl, refl)
      | inl e ↦ rw e (elim (Bool-cases (contains ds c)) [
        | inl d ↦ rw d (c, refl, d, refl)
        | inr d ↦
            rw d (elim (Bool-cases (is_ctl_char c)) [
              | inl k ↦ rw k (refl, refl)
              | inr k ↦ rw k behind
            ])
      ])
    ]
