-- ===== src/Http/Scan/Take.antt =====
-- `parse_n_length_buffer` and `parse_char` of switchflow/http/http.cpp on a valid
-- buffer, in terms of the bytes that are left to process.
use switchflow.Base.{
  ℕ, zero, suc, ◌+◌, ◌-◌, ◌^◌, ◌≤◌, ◌<◌, ◌≡◌, refl, sym, ap, ◌∙◌, ◌≢◌, inl, inr, some, [], ◌∷◌,
  ◌++◌, arith, ltb, if◌then◌else◌, Bytes, length, get_elem?, take, drop, drop-drop, length-append,
  length-drop, length-take, drop-append, drop-nil, Option-cases, ok, Returns,
}
use switchflow.Util.Buffer.{Buffer, at, set_process_position, working_bytes, unprocessed}
use switchflow.Util.Buffer.Valid.{IsValid}
use switchflow.Http.{Status, complete, incomplete, invalid}
use switchflow.Http.Scan.{parse_n_length_buffer, parse_char, min_u32}

-- The buffer with its process position at `p`.
abbrev pub moved : Buffer → ℕ → Buffer
moved b p = record b { process_position = p }

abbrev pub TakesLength : Buffer → ℕ → ℕ → Status × ℕ × Buffer → Type 0
TakesLength b current max (st, current', b') =
    let n = min_u32 (b.working_length - b.process_position) (max - current) in
    (current' ≡ current + n)
    × (b' ≡ moved b (b.process_position + n))
    × (st ≡ (if ltb current' max then incomplete else complete))

-- On a valid buffer, with no more than `max` bytes counted so far, the call does not abort: it
-- counts and passes over as many of the bytes that are left as `max` allows, and answers COMPLETE
-- if the count has then reached `max`, INCOMPLETE if not.
pub parse_n_length_buffer-TakesLength :
    (b : Buffer) (current max : ℕ)
    → IsValid b
    → current ≤ max
    → max < 2 ^ 32
    → Returns (TakesLength b current max) (parse_n_length_buffer b current max)
unfolding parse_n_length_buffer set_process_position
parse_n_length_buffer-TakesLength b current max v h small = ground arith

head_of_drop :
    (p w : ℕ) (raw : Bytes) {x : ℕ} {r : Bytes}
    → drop p (take w raw) ≡ x ∷ r
    → (p < w) × (get_elem? raw p ≡ some x)
head_of_drop zero zero raw e = cc
head_of_drop (suc p) zero raw e = cc
head_of_drop zero (suc w) [] e = cc
head_of_drop (suc p) (suc w) [] e = cc
head_of_drop zero (suc w) (y ∷ raw) e = (omega arith, cc)
head_of_drop (suc p) (suc w) (y ∷ raw) e = let (h, g) = head_of_drop p w raw e in (omega arith, g)

module _ (b : Buffer) (v : IsValid b) where
  pub length-unprocessed : length (unprocessed b) ≡ b.working_length - b.process_position
  length-unprocessed = elim (Option-cases b.p_buffer) [
    | inl e ↦ rw e (ground (arith, drop-nil {A = ℕ} b.process_position))
    | inr (raw, e) ↦ rw e (
        ground (
          arith,
          length-drop b.process_position (take b.working_length raw),
          length-take b.working_length raw,
        ))
  ]

  pub at-unprocessed :
      (x : ℕ) (r : Bytes)
      → unprocessed b ≡ x ∷ r
      → (b.process_position < b.working_length) × (at b b.process_position ≡ ok x)
  unfolding at
  at-unprocessed x r u = elim (Option-cases b.p_buffer) [
    | inl e ↦ ground (arith, drop-nil {A = ℕ} b.process_position)
    | inr (raw, e) ↦
        let (h, g) = head_of_drop b.process_position b.working_length raw (rw e at u) in
        (h, ground arith)
  ]

  pub length-le-unprocessed :
      (xs r : Bytes) → unprocessed b ≡ xs ++ r → b.process_position + length xs ≤ b.working_length
  length-le-unprocessed xs r u =
      omega (arith, ap length u, length-unprocessed, length-append xs r, v.processed)

  pub unprocessed-moved :
      (xs r : Bytes)
      → unprocessed b ≡ xs ++ r
      → unprocessed (moved b (b.process_position + length xs)) ≡ r
  unprocessed-moved xs r u =
      sym (drop-drop b.process_position (length xs) _ (working_bytes b) refl)
      ∙ ap (drop (length xs)) u
      ∙ drop-append xs r (length xs) refl

  pub moved-IsValid :
      (n : ℕ)
      → b.process_position + n ≤ b.working_length
      → IsValid (moved b (b.process_position + n))
  moved-IsValid n h = record {
    small = v.small;
    fits = v.fits;
    processed = h;
    write_end = v.write_end;
    written = v.written;
  }

  pub parse_char-nil : (c : ℕ) → unprocessed b ≡ [] → parse_char b c ≡ ok (incomplete, b)
  unfolding parse_char
  parse_char-nil c u =
      let e : b.working_length ≤ b.process_position =
        let l : length (unprocessed b) ≡ 0 = ap length u in omega (arith, length-unprocessed) in
      ground arith

  pub parse_char-cons :
      (c : ℕ) (r : Bytes)
      → unprocessed b ≡ c ∷ r
      → parse_char b c ≡ ok (complete, moved b (b.process_position + 1))
  unfolding parse_char set_process_position
  parse_char-cons c r u = ground (arith, at-unprocessed c r u)

  pub parse_char-ne :
      (c d : ℕ) (r : Bytes) → unprocessed b ≡ d ∷ r → d ≢ c → parse_char b c ≡ ok (invalid, b)
  unfolding parse_char set_process_position
  parse_char-ne c d r u ne = ground (arith, at-unprocessed d r u)
