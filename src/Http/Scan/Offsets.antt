-- ===== src/Http/Scan/Offsets.antt =====
-- Where the scanning functions of switchflow/http/http.cpp stop, for a valid buffer and an offset in
-- it.
use switchflow.Base.{
  ℕ, ◌+◌, ◌-◌, ◌≤◌, ◌<◌, ◌≡◌, refl, sym, ap, ◌∙◌, inl, inr, true, Option, Option-cases, none, some,
  [], ◌∷◌, arith, ltb, leb, Bool-cases, Bytes, length, length-append, drop, drop-drop, drop-append,
  ok, Returns, get_elem?-drop,
}
use switchflow.Util.Buffer.{Buffer, at, working_bytes}
use switchflow.Util.Buffer.Valid.{IsValid}
use switchflow.Http.{
  Status, complete, incomplete, write_incomplete, invalid, data_overflow, io_failure, contains,
  space_delimiters,
}
use switchflow.Http.Scan.{scan_equal, parse_token, parse_equal, parse_char_at}
use switchflow.Http.Scan.Take.{moved, at-unprocessed, length-unprocessed}
use switchflow.Http.Scan.Token.{Finds, parse_token-Finds}

-- The end offset and the new length of a token, by status; `c` is the delimiter.
abbrev pub TokenEnds : Buffer → ℕ → ℕ → Bytes → Status → Option ℕ → ℕ → Type 0
TokenEnds b begin max delimiters complete end current =
    (e c : ℕ) × (end ≡ some e)
    × (begin < e)
    × (e ≤ b.working_length)
    × (at b (e - 1) ≡ ok c)
    × (contains delimiters c ≡ true)
    × (current ≤ max)
TokenEnds b begin max delimiters incomplete end current =
    (end ≡ some b.working_length) × (current ≤ max)
TokenEnds b begin max delimiters invalid end current = (end ≡ none) × (current ≤ max)
TokenEnds b begin max delimiters data_overflow end current = (end ≡ none) × (current ≤ max)
TokenEnds b begin max delimiters _ end current = ⊥

module _ (b : Buffer) (v : IsValid b) where
  moved_to-IsValid : (q : ℕ) → q ≤ b.working_length → IsValid (moved b q)
  moved_to-IsValid q h = record {
    small = v.small;
    fits = v.fits;
    processed = h;
    write_end = v.write_end;
    written = v.written;
  }

  pub length-drop_working :
      (q : ℕ) → q ≤ b.working_length → length (drop q (working_bytes b)) ≡ b.working_length - q
  length-drop_working q h = length-unprocessed (moved b q) (moved_to-IsValid q h)

  pub at-drop :
      (q c : ℕ) (r : Bytes)
      → q ≤ b.working_length
      → drop q (working_bytes b) ≡ c ∷ r
      → (q < b.working_length) × (at b q ≡ ok c)
  unfolding at
  at-drop q c r h u = at-unprocessed (moved b q) (moved_to-IsValid q h) c r u

  Finds-TokenEnds :
      (max : ℕ) (delimiters : Bytes) (begin current : ℕ) (st : Status) (end : Option ℕ)
      (current' : ℕ)
      → begin ≤ b.working_length
      → Finds max delimiters (drop begin (working_bytes b)) begin current st end current'
      → TokenEnds b begin max delimiters st end current'
  Finds-TokenEnds max ds begin current complete end current' h (c, s, d, e, l, m) =
      let q = begin + length s.before in
      let u : drop q (working_bytes b) ≡ c ∷ s.behind =
        sym (drop-drop begin (length s.before) q (working_bytes b) refl)
        ∙ ap (drop (length s.before)) s.splits
        ∙ drop-append s.before (c ∷ s.behind) (length s.before) refl in
      let room : q ≤ b.working_length = omega (
        arith,
        ap length s.splits,
        length-drop_working begin h,
        length-append s.before (c ∷ s.behind),
      ) in
      let (lt, a) = at-drop q c s.behind room u in
      let back : q + 1 - 1 ≡ q = omega arith in
      (q + 1, c, e, omega arith, omega arith, rw back a, d, omega arith)
  Finds-TokenEnds max ds begin current incomplete end current' h (p, e, l, m) =
      (e ∙ ap some (omega (arith, length-drop_working begin h)), omega arith)
  Finds-TokenEnds max ds begin current invalid end current' h (c, s, d, k, e, l, m) =
      (e, omega arith)
  Finds-TokenEnds max ds begin current data_overflow end current' h (e, m, l) = (e, omega arith)
  Finds-TokenEnds max ds begin current write_incomplete end current' h f = f
  Finds-TokenEnds max ds begin current io_failure end current' h f = f

  pub parse_token-TokenEnds :
      (begin current max : ℕ) (delimiters : Bytes)
      → begin ≤ b.working_length
      → current ≤ max
      → let s = parse_token b begin current max delimiters in
        TokenEnds b begin max delimiters s.status s.end s.current_length
  parse_token-TokenEnds begin current max ds h c =
      Finds-TokenEnds max ds begin current _ _ _ h (parse_token-Finds b begin current max ds c)

-- The same for `parse_equal`, which may stop where it begins.
abbrev pub EqualEnds : ℕ → ℕ → ℕ → Status → Option ℕ → ℕ → Type 0
EqualEnds working begin max complete end current =
    (e : ℕ) × (end ≡ some e) × (begin ≤ e) × (e ≤ working) × (current ≤ max)
EqualEnds working begin max incomplete end current = (end ≡ some working) × (current ≤ max)
EqualEnds working begin max data_overflow end current = (end ≡ none) × (current ≤ max)
EqualEnds working begin max _ end current = ⊥

EqualEnds-back :
    (working i max : ℕ) (st : Status) (end : Option ℕ) (current : ℕ)
    → EqualEnds working (i + 1) max st end current
    → EqualEnds working i max st end current
EqualEnds-back working i max complete end current (e, p, q, r, s) = (e, p, omega arith, r, s)
EqualEnds-back working i max incomplete end current f = f
EqualEnds-back working i max data_overflow end current f = f
EqualEnds-back working i max invalid end current f = f
EqualEnds-back working i max write_incomplete end current f = f
EqualEnds-back working i max io_failure end current f = f

scan_equal-EqualEnds :
    (max : ℕ) (bytes : Bytes) (working i current : ℕ)
    → i + length bytes ≡ working
    → current ≤ max
    → let s = scan_equal max bytes i current in
      EqualEnds working i max s.status s.end s.current_length
unfolding scan_equal
scan_equal-EqualEnds max [] working i current w h = elim (Bool-cases (leb max current)) [
  | inl e ↦ rw e (refl, h)
  | inr e ↦ rw e (ground arith, h)
]
scan_equal-EqualEnds max (c ∷ cs) working i current w h = elim (Bool-cases (ltb current max)) [
  | inr e ↦ rw e (refl, h)
  | inl e ↦ rw e (elim (Bool-cases (contains space_delimiters c)) [
    | inl d ↦ rw d (
        EqualEnds-back working i max _ _ _
          (scan_equal-EqualEnds max cs working (i + 1) (current + 1) (omega arith) (ground arith)))
    | inr d ↦ rw d (i, refl, omega arith, omega arith, h)
  ])
]

module _ (b : Buffer) (v : IsValid b) where
  pub parse_equal-EqualEnds :
      (begin current max : ℕ) (compare_chars : Bytes)
      → begin ≤ b.working_length
      → current ≤ max
      → let s = parse_equal b begin current max compare_chars in
        EqualEnds b.working_length begin max s.status s.end s.current_length
  unfolding parse_equal
  parse_equal-EqualEnds begin current max cs h c =
      scan_equal-EqualEnds max (drop begin (working_bytes b)) b.working_length begin current
        (omega (arith, length-drop_working b v begin h)) c

  -- `parse_char` with offsets: COMPLETE one byte on, which is the one wanted, INCOMPLETE at the end.
  abbrev pub CharEnds : ℕ → ℕ → Status × Option ℕ → Type 0
  CharEnds begin c (complete, end) =
      (end ≡ some (begin + 1)) × (begin < b.working_length) × (at b begin ≡ ok c)
  CharEnds begin c (incomplete, end) = (end ≡ some begin) × (begin ≡ b.working_length)
  CharEnds begin c (invalid, end) = (end ≡ none) × (begin < b.working_length)
  CharEnds begin c _ = ⊥

  pub parse_char_at-CharEnds :
      (begin c : ℕ)
      → begin ≤ b.working_length
      → Returns (CharEnds begin c) (parse_char_at b begin c)
  unfolding parse_char_at at
  parse_char_at-CharEnds begin c h = elim (Option-cases b.p_buffer) [
    | inl e ↦ ground (arith, v.fits)
    | inr (raw, e) ↦ ground (arith, v.fits, get_elem?-drop begin raw)
  ]
