-- ===== src/Http/Scan/Token.antt =====
-- What `parse_token` of switchflow/http/http.cpp finds, and that it may be fed piece by piece.
use switchflow.Base.{
  ℕ, ◌+◌, ◌≤◌, ◌<◌, ◌≡◌, refl, ap, ap₂, ◌∙◌, inl, inr, true, false, Option, none, some, [], ◌∷◌,
  ◌++◌, arith, ltb, leb, lt→ltb, if◌then◌else◌, Bool-cases, Bytes, length, drop,
}
use switchflow.Util.Buffer.{Buffer, working_bytes}
use switchflow.Http.{
  Status, complete, incomplete, write_incomplete, invalid, data_overflow, io_failure, contains,
  is_ctl_char, is_incomplete,
}
use switchflow.Http.Scan.{Scan, end_or, scan_token, parse_token}

-- No byte is a delimiter or a control character.
abbrev pub Plain : Bytes → Bytes → Type 0
Plain delimiters [] = Unit
Plain delimiters (c ∷ cs) =
    (contains delimiters c ≡ false) × (is_ctl_char c ≡ false) × Plain delimiters cs

-- The bytes are a plain part, `c`, and a rest.
pub record Stops (delimiters bytes : Bytes) (c : ℕ) : Type 0 where
  pub before : Bytes
  pub behind : Bytes
  pub splits : bytes ≡ before ++ c ∷ behind
  pub plain : Plain delimiters before

-- What each status says of the bytes from offset `i`, where `current_length` bytes of the token
-- were read before them.
abbrev pub Finds : ℕ → Bytes → Bytes → ℕ → ℕ → Status → Option ℕ → ℕ → Type 0
Finds max delimiters bytes i current complete end current' =
    (c : ℕ) × (s : Stops delimiters bytes c) × (contains delimiters c ≡ true)
    × (end ≡ some (i + length s.before + 1))
    × (current' ≡ current + length s.before)
    × (current' < max)
Finds max delimiters bytes i current incomplete end current' =
    Plain delimiters bytes
    × (end ≡ some (i + length bytes))
    × (current' ≡ current + length bytes)
    × (current' < max)
Finds max delimiters bytes i current invalid end current' =
    (c : ℕ) × (s : Stops delimiters bytes c) × (contains delimiters c ≡ false)
    × (is_ctl_char c ≡ true)
    × (end ≡ none)
    × (current' ≡ current + length s.before)
    × (current' < max)
Finds max delimiters bytes i current data_overflow end current' =
    (end ≡ none) × (current' ≡ max) × (max ≤ current + length bytes)
Finds max delimiters bytes i current _ end current' = ⊥

abbrev Found : ℕ → Bytes → Bytes → ℕ → ℕ → Scan → Type 0
Found max delimiters bytes i current s =
    Finds max delimiters bytes i current s.status s.end s.current_length

abbrev Stops-head : (delimiters : Bytes) (c : ℕ) (cs : Bytes) → Stops delimiters (c ∷ cs) c
Stops-head delimiters c cs = record { before = []; behind = cs; splits = refl; plain = tt }

abbrev Stops-cons :
    {delimiters bytes : Bytes} {c : ℕ} (b : ℕ)
    → contains delimiters b ≡ false
    → is_ctl_char b ≡ false
    → Stops delimiters bytes c
    → Stops delimiters (b ∷ bytes) c
Stops-cons b p q s = record {
  before = b ∷ s.before;
  behind = s.behind;
  splits = ap (λ t. b ∷ t) s.splits;
  plain = (p, q, s.plain);
}

Finds-cons :
    (max : ℕ) (delimiters bytes : Bytes) (b i current : ℕ) (st : Status) (end : Option ℕ)
    (current' : ℕ)
    → contains delimiters b ≡ false
    → is_ctl_char b ≡ false
    → Finds max delimiters bytes (i + 1) (current + 1) st end current'
    → Finds max delimiters (b ∷ bytes) i current st end current'
Finds-cons max ds bytes b i current complete end current' p q (c, s, d, e, l, m) =
    (c, Stops-cons b p q s, d, ground arith, omega arith, m)
Finds-cons max ds bytes b i current incomplete end current' p q f =
    ((p, q, f.0), ground arith, omega arith, f.3)
Finds-cons max ds bytes b i current invalid end current' p q (c, s, d, k, e, l, m) =
    (c, Stops-cons b p q s, d, k, e, omega arith, m)
Finds-cons max ds bytes b i current data_overflow end current' p q f = (f.0, f.1, omega arith)
Finds-cons max ds bytes b i current write_incomplete end current' p q f = f
Finds-cons max ds bytes b i current io_failure end current' p q f = f

scan_token-Found :
    (max : ℕ) (delimiters bytes : Bytes) (i current : ℕ)
    → current ≤ max
    → Found max delimiters bytes i current (scan_token max delimiters bytes i current)
unfolding scan_token
scan_token-Found max ds [] i current h = elim (Bool-cases (leb max current)) [
  | inl e ↦ rw e (refl, ground arith, ground arith)
  | inr e ↦ rw e (tt, ground arith, omega arith, ground arith)
]
scan_token-Found max ds (c ∷ cs) i current h = elim (Bool-cases (ltb current max)) [
  | inr e ↦ rw e (refl, ground arith, ground arith)
  | inl e ↦ rw e (elim (Bool-cases (contains ds c)) [
    | inl d ↦ rw d (c, Stops-head ds c cs, d, ground arith, omega arith, ground arith)
    | inr d ↦ rw d (elim (Bool-cases (is_ctl_char c)) [
      | inl k ↦ rw k (c, Stops-head ds c cs, d, k, refl, omega arith, ground arith)
      | inr k ↦ rw k (
          Finds-cons max ds cs c i current _ _ _ d k
            (scan_token-Found max ds cs (i + 1) (current + 1) (ground arith)))
    ])
  ])
]

-- For a token that has not outgrown its limit, `parse_token` answers COMPLETE at the first
-- delimiter with only plain bytes before it, INVALID at a control character likewise, INCOMPLETE
-- if all bytes are plain, and DATAOVERFLOW only if the limit is reached; the end offset and the
-- new length of the token are those of the place where it stopped.
pub parse_token-Finds :
    (b : Buffer) (begin_offset current max : ℕ) (delimiters : Bytes)
    → current ≤ max
    → let s = parse_token b begin_offset current max delimiters in
      Finds max delimiters
        (drop begin_offset (working_bytes b))
        begin_offset
        current
        s.status
        s.end
        s.current_length
unfolding parse_token
parse_token-Finds b begin_offset current max delimiters h =
    scan_token-Found max delimiters (drop begin_offset (working_bytes b)) begin_offset current h

-- A plain beginning is passed over.
pub scan_token-append :
    (max : ℕ) (delimiters xs ys : Bytes) (i current : ℕ)
    → Plain delimiters xs
    → current + length xs ≤ max
    → scan_token max delimiters (xs ++ ys) i current
      ≡ scan_token max delimiters ys (i + length xs) (current + length xs)
unfolding scan_token
scan_token-append max ds [] ys i current p h =
    ap₂ (scan_token max ds ys) (omega arith) (omega arith)
scan_token-append max ds (x ∷ xs) ys i current p h =
    rw (lt→ltb current max (omega arith), p.0, p.1)
      (scan_token-append max ds xs ys (i + 1) (current + 1) p.2 (omega arith)
        ∙ ap₂ (scan_token max ds ys) (omega arith) (omega arith))

-- Go on with the next piece of the token.
abbrev then_scan : ℕ → Bytes → Bytes → Scan → Scan
then_scan max delimiters ys s =
    if is_incomplete s.status then scan_token max delimiters ys (end_or s 0) s.current_length else s

-- A token may be read in two pieces: scanning both at once gives what scanning the first gives,
-- or, where that is INCOMPLETE, what scanning the second from there gives.
pub scan_token-split :
    (max : ℕ) (delimiters xs ys : Bytes) (i current : ℕ)
    → current ≤ max
    → scan_token max delimiters (xs ++ ys) i current
      ≡ then_scan max delimiters ys (scan_token max delimiters xs i current)
unfolding scan_token
scan_token-split max ds [] [] i current h = ground arith
scan_token-split max ds [] (y ∷ ys) i current h = ground arith
scan_token-split max ds (x ∷ xs) ys i current h =
    ground (arith, scan_token-split max ds xs ys (i + 1) (current + 1))
