-- ===== src/Util/Buffer/Unwritten.antt =====
-- The bytes of a read_write_buffer that are still to be written, as a write passes over them.
use switchflow.Base.{
  ℕ, ◌+◌, ◌-◌, ◌≤◌, ◌≡◌, some, refl, sym, [], ◌++◌, arith, Bytes, length, take, drop, drop-drop,
  drop-take, take-take, length-take, length-drop, take-split,
}
use switchflow.Util.Buffer.{Buffer, slice, working_bytes}
use switchflow.Util.Buffer.Valid.{IsValid, capacity}

abbrev pub unwritten : Buffer → Bytes
unwritten b = slice b b.write_position b.write_end_position

-- What `non_blocking_write` hands to the system is what is unwritten.
pub slice-raw :
    (L s c : ℕ) (raw : Bytes) → s + c ≤ L → take c (drop s (take L raw)) ≡ take c (drop s raw)
slice-raw L s c raw h =
    rw (drop-take s L raw (omega arith)) (take-take c (L - s) (drop s raw) (omega arith))

-- The first `n` of `c` bytes from `s` on, and the rest.
pub slice-split :
    (s n c k d : ℕ) (xs : Bytes)
    → n ≤ c
    → s + n ≡ k
    → c - n ≡ d
    → take n (take c (drop s xs)) ++ take d (drop k xs) ≡ take c (drop s xs)
slice-split s n c k d xs h e f =
    rw (take-take n c (drop s xs) h)
      (rw (sym (drop-drop s n k xs e)) (rw (sym f) (take-split n c (drop s xs) h)))

pub unwritten-nil : (b : Buffer) → b.write_position ≡ b.write_end_position → unwritten b ≡ []
unwritten-nil b e =
    let none_left : b.write_end_position - b.write_position ≡ 0 = omega arith in rw none_left refl

-- The buffer may be written: it has a vector, and its write position is not behind its write end.
pub record IsOrdered (b : Buffer) : Type 0 where
  pub valid : IsValid b
  pub raw : Bytes
  pub has_raw : b.p_buffer ≡ some raw
  pub ordered : b.write_position ≤ b.write_end_position

pub unwritten-eq-raw :
    (b : Buffer) (o : IsOrdered b)
    → unwritten b ≡ take (b.write_end_position - b.write_position) (drop b.write_position o.raw)
unwritten-eq-raw b o =
    let write_end = o.valid.write_end in
    let ordered = o.ordered in
    rw (o.has_raw) (
      slice-raw b.working_length b.write_position (b.write_end_position - b.write_position) o.raw
        (omega arith))

pub length-unwritten :
    (b : Buffer) → IsOrdered b → length (unwritten b) ≡ b.write_end_position - b.write_position
length-unwritten b o =
    let small : capacity b ≡ length o.raw = rw (o.has_raw) refl in
    let fits = o.valid.fits in
    let write_end = o.valid.write_end in
    rw (unwritten-eq-raw b o) (
      omega (
        arith,
        length-take (b.write_end_position - b.write_position) (drop b.write_position o.raw),
        length-drop b.write_position o.raw,
      ))

-- A buffer that is to be written from its start.
pub unwritten-working :
    (b : Buffer)
    → IsOrdered b
    → b.write_position ≡ 0
    → b.write_end_position ≡ b.working_length
    → unwritten b ≡ working_bytes b
unwritten-working b o e f =
    let all : b.working_length - 0 ≡ b.working_length = omega arith in
    let le : b.working_length ≤ b.working_length = omega arith in
    rw (e, f, all, o.has_raw) (take-take b.working_length b.working_length o.raw le)
