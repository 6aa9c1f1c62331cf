-- ===== src/Util/Buffer/Content.antt =====
-- What `append_from_buffer` of switchflow/util/read_write_buffer.cpp does to the bytes of a
-- buffer, and how `fits_in_buffer` tells beforehand.
use switchflow.Base.{
  ℕ, ◌+◌, ◌^◌, ◌≤◌, ◌<◌, ◌≡◌, sym, ◌++◌, append_assoc, Bool, true, false, inl, inr, some, arith,
  Bytes, length, take, drop, length-append, length-take, take-append, leb, Bool-cases, Outcome, ok,
  fault, check_failed,
}
use switchflow.Util.Buffer.{Buffer, overwrite, append_from_buffer, fits_in_buffer, working_bytes}
use switchflow.Util.Buffer.Valid.{IsValid}

pub take-overwrite :
    (raw : Bytes) (i : ℕ) (src : Bytes) (n : ℕ)
    → i ≤ length raw
    → n ≡ i + length src
    → take n (overwrite raw i src) ≡ take i raw ++ src
unfolding overwrite
take-overwrite raw i src n h e =
    rw (sym (append_assoc (take i raw) src (drop (i + length src) raw))) (
      take-append (take i raw ++ src) (drop (i + length src) raw) n
        (omega (arith, length-append (take i raw) src, length-take i raw)))

-- What a call of `fits_in_buffer`, and then of `append_from_buffer`, may answer for `src`.
abbrev pub Appends : Buffer → Bytes → Outcome Bool → Outcome Buffer → Type 0
Appends b src (ok true) (ok b') =
    (working_bytes b' ≡ working_bytes b ++ src)
    × (b'.working_length ≡ b.working_length + length src)
    × (b'.write_end_position ≡ b'.working_length)
    × (b'.process_position ≡ b.process_position)
    × (b'.write_position ≡ b.write_position)
Appends b src (ok false) (fault check_failed) = Unit
Appends b src _ _ = ⊥

-- For a valid buffer that owns its vector, and a length that fits an `int`: if `fits_in_buffer`
-- says so, `append_from_buffer` puts the source behind the bytes that are there and moves the
-- working length and the write end with it, leaving the other two positions; if not, it aborts.
pub append_from_buffer-Appends :
    (b : Buffer) (raw src : Bytes)
    → IsValid b
    → b.p_buffer ≡ some raw
    → b.using_static_buffer ≡ false
    → b.working_length + length src < 2 ^ 31
    → Appends b src (fits_in_buffer b (length src)) (append_from_buffer b src)
unfolding append_from_buffer fits_in_buffer
append_from_buffer-Appends b raw src v e owned small =
    elim (Bool-cases (leb (b.working_length + length src) (length raw))) [
      | inl fits ↦
          ground (arith, take-overwrite raw b.working_length src (b.working_length + length src))
      | inr full ↦ ground arith
    ]
