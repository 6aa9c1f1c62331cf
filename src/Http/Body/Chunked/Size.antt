-- ===== src/Http/Body/Chunked/Size.antt =====
-- The chunk size: what the digits say, without overflow, and that scanning never aborts.
use switchflow.Base.{
  ℕ, zero, suc, ◌+◌, ◌*◌, ◌%◌, ◌-◌, if◌then◌else◌, leb, ◌^◌, ◌≤◌, ◌<◌, ◌≡◌, refl, ap, ◌∙◌, true, [],
  ◌∷◌, ◌++◌, arith, u32, Bytes, length, length-append, length-replicate, replicate, Returns, ok,
}
use native.Mathlib.Nat.{pow-suc}
use switchflow.Util.Buffer.{Buffer, set_process_position, unprocessed}
use switchflow.Util.Buffer.Valid.{IsValid}
use switchflow.Http.{Status, complete, incomplete, cr}
use switchflow.Http.Scan.Take.{moved, length-unprocessed}
use switchflow.Http.Body.Chunked.{
  Parser, create, with_digit, with_space, is_hex, hc2int, size_loop, parse_chunk_size,
}

-- The value of a hexadecimal digit. In ASCII a letter of either case is at its place in the
-- alphabet, from one on, modulo 32.
abbrev pub digit_value : ℕ → ℕ
digit_value c = if leb c b'9' then c - b'0' else c % 32 + 9

-- The number that hexadecimal digits write, behind the number `n`.
abbrev pub hex_value : ℕ → Bytes → ℕ
hex_value n [] = n
hex_value n (d ∷ ds) = hex_value (16 * n + digit_value d) ds

abbrev pub AllHex : Bytes → Type 0
AllHex [] = Unit
AllHex (d ∷ ds) = (is_hex d ≡ true) × AllHex ds

pub hc2int-lt : (c : ℕ) → is_hex c ≡ true → hc2int c < 16
unfolding is_hex hc2int
hc2int-lt c h = ground arith

hc2int-eq-digit_value : (c : ℕ) → is_hex c ≡ true → hc2int c ≡ digit_value c
unfolding is_hex hc2int
hc2int-eq-digit_value c h = ground arith

-- How far the size and its length may be: a digit multiplies by 16.
pub record SizeBound (p : Parser) : Type 0 where
  pub length_le : p.current_chunksize_length ≤ p.max_chunksize_length
  pub max_le : p.max_chunksize_length ≤ 8
  pub size_lt : p.chunksize < 16 ^ p.current_chunksize_length

pow16-le : (n : ℕ) → n ≤ 8 → 16 ^ n ≤ 2 ^ 32
pow16-le zero h = omega arith
pow16-le (suc zero) h = omega arith
pow16-le (suc (suc zero)) h = omega arith
pow16-le (suc (suc (suc zero))) h = omega arith
pow16-le (suc (suc (suc (suc zero)))) h = omega arith
pow16-le (suc (suc (suc (suc (suc zero))))) h = omega arith
pow16-le (suc (suc (suc (suc (suc (suc zero)))))) h = omega arith
pow16-le (suc (suc (suc (suc (suc (suc (suc zero))))))) h = omega arith
pow16-le (suc (suc (suc (suc (suc (suc (suc (suc zero)))))))) h = omega arith
pow16-le (suc (suc (suc (suc (suc (suc (suc (suc (suc n))))))))) h = absurd (omega arith)

pub size_small : (p : Parser) → SizeBound p → p.chunksize < 2 ^ 32
size_small p s =
    omega
      (arith, s.size_lt, pow16-le p.current_chunksize_length (omega (arith, s.length_le, s.max_le)))

-- A digit that is let in does not wrap the size around.
pub digit_bound :
    (n len d : ℕ)
    → n < 16 ^ len
    → len < 8
    → d < 16
    → (16 * n + d < 16 ^ (len + 1)) × (u32 (16 * n + d) ≡ 16 * n + d)
digit_bound n len d h l k =
    let one : len + 1 ≡ suc len = omega arith in
    let e : 16 ^ (len + 1) ≡ 16 ^ len * 16 = ap (λ k. 16 ^ k) one ∙ pow-suc 16 len in
    let le : 16 ^ (len + 1) ≤ 2 ^ 32 = pow16-le (len + 1) (omega arith) in
    let lt : 16 * n + d < 16 ^ (len + 1) = omega arith in (lt, omega arith)

-- What `parse_chunk_size` may do to the buffer, and to the parser: to the size, its length and the
-- count of spaces.
pub record SizeScanned (p : Parser) (b : Buffer) (st : Status) (p' : Parser) (b' : Buffer)
    : Type 0 where
  pub buffer_moved : b' ≡ moved b b'.process_position
  pub forwards : b.process_position ≤ b'.process_position
  pub in_buffer : b'.process_position ≤ b.working_length
  pub strictly : st ≡ complete → b.process_position < b'.process_position
  pub read_all : st ≡ incomplete → b'.process_position ≡ b.working_length
  pub bound : SizeBound p'
  pub same_state : p'.state ≡ p.state
  pub same_max : p'.max_chunksize_length ≡ p.max_chunksize_length
  pub same_count : p'.current_chunk_length ≡ p.current_chunk_length

abbrev pub Scanned : Parser → Buffer → Status × Parser × Buffer → Type 0
Scanned p b (st, p', b') = SizeScanned p b st p' b'

size_loop-Scanned :
    (bytes : Bytes) (p : Parser) (b : Buffer)
    → SizeBound p
    → b.process_position + length bytes ≡ b.working_length
    → Returns (Scanned p b) (size_loop bytes p b)
unfolding size_loop set_process_position
size_loop-Scanned [] p b v h = ground arith
size_loop-Scanned (ch ∷ cs) p b v h = ground (
  arith,
  size_loop-Scanned cs (with_digit p ch) (moved b (b.process_position + 1)),
  size_loop-Scanned cs (with_space p) (moved b (b.process_position + 1)),
  digit_bound p.chunksize p.current_chunksize_length (hc2int ch),
  hc2int-lt ch,
)

-- On a valid buffer, and for a size within its bound of digits, at most eight, scanning it does not
-- abort: it moves the process position alone, and forwards, by a byte at least if it answers
-- COMPLETE, and to the end of the buffer if it answers INCOMPLETE; the size stays within that
-- bound, and so below 2 ^ 32 without wrapping around.
pub parse_chunk_size-Scanned :
    (p : Parser) (b : Buffer)
    → IsValid b
    → SizeBound p
    → Returns (Scanned p b) (parse_chunk_size p b)
unfolding parse_chunk_size
parse_chunk_size-Scanned p b v s =
    size_loop-Scanned (unprocessed b) p b s (omega (arith, length-unprocessed b v, v.processed))

-- Behind digits.
abbrev read_digits : Parser → Bytes → Parser
read_digits p ds = record p {
  chunksize = hex_value p.chunksize ds;
  current_chunksize_length = p.current_chunksize_length + length ds;
}

size_loop-digits :
    (ds t : Bytes) (p : Parser) (b : Buffer)
    → AllHex ds
    → SizeBound p
    → p.num_chunk_size_spaces ≡ 0
    → p.current_chunksize_length + length ds ≤ p.max_chunksize_length
    → b.process_position + length ds ≤ b.working_length
    → size_loop (ds ++ t) p b
      ≡ size_loop t (read_digits p ds) (moved b (b.process_position + length ds))
unfolding size_loop set_process_position
size_loop-digits [] t p b a s z l h = ground arith
size_loop-digits (d ∷ ds) t p b a s z l h =
    let bound =
      digit_bound p.chunksize p.current_chunksize_length (hc2int d) s.size_lt
        (omega (arith, s.max_le)) (hc2int-lt d a.0) in
    ground (
      arith,
      bound,
      hc2int-eq-digit_value d a.0,
      size_loop-digits ds t (with_digit p d) (moved b (b.process_position + 1)) a.1,
    )

abbrev pub spaces : ℕ → Bytes
spaces n = replicate n b' '

abbrev read_spaces : Parser → ℕ → Parser
read_spaces p n = record p { num_chunk_size_spaces = p.num_chunk_size_spaces + n }

size_loop-spaces :
    (n : ℕ) (t : Bytes) (p : Parser) (b : Buffer)
    → p.num_chunk_size_spaces + n ≤ 256
    → b.process_position + n ≤ b.working_length
    → size_loop (spaces n ++ t) p b
      ≡ size_loop t (read_spaces p n) (moved b (b.process_position + n))
unfolding size_loop set_process_position is_hex
size_loop-spaces zero t p b s h = ground arith
size_loop-spaces (suc n) t p b s h =
    ground (arith, size_loop-spaces n t (with_space p) (moved b (b.process_position + 1)))

size_loop-cr :
    (rest : Bytes) (p : Parser) (b : Buffer)
    → b.process_position + 1 ≤ b.working_length
    → size_loop (cr ∷ rest) p b
      ≡ ok (complete, record p { num_chunk_size_spaces = 0 }, moved b (b.process_position + 1))
unfolding size_loop set_process_position is_hex
size_loop-cr rest p b h = ground arith

-- A line of at most eight hexadecimal digits, then at most 256 spaces, then CR, is read whole: the
-- answer is COMPLETE behind the CR, and the chunk size is the number that the digits write, which
-- thirty-two bits always hold.
pub parse_chunk_size-digits :
    (ds : Bytes) (n : ℕ) (rest : Bytes) (b : Buffer)
    → IsValid b
    → AllHex ds
    → length ds ≤ 8
    → n ≤ 256
    → unprocessed b ≡ ds ++ (spaces n ++ (cr ∷ rest))
    → parse_chunk_size (create 8) b
      ≡ ok (
        complete,
        record (create 8) { chunksize = hex_value 0 ds; current_chunksize_length = length ds },
        moved b (b.process_position + length ds + n + 1),
      )
unfolding parse_chunk_size create
parse_chunk_size-digits ds n rest b v a l s u =
    let len : b.process_position + (length ds + (n + suc (length rest))) ≤ b.working_length =
      omega (
        arith,
        ap length u,
        length-unprocessed b v,
        v.processed,
        length-append ds (spaces n ++ (cr ∷ rest)),
        length-append (spaces n) (cr ∷ rest),
        length-replicate {A = ℕ} n b' ',
      ) in
    rw u (
      size_loop-digits ds (spaces n ++ (cr ∷ rest)) (create 8) b a
        (record { length_le = omega arith; max_le = omega arith; size_lt = omega arith }) refl
        (omega arith) (omega arith)
      ∙ size_loop-spaces n (cr ∷ rest) _ _ (omega arith) (omega arith)
      ∙ size_loop-cr rest _ _ (omega arith)
      ∙ ground arith)
