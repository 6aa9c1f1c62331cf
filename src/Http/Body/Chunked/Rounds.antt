-- ===== src/Http/Body/Chunked/Rounds.antt =====
-- Single rounds of `parse_body` of switchflow/http/chunked_body_parser.cpp over a well-formed body,
-- with a receiver that takes everything.
use switchflow.Base.{
  ℕ, ◌+◌, ◌-◌, ◌^◌, ◌≤◌, ◌<◌, ◌≡◌, sym, ◌∙◌, [], ◌∷◌, ◌++◌, append_assoc, arith, Bytes, length,
  length-append, length-replicate, take, take-append, ok, again,
}
use switchflow.Util.Buffer.{
  Buffer, unprocessed, set_write_position, set_write_end_position, set_process_position,
}
use switchflow.Util.Buffer.Valid.{IsValid}
use switchflow.Http.{cr, lf}
use switchflow.Http.Scan.{parse_n_length_buffer}
use switchflow.Http.Scan.Take.{
  moved, moved-IsValid, length-le-unprocessed, unprocessed-moved, parse_char-cons,
}
use switchflow.Http.Body.Receiver.{Collected, collector}
use switchflow.Http.Body.Chunked.{
  State, parse_chunk, parse_chunksize_lf, forward_chunksize, forward_complete_chunk,
  parse_trailer_cr, parse_trailer_lf, forward_trailer_crlf, Parser, create, reset, World, round_in,
  round,
}
use switchflow.Http.Body.Chunked.Size.{AllHex, hex_value, spaces, parse_chunk_size-digits}

abbrev pub world : Parser → Buffer → Collected → World Collected
world p b c = record { parser = p; buffer = b; receiver = c }

-- One round leads to the parser `p` and the receiver `c`, with `left` unprocessed.
pub record Reaches (w : World Collected) (p : Parser) (left : Bytes) (c : Collected) : Type 0 where
  pub next : Buffer
  pub runs : round collector w ≡ ok (again (world p next c))
  pub valid : IsValid next
  pub left_is : unprocessed next ≡ left

-- The parser behind the digits, in a later state.
abbrev pub sized : Bytes → State → ℕ → Parser
sized digits s count = record {
  state = s;
  chunksize = hex_value 0 digits;
  current_chunksize_length = length digits;
  max_chunksize_length = 8;
  current_chunk_length = count;
  num_chunk_size_spaces = 0;
}

-- Behind a size line, and behind a character of a trailer.
abbrev pub settled : Buffer → ℕ → Buffer
settled b q = record b { process_position = q; write_end_position = q; write_position = q }

abbrev pub counted_chunk : Buffer → ℕ → Buffer
counted_chunk b n = record b {
  process_position = b.process_position + n;
  write_position = b.process_position;
  write_end_position = b.process_position + n;
}

abbrev pub passed : Buffer → ℕ → Buffer
passed b q = record b { process_position = q; write_position = q }

module _ (b : Buffer) (v : IsValid b) (q : ℕ) (h : q ≤ b.working_length) where
  settled-IsValid : IsValid (settled b q)
  settled-IsValid = record {
    small = v.small;
    fits = v.fits;
    processed = h;
    write_end = h;
    written = h;
  }

  passed-IsValid : IsValid (passed b q)
  passed-IsValid = record {
    small = v.small;
    fits = v.fits;
    processed = h;
    write_end = v.write_end;
    written = h;
  }

module _ (b : Buffer) (c : Collected) (v : IsValid b) where
  pub reads_size :
      (ds : Bytes) (n : ℕ) (r : Bytes)
      → AllHex ds
      → length ds ≤ 8
      → n ≤ 256
      → unprocessed b ≡ ds ++ (spaces n ++ (cr ∷ r))
      → Reaches (world (create 8) b c) (sized ds parse_chunksize_lf 0) r c
  unfolding round_in create set_write_position set_write_end_position
  reads_size ds n r a l s u =
      let line = ds ++ (spaces n ++ (cr ∷ [])) in
      let q = b.process_position + length ds + n + 1 in
      let whole : unprocessed b ≡ line ++ r = u ∙ simp append_assoc in
      let len : length line ≡ length ds + n + 1 = omega (
        arith,
        length-append ds (spaces n ++ (cr ∷ [])),
        length-append (spaces n) (cr ∷ []),
        length-replicate {A = ℕ} n b' ',
      ) in
      let end : b.process_position + length line ≡ q = omega arith in
      record {
        next = settled b q;
        runs = ground (
          arith,
          parse_chunk_size-digits ds n r b v a l s u,
          length-le-unprocessed b v line r whole,
        );
        valid = settled-IsValid b v q (omega (arith, length-le-unprocessed b v line r whole));
        left_is = rw (sym end) (unprocessed-moved b v line r whole);
      }

  pub reads_lf :
      (ds r : Bytes)
      → unprocessed b ≡ lf ∷ r
      → Reaches
          (world (sized ds parse_chunksize_lf 0) b c)
          (sized ds forward_chunksize 0)
          r
          (record c { chunk_sizes = c.chunk_sizes ++ (hex_value 0 ds ∷ []) })
  unfolding round_in
  reads_lf ds r u = record {
    next = moved b (b.process_position + 1);
    runs = ground (arith, parse_char-cons b v lf r u);
    valid = moved-IsValid b v 1 (length-le-unprocessed b v (lf ∷ []) r u);
    left_is = unprocessed-moved b v (lf ∷ []) r u;
  }

  pub forwards_size :
      (ds r : Bytes)
      → 0 < hex_value 0 ds
      → unprocessed b ≡ r
      → Reaches (world (sized ds forward_chunksize 0) b c) (sized ds parse_chunk 0) r c
  unfolding round_in
  forwards_size ds r h u = record { next = b; runs = ground arith; valid = v; left_is = u }

  pub forwards_zero :
      (ds r : Bytes)
      → hex_value 0 ds ≡ 0
      → unprocessed b ≡ r
      → Reaches (world (sized ds forward_chunksize 0) b c) (sized ds parse_trailer_cr 0) r c
  unfolding round_in set_write_position
  forwards_zero ds r h u = record {
    next = record b { write_position = b.process_position };
    runs = ground arith;
    valid = ground arith;
    left_is = u;
  }

  pub reads_trailer_cr :
      (ds r : Bytes) (n : ℕ)
      → unprocessed b ≡ cr ∷ r
      → Reaches (world (sized ds parse_trailer_cr n) b c) (sized ds parse_trailer_lf n) r c
  unfolding round_in set_write_position
  reads_trailer_cr ds r n u = record {
    next = passed b (b.process_position + 1);
    runs = ground (arith, parse_char-cons b v cr r u, length-le-unprocessed b v (cr ∷ []) r u);
    valid = passed-IsValid b v (b.process_position + 1) (length-le-unprocessed b v (cr ∷ []) r u);
    left_is = unprocessed-moved b v (cr ∷ []) r u;
  }

  pub reads_trailer_lf :
      (ds r : Bytes) (n : ℕ)
      → unprocessed b ≡ lf ∷ r
      → Reaches (world (sized ds parse_trailer_lf n) b c) (sized ds forward_trailer_crlf n) r c
  unfolding round_in set_write_position
  reads_trailer_lf ds r n u = record {
    next = passed b (b.process_position + 1);
    runs = ground (arith, parse_char-cons b v lf r u, length-le-unprocessed b v (lf ∷ []) r u);
    valid = passed-IsValid b v (b.process_position + 1) (length-le-unprocessed b v (lf ∷ []) r u);
    left_is = unprocessed-moved b v (lf ∷ []) r u;
  }

  -- The round that counts the chunk's bytes, and the one that hands them on.
  pub counts_chunk :
      (ds chunk r : Bytes)
      → hex_value 0 ds ≡ length chunk
      → length chunk < 2 ^ 31
      → unprocessed b ≡ chunk ++ r
      → round collector (world (sized ds parse_chunk 0) b c)
        ≡ ok (
            again (
              world
                (sized ds forward_complete_chunk (length chunk))
                (counted_chunk b (length chunk))
                c))
  unfolding round_in parse_n_length_buffer set_process_position set_write_position
      set_write_end_position
  counts_chunk ds chunk r e small u = ground (arith, length-le-unprocessed b v chunk r u)

  pub hands_chunk :
      (ds chunk r : Bytes)
      → hex_value 0 ds ≡ length chunk
      → unprocessed b ≡ chunk ++ r
      → Reaches
          (world
            (sized ds forward_complete_chunk (length chunk))
            (counted_chunk b (length chunk))
            c)
          (sized ds parse_trailer_cr (length chunk))
          r
          (record c { body = c.body ++ chunk })
  unfolding round_in set_write_end_position
  hands_chunk ds chunk r e u =
      let q = b.process_position + length chunk in
      let h = length-le-unprocessed b v chunk r u in
      let same : take (q - b.process_position) (unprocessed b) ≡ chunk =
        rw u (take-append chunk r (q - b.process_position) (omega arith)) in
      record {
        next = record b {
          process_position = q;
          write_position = q;
          write_end_position = b.working_length;
        };
        runs = ground (arith, same);
        valid = record {
          small = v.small;
          fits = v.fits;
          processed = h;
          write_end = omega arith;
          written = h;
        };
        left_is = unprocessed-moved b v chunk r u;
      }

  pub ends_chunk :
      (ds : Bytes) (n : ℕ)
      → 0 < hex_value 0 ds
      → round collector (world (sized ds forward_trailer_crlf n) b c)
        ≡ ok (again (world (create 8) b (record c { trailers = c.trailers + 1 })))
  unfolding round_in reset create
  ends_chunk ds n h = ground arith
