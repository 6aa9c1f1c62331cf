-- ===== src/Socketlib/Connection/Write.antt =====
-- Every call of `non_blocking_write` returns, and nothing that was to be written is lost, repeated
-- or out of order.
use switchflow.Base.{
  ℕ, ◌+◌, ◌-◌, ◌≤◌, ◌<◌, ◌≡◌, refl, sym, ap, ◌∙◌, inl, inr, Bool, true, false, ◌++◌, append_assoc,
  append-nil, arith, length, take, Bool-cases, ◌==◌, leb, u32, Outcome, ok, Turn, finish, Returns,
  Keeps, loop-Returns,
}
use switchflow.Util.Buffer.{Buffer, set_write_position, get_physical_length, working_bytes}
use switchflow.Util.Buffer.Valid.{capacity}
use switchflow.Util.Buffer.Unwritten.{
  IsOrdered, unwritten, unwritten-eq-raw, length-unwritten, unwritten-nil, slice-split,
}
use switchflow.Http.Scan.{sub_u32}
use switchflow.Socketlib.{Status, complete, incomplete, dest_closed}
use switchflow.Socketlib.Os.{
  Os, Streams, IsPosix, Writes, Answer, returned, failed, Errno, eintr, eagain, ebadf, epipe,
  econnreset, other_errno,
}
use switchflow.Socketlib.Connection.{
  World, open_for_write, is_ready_to_write, write_round, after_write, State, write_shut,
  non_blocking_write,
}

module _ {S : Type 0} (os : Os S) (streams : Streams S) where
  open streams use {sent, IsOpen, interrupts}

  pub record IsReady (w : World S) : Type 0 where
    pub buffer : IsOrdered w.buffer
    pub is_open : IsOpen w.system w.dest.fd

  -- From `w₀` to `w`: what was sent and what is still to be written are, together, the same bytes.
  pub record Follows (w₀ w : World S) : Type 0 where
    pub ready : IsReady w
    pub same_fd : w.dest.fd ≡ w₀.dest.fd
    pub same_buffer : w.buffer ≡ record (w₀.buffer) { write_position = w.buffer.write_position }
    pub forwards : w₀.buffer.write_position ≤ w.buffer.write_position
    pub fewer : interrupts w.system ≤ interrupts w₀.system
    pub conserved :
        sent w.system w₀.dest.fd ++ unwritten w.buffer
        ≡ sent w₀.system w₀.dest.fd ++ unwritten w₀.buffer

  -- What each status says of where the call stopped.
  abbrev pub Stopped : Status → World S → Type 0
  Stopped complete w = w.buffer.write_position ≡ w.buffer.write_end_position
  Stopped incomplete w = is_ready_to_write w.dest ≡ false
  Stopped dest_closed w = open_for_write w.dest.state ≡ false
  Stopped _ w = ⊥

  abbrev pub Delivers : World S → Status × World S → Type 0
  Delivers w₀ (st, w) = Follows w₀ w × Stopped st w

  abbrev pub rounds : World S → ℕ
  rounds w = (w.buffer.write_end_position - w.buffer.write_position) + interrupts w.system

  -- What is handed to the system.
  abbrev count : Buffer → ℕ
  count b = b.write_end_position - b.write_position

  -- A round behind its tests: it is over, or it writes what is unwritten.
  data Tested (w : World S) (r : Outcome (Turn (World S) (Status × World S))) : Type 0 where
    not_ready : r ≡ ok (finish (incomplete, w)) → is_ready_to_write w.dest ≡ false → Tested w r
    all_written :
        r ≡ ok (finish (complete, w))
        → w.buffer.write_position ≡ w.buffer.write_end_position
        → Tested w r
    written :
        r
          ≡ after_write os
              (record w { system = (os.write w.system w.dest.fd (unwritten w.buffer)).1 })
              w.buffer.write_position
              (count w.buffer)
              (os.write w.system w.dest.fd (unwritten w.buffer)).0
        → 0 < count w.buffer
        → length (unwritten w.buffer) ≡ count w.buffer
        → Tested w r

  write_round-Tested : (w : World S) → IsReady w → Tested w (write_round os w)
  unfolding write_round get_physical_length
  write_round-Tested w r =
      let b = w.buffer in
      let raw = r.buffer.raw in
      let there = r.buffer.has_raw in
      let fits : capacity b ≡ length raw = rw there refl in
      let same = unwritten-eq-raw b r.buffer in
      let distance : sub_u32 b.write_end_position b.write_position ≡ count b = omega arith in
      let size = length-unwritten b r.buffer in
      elim (Bool-cases (is_ready_to_write w.dest)) [
        | inr e ↦ not_ready (rw e refl) e
        | inl e ↦ elim (Bool-cases (count b == 0)) [
          | inl z ↦ all_written (rw (distance, e, there) (ground arith)) (ground arith)
          | inr z ↦ written (rw (same, distance, e, there) (ground arith)) (ground arith) size
        ]
      ]

  -- The world when `n` more bytes have been taken.
  abbrev advanced : World S → ℕ → S → World S
  advanced w n s = record w {
    buffer = record (w.buffer) { write_position = w.buffer.write_position + n };
    system = s;
  }

  Follows-advanced :
      (w₀ w : World S) (n : ℕ) (s : S)
      → Follows w₀ w
      → n ≤ count w.buffer
      → Writes streams w.system w.dest.fd (unwritten w.buffer) (returned n, s)
      → Follows w₀ (advanced w n s)
  Follows-advanced w₀ w n s f le k =
      let (some_sent, fits, taken, opened, fewer) = k in
      let b = w.buffer in
      let old : sent w.system w.dest.fd ++ unwritten b
          ≡ sent w₀.system w.dest.fd ++ unwritten w₀.buffer =
        rw f.same_fd f.conserved in
      record {
        ready = record {
          buffer = record {
            valid = ground arith;
            raw = f.ready.buffer.raw;
            has_raw = f.ready.buffer.has_raw;
            ordered = ground arith;
          };
          is_open = opened;
        };
        same_fd = f.same_fd;
        same_buffer =
            ap {A = Buffer} (λ x. record x { write_position = b.write_position + n }) f.same_buffer;
        forwards = let forwards = f.forwards in omega arith;
        fewer = let older = f.fewer in omega arith;
        conserved =
            rw (sym f.same_fd, taken)
              (append_assoc (sent w.system w.dest.fd) (take n (unwritten b))
                  (unwritten (advanced w n s).buffer)
                ∙ ap (λ t. sent w.system w.dest.fd ++ t)
                    (slice-split b.write_position n (count b) (b.write_position + n)
                      (b.write_end_position - (b.write_position + n)) (working_bytes b) le refl
                      (omega arith))
                ∙ old);
      }

  -- The same when the call failed, and only the flag and the state of the connection changed.
  Follows-refused :
      (w₀ w : World S) (e : Errno) (s : S) (ready : Bool) (st : State)
      → Follows w₀ w
      → Writes streams w.system w.dest.fd (unwritten w.buffer) (failed e, s)
      → Follows w₀
          (record w { dest = record (w.dest) { ready_to_write = ready; state = st }; system = s })
  Follows-refused w₀ w e s ready st f k =
      let (usable, same_sent, opened, fewer, interrupted) = k in
      let old : sent w.system w.dest.fd ++ unwritten w.buffer
          ≡ sent w₀.system w.dest.fd ++ unwritten w₀.buffer =
        rw f.same_fd f.conserved in
      record {
        ready = record { buffer = f.ready.buffer; is_open = opened };
        same_fd = f.same_fd;
        same_buffer = f.same_buffer;
        forwards = f.forwards;
        fewer = let older = f.fewer in omega arith;
        conserved = rw (sym f.same_fd, same_sent) old;
      }

  after_write-Keeps :
      (w₀ w : World S) (a : Answer ℕ × S)
      → Follows w₀ w
      → 0 < count w.buffer
      → length (unwritten w.buffer) ≡ count w.buffer
      → Writes streams w.system w.dest.fd (unwritten w.buffer) a
      → Keeps
          (Follows w₀)
          (Delivers w₀)
          rounds
          (rounds w)
          (after_write os (record w { system = a.1 }) w.buffer.write_position (count w.buffer) a.0)
  unfolding set_write_position
  after_write-Keeps w₀ w (returned n, s) f some_left size k =
      let b = w.buffer in
      let valid = f.ready.buffer.valid in
      let ordered = f.ready.buffer.ordered in
      let (some_sent, fits, taken, opened, fewer) = k in
      let small : u32 (b.write_position + n) ≡ b.write_position + n = ground arith in
      let inside : leb (b.write_position + n) b.working_length ≡ true = ground arith in
      let next = Follows-advanced w₀ w n s f (omega arith) k in
      elim (Bool-cases (leb (count b) n)) [
        | inl e ↦ rw (small, inside, e) (next, ground arith)
        | inr e ↦ rw (small, inside, e) (next, ground arith)
      ]
  after_write-Keeps w₀ w (failed eintr, s) f some_left size k =
      let fewer = k.4 refl in
      (Follows-refused w₀ w eintr s w.dest.ready_to_write w.dest.state f k, omega arith)
  after_write-Keeps w₀ w (failed ebadf, s) f some_left size k = absurd (k.0 refl)
  after_write-Keeps w₀ w (failed eagain, s) f some_left size k =
      (Follows-refused w₀ w eagain s false w.dest.state f k, refl)
  after_write-Keeps w₀ w (failed epipe, s) f some_left size k =
      (Follows-refused w₀ w epipe s w.dest.ready_to_write write_shut f k, refl)
  after_write-Keeps w₀ w (failed econnreset, s) f some_left size k =
      (Follows-refused w₀ w econnreset s w.dest.ready_to_write write_shut f k, refl)
  after_write-Keeps w₀ w (failed other_errno, s) f some_left size k =
      (Follows-refused w₀ w other_errno s w.dest.ready_to_write write_shut f k, refl)

  module _ (posix : IsPosix streams os) where
    write_round-Keeps :
        (w₀ w : World S)
        → Follows w₀ w
        → Keeps (Follows w₀) (Delivers w₀) rounds (rounds w) (write_round os w)
    write_round-Keeps w₀ w f = elim (write_round-Tested w f.ready) [
      | not_ready e stop ↦ rw e (f, stop)
      | all_written e stop ↦ rw e (f, stop)
      | written e left size ↦ rw e (
          after_write-Keeps w₀ w _ f left size (
            posix.writes w.system w.dest.fd (unwritten w.buffer) (omega (arith, size))
              f.ready.is_open))
    ]

    -- For a valid buffer whose write position is not behind its write end, on an open descriptor,
    -- with more fuel than bytes to write and interrupts to come together: the call returns COMPLETE,
    -- INCOMPLETE or DEST_CLOSED. What was sent so far and what is still to be written are together
    -- the bytes that they were before, so none is lost, sent twice or out of order, and only the
    -- write position of the buffer moves, forwards. COMPLETE leaves nothing to write, INCOMPLETE a
    -- connection that is not ready to be written to, DEST_CLOSED one that is not open for it.
    pub non_blocking_write-Delivers :
        (fuel : ℕ) (w : World S)
        → IsReady w
        → rounds w < fuel
        → Returns (Delivers w) (non_blocking_write os fuel w)
    unfolding non_blocking_write
    non_blocking_write-Delivers fuel w r h =
        loop-Returns (Follows w) (Delivers w) rounds (write_round os)
          (λ u f. write_round-Keeps w u f) fuel w h
          (record {
            ready = r;
            same_fd = refl;
            same_buffer = refl;
            forwards = omega arith;
            fewer = omega arith;
            conserved = refl;
          })

-- What COMPLETE means for the bytes that were sent.
pub Delivers-sent :
    {S : Type 0} (os : Os S) (streams : Streams S) (w₀ w : World S)
    → Delivers os streams w₀ (complete, w)
    → streams.sent w.system w₀.dest.fd ≡ streams.sent w₀.system w₀.dest.fd ++ unwritten w₀.buffer
Delivers-sent os streams w₀ w (f, stop) =
    sym (append-nil (streams.sent w.system w₀.dest.fd))
    ∙ (ap (λ t. streams.sent w.system w₀.dest.fd ++ t) (sym (unwritten-nil w.buffer stop))
        ∙ f.conserved)
