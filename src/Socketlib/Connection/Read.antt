-- ===== src/Socketlib/Connection/Read.antt =====
-- `non_blocking_read`: every byte that arrives is handed on once, and in order.
use switchflow.Base.{
  ◌≤◌, ◌≡◌, refl, sym, ◌∙◌, inl, inr, ◌⊎◌, Bool, true, false, ◌&&◌, some, [], ◌++◌, arith, Bytes,
  length, take, Bool-cases, ◌==◌, u32, le→leb, ok, ◌∷◌, Returns, Returns-eq-ok,
}
use switchflow.Util.Buffer.{
  Buffer, reset, get_raw_buffer, overwrite, set_write_position, set_working_length, fully_written,
  working_bytes,
}
use switchflow.Util.Buffer.Valid.{IsValid, capacity, length-overwrite}
use switchflow.Util.Buffer.Content.{take-overwrite}
use switchflow.Socketlib.{Status, complete, src_closed}
use switchflow.Socketlib.Os.{
  Os, Streams, IsPosix, Reads, Answer, returned, failed, eintr, eagain, ebadf, epipe, econnreset,
  other_errno,
}
use switchflow.Socketlib.Connection.{
  Connection, State, is_ready_to_read, open_for_read, read_shut, write_shut, next_state, set_state,
  after_read, non_blocking_read,
}

-- The connection owns its vector, and its buffer is valid.
pub record IsReader (c : Connection) : Type 0 where
  pub valid : IsValid c.buffer
  pub owned : c.buffer.using_static_buffer ≡ false
  pub raw : Bytes
  pub has_raw : c.buffer.p_buffer ≡ some raw

-- The call may overwrite the buffer: what it holds has been written on.
abbrev pub may_read : Connection → Bool
may_read c = is_ready_to_read c && fully_written c.buffer

pub closed_for_read : (old : State) → open_for_read (next_state old read_shut) ≡ false
closed_for_read write_shut = refl
closed_for_read _ = refl

module _ {S : Type 0} (os : Os S) (streams : Streams S) where
  open streams use {unread}

  -- The bytes of the buffer, in front of those that are still to be read.
  abbrev pub pending : Connection → S → Bytes
  pending c s = working_bytes c.buffer ++ unread s c.fd

  -- Without leave to read nothing happens; with it, what the system still held is split between the
  -- buffer and the system, and the buffer is to be written from its start to its end.
  pub record Read (c : Connection) (s : S) (st : Status) (c' : Connection) (s' : S) : Type 0 where
    pub reader : IsReader c'
    pub same_fd : c'.fd ≡ c.fd
    pub kept : may_read c ≡ false → (c' ≡ c) × (s' ≡ s) × (st ≡ complete)
    pub split : may_read c ≡ true → pending c' s' ≡ unread s c.fd
    pub from_start :
        may_read c ≡ true
        → (c'.buffer.write_position ≡ 0)
          × (c'.buffer.write_end_position ≡ c'.buffer.working_length)
          × (c'.buffer.process_position ≡ 0)
    pub closed : st ≡ src_closed → open_for_read c'.state ≡ false
    pub answered : (st ≡ complete) ⊎ (st ≡ src_closed)

  -- The buffer holds `bytes`, and is to be written from its start.
  record Filled (c : Connection) (r : IsReader c) (bytes : Bytes) (b : Buffer) : Type 0 where
    raw : Bytes
    has_raw : b.p_buffer ≡ some raw
    same_room : length raw ≡ length r.raw
    owned : b.using_static_buffer ≡ false
    holds : take (length bytes) raw ≡ bytes
    fits : length bytes ≤ length r.raw
    working : b.working_length ≡ length bytes
    processed : b.process_position ≡ 0
    write_end : b.write_end_position ≡ length bytes
    written : b.write_position ≡ 0

  Filled-reset : (c : Connection) (r : IsReader c) → Filled c r [] (reset c.buffer)
  unfolding reset
  Filled-reset c r = record {
    raw = r.raw;
    has_raw = r.has_raw;
    same_room = refl;
    owned = r.owned;
    holds = refl;
    fits = omega arith;
    working = rw r.owned refl;
    processed = refl;
    write_end = rw r.owned refl;
    written = refl;
  }

  Filled-Read :
      (c : Connection) (s s' : S) (r : IsReader c) (bytes : Bytes) (b : Buffer) (st : Status)
      (ready : Bool) (state : State)
      → may_read c ≡ true
      → Filled c r bytes b
      → bytes ++ unread s' c.fd ≡ unread s c.fd
      → (st ≡ src_closed → open_for_read state ≡ false)
      → (st ≡ complete) ⊎ (st ≡ src_closed)
      → Read c s st (record c { ready_to_read = ready; buffer = b; state = state }) s'
  Filled-Read c s s' r bytes b st ready state may f split closed answered =
      let small : capacity c.buffer ≡ length r.raw = rw r.has_raw refl in
      let room : capacity b ≡ length f.raw = rw f.has_raw refl in
      let same : working_bytes b ≡ bytes = rw (f.has_raw, f.working) f.holds in
      record {
        reader = record { valid = ground arith; owned = f.owned; raw = f.raw; has_raw = f.has_raw };
        same_fd = refl;
        kept = λ e. cc;
        split = λ e. rw same split;
        from_start = λ e. (f.written, f.write_end ∙ sym f.working, f.processed);
        closed = closed;
        answered = answered;
      }

  pub raw-reset : (c : Connection) (r : IsReader c) → get_raw_buffer (reset c.buffer) ≡ ok r.raw
  unfolding reset
  raw-reset c r = rw r.has_raw refl

  -- The buffer behind a read of some bytes.
  abbrev pub received : (c : Connection) → IsReader c → Bytes → Buffer
  received c r bytes = record {
    p_buffer = some (overwrite r.raw 0 bytes);
    using_static_buffer = c.buffer.using_static_buffer;
    working_length = length bytes;
    process_position = 0;
    write_end_position = length bytes;
    write_position = 0;
  }

  Filled-received :
      (c : Connection) (r : IsReader c) (bytes : Bytes)
      → length bytes ≤ length r.raw
      → Filled c r bytes (received c r bytes)
  Filled-received c r bytes fits = record {
    raw = overwrite r.raw 0 bytes;
    has_raw = refl;
    same_room = length-overwrite r.raw 0 bytes (omega arith);
    owned = r.owned;
    holds = take-overwrite r.raw 0 bytes (length bytes) (omega arith) (omega arith);
    fits = fits;
    working = refl;
    processed = refl;
    write_end = refl;
    written = refl;
  }

  pub set_working_length-received :
      (c : Connection) (r : IsReader c) (bytes : Bytes)
      → length bytes ≤ length r.raw
      → set_working_length
          (record (reset c.buffer) { p_buffer = some (overwrite r.raw 0 bytes) })
          (length bytes)
        ≡ ok (received c r bytes)
  unfolding reset set_working_length set_write_position
  set_working_length-received c r bytes fits =
      let same_room = length-overwrite r.raw 0 bytes (omega arith) in
      let room = le→leb (length bytes) (length r.raw) fits in
      let reached = le→leb (length bytes) (length bytes) (omega arith) in
      let start = le→leb 0 (length bytes) (omega arith) in
      rw (same_room, r.owned, room, reached, start) refl

  shut-Read :
      (c : Connection) (s s' : S)
      → IsReader c
      → may_read c ≡ true
      → unread s' c.fd ≡ unread s c.fd
      → Read c s src_closed (set_state (record c { buffer = reset c.buffer }) read_shut) s'
  shut-Read c s s' r may k =
      Filled-Read c s s' r [] (reset c.buffer) src_closed c.ready_to_read
        (next_state c.state read_shut) may (Filled-reset c r) k (λ e. closed_for_read c.state)
        (inr refl)

  after_read-Read :
      (c : Connection) (s : S) (p : Answer Bytes × S)
      → (r : IsReader c) → may_read c ≡ true
      → Reads streams s c.fd (length r.raw) p
      → Returns
          (λ a. Read c s a.0 a.1 p.1)
          (after_read os (record c { buffer = reset c.buffer }) p.0)
  after_read-Read c s (returned [], s') r may k = rw (raw-reset c r) (shut-Read c s s' r may k.1)
  after_read-Read c s (returned (x ∷ xs), s') r may k =
      let some_read : (length (x ∷ xs) == 0) ≡ false = ground arith in
      rw (raw-reset c r, some_read, set_working_length-received c r (x ∷ xs) k.0)
        (Filled-Read c s s' r (x ∷ xs) (received c r (x ∷ xs)) complete c.ready_to_read c.state may
          (Filled-received c r (x ∷ xs) k.0) k.1 (λ e. cc) (inl refl))
  after_read-Read c s (failed eintr, s') r may k =
      Filled-Read c s s' r [] (reset c.buffer) complete c.ready_to_read c.state may
        (Filled-reset c r) k (λ e. cc) (inl refl)
  after_read-Read c s (failed eagain, s') r may k =
      Filled-Read c s s' r [] (reset c.buffer) complete false c.state may (Filled-reset c r) k
        (λ e. cc) (inl refl)
  after_read-Read c s (failed ebadf, s') r may k = shut-Read c s s' r may k
  after_read-Read c s (failed epipe, s') r may k = shut-Read c s s' r may k
  after_read-Read c s (failed econnreset, s') r may k = shut-Read c s s' r may k
  after_read-Read c s (failed other_errno, s') r may k = shut-Read c s s' r may k

  kept-Read : (c : Connection) (s : S) → IsReader c → may_read c ≡ false → Read c s complete c s
  kept-Read c s r e = record {
    reader = r;
    same_fd = refl;
    kept = λ f. (refl, refl, refl);
    split = λ f. cc;
    from_start = λ f. cc;
    closed = λ f. cc;
    answered = inl refl;
  }

  module _ (posix : IsPosix streams os) where
    -- For a valid buffer in a vector of the connection's own: the call returns COMPLETE, or
    -- SRC_CLOSED and a connection that is not open for reading. Unless the connection is ready and
    -- its buffer has been written on, nothing happens. Otherwise the bytes that the system had for
    -- the descriptor are, in order, those that the buffer now holds and those that the system still
    -- has; the buffer is valid and is to be processed and written from its start to its end.
    pub non_blocking_read-Read :
        (c : Connection) (s : S)
        → IsReader c
        → Returns (λ a. Read c s a.0 a.1 a.2) (non_blocking_read os c s)
    unfolding non_blocking_read
    non_blocking_read-Read c s r = elim (Bool-cases (is_ready_to_read c)) [
      | inr e ↦ rw e (kept-Read c s r (rw e refl))
      | inl e ↦ elim (Bool-cases (fully_written c.buffer)) [
        | inr f ↦ rw (e, f) (kept-Read c s r (rw (e, f) refl))
        | inl f ↦
            let room : capacity c.buffer ≡ length r.raw = rw r.has_raw refl in
            let small = r.valid.small in
            let size : u32 (length r.raw) ≡ length r.raw = omega arith in
            let (a, done, post) =
              Returns-eq-ok (λ a. Read c s a.0 a.1 (os.read s c.fd (length r.raw)).1) _
                (after_read-Read c s (os.read s c.fd (length r.raw)) r (rw (e, f) refl)
                  (posix.reads s c.fd (length r.raw))) in
            rw (e, f, raw-reset c r, size, done) post
      ]
    ]
