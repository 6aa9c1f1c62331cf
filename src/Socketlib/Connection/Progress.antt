-- ===== src/Socketlib/Connection/Progress.antt =====
-- `non_blocking_read`: what it uses up.
use switchflow.Base.{
  ℕ, ◌+◌, ◌≤◌, ◌<◌, ◌≡◌, refl, ap, inl, inr, ◌⊎◌, true, false, [], ◌∷◌, arith, Bytes, length,
  length-append, Bool-cases, ◌==◌, u32, Returns, Returns-eq-ok,
}
use switchflow.Util.Buffer.{Buffer, reset, fully_written}
use switchflow.Util.Buffer.Valid.{capacity}
use switchflow.Socketlib.Os.{
  Os, Fd, Streams, IsPosix, Reads, Answer, returned, failed, eintr, eagain, ebadf, epipe,
  econnreset, other_errno,
}
use switchflow.Socketlib.Connection.{
  Connection, is_ready_to_read, read_shut, next_state, after_read, non_blocking_read,
}
use switchflow.Socketlib.Connection.Read.{
  IsReader, may_read, raw-reset, set_working_length-received, closed_for_read,
}

module _ {S : Type 0} (streams : Streams S) where
  open streams use {unread, interrupts}

  -- Nothing more is to be read from any descriptor, and no more calls will be interrupted.
  abbrev pub Lessens : S → S → Type 0
  Lessens s s' =
      ((fd : Fd) → length (unread s' fd) ≤ length (unread s fd)) × (interrupts s' ≤ interrupts s)

  -- What a read does besides: it is on one descriptor, and a signal that interrupts it is used up.
  abbrev pub Uses : S → Answer Bytes × S → Type 0
  Uses s (a, s') = Lessens s s' × (a ≡ failed eintr → interrupts s' < interrupts s)

  pub record IsFinite (os : Os S) : Type 0 where
    pub uses : (s : S) (fd : Fd) (count : ℕ) → Uses s (os.read s fd count)

  -- The reads that may still succeed or be interrupted.
  abbrev pub load : Fd → S → ℕ
  load fd s = length (unread s fd) + interrupts s

  pub record Progress (c : Connection) (s : S) (c' : Connection) (s' : S) : Type 0 where
    pub same_write : c'.ready_to_write ≡ c.ready_to_write
    pub state : (c'.state ≡ c.state) ⊎ (c'.state ≡ next_state c.state read_shut)
    pub lessens : Lessens s s'
    pub ready : is_ready_to_read c' ≡ true → is_ready_to_read c ≡ true
    pub kept : fully_written c.buffer ≡ false → c' ≡ c
    pub falls :
        is_ready_to_read c' ≡ true → fully_written c.buffer ≡ true → load c.fd s' < load c.fd s

  shut-Progress :
      (c : Connection) (s s' : S) (b : Buffer)
      → may_read c ≡ true
      → Lessens s s'
      → Progress c s (record c { buffer = b; state = next_state c.state read_shut }) s'
  shut-Progress c s s' b may l =
      let shut = closed_for_read c.state in
      record {
        same_write = refl;
        state = inr refl;
        lessens = l;
        ready = λ e. ground arith;
        kept = λ e. ground arith;
        falls = λ e f. ground arith;
      }

  -- Ready still, with less to come.
  ready-Progress :
      (c : Connection) (s s' : S) (b : Buffer)
      → may_read c ≡ true
      → Lessens s s'
      → load c.fd s' < load c.fd s
      → Progress c s (record c { buffer = b }) s'
  ready-Progress c s s' b may l less = record {
    same_write = refl;
    state = inl refl;
    lessens = l;
    ready = λ e. e;
    kept = λ e. ground arith;
    falls = λ e f. less;
  }

  unread-Progress : (c : Connection) (s : S) → may_read c ≡ false → Progress c s c s
  unread-Progress c s may = record {
    same_write = refl;
    state = inl refl;
    lessens = ((λ fd. omega arith), omega arith);
    ready = λ e. e;
    kept = λ e. refl;
    falls = λ e f. ground arith;
  }

  after_read-Progress :
      (os : Os S) (c : Connection) (s : S) (p : Answer Bytes × S)
      → (r : IsReader c) → may_read c ≡ true
      → Reads streams s c.fd (length r.raw) p
      → Uses s p
      → Returns
          (λ a. Progress c s a.1 p.1)
          (after_read os (record c { buffer = reset c.buffer }) p.0)
  after_read-Progress os c s (returned [], s') r may k u =
      rw (raw-reset os streams c r) (shut-Progress c s s' (reset c.buffer) may u.0)
  after_read-Progress os c s (returned (x ∷ xs), s') r may k u =
      let some_read : (length (x ∷ xs) == 0) ≡ false = ground arith in
      let size = length-append (x ∷ xs) (unread s' c.fd) in
      let all = ap length k.1 in
      let fewer = u.0.1 in
      rw
        (
          raw-reset os streams c r,
          some_read,
          set_working_length-received os streams c r (x ∷ xs) k.0,
        )
        (ready-Progress c s s' _ may u.0 (omega arith))
  after_read-Progress os c s (failed eintr, s') r may k u =
      let fewer = u.1 refl in
      let same = u.0.0 c.fd in ready-Progress c s s' (reset c.buffer) may u.0 (omega arith)
  after_read-Progress os c s (failed eagain, s') r may k u = record {
    same_write = refl;
    state = inl refl;
    lessens = u.0;
    ready = λ e. cc;
    kept = λ e. ground arith;
    falls = λ e f. cc;
  }
  after_read-Progress os c s (failed ebadf, s') r may k u =
      shut-Progress c s s' (reset c.buffer) may u.0
  after_read-Progress os c s (failed epipe, s') r may k u =
      shut-Progress c s s' (reset c.buffer) may u.0
  after_read-Progress os c s (failed econnreset, s') r may k u =
      shut-Progress c s s' (reset c.buffer) may u.0
  after_read-Progress os c s (failed other_errno, s') r may k u =
      shut-Progress c s s' (reset c.buffer) may u.0

  module _ (os : Os S) (posix : IsPosix streams os) (finite : IsFinite os) where
    pub non_blocking_read-Progress :
        (c : Connection) (s : S)
        → IsReader c
        → Returns (λ a. Progress c s a.1 a.2) (non_blocking_read os c s)
    unfolding non_blocking_read
    non_blocking_read-Progress c s r = elim (Bool-cases (is_ready_to_read c)) [
      | inr e ↦ rw e (unread-Progress c s (rw e refl))
      | inl e ↦ elim (Bool-cases (fully_written c.buffer)) [
        | inr f ↦ rw (e, f) (unread-Progress c s (rw (e, f) refl))
        | inl f ↦
            let room : capacity c.buffer ≡ length r.raw = rw r.has_raw refl in
            let small = r.valid.small in
            let size : u32 (length r.raw) ≡ length r.raw = omega arith in
            let (a, done, post) =
              Returns-eq-ok (λ a. Progress c s a.1 (os.read s c.fd (length r.raw)).1) _
                (after_read-Progress os c s (os.read s c.fd (length r.raw)) r (rw (e, f) refl)
                  (posix.reads s c.fd (length r.raw)) (finite.uses s c.fd (length r.raw))) in
            rw (e, f, raw-reset os streams c r, size, done) post
      ]
    ]
