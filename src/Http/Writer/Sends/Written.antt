-- ===== src/Http/Writer/Sends/Written.antt =====
-- What a write of a piece leaves to be written, and that no byte is lost from one piece to the next.
use Prim.Derive.{subst}
use switchflow.Base.{
  ℕ, ◌+◌, ◌≤◌, ◌<◌, ◌≡◌, refl, sym, ap, ◌∙◌, false, [], ◌++◌, append_assoc, append-nil, arith,
  Bytes, length, length-append, ok, Turn, again, finish, Keeps,
}
use switchflow.Util.Buffer.{Buffer}
use switchflow.Util.Buffer.Unwritten.{unwritten, unwritten-nil, IsOrdered, length-unwritten}
use switchflow.Socketlib.{
  Status, complete, incomplete, dest_closed, read_incomplete, write_incomplete, connection_failed,
  src_closed, deny,
}
use switchflow.Socketlib.Os.{Os, Streams}
use switchflow.Socketlib.Connection.{open_for_write, is_ready_to_write}
use switchflow.Socketlib.Connection.Write as Write
use switchflow.Socketlib.Connection.Write.{non_blocking_write-Delivers}
use switchflow.Http.Writer.{field_name, World, start_piece, after_piece, by_status}
use switchflow.Http.Writer.Pieces.{behind, piece, rank, IsWriting, left, remaining, Moved, Put}
use switchflow.Http.Writer.Pieces.Advance.{Advances, after_piece-Advances}
use switchflow.Http.Writer.Sends.Start.{Starts}

pub Moved-shorter :
    (b b' : Buffer)
    → IsOrdered b
    → Moved b b'
    → b.write_position ≤ b'.write_position
    → length (unwritten b') ≤ length (unwritten b)
Moved-shorter b b' o (o', e) h =
    let same : b'.write_end_position ≡ b.write_end_position = rw e refl in
    let size = length-unwritten b o in let size' = length-unwritten b' o' in omega arith

regroup : (x y z v b : Bytes) → x ++ y ≡ z ++ v → x ++ (y ++ b) ≡ z ++ (v ++ b)
regroup x y z v b e = sym (append_assoc x y b) ∙ (ap (λ t. t ++ b) e ∙ append_assoc z v b)

module _ {S : Type 0} (os : Os S) (streams : Streams S) where
  open streams use {sent, IsOpen, interrupts}

  -- What is still to be written, from where the writer stands.
  abbrev pub rest : World S → Bytes
  rest w = remaining w.writer.write_header_state w.writer w.message

  abbrev pub rounds : World S → ℕ
  rounds w =
      rank w.writer.write_header_state w.writer.current_dump_header w.message.current_num_fields

  -- From `w₀` to `w`: what was sent and what is still to be written are, together, the same bytes.
  pub record Follows (w₀ w : World S) : Type 0 where
    pub writing : IsWriting w.writer.write_header_state w.writer w.message
    pub is_open : IsOpen w.system w.dest.fd
    pub same_fd : w.dest.fd ≡ w₀.dest.fd
    pub conserved : sent w.system w₀.dest.fd ++ rest w ≡ sent w₀.system w₀.dest.fd ++ rest w₀
    pub less : length (rest w) ≤ length (rest w₀)
    pub fewer : interrupts w.system ≤ interrupts w₀.system

  abbrev pub Sends : World S → Status × World S → Type 0
  Sends w₀ (complete, w) = sent w.system w₀.dest.fd ≡ sent w₀.system w₀.dest.fd ++ rest w₀
  Sends w₀ (incomplete, w) = Follows w₀ w × (is_ready_to_write w.dest ≡ false)
  Sends w₀ (dest_closed, w) = Follows w₀ w × (open_for_write w.dest.state ≡ false)
  Sends w₀ _ = ⊥

  -- Behind a write of the piece `b` of `w`.
  pub record Written (w₀ w : World S) (b b' : Buffer) (w' : World S) : Type 0 where
    pub put : Put w.writer.write_header_state w.writer w.message b' (w'.writer, w'.message)
    pub is_piece :
        unwritten b ≡ piece w.writer.write_header_state w.writer w.message (left w.writer w.message)
    pub follows : Follows w₀ w
    pub is_open : IsOpen w'.system w'.dest.fd
    pub same_fd : w'.dest.fd ≡ w.dest.fd
    pub conserved :
        sent w'.system w.dest.fd ++ unwritten b' ≡ sent w.system w.dest.fd ++ unwritten b
    pub less : length (unwritten b') ≤ length (unwritten b)
    pub fewer : interrupts w'.system ≤ interrupts w.system

  -- What comes behind the piece at hand.
  abbrev pub coming : World S → Bytes
  coming w = behind w.writer.write_header_state w.message (left w.writer w.message)

  Written-rest :
      (w₀ w : World S) (b b' : Buffer) (w' : World S)
      → Written w₀ w b b' w'
      → rest w' ≡ unwritten b' ++ coming w
  Written-rest w₀ w b b' w' h =
      let p = h.put in
      subst (λ st. remaining st w'.writer w'.message ≡ unwritten b' ++ coming w) (sym p.same_state)
        (rw (p.rest, p.same_behind) refl)

  pub length-rest :
      (w : World S) (bytes : Bytes)
      → bytes ≡ piece w.writer.write_header_state w.writer w.message (left w.writer w.message)
      → length (rest w) ≡ length bytes + length (coming w)
  length-rest w bytes e = rw e (
      length-append (piece w.writer.write_header_state w.writer w.message (left w.writer w.message))
        (coming w))

  Written-conserved :
      (w₀ w : World S) (b b' : Buffer) (w' : World S)
      → Written w₀ w b b' w'
      → sent w'.system w₀.dest.fd ++ (unwritten b' ++ coming w)
        ≡ sent w₀.system w₀.dest.fd ++ rest w₀
  Written-conserved w₀ w b b' w' h =
      let f = h.follows in
      let here = h.conserved in
      let moved : sent w'.system w₀.dest.fd ++ unwritten b'
          ≡ sent w.system w₀.dest.fd ++ unwritten b =
        rw (sym f.same_fd) here in
      regroup (sent w'.system w₀.dest.fd) (unwritten b') (sent w.system w₀.dest.fd) (unwritten b)
        (coming w) moved
      ∙ (rw h.is_piece f.conserved)

  Written-Follows :
      (w₀ w : World S) (b b' : Buffer) (w' : World S) → Written w₀ w b b' w' → Follows w₀ w'
  Written-Follows w₀ w b b' w' h =
      let f = h.follows in
      let p = h.put in
      let r = Written-rest w₀ w b b' w' h in
      let less = h.less in
      let less₀ = f.less in
      let fewer = h.fewer in
      let fewer₀ = f.fewer in
      let size' : length (rest w') ≡ length (unwritten b') + length (coming w) =
        rw r (length-append (unwritten b') (coming w)) in
      let size : length (rest w) ≡ length (unwritten b) + length (coming w) =
        length-rest w (unwritten b) h.is_piece in
      record {
        writing = subst (λ st. IsWriting st w'.writer w'.message) (sym p.same_state) p.writing;
        is_open = h.is_open;
        same_fd = h.same_fd ∙ f.same_fd;
        conserved = rw r (Written-conserved w₀ w b b' w' h);
        less = omega arith;
        fewer = omega arith;
      }

  -- The whole piece has been written, so that what came behind it comes next.
  Written-next :
      (w₀ w : World S) (b b' : Buffer) (w' : World S) (t : Turn (World S) (Status × World S))
      → Written w₀ w b b' w'
      → unwritten b' ≡ []
      → Advances w.writer.write_header_state w' t
      → Keeps (Follows w₀) (Sends w₀) rounds (rounds w) (ok t)
  Written-next w₀ w b b' w' (again w'') h none a =
      let f = h.follows in
      let p = h.put in
      let kept =
        subst
          (λ t. sent w'.system w₀.dest.fd ++ (t ++ coming w) ≡ sent w₀.system w₀.dest.fd ++ rest w₀)
          none (Written-conserved w₀ w b b' w' h) in
      let rest_is : rest w'' ≡ coming w = a.continues ∙ p.same_behind in
      let next = a.fewer in
      let less₀ = f.less in
      let fewer = h.fewer in
      let fewer₀ = f.fewer in
      let size : length (rest w) ≡ length (unwritten b) + length (coming w) =
        length-rest w (unwritten b) h.is_piece in
      (
        record {
          writing = a.writing;
          is_open = rw (a.same_system, a.same_dest) h.is_open;
          same_fd = rw a.same_dest (h.same_fd ∙ h.follows.same_fd);
          conserved = rw (a.same_system, rest_is) kept;
          less = rw rest_is (omega arith);
          fewer = rw a.same_system (omega arith);
        },
        rw (sym p.same_count, sym p.same_fields) next,
      )
  Written-next w₀ w b b' w' (finish (status, w'')) h none (at_end, done, system, dest) =
      let kept =
        subst
          (λ t. sent w'.system w₀.dest.fd ++ (t ++ coming w) ≡ sent w₀.system w₀.dest.fd ++ rest w₀)
          none (Written-conserved w₀ w b b' w' h) in
      let nothing : coming w ≡ [] =
        subst (λ st. behind st w.message (left w.writer w.message) ≡ []) (sym at_end) refl in
      rw (done, system)
        (sym (append-nil (sent w'.system w₀.dest.fd))
          ∙ subst (λ t. sent w'.system w₀.dest.fd ++ t ≡ sent w₀.system w₀.dest.fd ++ rest w₀)
              nothing kept)

  pub by_status-Keeps :
      (w₀ w : World S) (b b' : Buffer) (w' : World S) (status : Status)
      → Written w₀ w b b' w'
      → Write.Stopped os streams status (record { dest = w'.dest; buffer = b'; system = w'.system })
      → (w.writer.write_header_state ≡ field_name
          → w.writer.current_dump_header < w.message.current_num_fields)
      → Keeps
          (Follows w₀)
          (Sends w₀)
          rounds
          (rounds w)
          (by_status w.writer.write_header_state w' status)
  by_status-Keeps w₀ w b b' w' complete h stop field =
      let p = h.put in
      Written-next w₀ w b b' w' (after_piece w.writer.write_header_state w') h
        (unwritten-nil b' stop)
        (after_piece-Advances w.writer.write_header_state w' p.writing
          (λ e. rw (p.same_count, p.same_fields) (field e)))
  by_status-Keeps w₀ w b b' w' incomplete h stop field = (Written-Follows w₀ w b b' w' h, stop)
  by_status-Keeps w₀ w b b' w' dest_closed h stop field = (Written-Follows w₀ w b b' w' h, stop)
  by_status-Keeps w₀ w b b' w' read_incomplete h stop field = elim stop [ ]
  by_status-Keeps w₀ w b b' w' write_incomplete h stop field = elim stop [ ]
  by_status-Keeps w₀ w b b' w' connection_failed h stop field = elim stop [ ]
  by_status-Keeps w₀ w b b' w' src_closed h stop field = elim stop [ ]
  by_status-Keeps w₀ w b b' w' deny h stop field = elim stop [ ]

  pub start_piece-Follows :
      (w₀ w : World S)
      → Starts w.writer.write_header_state
          (start_piece w).writer.write_header_state
          w.writer
          w.message
      → Follows w₀ w
      → Follows w₀ (start_piece w)
  start_piece-Follows w₀ w s f = record {
    writing = s.writing;
    is_open = f.is_open;
    same_fd = f.same_fd;
    conserved = rw (s.same) f.conserved;
    less = rw (s.same) f.less;
    fewer = f.fewer;
  }
