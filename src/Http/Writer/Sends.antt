-- ===== src/Http/Writer/Sends.antt =====
-- Every call of `write_header` returns, and what it sends is, piece by piece, the rest of the header.
mod Start
mod Written
use Prim.Derive.{subst}
use switchflow.Base.{
  ℕ, ◌+◌, ◌≤◌, ◌<◌, ◌≡◌, refl, sym, ap, ◌∙◌, ◌==◌, inl, inr, false, [], ◌++◌, append_assoc,
  append-nil, arith, Bytes, length, length-append, drop_all, Bool-cases, ok, Turn, again, finish,
  Returns, Keeps, Returns-eq-ok, Keeps-le, loop-Returns,
}
use switchflow.Util.Buffer.{Buffer}
use switchflow.Util.Buffer.Unwritten.{unwritten, unwritten-nil, IsOrdered, length-unwritten}
use switchflow.Http.Message.{MessageBuffer}
use switchflow.Socketlib.{
  Status, complete, incomplete, dest_closed, read_incomplete, write_incomplete, connection_failed,
  src_closed, deny,
}
use switchflow.Socketlib.Os.{Os, Streams, IsPosix}
use switchflow.Socketlib.Connection as Connection
use switchflow.Socketlib.Connection.{open_for_write, is_ready_to_write, non_blocking_write}
use switchflow.Socketlib.Connection.Write as Write
use switchflow.Socketlib.Connection.Write.{non_blocking_write-Delivers}
use switchflow.Http.Writer.{
  State, start_line_token1, start_line_seperator1, start_line_token2, start_line_seperator2,
  start_line_token3, start_line_end, field_name, field_value_seperator, field_value,
  field_seperator, end_fields, Writer, World, start_state, start_piece, after_piece, by_status,
  piece_round, write_header,
}
use switchflow.Http.Writer.Pieces.{
  behind, piece, rank, IsWriting, left, remaining, Moved, Put, Piece,
}
use switchflow.Http.Writer.Pieces.Strings.{
  Piece-line1, Piece-line2, Piece-line3, Piece-seperator1, Piece-seperator2, Piece-line_end,
  Piece-value_seperator, Piece-field_seperator, Piece-end,
}
use switchflow.Http.Writer.Pieces.Fields.{Piece-field_name, Piece-field_value}
use switchflow.Http.Writer.Pieces.Advance.{Advances, after_piece-Advances}
use switchflow.Http.Writer.Sends.Start.{Piece-of, start_state-Starts}
pub use switchflow.Http.Writer.Sends.Written.{Sends, Follows, rest}
use switchflow.Http.Writer.Sends.Written.{
  rounds, coming, length-rest, by_status-Keeps, start_piece-Follows, Moved-shorter,
}

module _ {S : Type 0} (os : Os S) (streams : Streams S) (posix : IsPosix streams os) where
  open streams use {IsOpen, interrupts}

  piece_round-Keeps :
      (fuel : ℕ) (w₀ w : World S)
      → length (rest os streams w₀) + interrupts w₀.system < fuel
      → Follows os streams w₀ w
      → Keeps
          (Follows os streams w₀)
          (Sends os streams w₀)
          (rounds os streams)
          ((rounds os streams) w)
          (piece_round os fuel w)
  unfolding piece_round
  piece_round-Keeps fuel w₀ w enough f =
      let s = start_state-Starts w.writer.write_header_state w.writer w.message f.writing in
      let u = start_piece w in
      let fu = start_piece-Follows os streams w₀ w s f in
      let p = Piece-of u.writer.write_header_state u.writer u.message s.writing s.field in
      let out : Connection.World S = record {
        dest = u.dest;
        buffer = p.buffer;
        system = u.system;
      } in
      let less = fu.less in
      let fewer = fu.fewer in
      let size = length-unwritten p.buffer p.is_ordered in
      let part : length (rest os streams u)
          ≡ length (unwritten p.buffer) + length (coming os streams u) =
        length-rest os streams u (unwritten p.buffer) p.is_piece in
      let bound : Write.rounds os streams out < fuel = omega arith in
      let (a, done, (post, stop)) =
        Returns-eq-ok (Write.Delivers os streams out) (non_blocking_write os fuel out) (
          non_blocking_write-Delivers os streams posix fuel out
            (record { buffer = p.is_ordered; is_open = fu.is_open }) bound) in
      let moved : Moved p.buffer a.1.buffer = (post.ready.buffer, post.same_buffer) in
      let (q, there, put) = p.puts a.1.buffer moved in
      rw (p.gets, done, there)
        (Keeps-le (Follows os streams w₀) (Sends os streams w₀) (rounds os streams)
          ((rounds os streams) u) ((rounds os streams) w) _ s.rank_le
          (by_status-Keeps os streams w₀ u p.buffer a.1.buffer
            (record { writer = q.0; message = q.1; dest = a.1.dest; system = a.1.system }) a.0
            (record {
              put = put;
              is_piece = p.is_piece;
              follows = fu;
              is_open = post.ready.is_open;
              same_fd = post.same_fd;
              conserved = post.conserved;
              less = Moved-shorter p.buffer a.1.buffer p.is_ordered moved post.forwards;
              fewer = post.fewer;
            })
            stop s.field))

  -- In whatever state a call finds the writer, with ordered buffers, an open connection and enough
  -- fuel, it returns: COMPLETE, and all that was left to write has been sent; or INCOMPLETE or
  -- DEST_CLOSED, and what has been sent and what is left from the new state on are together what
  -- they were, so that the next call goes on where this one stopped.
  pub write_header-Sends :
      (fuel : ℕ) (w : World S)
      → IsWriting w.writer.write_header_state w.writer w.message
      → IsOpen w.system w.dest.fd
      → length (rest os streams w) + interrupts w.system < fuel
      → (rounds os streams) w < fuel
      → Returns (Sends os streams w) (write_header os fuel w)
  unfolding write_header
  write_header-Sends fuel w v o enough h =
      loop-Returns (Follows os streams w) (Sends os streams w) (rounds os streams)
        (piece_round os fuel) (λ u f. piece_round-Keeps fuel w u enough f) fuel w h
        (record {
          writing = v;
          is_open = o;
          same_fd = refl;
          conserved = refl;
          less = omega arith;
          fewer = omega arith;
        })
