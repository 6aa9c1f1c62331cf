-- ===== src/Sfrp/Proxylib/ProxyHandler/Stalls.antt =====
-- handle_stream with a handler that answers COMPLETE and leaves bytes in the buffer.
use switchflow.Base.{
  ℕ, zero, suc, ◌≡◌, refl, true, false, some, Outcome, ok, fault, out_of_fuel, Turn, again, loop,
}
use switchflow.Util.Buffer.{fully_written}
use switchflow.Socketlib.{complete}
use switchflow.Socketlib.Os.{Os}
use switchflow.Socketlib.Connection.{is_ready_to_read, non_blocking_read}
use switchflow.Event.{Libevent}
use switchflow.Sfrp.Proxylib.StreamHandler.{StreamHandler}
use switchflow.Sfrp.Proxylib.ProxyHandler.World.{Sockets, server, World, is_readable, stream_of}
use switchflow.Sfrp.Proxylib.ProxyHandler.ServerConnect.{attempt_jit_server_connect}
use switchflow.Sfrp.Proxylib.ProxyHandler.HandleStream.{
  read_source, process, stream_round, handle_stream,
}

-- The server has sent more than what stands in the buffer, of which some is unwritten, and
-- `process_data` answers COMPLETE and changes nothing.
pub record LeavesUnwritten {H S Addr : Type 0} (handler : StreamHandler H S Addr)
    (w : World H S Addr) : Type 0 where
  pub readable : is_readable w.server_data.state ≡ true
  pub ready : is_ready_to_read w.server_data ≡ true
  pub unwritten : fully_written w.server_data.buffer ≡ false
  pub p : ℕ
  pub has_handler : w.p_response_stream_handler ≡ some p
  pub has_interface : w.response_handler.has_interface ≡ true
  pub answers :
      handler.process_data w.response_handler.state (stream_of server w)
      ≡ ok (complete, w.response_handler.state, stream_of server w)

module _ {H S Addr : Type 0} (os : Os S) (sockets : Sockets S Addr) (lib : Libevent S)
    (handler : StreamHandler H S Addr) where
  loop-again :
      {A B : Type 0} (body : A → Outcome (Turn A B)) (s : A) (fuel : ℕ)
      → body s ≡ ok (again s)
      → loop fuel body s ≡ fault out_of_fuel
  unfolding loop
  loop-again body s zero e = refl
  loop-again body s (suc fuel) e = rw e (loop-again body s fuel e)

  stream_round-again :
      (w : World H S Addr)
      → LeavesUnwritten handler w
      → stream_round os sockets lib handler server w ≡ ok (again w)
  unfolding stream_round read_source process attempt_jit_server_connect non_blocking_read
  stream_round-again w l =
      rw (l.readable, l.ready, l.unwritten, l.has_handler, l.has_interface, l.answers, l.ready) refl

  -- Where the server's connection is ready to be read from, its buffer holds something unwritten, and
  -- `process_data` answers COMPLETE and changes nothing, `handle_stream` of the responses does not
  -- return, whatever its fuel.
  pub handle_stream-stalls :
      (w : World H S Addr) (fuel : ℕ)
      → LeavesUnwritten handler w
      → handle_stream os sockets lib handler fuel server w ≡ fault out_of_fuel
  unfolding handle_stream
  handle_stream-stalls w fuel l =
      loop-again (stream_round os sockets lib handler server) w fuel (stream_round-again w l)
