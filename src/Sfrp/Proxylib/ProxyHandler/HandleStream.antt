-- ===== src/Sfrp/Proxylib/ProxyHandler/HandleStream.antt =====
-- `proxy_handler::handle_stream`: one direction of the proxy, until nothing is left to do.
use switchflow.Base.{
  ℕ, if◌then◌else◌, Outcome, ok, ◌>>=◌, ◌>>◌, check_condition, Turn, again, finish, loop,
}
use switchflow.Socketlib.{
  Status, complete, incomplete, read_incomplete, write_incomplete, connection_failed, src_closed,
  dest_closed, deny,
}
use switchflow.Socketlib.Os.{Os}
use switchflow.Socketlib.Connection.{read_shut, is_ready_to_read, set_state, non_blocking_read}
use switchflow.Event.{Libevent}
use switchflow.Sfrp.Proxylib.StreamHandler.{StreamHandler}
use switchflow.Sfrp.Proxylib.ProxyHandler.World.{
  Sockets, Side, World, is_readable, is_done, src_data, put_src, handler_of, p_handler_of,
  stream_of, put_stream, null_check,
}
use switchflow.Sfrp.Proxylib.ProxyHandler.ServerConnect.{attempt_jit_server_connect}

module _ {H S Addr : Type 0} where
  -- What follows `attempt_jit_server_connect`, by the status of `process_data`.
  abbrev pub after_process :
      Side → Status → World H S Addr → Turn (World H S Addr) (Status × World H S Addr)
  after_process side complete w =
      if is_ready_to_read (src_data side w)
      then again w
      else finish (if is_done (src_data side w).state then complete else incomplete, w)
  after_process side incomplete w = finish (incomplete, w)
  after_process side connection_failed w = finish (connection_failed, w)
  after_process side src_closed w =
      finish (complete, put_src side (set_state (src_data side w) read_shut) w)
  after_process side dest_closed w = finish (complete, w)
  after_process side deny w = finish (deny, w)
  after_process side read_incomplete w = again w
  after_process side write_incomplete w = again w

  -- The connect may end the loop before the status of `process_data` is looked at.
  abbrev pub after_connect_attempt :
      Side → Status → Status × World H S Addr → Turn (World H S Addr) (Status × World H S Addr)
  after_connect_attempt side status (complete, w) = after_process side status w
  after_connect_attempt side status (connect_status, w) = finish (connect_status, w)

  module _ (os : Os S) (sockets : Sockets S Addr) (lib : Libevent S)
      (handler : StreamHandler H S Addr) where
    -- The source is read unless it is not connected, or not yet.
    unfoldable pub read_source : Side → World H S Addr → Outcome (World H S Addr)
    read_source side w =
        if is_readable (src_data side w).state
        then (non_blocking_read os (src_data side w) w.system >>= λ (status, c, s).
            ok (put_src side c (record w { system = s })))
        else ok w

    unfoldable pub process : Side → World H S Addr → Outcome (Status × World H S Addr)
    process side w = do
      null_check (p_handler_of side w)
      check_condition (handler_of side w).has_interface
      (status, h, s) ← handler.process_data (handler_of side w).state (stream_of side w)
      ok (status, put_stream side h s w)

    unfoldable pub stream_round :
        Side → World H S Addr → Outcome (Turn (World H S Addr) (Status × World H S Addr))
    stream_round side w = do
      w₁ ← read_source side w
      (status, w₂) ← process side w₁
      r ← attempt_jit_server_connect os sockets lib handler side w₂
      ok (after_connect_attempt side status r)

    unfoldable pub handle_stream : ℕ → Side → World H S Addr → Outcome (Status × World H S Addr)
    handle_stream fuel side w = loop fuel (stream_round side) w
