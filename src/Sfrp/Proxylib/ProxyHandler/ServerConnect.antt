-- ===== src/Sfrp/Proxylib/ProxyHandler/ServerConnect.antt =====
-- How proxy_handler connects to the server.
use switchflow.Base.{
  ℕ, zero, suc, true, ◌&&◌, if◌then◌else◌, Option, none, some, Outcome, ok, fault, ◌>>=◌,
  check_failed,
}
use switchflow.Socketlib.{Status, complete, incomplete, connection_failed, deny}
use switchflow.Socketlib.Os.{Os, Fd}
use switchflow.Socketlib.Connection.{connected, connecting, set_state, set_fd}
use switchflow.Event.{Libevent, set_event, add_event}
use switchflow.Sfrp.Proxylib.StreamHandler.{
  ForwardAddressStatus, stream_does_not_provide_forward_address, forward_address_not_yet_available,
  connection_does_not_provide_forward_address, error_determining_forward_address,
  forward_address_available, StreamHandler,
}
use switchflow.Sfrp.Proxylib.ProxyHandler.World.{
  Connect, at_once, in_progress, refused, Sockets, Side, client, server, World, fd_eq,
  is_not_connected, is_connecting, with_server,
}

module _ {H S Addr : Type 0} (os : Os S) (sockets : Sockets S Addr) (lib : Libevent S) where
  -- What follows `::connect`.
  abbrev pub after_connect : Connect → World H S Addr → Outcome (Status × World H S Addr)
  after_connect at_once w = fault check_failed
  after_connect in_progress w = ok (complete, with_server (λ c. set_state c connecting) w)
  after_connect refused w = ok (connection_failed, w)

  -- The new descriptor goes to the connection, and its event to the poller.
  abbrev pub with_socket : Fd × S → Addr → World H S Addr → Outcome (Status × World H S Addr)
  with_socket (none, s) server_addr w = ok (
    connection_failed,
    record w {
      server_data = (set_fd os w.server_data none s).0;
      system = (set_fd os w.server_data none s).1;
    },
  )
  with_socket (some n, s) server_addr w = do
    let (c, s₁) = set_fd os w.server_data (some n) s
    let (e, s₂) = set_event lib w.server_event (some n) s₁
    s₃ ← add_event lib e (record { ev_read = true; ev_write = true }) 0 s₂
    let (answer, s₄) = sockets.connect s₃ (some n) server_addr
    after_connect answer (record w { server_data = c; server_event = e; system = s₄ })

  unfoldable pub initiate_server_connect : Addr → World H S Addr → Outcome (Status × World H S Addr)
  initiate_server_connect server_addr w = with_socket (sockets.socket w.system) server_addr w

  -- What follows `getsockopt`.
  abbrev pub after_socket_error : Option ℕ → World H S Addr → Status × World H S Addr
  after_socket_error none w = (connection_failed, w)
  after_socket_error (some zero) w = (complete, with_server (λ c. set_state c connected) w)
  after_socket_error (some (suc error)) w = (connection_failed, w)

  unfoldable pub handle_server_connect : World H S Addr → Status × World H S Addr
  handle_server_connect w = after_socket_error (sockets.socket_error w.system w.server_data.fd) w

  unfoldable pub check_for_server_connect : Fd → World H S Addr → Status × World H S Addr
  unfolding handle_server_connect
  check_for_server_connect fd w =
      if fd_eq fd w.server_data.fd && is_connecting w.server_data.state
      then handle_server_connect w
      else (incomplete, w)

  module _ (handler : StreamHandler H S Addr) where
    -- By what the handler of the stream says of the address.
    abbrev pub by_address :
        ForwardAddressStatus → H → World H S Addr → Outcome (Status × World H S Addr)
    by_address stream_does_not_provide_forward_address h w = fault check_failed
    by_address forward_address_not_yet_available h w = ok (complete, w)
    by_address connection_does_not_provide_forward_address h w =
        initiate_server_connect w.server_addr w
    by_address error_determining_forward_address h w = ok (deny, w)
    by_address forward_address_available h w =
        initiate_server_connect (handler.get_forward_address_from_stream h) w

    -- The server is connected to just in time, when the client's stream asks for it.
    unfoldable pub attempt_jit_server_connect :
        Side → World H S Addr → Outcome (Status × World H S Addr)
    attempt_jit_server_connect client w =
        if is_not_connected w.server_data.state
        then by_address (handler.get_forward_address_status w.request_handler.state)
            w.request_handler.state w
        else ok (complete, w)
    attempt_jit_server_connect server w = ok (complete, w)
