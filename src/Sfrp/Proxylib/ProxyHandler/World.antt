-- ===== src/Sfrp/Proxylib/ProxyHandler/World.antt =====
-- The state of proxy_handler: the two connections of a client and its server, and the handlers of the
-- streams between them. What the handler's pointers lead to stands beside it: the stream handlers, the
-- managers that they and the proxy handler itself come from, and the system.
use switchflow.Base.{
  ℕ, Bool, true, false, not, ◌||◌, ◌==◌, if◌then◌else◌, Option, none, some, Outcome, ok, fault,
  null_pointer, check_failed,
}
use switchflow.Util.MemoryManager.{MemoryManager}
use switchflow.Socketlib.Os.{Fd}
use switchflow.Socketlib.Connection.{
  Connection, State, not_connected, connecting, read_shut, hungup, set_ready_to_read,
  set_ready_to_write,
}
use switchflow.Event.{Event}
use switchflow.Sfrp.Proxylib.PipelineQueue.{Queue}
use switchflow.Sfrp.Proxylib.StreamHandler.{Stream}

-- The calls of the system that proxy_handler makes itself. `connect` fails with EINPROGRESS, which is
-- `in_progress`, or otherwise, which is `refused`; `socket_error` is `getsockopt` of SO_ERROR, `none`
-- if that fails, and `shutdown_read` is `shutdown` with SHUT_RD.
pub data Connect : Type 0 where
  at_once : Connect
  in_progress : Connect
  refused : Connect

pub record Sockets (S Addr : Type 0) : Type 0 where
  pub socket : S → Fd × S
  pub connect : S → Fd → Addr → Connect × S
  pub socket_error : S → Fd → Option ℕ
  pub shutdown_read : S → Fd → S
  pub close : S → Fd → S

-- Which of its connections a stream comes from.
pub data Side : Type 0 where
  client : Side
  server : Side

-- A stream handler, and whether it has been given its `proxy_stream_interface`.
pub record Handler (H : Type 0) : Type 0 where
  pub has_interface : Bool
  pub state : H

pub record World (H S Addr : Type 0) : Type 0 where
  pub client_data : Connection
  pub server_data : Connection
  pub client_event : Event
  pub server_event : Event
  pub p_request_stream_handler : Option ℕ
  pub p_response_stream_handler : Option ℕ
  pub pipeline_data_queue : Queue
  pub server_addr : Addr
  pub this : ℕ
  pub request_handler : Handler H
  pub response_handler : Handler H
  pub proxy_handlers : MemoryManager
  pub request_stream_handlers : MemoryManager
  pub response_stream_handlers : MemoryManager
  pub system : S

abbrev pub fd_eq : Fd → Fd → Bool
fd_eq none none = true
fd_eq none (some n) = false
fd_eq (some m) none = false
fd_eq (some m) (some n) = m == n

abbrev pub is_not_connected : State → Bool
is_not_connected not_connected = true
is_not_connected _ = false

abbrev pub is_connecting : State → Bool
is_connecting connecting = true
is_connecting _ = false

abbrev pub is_hungup : State → Bool
is_hungup hungup = true
is_hungup _ = false

-- Where a read of the source makes sense.
abbrev pub is_readable : State → Bool
is_readable st = not (is_not_connected st || is_connecting st)

-- The source is done.
abbrev pub is_done : State → Bool
is_done read_shut = true
is_done hungup = true
is_done _ = false

abbrev pub null_check : Option ℕ → Outcome (Unit {0})
null_check none = fault null_pointer
null_check (some p) = ok tt

module _ {H S Addr : Type 0} where
  abbrev pub src_data : Side → World H S Addr → Connection
  src_data client w = w.client_data
  src_data server w = w.server_data

  abbrev pub put_src : Side → Connection → World H S Addr → World H S Addr
  put_src client c w = record w { client_data = c }
  put_src server c w = record w { server_data = c }

  abbrev pub handler_of : Side → World H S Addr → Handler H
  handler_of client w = w.request_handler
  handler_of server w = w.response_handler

  abbrev pub p_handler_of : Side → World H S Addr → Option ℕ
  p_handler_of client w = w.p_request_stream_handler
  p_handler_of server w = w.p_response_stream_handler

  -- `request_stream_` and `response_stream_`.
  abbrev pub stream_of : Side → World H S Addr → Stream S
  stream_of client w = record {
    src = w.client_data;
    dest = w.server_data;
    queue = w.pipeline_data_queue;
    system = w.system;
  }
  stream_of server w = record {
    src = w.server_data;
    dest = w.client_data;
    queue = w.pipeline_data_queue;
    system = w.system;
  }

  abbrev pub put_stream : Side → H → Stream S → World H S Addr → World H S Addr
  put_stream client h s w = record w {
    request_handler = record (w.request_handler) { state = h };
    client_data = s.src;
    server_data = s.dest;
    pipeline_data_queue = s.queue;
    system = s.system;
  }
  put_stream server h s w = record w {
    response_handler = record (w.response_handler) { state = h };
    server_data = s.src;
    client_data = s.dest;
    pipeline_data_queue = s.queue;
    system = s.system;
  }

  abbrev pub with_client : (Connection → Connection) → World H S Addr → World H S Addr
  with_client f w = record w { client_data = f w.client_data }

  abbrev pub with_server : (Connection → Connection) → World H S Addr → World H S Addr
  with_server f w = record w { server_data = f w.server_data }

  unfoldable pub handle_pollin : Fd → World H S Addr → Outcome (World H S Addr)
  handle_pollin fd w =
      if fd_eq fd w.client_data.fd
      then ok (with_client (λ c. set_ready_to_read c true) w)
      else if fd_eq fd w.server_data.fd
      then ok (with_server (λ c. set_ready_to_read c true) w)
      else fault check_failed

  unfoldable pub handle_pollout : Fd → World H S Addr → Outcome (World H S Addr)
  handle_pollout fd w =
      if fd_eq fd w.client_data.fd
      then ok (with_client (λ c. set_ready_to_write c true) w)
      else if fd_eq fd w.server_data.fd
      then ok (with_server (λ c. set_ready_to_write c true) w)
      else fault check_failed
