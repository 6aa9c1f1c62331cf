-- ===== src/Sfrp/Proxylib/ProxyHandler/Lifecycle.antt =====
-- How a proxy_handler is taken into use and given up.
use switchflow.Base.{
  ℕ, true, not, ◌&&◌, if◌then◌else◌, Option, none, some, Outcome, ok, fault, null_pointer, ◌>>=◌,
  ◌>>◌, check_condition, check_failed,
}
use switchflow.Util.MemoryManager.{allocate_element}
use switchflow.Socketlib.{Status, complete}
use switchflow.Socketlib.Os.{Os, Fd}
use switchflow.Socketlib.Connection as Connection
use switchflow.Socketlib.Connection.{
  Connection, State, not_connected, connected, connecting, read_shut, write_shut, hungup,
  set_ready_to_read, set_ready_to_write, is_ready_to_read, is_ready_to_write, open_for_read,
  open_for_write, set_state, set_fd, non_blocking_read,
}
use switchflow.Event.{Libevent, set_event, pending, add_event}
use switchflow.Sfrp.Proxylib.PipelineQueue.{Queue, empty_queue}
use switchflow.Sfrp.Proxylib.StreamHandler.{StreamHandler}
use switchflow.Sfrp.Proxylib.ProxyHandler.World.{
  Sockets, Side, client, server, World, fd_eq, is_hungup, stream_of, put_stream,
}
use switchflow.Sfrp.Proxylib.ProxyHandler.HandleEvent.{shutdown}

abbrev pub timed_out : Connection → Connection
timed_out c = set_state (record c { fd = none }) hungup

module _ {H S Addr : Type 0} where
  -- The constructor, with the queue that it makes; what stands beside the object is that of `w`.
  unfoldable pub create : ℕ → Addr → Queue → World H S Addr → World H S Addr
  create buffer_length server_addr queue w = record w {
    client_data = Connection.create buffer_length;
    server_data = Connection.create buffer_length;
    client_event = record (w.client_event) { fd = none };
    server_event = record (w.server_event) { fd = none };
    p_request_stream_handler = none;
    p_response_stream_handler = none;
    pipeline_data_queue = queue;
    server_addr = server_addr;
  }

  module _ (os : Os S) (sockets : Sockets S Addr) (lib : Libevent S)
      (handler : StreamHandler H S Addr) where
    -- The object that a handler's pointer leads to is given its stream, and reset.
    abbrev pub reset_stream : Side → Option ℕ → (ℕ → H) → World H S Addr → Outcome (World H S Addr)
    reset_stream side none objects w = fault null_pointer
    reset_stream client (some p) objects w =
        let (h, s) = handler.reset (objects p) (stream_of client w) in
        ok (
          put_stream client h s (record w {
            p_request_stream_handler = some p;
            request_handler = record { has_interface = true; state = objects p };
          }))
    reset_stream server (some p) objects w =
        let (h, s) = handler.reset (objects p) (stream_of server w) in
        ok (
          put_stream server h s (record w {
            p_response_stream_handler = some p;
            response_handler = record { has_interface = true; state = objects p };
          }))

    -- `requests` and `responses` are what the pointers of the managers lead to.
    unfoldable pub reset : (ℕ → H) → (ℕ → H) → World H S Addr → Outcome (World H S Addr)
    reset requests responses w = do
      let w₁ = record w {
        server_data = Connection.reset w.server_data;
        client_data = Connection.reset w.client_data;
      }
      (p, request_handlers) ← allocate_element w₁.request_stream_handlers
      w₂ ← reset_stream client p requests (record w₁ { request_stream_handlers = request_handlers })
      (q, response_handlers) ← allocate_element w₂.response_stream_handlers
      w₃ ←
          reset_stream server q responses
            (record w₂ { response_stream_handlers = response_handlers })
      ok (record w₃ { pipeline_data_queue = empty_queue w₃.pipeline_data_queue })

    unfoldable pub add_client : Fd → World H S Addr → Outcome (Status × World H S Addr)
    add_client client_socket w = do
      check_condition (fd_eq w.client_data.fd none)
      let (c, s₁) = set_fd os w.client_data client_socket w.system
      let (e, s₂) = set_event lib w.client_event client_socket s₁
      s₃ ← add_event lib e (record { ev_read = true; ev_write = true }) 0 s₂
      ok (complete, record w { client_data = set_state c connected; client_event = e; system = s₃ })

  module _ (sockets : Sockets S Addr) (lib : Libevent S) where
    -- The side that the descriptor belongs to is closed.
    abbrev pub time_out : Fd → World H S Addr → Outcome (World H S Addr)
    time_out fd w =
        if fd_eq w.server_data.fd fd
        then (check_condition (not (pending lib w.server_event w.system))
            >> ok (record w {
              server_data = timed_out w.server_data;
              system = sockets.close w.system fd;
            }))
        else if fd_eq w.client_data.fd fd
        then (check_condition (not (pending lib w.client_event w.system))
            >> ok (record w {
              client_data = timed_out w.client_data;
              system = sockets.close w.system fd;
            }))
        else fault check_failed

    unfoldable pub handle_timeout : Fd → World H S Addr → Outcome (World H S Addr)
    unfolding shutdown
    handle_timeout fd w = do
      w₁ ← time_out fd w
      if is_hungup w₁.server_data.state && is_hungup w₁.client_data.state
          then shutdown sockets lib w₁
          else ok w₁
