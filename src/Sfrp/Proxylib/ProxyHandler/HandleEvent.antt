-- ===== src/Sfrp/Proxylib/ProxyHandler/HandleEvent.antt =====
-- `proxy_handler::handle_event`, with what it does at the end of a connection.
use switchflow.Base.{
  ℕ, Bool, true, false, not, ◌&&◌, ◌||◌, if◌then◌else◌, Option, none, some, Outcome, ok, ◌>>=◌,
  ◌>>◌, check_condition,
}
use switchflow.Util.MemoryManager.{MemoryManager, release_element}
use switchflow.Socketlib.{Status, complete, incomplete, deny}
use switchflow.Socketlib.Os.{Os, Fd}
use switchflow.Socketlib.Connection.{
  Connection, is_ready_to_read, is_ready_to_write, open_for_read, open_for_write,
}
use switchflow.Event.{Events, Event, Libevent, del_event, add_event}
use switchflow.Sfrp.Proxylib.StreamHandler.{StreamHandler}
use switchflow.Sfrp.Proxylib.ProxyHandler.World.{
  Sockets, Side, client, server, World, handle_pollin, handle_pollout,
}
use switchflow.Sfrp.Proxylib.ProxyHandler.ServerConnect.{check_for_server_connect}
use switchflow.Sfrp.Proxylib.ProxyHandler.HandleStream.{handle_stream}

-- What the call returns: -1, 0, or nothing, which is undefined, although it is declared to.
pub data Result : Type 0 where
  minus_one : Result
  zero_result : Result
  no_return : Result

-- What a connection waits for.
abbrev pub events_of : Connection → Events
events_of c = record {
  ev_read = not (is_ready_to_read c) && open_for_read c.state;
  ev_write = not (is_ready_to_write c) && open_for_write c.state;
}

abbrev pub any_event : Events → Bool
any_event ev = ev.ev_read || ev.ev_write

abbrev pub is_some : Option ℕ → Bool
is_some none = false
is_some (some p) = true

abbrev pub release : Option ℕ → MemoryManager → Outcome MemoryManager
release none m = ok m
release (some p) m = release_element p m

-- A descriptor that is not -1 is closed, and its event deleted.
abbrev pub close_fd : {S Addr : Type 0} → Sockets S Addr → Libevent S → Event → Fd → S → Outcome S
close_fd sockets lib e none s = ok s
close_fd sockets lib e (some n) s = del_event lib e s >>= λ s'. ok (sockets.close s' (some n))

-- An event with nothing to wait for is left alone.
abbrev pub add_if_any : {S : Type 0} → Libevent S → Event → Events → S → Outcome S
add_if_any lib e events s = if any_event events then add_event lib e events 0 s else ok s

module _ {H S Addr : Type 0} where
  module _ (sockets : Sockets S Addr) (lib : Libevent S) where
    unfoldable pub shutdown : World H S Addr → Outcome (World H S Addr)
    shutdown w = do
      s₁ ← close_fd sockets lib w.client_event w.client_data.fd w.system
      s₂ ← close_fd sockets lib w.server_event w.server_data.fd s₁
      proxies ←
          if is_some w.p_request_stream_handler || is_some w.p_response_stream_handler
          then release_element w.this w.proxy_handlers
          else ok w.proxy_handlers
      requests ← release w.p_request_stream_handler w.request_stream_handlers
      responses ← release w.p_response_stream_handler w.response_stream_handlers
      ok (record w {
        proxy_handlers = proxies;
        request_stream_handlers = requests;
        response_stream_handlers = responses;
        p_request_stream_handler = none;
        p_response_stream_handler = none;
        system = s₂;
      })

    abbrev pub shutdown_request : World H S Addr → World H S Addr
    shutdown_request w = record w { system = sockets.shutdown_read w.system w.client_data.fd }

    abbrev pub end_with : Result → World H S Addr → Outcome (Result × World H S Addr)
    end_with r w = shutdown w >>= λ w'. ok (r, w')

    unfoldable pub await_events : World H S Addr → Outcome (Result × World H S Addr)
    await_events w = do
      let client_ev = events_of w.client_data
      let server_ev = events_of w.server_data
      check_condition (
          any_event client_ev
          || (any_event server_ev
              || not (open_for_read w.server_data.state || open_for_write w.server_data.state)))
      s₁ ← add_if_any lib w.client_event client_ev w.system
      s₂ ← add_if_any lib w.server_event server_ev s₁
      ok (no_return, record w { system = s₂ })

    -- What follows the second call of the server's stream, where the request was denied.
    abbrev pub after_denied : Status × World H S Addr → Outcome (Result × World H S Addr)
    after_denied (complete, w) = end_with zero_result w
    after_denied (deny, w) = end_with minus_one w
    after_denied (_, w) = await_events w

  module _ (os : Os S) (sockets : Sockets S Addr) (lib : Libevent S)
      (handler : StreamHandler H S Addr) (fuel : ℕ) where
    abbrev pub stream : Side → World H S Addr → Outcome (Status × World H S Addr)
    stream side w = handle_stream os sockets lib handler fuel side w

    abbrev pub after_request : Status × World H S Addr → Outcome (Result × World H S Addr)
    after_request (deny, w) =
        stream server (shutdown_request sockets lib w) >>= λ r. after_denied sockets lib r
    after_request (_, w) = await_events sockets lib w

    abbrev pub after_response : Status × World H S Addr → Outcome (Result × World H S Addr)
    after_response (complete, w) = end_with sockets lib zero_result w
    after_response (deny, w) = end_with sockets lib minus_one w
    after_response (_, w) = stream client w >>= λ r. after_request r

    abbrev pub after_connect_check : Status × World H S Addr → Outcome (Result × World H S Addr)
    after_connect_check (complete, w) = stream server w >>= λ r. after_response r
    after_connect_check (incomplete, w) = stream server w >>= λ r. after_response r
    after_connect_check (_, w) = end_with sockets lib minus_one w

    abbrev pub notified : Fd → Events → World H S Addr → Outcome (World H S Addr)
    notified fd revents w = do
      w₁ ← if revents.ev_write then handle_pollout fd w else ok w
      if revents.ev_read then handle_pollin fd w₁ else ok w₁

    unfoldable pub handle_event : Fd → Events → World H S Addr → Outcome (Result × World H S Addr)
    handle_event fd revents w = do
      w₁ ← notified fd revents w
      after_connect_check (check_for_server_connect os sockets lib fd w₁)
