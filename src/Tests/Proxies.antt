-- ===== src/Tests/Proxies.antt =====
-- A run of the proxy, over the system of System with the handlers of Handlers.
mod System
mod Handlers
use switchflow.Base.{
  ℕ, ◌≡◌, refl, true, false, none, some, [], ◌∷◌, codes, loop, Returns, ok, fault, out_of_fuel,
}
use switchflow.Util.Buffer.{Buffer, fully_written}
use switchflow.Util.MemoryManager.{MemoryManager}
use switchflow.Socketlib.Connection.{Connection, connected, not_connected, connecting}
use switchflow.Event.{Events}
use switchflow.Sfrp.Proxylib.ProxyHandler.World.{client, server, World}
use switchflow.Sfrp.Proxylib.ProxyHandler.HandleEvent.{handle_event, no_return}
use switchflow.Sfrp.Proxylib.ProxyHandler.Invariant.{Plan}
use switchflow.Sfrp.Proxylib.ProxyHandler.Stalls.{LeavesUnwritten, handle_stream-stalls}
use switchflow.Sfrp.Proxylib.ProxyHandler.HandleStream.{handle_stream}
use switchflow.Sfrp.Proxylib.StreamHandler.{StreamHandler}
use switchflow.Socketlib.{complete}
use switchflow.Tests.Proxies.System.{Net, net, net_sockets, net_events}
use switchflow.Tests.Proxies.Handlers.{counter}

abbrev room : Buffer
room = record {
  p_buffer = some (codes "________");
  using_static_buffer = false;
  working_length = 0;
  process_position = 0;
  write_end_position = 0;
  write_position = 0;
}

abbrev one_out : MemoryManager
one_out = record { free_data_stack = 7 ∷ []; current_free_position = 1 }

abbrev plan : Plan
plan = record { fuel = 15; proxies = one_out; requests = one_out; responses = one_out }

-- A client has just connected, and six bytes of its request are waiting.
abbrev accepted : World ℕ Net ℕ
accepted = record {
  client_data = record {
    ready_to_read = false;
    ready_to_write = false;
    fd = some 3;
    buffer = room;
    state = connected;
    ip_addr = [];
  };
  server_data = record {
    ready_to_read = false;
    ready_to_write = false;
    fd = none;
    buffer = room;
    state = not_connected;
    ip_addr = [];
  };
  client_event = record { fd = some 3; id = 0 };
  server_event = record { fd = none; id = 1 };
  p_request_stream_handler = some 7;
  p_response_stream_handler = some 7;
  pipeline_data_queue = record { active_queue = []; free_list = [] };
  server_addr = 0;
  this = 7;
  request_handler = record { has_interface = true; state = 0 };
  response_handler = record { has_interface = true; state = 0 };
  proxy_handlers = one_out;
  request_stream_handlers = one_out;
  response_stream_handlers = one_out;
  system = record {
    taken = [];
    waiting = codes "GET / ";
    client_pending = true;
    server_pending = false;
  };
}

abbrev readable : Events
readable = record { ev_read = true; ev_write = false }

-- The server is being connected to, and the bytes that were read wait for it.
handle_event-accepted :
    Returns
      (λ a. (a.0 ≡ no_return) × (a.1.server_data.state ≡ connecting) × (a.1.system.waiting ≡ []))
      (handle_event net net_sockets net_events counter 15 (some 3) readable accepted)
unfolding handle_event loop switchflow.Sfrp.Proxylib.ProxyHandler.World.handle_pollin
    switchflow.Sfrp.Proxylib.ProxyHandler.ServerConnect.check_for_server_connect
    switchflow.Sfrp.Proxylib.ProxyHandler.HandleStream.handle_stream
    switchflow.Sfrp.Proxylib.ProxyHandler.HandleStream.stream_round
    switchflow.Sfrp.Proxylib.ProxyHandler.HandleStream.read_source
    switchflow.Sfrp.Proxylib.ProxyHandler.HandleStream.process
    switchflow.Sfrp.Proxylib.ProxyHandler.ServerConnect.attempt_jit_server_connect
    switchflow.Sfrp.Proxylib.ProxyHandler.ServerConnect.initiate_server_connect
    switchflow.Sfrp.Proxylib.ProxyHandler.HandleEvent.await_events switchflow.Event.add_event
    switchflow.Event.del_event switchflow.Socketlib.Connection.non_blocking_read fully_written
handle_event-accepted = (refl {a = no_return}, refl {a = connecting}, refl {a = []})

-- A handler of responses that no request waits for, and a server that sends one.
abbrev idle : StreamHandler ℕ Net ℕ
idle = record counter { process_data = λ h r. ok (complete, h, r) }

abbrev unasked : World ℕ Net ℕ
unasked = record accepted {
  server_data = record {
    ready_to_read = true;
    ready_to_write = true;
    fd = some 4;
    buffer = record room { working_length = 3; write_end_position = 3 };
    state = connected;
    ip_addr = [];
  };
}

unasked-LeavesUnwritten : LeavesUnwritten idle unasked
unfolding fully_written
unasked-LeavesUnwritten = record {
  readable = refl;
  ready = refl;
  unwritten = refl;
  p = 7;
  has_handler = refl;
  has_interface = refl;
  answers = refl;
}

handle_stream-stalls_example :
    handle_stream net net_sockets net_events idle 15 server unasked ≡ fault out_of_fuel
handle_stream-stalls_example =
    handle_stream-stalls net net_sockets net_events idle unasked 15 unasked-LeavesUnwritten
