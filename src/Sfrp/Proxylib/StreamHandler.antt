-- ===== src/Sfrp/Proxylib/StreamHandler.antt =====
-- sfrp/proxylib/i_proxy_stream_handler.hpp and proxy_stream_interface.{hpp,cpp}: what a handler of a
-- stream offers to the proxy, and what it reaches of it. Every application implements the handler, so
-- that it is a parameter, over a state of any type.
use switchflow.Base.{
  ℕ, Bool, Option, Bytes, Outcome, ok, fault, null_pointer, check_failed, none, some, ◌>>=◌,
}
use switchflow.Util.Buffer.{Buffer}
use switchflow.Socketlib.{Status}
use switchflow.Socketlib.Os.{Os}
use switchflow.Socketlib.Connection as Connection
use switchflow.Socketlib.Connection.{Connection, State, not_connected, non_blocking_write}
use switchflow.Sfrp.Proxylib.PipelineQueue.{Queue}

pub data ForwardAddressStatus : Type 0 where
  stream_does_not_provide_forward_address : ForwardAddressStatus
  forward_address_not_yet_available : ForwardAddressStatus
  connection_does_not_provide_forward_address : ForwardAddressStatus
  error_determining_forward_address : ForwardAddressStatus
  forward_address_available : ForwardAddressStatus

-- A `proxy_stream_interface` with what it points to: the connections that the stream comes from and
-- goes to, and the requests in flight.
pub record Stream (S : Type 0) : Type 0 where
  pub src : Connection
  pub dest : Connection
  pub queue : Queue
  pub system : S

-- `process_data` is handed the read buffer of `src`.
pub record StreamHandler (H S Addr : Type 0) : Type 0 where
  pub process_data : H → Stream S → Outcome (Status × H × Stream S)
  pub get_forward_address_status : H → ForwardAddressStatus
  pub get_forward_address_from_stream : H → Addr
  pub reset : H → Stream S → H × Stream S

-- The check is the wrong way round: it fails wherever there is a connection to ask.
abbrev pub is_dest_disconnected : Option Connection → Outcome Bool
is_dest_disconnected none = fault null_pointer
is_dest_disconnected (some dest) = fault check_failed

module _ {S : Type 0} (os : Os S) where
  unfoldable pub forward : ℕ → Buffer → Stream S → Outcome (Status × Buffer × Stream S)
  forward fuel buf s =
      non_blocking_write os fuel (record { dest = s.dest; buffer = buf; system = s.system })
      >>= λ (status, w). ok (status, w.buffer, record s { dest = w.dest; system = w.system })

  abbrev pub flush : Stream S → Stream S
  flush s = record s { system = Connection.flush os s.dest s.system }

  abbrev pub get_src_address : Stream S → Option Bytes
  get_src_address s = Connection.get_ip_addr os s.src s.system

  abbrev pub get_dest_address : Stream S → Option Bytes
  get_dest_address s = Connection.get_ip_addr os s.dest s.system
