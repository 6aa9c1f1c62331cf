-- ===== src/Sfrp/Proxylib/ProxyHandler/Invariant.antt =====
-- The invariant of a proxy_handler in use, and what it waits for.
use switchflow.Base.{
  ℕ, ◌+◌, ◌*◌, ◌^◌, ◌<◌, ◌≤◌, ◌≡◌, refl, true, false, ◌||◌, ◌⊎◌, arith, length, if◌then◌else◌,
  Bool-cases, inl, inr,
}
use switchflow.Util.Buffer.{fully_written}
use switchflow.Util.MemoryManager.{MemoryManager}
use switchflow.Socketlib.Connection.{
  Connection, State, is_ready_to_read, open_for_read, open_for_write, not_connected, connected,
  connecting, read_shut, write_shut, hungup,
}
use switchflow.Socketlib.Connection.Read.{IsReader}
use switchflow.Socketlib.Connection.Progress.{Lessens, load}
use switchflow.Event.{is_open}
use switchflow.Sfrp.Proxylib.ProxyHandler.World.{
  Side, client, server, World, is_not_connected, is_readable, src_data,
}
use switchflow.Sfrp.Proxylib.ProxyHandler.HandleEvent.{is_some}
use switchflow.Sfrp.Proxylib.ProxyHandler.Contract.{Environment}

-- An element can be given back.
abbrev pub CanRelease : MemoryManager → Type 0
CanRelease m =
    (0 < m.current_free_position)
    × (m.current_free_position ≤ length m.free_data_stack)
    × (length m.free_data_stack < 2 ^ 32)

-- The fuel of each loop, and the managers that the proxy handler and its stream handlers came from.
pub record Plan : Type 0 where
  pub fuel : ℕ
  pub proxies : MemoryManager
  pub requests : MemoryManager
  pub responses : MemoryManager

-- Once it is open, the server is not ready for reading, though it is open for it.
abbrev pub ServerWaits : Connection → Type 0
ServerWaits c =
    (open_for_read c.state || open_for_write c.state) ≡ true
    → (c.ready_to_read ≡ false) × (open_for_read c.state ≡ true)

open_readable : (st : State) → open_for_read st ≡ true → is_readable st ≡ true
open_readable connected e = refl
open_readable write_shut e = refl
open_readable not_connected e = cc
open_readable connecting e = cc
open_readable read_shut e = refl
open_readable hungup e = refl

pub ready-readable : (c : Connection) → is_ready_to_read c ≡ true → is_readable c.state ≡ true
ready-readable c e = open_readable c.state (ground arith)

pub IsReader-same : (c c' : Connection) → c'.buffer ≡ c.buffer → IsReader c → IsReader c'
IsReader-same c c' e r = record {
  valid = rw e r.valid;
  owned = rw e r.owned;
  raw = r.raw;
  has_raw = rw e r.has_raw;
}

module _ {H S Addr : Type 0} (e : Environment H S Addr) where
  open e use {streams, Valid}

  -- What a shutdown gives back.
  abbrev pub IsEndable : Plan → World H S Addr → Type 0
  IsEndable plan w =
      (w.proxy_handlers ≡ plan.proxies)
      × (w.request_stream_handlers ≡ plan.requests)
      × (w.response_stream_handlers ≡ plan.responses)
      × (is_some w.p_request_stream_handler ≡ true)
      × (is_some w.p_response_stream_handler ≡ true)

  -- There is fuel for all that may still be read.
  abbrev pub Bounded : Plan → Connection → S → Type 0
  Bounded plan c s = is_readable c.state ≡ true → 2 * load streams c.fd s + 2 < plan.fuel

  pub record IsProxy (plan : Plan) (w : World H S Addr) : Type 0 where
    pub endable : IsEndable plan w
    pub client_reader : IsReader w.client_data
    pub server_reader : IsReader w.server_data
    pub client_open : open_for_write w.client_data.state ≡ true
    pub request_interface : w.request_handler.has_interface ≡ true
    pub response_interface : w.response_handler.has_interface ≡ true
    pub request_valid : Valid client w.request_handler.state
    pub response_valid : Valid server w.response_handler.state
    pub client_event : is_open w.client_event.fd ≡ true
    pub server_event :
        is_not_connected w.server_data.state ≡ false → is_open w.server_event.fd ≡ true
    pub some_fuel : 0 < plan.fuel
    pub client_fuel : Bounded plan w.client_data w.system
    pub server_fuel : Bounded plan w.server_data w.system

  -- An event will come: for the server, or for the client, which is open for writing.
  abbrev pub Waits : World H S Addr → Type 0
  Waits w = ServerWaits w.server_data ⊎ (w.client_data.ready_to_write ≡ false)

  -- The rounds that a stream may still take.
  abbrev pub turns : Connection → S → ℕ
  turns c s =
      if is_ready_to_read c
      then 2 * load streams c.fd s + (if fully_written c.buffer then 1 else 2)
      else 0

  abbrev pub rounds : Side → World H S Addr → ℕ
  rounds side w = turns (src_data side w) w.system

  pub Bounded-after :
      (plan : Plan) (c c' : Connection) (s s' : S)
      → c'.fd ≡ c.fd
      → (is_readable c'.state ≡ true → is_readable c.state ≡ true)
      → Lessens streams s s'
      → Bounded plan c s
      → Bounded plan c' s'
  Bounded-after plan c c' s s' same readable l b r =
      let old = b (readable r) in let fewer = l.1 in let less = l.0 c.fd in rw same (omega arith)

  pub turns-lt :
      (plan : Plan) (c : Connection) (s : S)
      → 0 < plan.fuel
      → Bounded plan c s
      → turns c s < plan.fuel
  turns-lt plan c s h b = elim (Bool-cases (is_ready_to_read c)) [
    | inl r ↦ let enough = b (ready-readable c r) in rw r (ground arith)
    | inr r ↦ rw r h
  ]
