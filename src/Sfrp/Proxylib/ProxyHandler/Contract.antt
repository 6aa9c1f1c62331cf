-- ===== src/Sfrp/Proxylib/ProxyHandler/Contract.antt =====
-- What proxy_handler relies on: the system, libevent and the handlers of the streams, with what they
-- promise.
use switchflow.Base.{ℕ, ◌≡◌, ◌≢◌, true, false, ◌⊎◌, arith, Returns}
use switchflow.Util.Buffer.{fully_written}
use switchflow.Socketlib.{
  Status, complete, incomplete, read_incomplete, write_incomplete, connection_failed, dest_closed,
}
use switchflow.Socketlib.Os.{Os, Fd, Streams, IsPosix}
use switchflow.Socketlib.Connection.{Connection, open_for_write, write_shut, next_state}
use switchflow.Socketlib.Connection.Read.{IsReader}
use switchflow.Socketlib.Connection.Progress.{Lessens, IsFinite}
use switchflow.Event.{Events, Libevent, IsLibevent}
use switchflow.Sfrp.Proxylib.StreamHandler.{
  stream_does_not_provide_forward_address, Stream, StreamHandler,
}
use switchflow.Sfrp.Proxylib.ProxyHandler.World.{Sockets, at_once, Side, client, server}

-- The statuses that a handler answers with.
abbrev pub IsAnswer : Status → Type 0
IsAnswer read_incomplete = ⊥
IsAnswer write_incomplete = ⊥
IsAnswer connection_failed = ⊥
IsAnswer _ = Unit

-- A handler of responses answers INCOMPLETE only if the client is not ready to be written to.
abbrev pub WaitsToWrite : Side → Status → Connection → Connection → Type 0
WaitsToWrite client st dest dest' = Unit
WaitsToWrite server st dest dest' =
    st ≡ incomplete → open_for_write dest.state ≡ true → dest'.ready_to_write ≡ false

module _ {S : Type 0} (streams : Streams S) where
  -- What `process_data` may change: the buffer of the source, and of the other connection whether it
  -- is ready for writing, and its state where a write failed, which the answer says. COMPLETE leaves
  -- nothing in the buffer to be written on.
  pub record Processed (side : Side) (r : Stream S) (st : Status) (r' : Stream S) : Type 0 where
    pub src : r'.src ≡ record (r.src) { buffer = r'.src.buffer }
    pub reader : IsReader r'.src
    pub dest :
        r'.dest ≡ record (r.dest) { ready_to_write = r'.dest.ready_to_write; state = r'.dest.state }
    pub state :
        (r'.dest.state ≡ r.dest.state)
        ⊎ ((st ≡ dest_closed)
            × (open_for_write r.dest.state ≡ true)
            × (r'.dest.state ≡ next_state r.dest.state write_shut))
    pub lessens : Lessens streams r.system r'.system
    pub written : st ≡ complete → fully_written r'.src.buffer ≡ true
    pub waits : WaitsToWrite side st r.dest r'.dest
    pub answers : IsAnswer st

-- The calls besides `read` and `write`, none of which uses up bytes that arrive.
pub record IsQuiet {S Addr : Type 0} (streams : Streams S) (os : Os S) (sockets : Sockets S Addr)
    (lib : Libevent S) : Type 0 where
  pub cork : (s : S) (fd : Fd) (n : ℕ) → Lessens streams s (os.set_cork s fd n)
  pub opening : (s : S) → Lessens streams s (sockets.socket s).1
  pub connecting : (s : S) (fd : Fd) (addr : Addr) → Lessens streams s (sockets.connect s fd addr).1
  pub shutting : (s : S) (fd : Fd) → Lessens streams s (sockets.shutdown_read s fd)
  pub setting :
      (s : S) (id : ℕ) (fd : Fd) (ev : Events) → Lessens streams s (lib.event_set s id fd ev)
  pub adding : (s : S) (id timeout : ℕ) → Lessens streams s (lib.event_add s id timeout)
  pub deleting : (s : S) (id : ℕ) → Lessens streams s (lib.event_del s id)
  pub flags : (s : S) (fd : Fd) → Lessens streams s (lib.fcntl s fd).1
  -- A descriptor that does not block is connected later.
  pub later : (s : S) (fd : Fd) (addr : Addr) → (sockets.connect s fd addr).0 ≢ at_once

-- `Valid` is what the handlers keep of their own state.
pub record IsHandler {H S Addr : Type 0} (streams : Streams S) (Valid : Side → H → Type 0)
    (handler : StreamHandler H S Addr) : Type 0 where
  pub processes :
      (side : Side) (h : H) (r : Stream S)
      → Valid side h
      → IsReader r.src
      → Returns (λ a. Processed streams side r a.0 a.2 × Valid side a.1) (handler.process_data h r)
  pub provides :
      (h : H)
      → Valid client h
      → handler.get_forward_address_status h ≢ stream_does_not_provide_forward_address

pub record Environment (H S Addr : Type 0) : Type 1 where
  pub os : Os S
  pub sockets : Sockets S Addr
  pub lib : Libevent S
  pub handler : StreamHandler H S Addr
  pub streams : Streams S
  pub Valid : Side → H → Type 0

pub record IsEnvironment {H S Addr : Type 0} (e : Environment H S Addr) : Type 0 where
  pub posix : IsPosix e.streams e.os
  pub finite : IsFinite e.streams e.os
  pub libevent : IsLibevent e.lib
  pub quiet : IsQuiet e.streams e.os e.sockets e.lib
  pub handles : IsHandler e.streams e.Valid e.handler

module _ {S : Type 0} (streams : Streams S) where
  pub Lessens-refl : (s : S) → Lessens streams s s
  Lessens-refl s = ((λ fd. omega arith), omega arith)

  pub Lessens-trans : (s t u : S) → Lessens streams s t → Lessens streams t u → Lessens streams s u
  Lessens-trans s t u l k =
      let first = l.1 in
      let second = k.1 in ((λ fd. let a = l.0 fd in let b = k.0 fd in omega arith), omega arith)
