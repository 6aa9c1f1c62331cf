-- ===== src/Tests/Connections.antt =====
-- Runs of connection over a wire that takes a byte or two at a time, behind some interrupts.
use Prim.Native.Nat.{min}
use switchflow.Base.{
  ℕ, zero, suc, ◌<◌, ◌≡◌, refl, true, false, some, [], ◌++◌, arith, Bytes, codes, length, take,
  drop, length-take, take-append-drop, loop, Returns,
}
use switchflow.Util.Buffer.{Buffer, get_physical_length, set_write_position}
use switchflow.Util.Buffer.Valid.{IsValid}
use switchflow.Socketlib.{complete}
use switchflow.Socketlib.Os.{Os, Fd, Streams, IsPosix, Answer, returned, failed, eintr, Writes}
use switchflow.Socketlib.Connection.{
  Connection, connected, World, write_round, non_blocking_write, non_blocking_read,
}
use switchflow.Socketlib.Connection.Write.{IsReady, Delivers, non_blocking_write-Delivers}
use switchflow.Socketlib.Connection.Read.{IsReader, Read, non_blocking_read-Read}
use switchflow.Socketlib.Connection.States.{set_state-order}
use switchflow.Socketlib.Connection.{set_state, write_shut, read_shut, hungup, open_for_read}

pub record Wire : Type 0 where
  pub taken : Bytes
  pub waiting : Bytes
  pub noise : ℕ

abbrev wire_write : ℕ → Wire → Bytes → Answer ℕ × Wire
wire_write zero w bytes = (
  returned (min 2 (length bytes)),
  record w { taken = w.taken ++ take (min 2 (length bytes)) bytes },
)
wire_write (suc n) w bytes = (failed eintr, record w { noise = n })

abbrev pub wire : Os Wire
wire = record {
  write = λ w fd bytes. wire_write w.noise w bytes;
  read =
      λ w fd count. (returned (take count w.waiting), record w { waiting = drop count w.waiting });
  set_cork = λ w fd state. w;
  set_flags = λ w fd. w;
  peer_name = λ w fd. some (codes "192.168.0.1");
}

abbrev pub streams : Streams Wire
streams = record {
  sent = λ w fd. w.taken;
  unread = λ w fd. w.waiting;
  IsOpen = λ w fd. fd ≡ some 3;
  interrupts = λ w. w.noise;
}

wire_write-Writes :
    (n : ℕ) (w : Wire) (fd : Fd) (bytes : Bytes)
    → w.noise ≡ n
    → 0 < length bytes
    → fd ≡ some 3
    → Writes streams w fd bytes (wire_write n w bytes)
wire_write-Writes zero w fd bytes e h o = (omega arith, omega arith, refl, o, omega arith)
wire_write-Writes (suc n) w fd bytes e h o = (λ d. cc, refl, o, omega arith, λ d. omega arith)

pub wire-IsPosix : IsPosix streams wire
wire-IsPosix = record {
  writes = λ w fd bytes h o. wire_write-Writes w.noise w fd bytes refl h o;
  reads =
      λ w fd count. (omega (arith, length-take count w.waiting), take-append-drop count w.waiting);
}

abbrev pub quiet : Wire
quiet = record { taken = codes "x"; waiting = codes "abcdef"; noise = 1 }

-- Five bytes to write, of which the first has been written.
abbrev half_written : Buffer
half_written = record {
  p_buffer = some (codes "hello");
  using_static_buffer = false;
  working_length = 5;
  process_position = 0;
  write_end_position = 5;
  write_position = 1;
}

abbrev pub socket : Buffer → Connection
socket b = record {
  ready_to_read = true;
  ready_to_write = true;
  fd = some 3;
  buffer = b;
  state = connected;
  ip_addr = [];
}

half_written-IsValid : IsValid half_written
half_written-IsValid = record {
  small = omega arith;
  fits = omega arith;
  processed = omega arith;
  write_end = omega arith;
  written = omega arith;
}

abbrev writing : World Wire
writing = record { dest = socket half_written; buffer = half_written; system = quiet }

writing-IsReady : IsReady wire streams writing
writing-IsReady = record {
  buffer = record {
    valid = half_written-IsValid;
    raw = codes "hello";
    has_raw = refl;
    ordered = omega arith;
  };
  is_open = refl;
}

non_blocking_write-Delivers_example :
    Returns (Delivers wire streams writing) (non_blocking_write wire 6 writing)
non_blocking_write-Delivers_example =
    non_blocking_write-Delivers wire streams wire-IsPosix 6 writing writing-IsReady (omega arith)

non_blocking_write-all :
    Returns
      (λ a. (a.0 ≡ complete) × (a.1.system.taken ≡ codes "xello"))
      (non_blocking_write wire 6 writing)
unfolding non_blocking_write loop write_round get_physical_length set_write_position
non_blocking_write-all = (refl {a = complete}, refl {a = codes "xello"})

-- All of the buffer has been written, so that it may be read into.
abbrev reading : Connection
reading = socket (record half_written { write_position = 5 })

reading-IsReader : IsReader reading
reading-IsReader = record {
  valid = record {
    small = omega arith;
    fits = omega arith;
    processed = omega arith;
    write_end = omega arith;
    written = omega arith;
  };
  owned = refl;
  raw = codes "hello";
  has_raw = refl;
}

non_blocking_read-Read_example :
    Returns
      (λ a. Read wire streams reading quiet a.0 a.1 a.2)
      (non_blocking_read wire reading quiet)
non_blocking_read-Read_example =
    non_blocking_read-Read wire streams wire-IsPosix reading quiet reading-IsReader

set_state-order_example :
    ((set_state (set_state reading write_shut) read_shut).state ≡ hungup)
    × (open_for_read (set_state (set_state reading read_shut) write_shut).state ≡ true)
set_state-order_example = set_state-order reading
