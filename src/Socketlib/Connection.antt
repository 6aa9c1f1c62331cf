-- ===== src/Socketlib/Connection.antt =====
-- switchflow/socketlib/connection.{hpp,cpp}. The buffer that `non_blocking_write` is handed is not
-- that of the connection it writes to.
pub mod States
pub mod Read
pub mod Progress
pub mod Write
use switchflow.Base.{
  ℕ, ◌+◌, ◌^◌, Bool, true, false, ◌&&◌, ◌||◌, not, Option, none, some, [], ltb, leb, ◌==◌,
  if◌then◌else◌, u32, Bytes, length, take, drop, replicate, Outcome, ok, fault, out_of_bounds,
  ◌>>=◌, ◌>>◌, check_failed, check_condition, Turn, again, finish, loop,
}
use switchflow.Util.Buffer.{
  Buffer, reset as reset_buffer, of_length, get_raw_buffer, get_physical_length, fully_written,
  set_working_length, set_write_position, overwrite,
}
use switchflow.Http.Scan.{sub_u32}
use switchflow.Socketlib.{Status, complete, incomplete, src_closed, dest_closed}
use switchflow.Socketlib.Os.{Os, Fd, Answer, returned, failed, eintr, eagain, ebadf}

-- `connection::STATE`
pub data State : Type 0 where
  not_connected : State
  connected : State
  connecting : State
  read_shut : State
  write_shut : State
  hungup : State

pub record Connection : Type 0 where
  pub ready_to_read : Bool
  pub ready_to_write : Bool
  pub fd : Fd
  pub buffer : Buffer
  pub state : State
  pub ip_addr : Bytes

-- The constructor.
unfoldable pub create : ℕ → Connection
create buffer_length = record {
  ready_to_read = false;
  ready_to_write = false;
  fd = none;
  buffer = of_length buffer_length;
  state = not_connected;
  ip_addr = replicate 11 0;
}

unfoldable pub reset : Connection → Connection
unfolding reset_buffer
reset c = record {
  ready_to_read = false;
  ready_to_write = false;
  fd = none;
  buffer = reset_buffer c.buffer;
  state = not_connected;
  ip_addr = [];
}

abbrev pub set_ready_to_read : Connection → Bool → Connection
set_ready_to_read c b_value = record c { ready_to_read = b_value }

abbrev pub set_ready_to_write : Connection → Bool → Connection
set_ready_to_write c b_value = record c { ready_to_write = b_value }

abbrev pub open_for_read : State → Bool
open_for_read connected = true
open_for_read write_shut = true
open_for_read _ = false

abbrev pub open_for_write : State → Bool
open_for_write connected = true
open_for_write read_shut = true
open_for_write _ = false

abbrev pub is_ready_to_read : Connection → Bool
is_ready_to_read c = c.ready_to_read && open_for_read c.state

abbrev pub is_ready_to_write : Connection → Bool
is_ready_to_write c = c.ready_to_write && open_for_write c.state

abbrev pub is_read_shut : State → Bool
is_read_shut read_shut = true
is_read_shut _ = false

abbrev pub is_write_shut : State → Bool
is_write_shut write_shut = true
is_write_shut _ = false

-- The state after `state(new_state)`: the `else` belongs to the second test alone.
abbrev pub next_state : State → State → State
next_state old new_state =
    let old₁ = if is_write_shut new_state && is_read_shut old then hungup else old in
    if is_read_shut new_state && is_write_shut old₁ then hungup else new_state

abbrev pub set_state : Connection → State → Connection
set_state c new_state = record c { state = next_state c.state new_state }

-- The connection that is written to, the buffer that is written, and the system.
pub record World (S : Type 0) : Type 0 where
  pub dest : Connection
  pub buffer : Buffer
  pub system : S

module _ {S : Type 0} (os : Os S) where
  -- Corks the new descriptor, unless it is -1.
  abbrev pub set_fd : Connection → Fd → S → Connection × S
  set_fd c none s = (record c { fd = none }, s)
  set_fd c (some n) s = (
    record c { fd = some n; ready_to_read = false; ready_to_write = false },
    os.set_cork s (some n) 1,
  )

  abbrev pub flush : Connection → S → S
  flush c s = os.set_cork (os.set_cork s c.fd 0) c.fd 1

  abbrev pub uncork : Connection → S → S
  uncork c s = os.set_cork s c.fd 0

  abbrev pub set_nonblocking : Connection → S → S
  set_nonblocking c s = os.set_flags s c.fd

  abbrev pub get_ip_addr : Connection → S → Option Bytes
  get_ip_addr c s = os.peer_name s c.fd

  -- What follows `::read`, whose bytes land at the front of the vector.
  abbrev pub after_read : Connection → Answer Bytes → Outcome (Status × Connection)
  after_read c (returned bytes) = do
    raw ← get_raw_buffer c.buffer
    if length bytes == 0
        then ok (src_closed, set_state c read_shut)
        else set_working_length (record (c.buffer) { p_buffer = some (overwrite raw 0 bytes) })
            (length bytes)
          >>= λ b. ok (complete, record c { buffer = b })
  after_read c (failed eintr) = ok (complete, c)
  after_read c (failed eagain) = ok (complete, set_ready_to_read c false)
  after_read c (failed _) = ok (src_closed, set_state c read_shut)

  unfoldable pub non_blocking_read : Connection → S → Outcome (Status × Connection × S)
  unfolding reset_buffer get_physical_length fully_written set_working_length overwrite
  non_blocking_read c s =
      if not (is_ready_to_read c)
      then ok (complete, c, s)
      else if not (fully_written c.buffer)
      then ok (complete, c, s)
      else do
        let c₁ = record c { buffer = reset_buffer c.buffer }
        physical_length ← get_physical_length c₁.buffer
        let (answer, s') = os.read s c₁.fd physical_length
        (st, c₂) ← after_read c₁ answer
        ok (st, c₂, s')

  abbrev closed : World S → Turn (World S) (Status × World S)
  closed w = finish (dest_closed, record w { dest = set_state w.dest write_shut })

  -- What follows `::write` of `count` bytes from `start`.
  abbrev pub after_write : World S → ℕ → ℕ → Answer ℕ → Outcome (Turn (World S) (Status × World S))
  after_write w start count (returned n) = do
    b ← set_write_position w.buffer (u32 (start + n))
    let w' = record w { buffer = b }
    ok (if leb count n then finish (complete, w') else again w')
  after_write w start count (failed ebadf) = fault check_failed
  after_write w start count (failed eintr) = ok (again w)
  after_write w start count (failed eagain) =
      ok (finish (incomplete, record w { dest = set_ready_to_write w.dest false }))
  after_write w start count (failed _) = ok (closed w)

  -- One round of the loop. Positions are `unsigned int`, and `start` and `count` the `int` of them:
  -- a number from 2 ^ 31 on is negative. The bytes to write must lie in the vector.
  unfoldable pub write_round : World S → Outcome (Turn (World S) (Status × World S))
  unfolding get_physical_length set_write_position
  write_round w = if not (is_ready_to_write w.dest) then ok (finish (incomplete, w)) else do
    let b = w.buffer
    let start = b.write_position
    let count = sub_u32 b.write_end_position start
    check_condition (ltb count (2 ^ 31))
    check_condition (leb count b.write_end_position)
    check_condition (leb count b.working_length)
    physical ← get_physical_length b
    check_condition (leb b.working_length physical)
    check_condition (ltb start (2 ^ 31))
    if b.working_length == 0 || count == 0
        then ok (finish (complete, w))
        else check_condition (ltb start b.working_length) >> get_raw_buffer b >>= λ raw.
            if ltb (length raw) (start + count)
            then fault out_of_bounds
            else let (answer, s') = os.write w.system w.dest.fd (take count (drop start raw)) in
              after_write (record w { system = s' }) start count answer

  unfoldable pub non_blocking_write : ℕ → World S → Outcome (Status × World S)
  unfolding write_round
  non_blocking_write fuel w = loop fuel write_round w
