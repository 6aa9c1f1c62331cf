-- ===== src/Socketlib/Os.antt =====
-- The system calls that switchflow/socketlib/connection.cpp makes, which are a parameter of the
-- model: functions over the state of the system, and what POSIX documents of them.
use switchflow.Base.{ℕ, ◌≤◌, ◌<◌, ◌≡◌, ◌≢◌, ◌++◌, Bytes, length, take, Option}

-- The values of `errno` that the code tells apart.
pub data Errno : Type 0 where
  eintr : Errno
  eagain : Errno
  ebadf : Errno
  epipe : Errno
  econnreset : Errno
  other_errno : Errno

-- What a call returns: -1, with `errno`, or its result.
pub data Answer (A : Type 0) : Type 0 where
  returned : A → Answer A
  failed : Errno → Answer A

-- A file descriptor; -1 is `none`.
abbrev pub Fd : Type 0
Fd = Option ℕ

-- `write` is handed the bytes to write, and `read` the number of bytes to read at most; it returns
-- the bytes that it puts into the vector. `set_cork` is `setsockopt` of TCP_CORK, `set_flags`
-- `fcntl` of F_SETFL, with no status since the code ignores it.
pub record Os (S : Type 0) : Type 0 where
  pub write : S → Fd → Bytes → Answer ℕ × S
  pub read : S → Fd → ℕ → Answer Bytes × S
  pub set_cork : S → Fd → ℕ → S
  pub set_flags : S → Fd → S
  pub peer_name : S → Fd → Option Bytes

-- The bytes that a descriptor has taken so far, the bytes that it has still to give, whether it is
-- one that is open, and how many of the calls to come a signal interrupts.
pub record Streams (S : Type 0) : Type 1 where
  pub sent : S → Fd → Bytes
  pub unread : S → Fd → Bytes
  pub IsOpen : S → Fd → Type 0
  pub interrupts : S → ℕ

module _ {S : Type 0} (streams : Streams S) where
  open streams use {sent, unread, IsOpen, interrupts}

  -- A write takes some bytes from the front, or it takes none and fails, on an open descriptor not
  -- with EBADF.
  abbrev pub Writes : S → Fd → Bytes → Answer ℕ × S → Type 0
  Writes s fd bytes (returned n, s') =
      (0 < n)
      × (n ≤ length bytes)
      × (sent s' fd ≡ sent s fd ++ take n bytes)
      × IsOpen s' fd
      × (interrupts s' ≤ interrupts s)
  Writes s fd bytes (failed e, s') =
      (e ≢ ebadf)
      × (sent s' fd ≡ sent s fd)
      × IsOpen s' fd
      × (interrupts s' ≤ interrupts s)
      × (e ≡ eintr → interrupts s' < interrupts s)

  -- A read gives bytes from the front, as many as were asked for at most, or it gives none.
  abbrev pub Reads : S → Fd → ℕ → Answer Bytes × S → Type 0
  Reads s fd count (returned bytes, s') =
      (length bytes ≤ count) × (bytes ++ unread s' fd ≡ unread s fd)
  Reads s fd count (failed e, s') = unread s' fd ≡ unread s fd

  pub record IsPosix (os : Os S) : Type 0 where
    pub writes :
        (s : S) (fd : Fd) (bytes : Bytes)
        → 0 < length bytes
        → IsOpen s fd
        → Writes s fd bytes (os.write s fd bytes)
    pub reads : (s : S) (fd : Fd) (count : ℕ) → Reads s fd count (os.read s fd count)
