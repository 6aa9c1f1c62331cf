-- ===== src/Tests/Proxies/System.antt =====
-- A system whose descriptors all read what is waiting, and two events on it, for a run of the proxy.
use Prim.Native.Nat.{min}
use switchflow.Base.{
  ℕ, zero, suc, ◌≡◌, refl, Bool, true, false, none, some, [], ◌∷◌, ◌++◌, arith, Bytes, length, take,
  drop, length-take, length-drop, take-append-drop,
}
use switchflow.Socketlib.Os.{Os, Fd, Streams, IsPosix, Reads, Answer, returned, failed, eagain}
use switchflow.Socketlib.Connection.Progress.{Uses}
use switchflow.Event.{Libevent}
use switchflow.Sfrp.Proxylib.ProxyHandler.World.{Sockets, in_progress}

pub record Net : Type 0 where
  pub taken : Bytes
  pub waiting : Bytes
  pub client_pending : Bool
  pub server_pending : Bool

abbrev net_read : Bytes → ℕ → Net → Answer Bytes × Net
net_read [] count n = (failed eagain, n)
net_read (b ∷ bs) count n =
    (returned (take count (b ∷ bs)), record n { waiting = drop count (b ∷ bs) })

abbrev pub net : Os Net
net = record {
  write = λ n fd bytes. (
    returned (min 2 (length bytes)),
    record n { taken = n.taken ++ take (min 2 (length bytes)) bytes },
  );
  read = λ n fd count. net_read n.waiting count n;
  set_cork = λ n fd state. n;
  set_flags = λ n fd. n;
  peer_name = λ n fd. none;
}

abbrev pub net_streams : Streams Net
net_streams = record {
  sent = λ n fd. n.taken;
  unread = λ n fd. n.waiting;
  IsOpen = λ n fd. Unit {0};
  interrupts = λ n. 0;
}

net_read-Reads :
    (bytes : Bytes) (n : Net) (fd : Fd) (count : ℕ)
    → n.waiting ≡ bytes
    → Reads net_streams n fd count (net_read bytes count n)
net_read-Reads [] n fd count e = refl
net_read-Reads (b ∷ bs) n fd count e =
    (omega (arith, length-take count (b ∷ bs)), rw e (take-append-drop count (b ∷ bs)))

pub net-IsPosix : IsPosix net_streams net
net-IsPosix = record {
  writes = λ n fd bytes h o. (omega arith, omega arith, refl, tt, omega arith);
  reads = λ n fd count. net_read-Reads n.waiting n fd count refl;
}

pub net_read-Uses :
    (bytes : Bytes) (n : Net) (count : ℕ)
    → n.waiting ≡ bytes
    → Uses net_streams n (net_read bytes count n)
net_read-Uses [] n count e = (((λ fd. omega arith), omega arith), λ d. cc)
net_read-Uses (b ∷ bs) n count e =
    (((λ fd. rw e (omega (arith, length-drop count (b ∷ bs)))), omega arith), λ d. cc)

abbrev pub net_sockets : Sockets Net ℕ
net_sockets = record {
  socket = λ n. (some 4, n);
  connect = λ n fd addr. (in_progress, n);
  socket_error = λ n fd. some 0;
  shutdown_read = λ n fd. n;
  close = λ n fd. n;
}

abbrev pub is_pending : Net → ℕ → Bool
is_pending n zero = n.client_pending
is_pending n (suc id) = n.server_pending

abbrev pub set_pending : Bool → Net → ℕ → Net
set_pending b n zero = record n { client_pending = b }
set_pending b n (suc id) = record n { server_pending = b }

pub is_pending-set_pending : (b : Bool) (n : Net) (id : ℕ) → is_pending (set_pending b n id) id ≡ b
is_pending-set_pending b n zero = refl
is_pending-set_pending b n (suc id) = refl

abbrev pub net_events : Libevent Net
net_events = record {
  event_pending = is_pending;
  event_set = λ n id fd events. n;
  event_add = λ n id timeout. set_pending true n id;
  event_del = λ n id. set_pending false n id;
  fcntl = λ n fd. (true, n);
}
