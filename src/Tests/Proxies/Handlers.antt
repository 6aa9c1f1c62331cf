-- ===== src/Tests/Proxies/Handlers.antt =====
-- Handlers that take what they are given while they can pass it on, over the system of System.
use switchflow.Base.{
  ℕ, zero, suc, ◌+◌, ◌≡◌, refl, Bool, true, false, arith, le→leb, Returns, inl, Outcome, ok,
}
use switchflow.Util.Buffer.{fully_written}
use switchflow.Socketlib.{Status, complete, incomplete}
use switchflow.Socketlib.Connection.{is_ready_to_write}
use switchflow.Socketlib.Connection.Read.{IsReader}
use switchflow.Socketlib.Connection.Progress.{Lessens}
use switchflow.Sfrp.Proxylib.StreamHandler.{
  Stream, StreamHandler, connection_does_not_provide_forward_address,
}
use switchflow.Sfrp.Proxylib.ProxyHandler.World.{Side, client, server}
use switchflow.Sfrp.Proxylib.ProxyHandler.Contract.{
  Environment, IsEnvironment, Processed, WaitsToWrite,
}
use switchflow.Tests.Proxies.System.{
  Net, net, net_streams, net-IsPosix, net_read-Uses, net_sockets, set_pending,
  is_pending-set_pending, net_events,
}

-- Takes all that it is given, if the other side is ready for it.
abbrev take_all : Bool → ℕ → Stream Net → Outcome (Status × ℕ × Stream Net)
take_all true h r =
    let b = r.src.buffer in
    ok (
      complete,
      h + b.working_length,
      record r { src = record (r.src) { buffer = record b { write_position = b.working_length } } },
    )
take_all false h r = ok (incomplete, h, r)

abbrev pub counter : StreamHandler ℕ Net ℕ
counter = record {
  process_data = λ h r. take_all (is_ready_to_write r.dest) h r;
  get_forward_address_status = λ h. connection_does_not_provide_forward_address;
  get_forward_address_from_stream = λ h. 0;
  reset = λ h r. (0, r);
}

take_all-Processed :
    (side : Side) (b : Bool) (h : ℕ) (r : Stream Net)
    → is_ready_to_write r.dest ≡ b
    → IsReader r.src
    → Returns (λ a. Processed net_streams side r a.0 a.2 × Unit {0}) (take_all b h r)
unfolding fully_written
take_all-Processed side true h r e i = (
  record {
    src = refl;
    reader = record {
      valid = record {
        small = i.valid.small;
        fits = i.valid.fits;
        processed = i.valid.processed;
        write_end = i.valid.write_end;
        written = omega arith;
      };
      owned = i.owned;
      raw = i.raw;
      has_raw = i.has_raw;
    };
    dest = refl;
    state = inl refl;
    lessens = ((λ fd. omega arith), omega arith);
    written = λ c. le→leb r.src.buffer.working_length r.src.buffer.working_length (omega arith);
    waits = only_incomplete side;
    answers = tt;
  },
  tt,
)
  where
    only_incomplete : (side : Side) → WaitsToWrite side complete r.dest r.dest
    only_incomplete client = tt
    only_incomplete server = λ s o. cc
take_all-Processed side false h r e i = (
  record {
    src = refl;
    reader = i;
    dest = refl;
    state = inl refl;
    lessens = ((λ fd. omega arith), omega arith);
    written = λ c. cc;
    waits = not_ready side;
    answers = tt;
  },
  tt,
)
  where
    not_ready : (side : Side) → WaitsToWrite side incomplete r.dest r.dest
    not_ready client = tt
    not_ready server = λ s o. ground arith

abbrev pub counting : Environment ℕ Net ℕ
counting = record {
  os = net;
  sockets = net_sockets;
  lib = net_events;
  handler = counter;
  streams = net_streams;
  Valid = λ side h. Unit {0};
}

pub counting-IsEnvironment : IsEnvironment counting
counting-IsEnvironment = record {
  posix = net-IsPosix;
  finite = record { uses = λ n fd count. net_read-Uses n.waiting n count refl };
  libevent = record {
    added = λ n id timeout. is_pending-set_pending true n id;
    deleted = λ n id. is_pending-set_pending false n id;
  };
  quiet = record {
    cork = λ n fd k. same n;
    opening = λ n. same n;
    connecting = λ n fd addr. same n;
    shutting = λ n fd. same n;
    setting = λ n id fd ev. same n;
    adding = λ n id timeout. set_pending-Lessens true n id;
    deleting = λ n id. set_pending-Lessens false n id;
    flags = λ n fd. same n;
    later = λ n fd addr e. cc;
  };
  handles = record {
    processes = λ side h r v i. take_all-Processed side (is_ready_to_write r.dest) h r refl i;
    provides = λ h v e. cc;
  };
}
  where
    same : (n : Net) → Lessens net_streams n n
    same n = ((λ fd. omega arith), omega arith)

    set_pending-Lessens : (b : Bool) (n : Net) (id : ℕ) → Lessens net_streams n (set_pending b n id)
    set_pending-Lessens b n zero = ((λ fd. omega arith), omega arith)
    set_pending-Lessens b n (suc id) = ((λ fd. omega arith), omega arith)
