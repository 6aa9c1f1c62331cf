-- ===== src/Sfrp/Proxylib/ProxyHandler/Processes.antt =====
-- About `process_data` in `handle_stream`.
use switchflow.Base.{
  ℕ, ◌≡◌, ◌≢◌, refl, sym, ap, ◌∙◌, true, false, ◌||◌, inl, inr, arith, ok, some, none, Option,
  Returns-eq-ok,
}
use switchflow.Socketlib.{Status, dest_closed}
use switchflow.Socketlib.Connection.{
  Connection, State, not_connected, connected, connecting, read_shut, write_shut, hungup,
  is_ready_to_read, open_for_read, open_for_write, next_state,
}
use switchflow.Socketlib.Connection.Read.{IsReader}
use switchflow.Sfrp.Proxylib.StreamHandler.{Stream}
use switchflow.Sfrp.Proxylib.ProxyHandler.World.{
  Side, client, server, World, is_not_connected, is_readable, stream_of, put_stream, handler_of,
  p_handler_of, null_check, is_done,
}
use switchflow.Sfrp.Proxylib.ProxyHandler.HandleStream.{process}
use switchflow.Sfrp.Proxylib.ProxyHandler.HandleEvent.{is_some}
use switchflow.Sfrp.Proxylib.ProxyHandler.Contract.{Environment, IsEnvironment, Processed}
use switchflow.Sfrp.Proxylib.ProxyHandler.Invariant.{
  Plan, IsProxy, Waits, ServerWaits, Bounded, Bounded-after, IsReader-same,
}

-- A state that is open for writing is one of a connection.
pub open_connected :
    (st : State)
    → open_for_write st ≡ true
    → (is_readable st ≡ true) × (is_not_connected st ≡ false)
open_connected connected o = (refl, refl)
open_connected read_shut o = (refl, refl)
open_connected not_connected o = cc
open_connected connecting o = cc
open_connected write_shut o = cc
open_connected hungup o = cc

null_check-some : (p : Option ℕ) → is_some p ≡ true → null_check p ≡ ok tt
null_check-some none e = cc
null_check-some (some p) e = refl

-- A server that waits still does when the direction to it has been shut.
ServerWaits-shut :
    (c c' : Connection)
    → open_for_write c.state ≡ true
    → c'.ready_to_read ≡ c.ready_to_read
    → c'.state ≡ next_state c.state write_shut
    → ServerWaits c
    → ServerWaits c'
ServerWaits-shut c c' o same e h =
    let (not_ready, still_open) = h (ground arith) in
    λ _. (same ∙ not_ready, rw e (both_open c.state o still_open))
  where
    both_open :
        (st : State)
        → open_for_write st ≡ true
        → open_for_read st ≡ true
        → open_for_read (next_state st write_shut) ≡ true
    both_open connected o r = refl
    both_open read_shut o r = cc
    both_open not_connected o r = cc
    both_open connecting o r = cc
    both_open write_shut o r = cc
    both_open hungup o r = cc

module _ {H S Addr : Type 0} (e : Environment H S Addr) where
  open e use {os, sockets, lib, handler, streams, Valid}

  pub process-Processed :
      (h : IsEnvironment e)
      → (side : Side) (w : World H S Addr) → IsReader (stream_of side w).src
      → is_some (p_handler_of side w) ≡ true
      → (handler_of side w).has_interface ≡ true
      → Valid side (handler_of side w).state
      → (st : Status) × (s : H) × (r : Stream S) × (process os sockets lib handler side w
          ≡ ok (st, put_stream side s r w))
        × Processed streams side (stream_of side w) st r
        × Valid side s
  unfolding process
  process-Processed h side w reader p i v =
      let (a, done, post) =
        Returns-eq-ok
          (λ (x : Status × H × Stream S).
            Processed streams side (stream_of side w) x.0 x.2 × Valid side x.1)
          _ (h.handles.processes side (handler_of side w).state (stream_of side w) v reader) in
      (a.0, a.1, a.2, rw (null_check-some (p_handler_of side w) p, i, done) refl, post.0, post.1)

  module _ (side : Side) (r : Stream S) (st : Status) (r' : Stream S)
      (p : Processed streams side r st r') where
    src_state : r'.src.state ≡ r.src.state
    src_state = ap (λ (c : Connection). c.state) p.src

    src_fd : r'.src.fd ≡ r.src.fd
    src_fd = ap (λ (c : Connection). c.fd) p.src

    dest_fd : r'.dest.fd ≡ r.dest.fd
    dest_fd = ap (λ (c : Connection). c.fd) p.dest

    dest_ready : r'.dest.ready_to_read ≡ r.dest.ready_to_read
    dest_ready = ap (λ (c : Connection). c.ready_to_read) p.dest

    dest-IsReader : IsReader r.dest → IsReader r'.dest
    dest-IsReader i = IsReader-same r.dest r'.dest (ap (λ (c : Connection). c.buffer) p.dest) i

    dest_readable : is_readable r'.dest.state ≡ true → is_readable r.dest.state ≡ true
    dest_readable y = elim p.state [
      | inl same ↦ rw (sym same) y
      | inr (closed, o, shut) ↦ (open_connected r.dest.state o).0
    ]

    dest_connected : is_not_connected r'.dest.state ≡ false → is_not_connected r.dest.state ≡ false
    dest_connected n = elim p.state [
      | inl same ↦ rw (sym same) n
      | inr (closed, o, shut) ↦ (open_connected r.dest.state o).1
    ]

    dest_same : st ≢ dest_closed → r'.dest.state ≡ r.dest.state
    dest_same n = elim p.state [ inl same ↦ same | inr (closed, o, shut) ↦ absurd (n closed) ]

    src-Bounded : (plan : Plan) → Bounded e plan r.src r.system → Bounded e plan r'.src r'.system
    src-Bounded plan b =
        Bounded-after e plan r.src r'.src r.system r'.system src_fd (λ y. rw (sym src_state) y)
          p.lessens b

    dest-Bounded : (plan : Plan) → Bounded e plan r.dest r.system → Bounded e plan r'.dest r'.system
    dest-Bounded plan b =
        Bounded-after e plan r.dest r'.dest r.system r'.system dest_fd dest_readable p.lessens b

  pub request-IsProxy :
      (plan : Plan) (w : World H S Addr) (st : Status) (s : H) (r : Stream S)
      → Processed streams client (stream_of client w) st r
      → Valid client s
      → IsProxy e plan w
      → IsProxy e plan (put_stream client s r w)
  request-IsProxy plan w st s r p v i =
      let o = stream_of client w in
      record {
        endable = i.endable;
        client_reader = p.reader;
        server_reader = dest-IsReader client o st r p i.server_reader;
        client_open = rw (src_state client o st r p) i.client_open;
        request_interface = i.request_interface;
        response_interface = i.response_interface;
        request_valid = v;
        response_valid = i.response_valid;
        client_event = i.client_event;
        server_event = λ n. i.server_event (dest_connected client o st r p n);
        some_fuel = i.some_fuel;
        client_fuel = src-Bounded client o st r p plan i.client_fuel;
        server_fuel = dest-Bounded client o st r p plan i.server_fuel;
      }

  pub request-Waits :
      (w : World H S Addr) (st : Status) (s : H) (r : Stream S)
      → Processed streams client (stream_of client w) st r
      → Waits e w
      → Waits e (put_stream client s r w)
  request-Waits w st s r p (inl waits) =
      let same = dest_ready client (stream_of client w) st r p in
      inl (elim p.state [
        | inl e ↦
            λ o. let (not_ready, is_open) = waits (rw (sym e) o) in (same ∙ not_ready, rw e is_open)
        | inr (closed, o, shut) ↦ ServerWaits-shut w.server_data r.dest o same shut waits
      ])
  request-Waits w st s r p (inr waits) =
      inr (ap (λ (c : Connection). c.ready_to_write) p.src ∙ waits)

  -- The client stays open, since no write to it has failed.
  pub response-IsProxy :
      (plan : Plan) (w : World H S Addr) (st : Status) (s : H) (r : Stream S)
      → Processed streams server (stream_of server w) st r
      → Valid server s
      → st ≢ dest_closed
      → IsProxy e plan w
      → IsProxy e plan (put_stream server s r w)
  response-IsProxy plan w st s r p v n i =
      let o = stream_of server w in
      record {
        endable = i.endable;
        client_reader = dest-IsReader server o st r p i.client_reader;
        server_reader = p.reader;
        client_open = rw (dest_same server o st r p n) i.client_open;
        request_interface = i.request_interface;
        response_interface = i.response_interface;
        request_valid = i.request_valid;
        response_valid = v;
        client_event = i.client_event;
        server_event = λ k. i.server_event (rw (sym (src_state server o st r p)) k);
        some_fuel = i.some_fuel;
        client_fuel = dest-Bounded server o st r p plan i.client_fuel;
        server_fuel = src-Bounded server o st r p plan i.server_fuel;
      }

-- A server whose stream stops for want of input.
pub stopped-ServerWaits :
    (c : Connection) → is_ready_to_read c ≡ false → is_done c.state ≡ false → ServerWaits c
stopped-ServerWaits c n d o = let is_open = open_undone c.state o d in (ground arith, is_open)
  where
    open_undone :
        (st : State)
        → (open_for_read st || open_for_write st) ≡ true
        → is_done st ≡ false
        → open_for_read st ≡ true
    open_undone connected o d = refl
    open_undone write_shut o d = refl
    open_undone read_shut o d = cc
    open_undone hungup o d = cc
    open_undone not_connected o d = cc
    open_undone connecting o d = cc
