-- ===== src/Sfrp/Proxylib/ProxyHandler/Notifies.antt =====
-- About a notification, and the check whether the server has been connected to.
use switchflow.Base.{
  ℕ, zero, suc, ◌+◌, ◌*◌, ◌<◌, ◌≡◌, refl, sym, Bool, true, false, ◌&&◌, ◌⊎◌, inl, inr, arith, ok,
  some, none, Option, Returns, Returns-mono, Returns-eq-ok, Bool-cases, if◌then◌else◌,
}
use switchflow.Socketlib.Os.{Fd}
use switchflow.Socketlib.Connection.{
  Connection, State, not_connected, connected, connecting, read_shut, write_shut, hungup,
}
use switchflow.Socketlib.Connection.Progress.{load}
use switchflow.Event.{Events}
use switchflow.Sfrp.Proxylib.ProxyHandler.World.{
  World, fd_eq, is_connecting, is_not_connected, handle_pollin, handle_pollout,
}
use switchflow.Sfrp.Proxylib.ProxyHandler.ServerConnect.{
  after_socket_error, handle_server_connect, check_for_server_connect,
}
use switchflow.Sfrp.Proxylib.ProxyHandler.HandleEvent.{notified}
use switchflow.Sfrp.Proxylib.ProxyHandler.Contract.{Environment}
use switchflow.Sfrp.Proxylib.ProxyHandler.Invariant.{Plan, IsProxy, IsReader-same}

connecting-connected : (st : State) → is_connecting st ≡ true → is_not_connected st ≡ false
connecting-connected connecting e = refl
connecting-connected not_connected e = cc
connecting-connected connected e = cc
connecting-connected read_shut e = cc
connecting-connected write_shut e = cc
connecting-connected hungup e = cc

module _ {H S Addr : Type 0} (e : Environment H S Addr) where
  open e use {os, sockets, lib, handler, streams}

  abbrev pub IsOfProxy : Fd → World H S Addr → Type 0
  IsOfProxy fd w = (fd_eq fd w.client_data.fd ≡ true) ⊎ (fd_eq fd w.server_data.fd ≡ true)

  -- Enough fuel for what the server may send, also where it is not connected yet.
  abbrev pub HasServerFuel : Plan → World H S Addr → Type 0
  HasServerFuel plan w = 2 * load streams w.server_data.fd w.system + 2 < plan.fuel

  abbrev SameBut : Connection → Connection → Type 0
  SameBut c c' = (c'.fd ≡ c.fd) × (c'.buffer ≡ c.buffer) × (c'.state ≡ c.state)

  -- What a notification keeps.
  record Notified (plan : Plan) (w w' : World H S Addr) : Type 0 where
    proxy : IsProxy e plan w'
    server_fuel : HasServerFuel plan w'
    same_client : w'.client_data.fd ≡ w.client_data.fd
    same_server : w'.server_data.fd ≡ w.server_data.fd

  flagged-Notified :
      (plan : Plan) (w : World H S Addr) (c d : Connection)
      → IsProxy e plan w
      → HasServerFuel plan w
      → SameBut w.client_data c
      → SameBut w.server_data d
      → Notified plan w (record w { client_data = c; server_data = d })
  flagged-Notified plan w c d i f (fd, buffer, state) (fd', buffer', state') = record {
    proxy = record {
      endable = i.endable;
      client_reader = IsReader-same w.client_data c buffer i.client_reader;
      server_reader = IsReader-same w.server_data d buffer' i.server_reader;
      client_open = rw state i.client_open;
      request_interface = i.request_interface;
      response_interface = i.response_interface;
      request_valid = i.request_valid;
      response_valid = i.response_valid;
      client_event = i.client_event;
      server_event = λ n. i.server_event (rw (sym state') n);
      some_fuel = i.some_fuel;
      client_fuel = λ y. rw fd (i.client_fuel (rw (sym state) y));
      server_fuel = λ y. rw fd' (i.server_fuel (rw (sym state') y));
    };
    server_fuel = rw fd' f;
    same_client = fd;
    same_server = fd';
  }

  pollin-Notified :
      (plan : Plan) (fd : Fd) (w : World H S Addr)
      → IsProxy e plan w
      → HasServerFuel plan w
      → IsOfProxy fd w
      → Returns (Notified plan w) (handle_pollin fd w)
  unfolding handle_pollin
  pollin-Notified plan fd w i f o = elim (Bool-cases (fd_eq fd w.client_data.fd)) [
    | inl y ↦
        rw y (flagged-Notified plan w _ w.server_data i f (refl, refl, refl) (refl, refl, refl))
    | inr n ↦ elim (Bool-cases (fd_eq fd w.server_data.fd)) [
      | inl y ↦
          rw (n, y)
            (flagged-Notified plan w w.client_data _ i f (refl, refl, refl) (refl, refl, refl))
      | inr m ↦ elim o [ inl y ↦ cc | inr y ↦ cc ]
    ]
  ]

  pollout-Notified :
      (plan : Plan) (fd : Fd) (w : World H S Addr)
      → IsProxy e plan w
      → HasServerFuel plan w
      → IsOfProxy fd w
      → Returns (Notified plan w) (handle_pollout fd w)
  unfolding handle_pollout
  pollout-Notified plan fd w i f o = elim (Bool-cases (fd_eq fd w.client_data.fd)) [
    | inl y ↦
        rw y (flagged-Notified plan w _ w.server_data i f (refl, refl, refl) (refl, refl, refl))
    | inr n ↦ elim (Bool-cases (fd_eq fd w.server_data.fd)) [
      | inl y ↦
          rw (n, y)
            (flagged-Notified plan w w.client_data _ i f (refl, refl, refl) (refl, refl, refl))
      | inr m ↦ elim o [ inl y ↦ cc | inr y ↦ cc ]
    ]
  ]

  same-Notified :
      (plan : Plan) (w : World H S Addr)
      → IsProxy e plan w
      → HasServerFuel plan w
      → Notified plan w w
  same-Notified plan w i f = record {
    proxy = i;
    server_fuel = f;
    same_client = refl;
    same_server = refl;
  }

  pub notified-Returns :
      (plan : Plan) (fd : Fd) (revents : Events) (w : World H S Addr)
      → IsProxy e plan w
      → HasServerFuel plan w
      → IsOfProxy fd w
      → Returns
          (λ w'. IsProxy e plan w' × HasServerFuel plan w')
          (notified os sockets lib handler plan.fuel fd revents w)
  notified-Returns plan fd revents w i f o =
      let (w₁, out, n) = Returns-eq-ok (Notified plan w) _ (written revents.ev_write) in
      rw out (
        Returns-mono (Notified plan w₁) (λ w'. IsProxy e plan w' × HasServerFuel plan w') _
          (λ w' n'. (n'.proxy, n'.server_fuel))
          (readable revents.ev_read w₁ n.proxy n.server_fuel (rw (n.same_client, n.same_server) o)))
    where
      written : (b : Bool) → Returns (Notified plan w) (if b then handle_pollout fd w else ok w)
      written true = pollout-Notified plan fd w i f o
      written false = same-Notified plan w i f

      readable :
          (b : Bool) (w : World H S Addr)
          → IsProxy e plan w
          → HasServerFuel plan w
          → IsOfProxy fd w
          → Returns (Notified plan w) (if b then handle_pollin fd w else ok w)
      readable true w i f o = pollin-Notified plan fd w i f o
      readable false w i f o = same-Notified plan w i f

  -- The server is connected now.
  after_socket_error-IsProxy :
      (plan : Plan) (w : World H S Addr) (error : Option ℕ)
      → IsProxy e plan w
      → HasServerFuel plan w
      → is_not_connected w.server_data.state ≡ false
      → IsProxy e plan (after_socket_error os sockets lib error w).1
  after_socket_error-IsProxy plan w none i f n = i
  after_socket_error-IsProxy plan w (some (suc error)) i f n = i
  after_socket_error-IsProxy plan w (some zero) i f n = record {
    endable = i.endable;
    client_reader = i.client_reader;
    server_reader = IsReader-same w.server_data _ refl i.server_reader;
    client_open = i.client_open;
    request_interface = i.request_interface;
    response_interface = i.response_interface;
    request_valid = i.request_valid;
    response_valid = i.response_valid;
    client_event = i.client_event;
    server_event = λ _. i.server_event n;
    some_fuel = i.some_fuel;
    client_fuel = i.client_fuel;
    server_fuel = λ _. f;
  }

  pub check_for_server_connect-IsProxy :
      (plan : Plan) (fd : Fd) (w : World H S Addr)
      → IsProxy e plan w
      → HasServerFuel plan w
      → IsProxy e plan (check_for_server_connect os sockets lib fd w).1
  unfolding check_for_server_connect handle_server_connect
  check_for_server_connect-IsProxy plan fd w i f =
      elim (Bool-cases (fd_eq fd w.server_data.fd && is_connecting w.server_data.state)) [
        | inr n ↦ rw n i
        | inl y ↦ rw y (
            after_socket_error-IsProxy plan w (sockets.socket_error w.system w.server_data.fd) i f
              (connecting-connected w.server_data.state (ground arith)))
      ]
