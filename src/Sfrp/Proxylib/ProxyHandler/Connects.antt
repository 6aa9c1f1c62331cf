-- ===== src/Sfrp/Proxylib/ProxyHandler/Connects.antt =====
-- About the connect to the server.
use switchflow.Base.{
  ◌≡◌, ◌≢◌, refl, true, false, ◌||◌, ◌⊎◌, inl, inr, some, none, Returns, Returns-eq-ok, Bool-cases,
}
use switchflow.Socketlib.Os.{Fd}
use switchflow.Socketlib.Connection.{
  Connection, State, not_connected, connected, connecting, read_shut, write_shut, hungup, set_state,
  open_for_read, open_for_write,
}
use switchflow.Socketlib.Connection.Progress.{Lessens}
use switchflow.Event.{Event, is_open}
use switchflow.Sfrp.Proxylib.StreamHandler.{
  ForwardAddressStatus, stream_does_not_provide_forward_address, forward_address_not_yet_available,
  connection_does_not_provide_forward_address, error_determining_forward_address,
  forward_address_available,
}
use switchflow.Sfrp.Proxylib.ProxyHandler.World.{
  Connect, at_once, in_progress, refused, client, World, is_not_connected, is_readable,
}
use switchflow.Sfrp.Proxylib.ProxyHandler.ServerConnect.{
  after_connect, with_socket, initiate_server_connect, by_address, attempt_jit_server_connect,
}
use switchflow.Sfrp.Proxylib.ProxyHandler.Contract.{
  Environment, IsEnvironment, Lessens-refl, Lessens-trans,
}
use switchflow.Sfrp.Proxylib.ProxyHandler.Invariant.{
  Plan, IsProxy, Waits, Bounded-after, IsReader-same,
}
use switchflow.Sfrp.Proxylib.ProxyHandler.Polls.{add_event-Returns}

is_not_connected-eq : (st : State) → is_not_connected st ≡ true → st ≡ not_connected
is_not_connected-eq not_connected e = refl
is_not_connected-eq connected e = cc
is_not_connected-eq connecting e = cc
is_not_connected-eq read_shut e = cc
is_not_connected-eq write_shut e = cc
is_not_connected-eq hungup e = cc

unready :
    (st : State)
    → (st ≡ not_connected) ⊎ (st ≡ connecting)
    → (is_readable st ≡ false) × ((open_for_read st || open_for_write st) ≡ false)
unready st (inl e) = rw e (refl, refl)
unready st (inr e) = rw e (refl, refl)

map_state :
    {P : Type 0} (st : State)
    → (st ≡ not_connected) ⊎ ((st ≡ connecting) × P)
    → (st ≡ not_connected) ⊎ (st ≡ connecting)
map_state st (inl e) = inl e
map_state st (inr (e, o)) = inr e

module _ {H S Addr : Type 0} (e : Environment H S Addr) where
  open e use {os, sockets, lib, handler, streams}

  -- The client and the handlers are as they were, and the proxy still waits for something.
  pub record Attempted (plan : Plan) (w w' : World H S Addr) : Type 0 where
    pub proxy : IsProxy e plan w'
    pub waits : Waits e w'
    pub same_client : w'.client_data ≡ w.client_data
    pub lessens : Lessens streams w.system w'.system

  same-Attempted :
      (plan : Plan) (w : World H S Addr) → IsProxy e plan w → Waits e w → Attempted plan w w
  same-Attempted plan w i waits = record {
    proxy = i;
    waits = waits;
    same_client = refl;
    lessens = Lessens-refl streams w.system;
  }

  -- With a server that is not connected, or not yet.
  server-Attempted :
      (plan : Plan) (w : World H S Addr) (c : Connection) (ev : Event) (s : S)
      → IsProxy e plan w
      → c.buffer ≡ w.server_data.buffer
      → (c.state ≡ not_connected) ⊎ ((c.state ≡ connecting) × (is_open ev.fd ≡ true))
      → Lessens streams w.system s
      → Attempted plan w (record w { server_data = c; server_event = ev; system = s })
  server-Attempted plan w c ev s i same st l = record {
    proxy = record {
      endable = i.endable;
      client_reader = i.client_reader;
      server_reader = IsReader-same w.server_data c same i.server_reader;
      client_open = i.client_open;
      request_interface = i.request_interface;
      response_interface = i.response_interface;
      request_valid = i.request_valid;
      response_valid = i.response_valid;
      client_event = i.client_event;
      server_event = λ n. elim st [
        | inl e ↦ let no : is_not_connected c.state ≡ true = rw e refl in cc
        | inr (e, o) ↦ o
      ];
      some_fuel = i.some_fuel;
      client_fuel =
          Bounded-after e plan w.client_data w.client_data w.system s refl (λ y. y) l i.client_fuel;
      server_fuel = λ y. let no = (unready c.state (map_state c.state st)).0 in cc;
    };
    waits = inl (λ o. let no = (unready c.state (map_state c.state st)).1 in cc);
    same_client = refl;
    lessens = l;
  }

  connect-Attempted :
      (plan : Plan) (w : World H S Addr) (c : Connection) (ev : Event) (s : S) (answer : Connect)
      → IsProxy e plan w
      → c.buffer ≡ w.server_data.buffer
      → c.state ≡ not_connected
      → is_open ev.fd ≡ true
      → Lessens streams w.system s
      → answer ≢ at_once
      → Returns
          (λ a. Attempted plan w a.1)
          (after_connect os sockets lib answer
            (record w { server_data = c; server_event = ev; system = s }))
  connect-Attempted plan w c ev s at_once i same n o l k = absurd (k refl)
  connect-Attempted plan w c ev s in_progress i same n o l k =
      server-Attempted plan w (set_state c connecting) ev s i same (inr (refl, o)) l
  connect-Attempted plan w c ev s refused i same n o l k =
      server-Attempted plan w c ev s i same (inl n) l

  module _ (h : IsEnvironment e) where
    with_socket-Attempted :
        (plan : Plan) (w : World H S Addr) (p : Fd × S) (addr : Addr)
        → IsProxy e plan w
        → w.server_data.state ≡ not_connected
        → Lessens streams w.system p.1
        → Returns (λ a. Attempted plan w a.1) (with_socket os sockets lib p addr w)
    with_socket-Attempted plan w (none, s) addr i n l =
        server-Attempted plan w (record (w.server_data) { fd = none }) w.server_event s i refl
          (inl n) l
    with_socket-Attempted plan w (some m, s) addr i n l =
        let c = record (w.server_data) {
          fd = some m;
          ready_to_read = false;
          ready_to_write = false;
        } in
        let ev = record (w.server_event) { fd = some m } in
        let s₁ = os.set_cork s (some m) 1 in
        let s₂ = lib.event_set s₁ ev.id (some m) (record { ev_read = false; ev_write = false }) in
        let l₂ = Lessens-trans streams w.system s s₂ l (
          Lessens-trans streams s s₁ s₂ (h.quiet.cork s (some m) 1)
            (h.quiet.setting s₁ ev.id (some m) _)) in
        let (s₃, done, l₃) =
          Returns-eq-ok (λ s'. Lessens streams s₂ s') _
            (add_event-Returns e h ev (record { ev_read = true; ev_write = true }) 0 s₂ refl) in
        let s₄ = (sockets.connect s₃ (some m) addr).1 in
        let l₄ =
          Lessens-trans streams w.system s₂ s₄ l₂
            (Lessens-trans streams s₂ s₃ s₄ l₃ (h.quiet.connecting s₃ (some m) addr)) in
        rw done (
          connect-Attempted plan w c ev s₄ (sockets.connect s₃ (some m) addr).0 i refl n refl l₄
            (h.quiet.later s₃ (some m) addr))

    initiate_server_connect-Attempted :
        (plan : Plan) (w : World H S Addr) (addr : Addr)
        → IsProxy e plan w
        → w.server_data.state ≡ not_connected
        → Returns (λ a. Attempted plan w a.1) (initiate_server_connect os sockets lib addr w)
    unfolding initiate_server_connect
    initiate_server_connect-Attempted plan w addr i n =
        with_socket-Attempted plan w (sockets.socket w.system) addr i n (h.quiet.opening w.system)

    by_address-Attempted :
        (plan : Plan) (w : World H S Addr) (st : ForwardAddressStatus)
        → IsProxy e plan w
        → Waits e w
        → w.server_data.state ≡ not_connected
        → st ≢ stream_does_not_provide_forward_address
        → Returns
            (λ a. Attempted plan w a.1)
            (by_address os sockets lib handler st w.request_handler.state w)
    by_address-Attempted plan w stream_does_not_provide_forward_address i waits n k =
        absurd (k refl)
    by_address-Attempted plan w forward_address_not_yet_available i waits n k =
        same-Attempted plan w i waits
    by_address-Attempted plan w connection_does_not_provide_forward_address i waits n k =
        initiate_server_connect-Attempted plan w w.server_addr i n
    by_address-Attempted plan w error_determining_forward_address i waits n k =
        same-Attempted plan w i waits
    by_address-Attempted plan w forward_address_available i waits n k =
        initiate_server_connect-Attempted plan w
          (handler.get_forward_address_from_stream w.request_handler.state) i n

    pub attempt_jit_server_connect-Attempted :
        (plan : Plan) (w : World H S Addr)
        → IsProxy e plan w
        → Waits e w
        → Returns
            (λ a. Attempted plan w a.1)
            (attempt_jit_server_connect os sockets lib handler client w)
    unfolding attempt_jit_server_connect
    attempt_jit_server_connect-Attempted plan w i waits =
        elim (Bool-cases (is_not_connected w.server_data.state)) [
          | inr n ↦ rw n (same-Attempted plan w i waits)
          | inl y ↦ rw y (
              by_address-Attempted plan w
                (handler.get_forward_address_status w.request_handler.state) i waits
                (is_not_connected-eq w.server_data.state y)
                (h.handles.provides w.request_handler.state i.request_valid))
        ]
