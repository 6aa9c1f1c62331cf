-- ===== src/Sfrp/Proxylib/ProxyHandler/Rounds.antt =====
-- About `handle_stream`, round by round.
use Prim.Derive.{subst}
use switchflow.Base.{
  ◌<◌, ◌≡◌, refl, sym, ap, ◌∙◌, true, inl, inr, arith, ok, Returns, Returns-eq-ok, Bool-cases,
  Keeps, loop-Returns,
}
use switchflow.Util.Buffer.{fully_written}
use switchflow.Socketlib.{
  Status, complete, incomplete, read_incomplete, write_incomplete, connection_failed, src_closed,
  dest_closed, deny,
}
use switchflow.Socketlib.Connection.{Connection, is_ready_to_read, read_shut, set_state}
use switchflow.Socketlib.Connection.Progress.{Lessens}
use switchflow.Sfrp.Proxylib.StreamHandler.{Stream}
use switchflow.Sfrp.Proxylib.ProxyHandler.World.{
  client, server, World, is_done, stream_of, put_stream,
}
use switchflow.Sfrp.Proxylib.ProxyHandler.ServerConnect.{attempt_jit_server_connect}
use switchflow.Sfrp.Proxylib.ProxyHandler.HandleStream.{
  after_process, after_connect_attempt, stream_round, handle_stream,
}
use switchflow.Sfrp.Proxylib.ProxyHandler.Contract.{
  Environment, IsEnvironment, Processed, Lessens-trans,
}
use switchflow.Sfrp.Proxylib.ProxyHandler.Invariant.{
  Plan, IsProxy, IsEndable, Waits, rounds, turns, turns-lt, IsReader-same,
}
use switchflow.Sfrp.Proxylib.ProxyHandler.Reads.{
  WasRead, with_read, read_source-WasRead, read-IsProxy, read-Waits, open-read_shut,
}
use switchflow.Sfrp.Proxylib.ProxyHandler.Processes.{
  open_connected, process-Processed, request-IsProxy, request-Waits, response-IsProxy,
  stopped-ServerWaits,
}
use switchflow.Sfrp.Proxylib.ProxyHandler.Connects.{Attempted, attempt_jit_server_connect-Attempted}

module _ {H S Addr : Type 0} (e : Environment H S Addr) where
  open e use {os, sockets, lib, handler, streams, Valid}

  -- What the answer of the server's stream says: INCOMPLETE that the proxy waits for an event, and
  -- COMPLETE and DENY that it is to be shut down.
  abbrev pub Responded : Plan → Status × World H S Addr → Type 0
  Responded plan (complete, w) = IsEndable e plan w
  Responded plan (deny, w) = IsEndable e plan w
  Responded plan (incomplete, w) = IsProxy e plan w × Waits e w
  Responded plan (_, w) = ⊥

  -- Whatever the answer, the client's stream leaves the proxy waiting for what it waited for before.
  abbrev pub Requested : Plan → Status × World H S Addr → Type 0
  Requested plan (st, w) = IsProxy e plan w × Waits e w

  -- A source that is ready still has less to give, since what it gave has been written on.
  turns-falls :
      (c : Connection) (s : S) (c₁ : Connection) (s₁ : S) (c₂ : Connection) (s₂ : S)
      → WasRead e c s c₁ s₁
      → c₂ ≡ record c₁ { buffer = c₂.buffer }
      → Lessens streams s₁ s₂
      → fully_written c₂.buffer ≡ true
      → is_ready_to_read c₂ ≡ true
      → turns e c₂ s₂ < turns e c s
  turns-falls c s c₁ s₁ c₂ s₂ r same l f y =
      let ready₁ : is_ready_to_read c₁ ≡ true = rw (sym (ap is_ready_to_read same)) y in
      let ready = r.progress.ready ready₁ in
      let same_fd : c₂.fd ≡ c.fd = ap (λ (x : Connection). x.fd) same ∙ r.same_fd in
      let fewer = l.1 in
      let less = l.0 c.fd in
      let fewer₁ = r.progress.lessens.1 in
      let less₁ = r.progress.lessens.0 c.fd in
      elim (Bool-cases (fully_written c.buffer)) [
        | inl done ↦
            let falls = r.progress.falls ready₁ done in
            rw (y, f, ready, done, same_fd) (omega arith)
        | inr more ↦ rw (y, f, ready, more, same_fd) (omega arith)
      ]

  after_response :
      (plan : Plan) (w : World H S Addr) (c : Connection) (s : S) (st : Status) (state : H)
      (r : Stream S)
      → WasRead e w.server_data w.system c s
      → IsProxy e plan (with_read e server w c s)
      → Processed streams server (stream_of server (with_read e server w c s)) st r
      → Valid server state
      → Keeps
          (IsProxy e plan)
          (Responded plan)
          (rounds e server)
          (rounds e server w)
          (ok (after_process server st (put_stream server state r (with_read e server w c s))))
  after_response plan w c s complete state r was i p v =
      let next =
        response-IsProxy e plan (with_read e server w c s) complete state r p v (λ q. cc) i in
      elim (Bool-cases (is_ready_to_read r.src)) [
        | inl y ↦ rw y (
          next,
          turns-falls w.server_data w.system c s r.src r.system was p.src p.lessens (p.written refl)
              y,
        )
        | inr n ↦ elim (Bool-cases (is_done r.src.state)) [
          | inl d ↦ rw (n, d) i.endable
          | inr d ↦ rw (n, d) (next, inl (stopped-ServerWaits r.src n d))
        ]
      ]
  after_response plan w c s incomplete state r was i p v = (
    response-IsProxy e plan (with_read e server w c s) incomplete state r p v (λ q. cc) i,
    inr (p.waits refl i.client_open),
  )
  after_response plan w c s src_closed state r was i p v = i.endable
  after_response plan w c s dest_closed state r was i p v = i.endable
  after_response plan w c s deny state r was i p v = i.endable
  after_response plan w c s read_incomplete state r was i p v = elim p.answers [ ]
  after_response plan w c s write_incomplete state r was i p v = elim p.answers [ ]
  after_response plan w c s connection_failed state r was i p v = elim p.answers [ ]

  shut-IsProxy :
      (plan : Plan) (w : World H S Addr)
      → IsProxy e plan w
      → IsProxy e plan (record w { client_data = set_state w.client_data read_shut })
  shut-IsProxy plan w i = record {
    endable = i.endable;
    client_reader = IsReader-same w.client_data _ refl i.client_reader;
    server_reader = i.server_reader;
    client_open = open-read_shut w.client_data.state i.client_open;
    request_interface = i.request_interface;
    response_interface = i.response_interface;
    request_valid = i.request_valid;
    response_valid = i.response_valid;
    client_event = i.client_event;
    server_event = i.server_event;
    some_fuel = i.some_fuel;
    client_fuel = λ y. i.client_fuel (open_connected w.client_data.state i.client_open).0;
    server_fuel = i.server_fuel;
  }

  after_request :
      (plan : Plan) (w : World H S Addr) (c : Connection) (s : S) (st : Status) (r : Stream S)
      (v : World H S Addr) (a : Status × World H S Addr)
      → WasRead e w.client_data w.system c s
      → Processed streams client (stream_of client (with_read e client w c s)) st r
      → v.client_data ≡ r.src
      → v.system ≡ r.system
      → Attempted e plan v a.1
      → Keeps
          (λ u. IsProxy e plan u × Waits e u)
          (Requested plan)
          (rounds e client)
          (rounds e client w)
          (ok (after_connect_attempt client st a))
  after_request plan w c s complete r v (complete, u) was p src sys a =
      let same : u.client_data ≡ r.src = a.same_client ∙ src in
      let l : Lessens streams r.system u.system =
        subst (λ t. Lessens streams t u.system) sys a.lessens in
      elim (Bool-cases (is_ready_to_read u.client_data)) [
        | inl y ↦ rw y (
          (a.proxy, a.waits),
          subst (λ x. turns e x u.system < turns e w.client_data w.system) (sym same)
              (turns-falls w.client_data w.system c s r.src u.system was p.src
                (Lessens-trans streams s r.system u.system p.lessens l) (p.written refl)
                (subst (λ x. is_ready_to_read x ≡ true) same y)),
        )
        | inr n ↦ rw n (a.proxy, a.waits)
      ]
  after_request plan w c s incomplete r v (complete, u) was p src sys a = (a.proxy, a.waits)
  after_request plan w c s src_closed r v (complete, u) was p src sys a =
      (shut-IsProxy plan u a.proxy, a.waits)
  after_request plan w c s dest_closed r v (complete, u) was p src sys a = (a.proxy, a.waits)
  after_request plan w c s deny r v (complete, u) was p src sys a = (a.proxy, a.waits)
  after_request plan w c s read_incomplete r v (complete, u) was p src sys a = elim p.answers [ ]
  after_request plan w c s write_incomplete r v (complete, u) was p src sys a = elim p.answers [ ]
  after_request plan w c s connection_failed r v (complete, u) was p src sys a = elim p.answers [ ]
  after_request plan w c s st r v (incomplete, u) was p src sys a = (a.proxy, a.waits)
  after_request plan w c s st r v (read_incomplete, u) was p src sys a = (a.proxy, a.waits)
  after_request plan w c s st r v (write_incomplete, u) was p src sys a = (a.proxy, a.waits)
  after_request plan w c s st r v (connection_failed, u) was p src sys a = (a.proxy, a.waits)
  after_request plan w c s st r v (src_closed, u) was p src sys a = (a.proxy, a.waits)
  after_request plan w c s st r v (dest_closed, u) was p src sys a = (a.proxy, a.waits)
  after_request plan w c s st r v (deny, u) was p src sys a = (a.proxy, a.waits)

  module _ (h : IsEnvironment e) where
    response_round :
        (plan : Plan) (w : World H S Addr)
        → IsProxy e plan w
        → Keeps
            (IsProxy e plan)
            (Responded plan)
            (rounds e server)
            (rounds e server w)
            (stream_round os sockets lib handler server w)
    unfolding stream_round attempt_jit_server_connect
    response_round plan w i =
        let (c, s, done, was) = read_source-WasRead e h server w i.server_reader in
        let w₁ = with_read e server w c s in
        let i₁ = read-IsProxy e plan server w c s was i in
        let (st, state, r, processed, p, v) =
          process-Processed e h server w₁ i₁.server_reader i₁.endable.4 i₁.response_interface
            i₁.response_valid in
        rw (done, processed) (after_response plan w c s st state r was i₁ p v)

    request_round :
        (plan : Plan) (w : World H S Addr)
        → IsProxy e plan w × Waits e w
        → Keeps
            (λ u. IsProxy e plan u × Waits e u)
            (Requested plan)
            (rounds e client)
            (rounds e client w)
            (stream_round os sockets lib handler client w)
    unfolding stream_round
    request_round plan w (i, waits) =
        let (c, s, done, was) = read_source-WasRead e h client w i.client_reader in
        let w₁ = with_read e client w c s in
        let i₁ = read-IsProxy e plan client w c s was i in
        let (st, state, r, processed, p, v) =
          process-Processed e h client w₁ i₁.client_reader i₁.endable.3 i₁.request_interface
            i₁.request_valid in
        let w₂ = put_stream client state r w₁ in
        let (a, tried, attempted) =
          Returns-eq-ok (λ a. Attempted e plan w₂ a.1) _
            (attempt_jit_server_connect-Attempted e h plan w₂
              (request-IsProxy e plan w₁ st state r p v i₁)
              (request-Waits e w₁ st state r p (read-Waits e w c s was waits))) in
        rw (done, processed, tried) (after_request plan w c s st r w₂ a was p refl refl attempted)

    pub handle_stream-Responded :
        (plan : Plan) (w : World H S Addr)
        → IsProxy e plan w
        → Returns (Responded plan) (handle_stream os sockets lib handler plan.fuel server w)
    unfolding handle_stream
    handle_stream-Responded plan w i =
        loop-Returns (IsProxy e plan) (Responded plan) (rounds e server)
          (stream_round os sockets lib handler server) (λ u. response_round plan u) plan.fuel w
          (turns-lt e plan w.server_data w.system i.some_fuel i.server_fuel) i

    pub handle_stream-Requested :
        (plan : Plan) (w : World H S Addr)
        → IsProxy e plan w
        → Waits e w
        → Returns (Requested plan) (handle_stream os sockets lib handler plan.fuel client w)
    unfolding handle_stream
    handle_stream-Requested plan w i waits =
        loop-Returns (λ u. IsProxy e plan u × Waits e u) (Requested plan) (rounds e client)
          (stream_round os sockets lib handler client) (λ u. request_round plan u) plan.fuel w
          (turns-lt e plan w.client_data w.system i.some_fuel i.client_fuel) (i, waits)
