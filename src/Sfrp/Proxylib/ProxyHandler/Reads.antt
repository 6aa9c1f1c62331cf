-- ===== src/Sfrp/Proxylib/ProxyHandler/Reads.antt =====
-- About the read of `handle_stream`.
use Prim.Derive.{subst}
use switchflow.Base.{
  ◌≡◌, refl, sym, ap, ◌∙◌, true, false, ◌⊎◌, inl, inr, arith, ok, Returns-eq-ok, Bool-cases,
}
use switchflow.Socketlib.Connection.{
  Connection, State, not_connected, connected, connecting, read_shut, write_shut, hungup,
  open_for_write, next_state,
}
use switchflow.Socketlib.Connection.Read.{Read, IsReader, non_blocking_read-Read}
use switchflow.Socketlib.Connection.Progress.{Progress, non_blocking_read-Progress}
use switchflow.Sfrp.Proxylib.ProxyHandler.World.{
  Side, client, server, World, is_not_connected, is_readable, src_data, put_src,
}
use switchflow.Sfrp.Proxylib.ProxyHandler.HandleStream.{read_source}
use switchflow.Sfrp.Proxylib.ProxyHandler.Contract.{Environment, IsEnvironment, Lessens-refl}
use switchflow.Sfrp.Proxylib.ProxyHandler.Invariant.{
  Plan, IsProxy, Waits, Bounded-after, ready-readable,
}

-- The states that shutting one direction leads to.
shut_readable :
    (st new : State)
    → (new ≡ read_shut) ⊎ (new ≡ write_shut)
    → is_readable (next_state st new) ≡ true
shut_readable not_connected new (inl e) = rw e refl
shut_readable not_connected new (inr e) = rw e refl
shut_readable connected new (inl e) = rw e refl
shut_readable connected new (inr e) = rw e refl
shut_readable connecting new (inl e) = rw e refl
shut_readable connecting new (inr e) = rw e refl
shut_readable read_shut new (inl e) = rw e refl
shut_readable read_shut new (inr e) = rw e refl
shut_readable write_shut new (inl e) = rw e refl
shut_readable write_shut new (inr e) = rw e refl
shut_readable hungup new (inl e) = rw e refl
shut_readable hungup new (inr e) = rw e refl

-- A direction that was open stays so when the other is shut.
pub open-read_shut :
    (st : State) → open_for_write st ≡ true → open_for_write (next_state st read_shut) ≡ true
open-read_shut connected e = refl
open-read_shut read_shut e = refl
open-read_shut not_connected e = cc
open-read_shut connecting e = cc
open-read_shut write_shut e = cc
open-read_shut hungup e = cc

module _ {H S Addr : Type 0} (e : Environment H S Addr) where
  open e use {os, sockets, lib, handler, streams, Valid}

  -- The source behind a read.
  pub record WasRead (c : Connection) (s : S) (c' : Connection) (s' : S) : Type 0 where
    pub reader : IsReader c'
    pub same_fd : c'.fd ≡ c.fd
    pub readable : is_readable c'.state ≡ true → is_readable c.state ≡ true
    pub progress : Progress streams c s c' s'

  abbrev pub with_read : Side → World H S Addr → Connection → S → World H S Addr
  with_read side w c s = put_src side c (record w { system = s })

  put_src-same : (side : Side) (w : World H S Addr) → put_src side (src_data side w) w ≡ w
  put_src-same client w = refl
  put_src-same server w = refl

  unread-WasRead :
      (c : Connection) (s : S) → IsReader c → is_readable c.state ≡ false → WasRead c s c s
  unread-WasRead c s r n = record {
    reader = r;
    same_fd = refl;
    readable = λ h. h;
    progress = record {
      same_write = refl;
      state = inl refl;
      lessens = Lessens-refl streams s;
      ready = λ h. h;
      kept = λ h. refl;
      falls = λ h f. let no = ready-readable c h in absurd (ground arith);
    };
  }

  module _ (h : IsEnvironment e) where
    pub read_source-WasRead :
        (side : Side) (w : World H S Addr)
        → IsReader (src_data side w)
        → (c : Connection) × (s : S) × (read_source os sockets lib handler side w
            ≡ ok (with_read side w c s))
          × WasRead (src_data side w) w.system c s
    unfolding read_source
    read_source-WasRead side w r = elim (Bool-cases (is_readable (src_data side w).state)) [
      | inr n ↦ (
        src_data side w,
        w.system,
        rw n (ap ok (sym (put_src-same side w))),
        unread-WasRead (src_data side w) w.system r n,
      )
      | inl y ↦
          let c = src_data side w in
          let (a, done, post) =
            Returns-eq-ok (λ a. Read os streams c w.system a.0 a.1 a.2) _
              (non_blocking_read-Read os streams h.posix c w.system r) in
          let (b, again, progress) =
            Returns-eq-ok (λ a. Progress streams c w.system a.1 a.2) _
              (non_blocking_read-Progress streams os h.posix h.finite c w.system r) in
          let same : b ≡ a = cc in
          (
            a.1,
            a.2,
            rw (y, done) refl,
            record {
              reader = post.reader;
              same_fd = post.same_fd;
              readable = λ _. y;
              progress = subst (λ x. Progress streams c w.system x.1 x.2) same progress;
            },
          )
    ]

  connected_after_read :
      (c : Connection) (s : S) (c' : Connection) (s' : S)
      → WasRead c s c' s'
      → is_not_connected c'.state ≡ false
      → is_not_connected c.state ≡ false
  connected_after_read c s c' s' r n = elim r.progress.state [
    | inl same ↦ rw (sym same) n
    | inr shut ↦
        let readable = r.readable (rw shut (shut_readable c.state read_shut (inl refl))) in
        ground arith
  ]

  open_after_read :
      (c : Connection) (s : S) (c' : Connection) (s' : S)
      → WasRead c s c' s'
      → open_for_write c.state ≡ true
      → open_for_write c'.state ≡ true
  open_after_read c s c' s' r o = elim r.progress.state [
    | inl same ↦ rw same o
    | inr shut ↦ rw shut (open-read_shut c.state o)
  ]

  pub read-IsProxy :
      (plan : Plan) (side : Side) (w : World H S Addr) (c : Connection) (s : S)
      → WasRead (src_data side w) w.system c s
      → IsProxy e plan w
      → IsProxy e plan (with_read side w c s)
  read-IsProxy plan client w c s r i = record {
    endable = i.endable;
    client_reader = r.reader;
    server_reader = i.server_reader;
    client_open = open_after_read w.client_data w.system c s r i.client_open;
    request_interface = i.request_interface;
    response_interface = i.response_interface;
    request_valid = i.request_valid;
    response_valid = i.response_valid;
    client_event = i.client_event;
    server_event = i.server_event;
    some_fuel = i.some_fuel;
    client_fuel =
        Bounded-after e plan w.client_data c w.system s r.same_fd r.readable r.progress.lessens
          i.client_fuel;
    server_fuel =
        Bounded-after e plan w.server_data w.server_data w.system s refl (λ y. y) r.progress.lessens
          i.server_fuel;
  }
  read-IsProxy plan server w c s r i = record {
    endable = i.endable;
    client_reader = i.client_reader;
    server_reader = r.reader;
    client_open = i.client_open;
    request_interface = i.request_interface;
    response_interface = i.response_interface;
    request_valid = i.request_valid;
    response_valid = i.response_valid;
    client_event = i.client_event;
    server_event = λ n. i.server_event (connected_after_read w.server_data w.system c s r n);
    some_fuel = i.some_fuel;
    client_fuel =
        Bounded-after e plan w.client_data w.client_data w.system s refl (λ y. y) r.progress.lessens
          i.client_fuel;
    server_fuel =
        Bounded-after e plan w.server_data c w.system s r.same_fd r.readable r.progress.lessens
          i.server_fuel;
  }

  pub read-Waits :
      (w : World H S Addr) (c : Connection) (s : S)
      → WasRead w.client_data w.system c s
      → Waits e w
      → Waits e (with_read client w c s)
  read-Waits w c s r (inl server_waits) = inl server_waits
  read-Waits w c s r (inr client_waits) = inr (r.progress.same_write ∙ client_waits)
