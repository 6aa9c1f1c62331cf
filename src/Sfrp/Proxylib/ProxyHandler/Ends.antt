-- ===== src/Sfrp/Proxylib/ProxyHandler/Ends.antt =====
-- About the ends of `handle_event`: a shutdown, or events to wait for.
use switchflow.Base.{
  ℕ, ◌+◌, ◌-◌, ◌≡◌, refl, Bool, true, false, not, ◌||◌, ◌⊎◌, inl, inr, arith, some, none, Option,
  Returns, Returns-eq-ok, Bool-cases, length, length-set, lt→ltb,
}
use switchflow.Util.MemoryManager.{MemoryManager, before, release_element}
use switchflow.Socketlib.Os.{Fd}
use switchflow.Socketlib.Connection.{
  Connection, State, not_connected, connected, connecting, read_shut, write_shut, hungup,
  open_for_read, open_for_write,
}
use switchflow.Socketlib.Connection.Progress.{Lessens}
use switchflow.Event.{Events, Event, is_open, pending}
use switchflow.Sfrp.Proxylib.ProxyHandler.World.{World, is_not_connected}
use switchflow.Sfrp.Proxylib.ProxyHandler.HandleEvent.{
  no_return, events_of, any_event, is_some, release, close_fd, shutdown, add_if_any, await_events,
}
use switchflow.Sfrp.Proxylib.ProxyHandler.Contract.{
  Environment, IsEnvironment, Lessens-refl, Lessens-trans,
}
use switchflow.Sfrp.Proxylib.ProxyHandler.Invariant.{
  Plan, CanRelease, IsProxy, IsEndable, Waits, Bounded-after,
}
use switchflow.Sfrp.Proxylib.ProxyHandler.Polls.{del_event-Returns, add_event-Returns}

-- One more element is free.
abbrev pub GivenBack : MemoryManager → MemoryManager → Type 0
GivenBack m m' =
    (m'.current_free_position + 1 ≡ m.current_free_position)
    × (length m'.free_data_stack ≡ length m.free_data_stack)

pub record IsReleasable (plan : Plan) : Type 0 where
  pub proxies : CanRelease plan.proxies
  pub requests : CanRelease plan.requests
  pub responses : CanRelease plan.responses

release_element-GivenBack :
    (p : ℕ) (m : MemoryManager) → CanRelease m → Returns (GivenBack m) (release_element p m)
unfolding release_element
release_element-GivenBack p m (some_out, fits, small) =
    let back : before m.current_free_position ≡ m.current_free_position - 1 = omega arith in
    let inside = lt→ltb (m.current_free_position - 1) (length m.free_data_stack) (omega arith) in
    rw (back, inside) (omega arith, length-set m.free_data_stack (m.current_free_position - 1) p)

release-GivenBack :
    (p : Option ℕ) (m : MemoryManager)
    → is_some p ≡ true
    → CanRelease m
    → Returns (GivenBack m) (release p m)
release-GivenBack none m e c = cc
release-GivenBack (some p) m e c = release_element-GivenBack p m c

-- Open for reading or writing, so connected.
open-connected :
    (st : State) → (open_for_read st || open_for_write st) ≡ true → is_not_connected st ≡ false
open-connected connected e = refl
open-connected read_shut e = refl
open-connected write_shut e = refl
open-connected hungup e = refl
open-connected connecting e = refl
open-connected not_connected e = cc

any_event-open :
    (c : Connection)
    → any_event (events_of c) ≡ true
    → (open_for_read c.state || open_for_write c.state) ≡ true
any_event-open c e = ground arith

some_event :
    (client_ev server_ev : Events) (on : Bool)
    → (on ≡ true → (server_ev.ev_read ≡ true) ⊎ (client_ev.ev_write ≡ true))
    → (any_event client_ev || (any_event server_ev || not on)) ≡ true
some_event client_ev server_ev true asks = elim (asks refl) [
  | inl e ↦ ground arith
  | inr e ↦ ground arith
]
some_event client_ev server_ev false asks = ground arith

module _ {H S Addr : Type 0} (e : Environment H S Addr) where
  open e use {os, sockets, lib, handler, streams}

  -- The proxy handler and both stream handlers are back with their managers, each once.
  pub record IsEnded (plan : Plan) (w : World H S Addr) : Type 0 where
    pub no_request : w.p_request_stream_handler ≡ none
    pub no_response : w.p_response_stream_handler ≡ none
    pub proxies : GivenBack plan.proxies w.proxy_handlers
    pub requests : GivenBack plan.requests w.request_stream_handlers
    pub responses : GivenBack plan.responses w.response_stream_handlers

  -- An event is asked for that the proxy needs, if the server is connected.
  abbrev pub AsksForEvent : World H S Addr → Type 0
  AsksForEvent w =
      (open_for_read w.server_data.state || open_for_write w.server_data.state) ≡ true
      → ((events_of w.server_data).ev_read ≡ true) ⊎ ((events_of w.client_data).ev_write ≡ true)

  asks_for_event :
      (plan : Plan) (w : World H S Addr) → IsProxy e plan w → Waits e w → AsksForEvent w
  asks_for_event plan w i (inl waits) o =
      let (not_ready, is_open) = waits o in inl (rw (not_ready, is_open) refl)
  asks_for_event plan w i (inr waits) o = inr (rw (waits, i.client_open) refl)

  pub system-IsProxy :
      (plan : Plan) (w : World H S Addr) (s : S)
      → IsProxy e plan w
      → Lessens streams w.system s
      → IsProxy e plan (record w { system = s })
  system-IsProxy plan w s i l = record {
    endable = i.endable;
    client_reader = i.client_reader;
    server_reader = i.server_reader;
    client_open = i.client_open;
    request_interface = i.request_interface;
    response_interface = i.response_interface;
    request_valid = i.request_valid;
    response_valid = i.response_valid;
    client_event = i.client_event;
    server_event = i.server_event;
    some_fuel = i.some_fuel;
    client_fuel =
        Bounded-after e plan w.client_data w.client_data w.system s refl (λ y. y) l i.client_fuel;
    server_fuel =
        Bounded-after e plan w.server_data w.server_data w.system s refl (λ y. y) l i.server_fuel;
  }

  module _ (h : IsEnvironment e) where
    close_fd-Returns :
        (ev : Event) (fd : Fd) (s : S) → Returns (λ s'. Unit {0}) (close_fd sockets lib ev fd s)
    close_fd-Returns ev none s = tt
    close_fd-Returns ev (some n) s =
        let (s', done, l) =
          Returns-eq-ok
            (λ s'. (is_open ev.fd ≡ true → pending lib ev s' ≡ false) × Lessens streams s s') _
            (del_event-Returns e h ev s) in
        rw done tt

    pub shutdown-IsEnded :
        (plan : Plan) (w : World H S Addr)
        → IsReleasable plan
        → IsEndable e plan w
        → Returns (IsEnded plan) (shutdown sockets lib w)
    unfolding shutdown
    shutdown-IsEnded plan w r (same_proxies, same_requests, same_responses, p, q) =
        let (s₁, closed, _) =
          Returns-eq-ok (λ s'. Unit {0}) _
            (close_fd-Returns w.client_event w.client_data.fd w.system) in
        let (s₂, closed₂, _) =
          Returns-eq-ok (λ s'. Unit {0}) _ (close_fd-Returns w.server_event w.server_data.fd s₁) in
        let (m, freed, given) =
          Returns-eq-ok (GivenBack plan.proxies) _
            (release_element-GivenBack w.this plan.proxies r.proxies) in
        let (m₁, freed₁, given₁) =
          Returns-eq-ok (GivenBack plan.requests) _
            (release-GivenBack w.p_request_stream_handler plan.requests p r.requests) in
        let (m₂, freed₂, given₂) =
          Returns-eq-ok (GivenBack plan.responses) _
            (release-GivenBack w.p_response_stream_handler plan.responses q r.responses) in
        rw (closed, closed₂, p, same_proxies, freed, same_requests, freed₁, same_responses, freed₂)
          (record {
            no_request = refl;
            no_response = refl;
            proxies = given;
            requests = given₁;
            responses = given₂;
          })

    add_if_any-Returns :
        (ev : Event) (events : Events) (s : S)
        → (any_event events ≡ true → is_open ev.fd ≡ true)
        → Returns (λ s'. Lessens streams s s') (add_if_any lib ev events s)
    add_if_any-Returns ev events s o = elim (Bool-cases (any_event events)) [
      | inl y ↦ rw y (add_event-Returns e h ev events 0 s (o y))
      | inr n ↦ rw n (Lessens-refl streams s)
    ]

    pub await_events-Returns :
        (plan : Plan) (w : World H S Addr)
        → IsProxy e plan w
        → Waits e w
        → Returns
            (λ a. (a.0 ≡ no_return) × IsProxy e plan a.1 × AsksForEvent a.1)
            (await_events sockets lib w)
    unfolding await_events
    await_events-Returns plan w i waits =
        let client_ev = events_of w.client_data in
        let server_ev = events_of w.server_data in
        let server_on = open_for_read w.server_data.state || open_for_write w.server_data.state in
        let no_deadlock : (any_event client_ev || (any_event server_ev || not server_on)) ≡ true =
          some_event client_ev server_ev server_on (asks_for_event plan w i waits) in
        let (s₁, added, l₁) =
          Returns-eq-ok (λ s'. Lessens streams w.system s') _
            (add_if_any-Returns w.client_event client_ev w.system (λ a. i.client_event)) in
        let (s₂, added₂, l₂) =
          Returns-eq-ok (λ s'. Lessens streams s₁ s') _
            (add_if_any-Returns w.server_event server_ev s₁ (λ a.
              i.server_event
                (open-connected w.server_data.state (any_event-open w.server_data a)))) in
        rw (no_deadlock, added, added₂)
          (
            refl,
            system-IsProxy plan w s₂ i (Lessens-trans streams w.system s₁ s₂ l₁ l₂),
            asks_for_event plan w i waits,
          )
