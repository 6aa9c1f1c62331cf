-- ===== src/Sfrp/Proxylib/ProxyHandler/Polls.antt =====
-- About the events that the proxy adds and deletes.
use switchflow.Base.{
  ℕ, ◌≡◌, Bool, true, false, ◌&&◌, inl, inr, Bool-cases, arith, Returns, Returns-eq-ok,
}
use switchflow.Socketlib.Connection.Progress.{Lessens}
use switchflow.Event.{Events, Event, is_open, pending, del_event, add_event}
use switchflow.Sfrp.Proxylib.ProxyHandler.Contract.{
  Environment, IsEnvironment, Lessens-refl, Lessens-trans,
}

module _ {H S Addr : Type 0} (e : Environment H S Addr) (h : IsEnvironment e) where
  open e use {lib, streams}

  pub del_event-Returns :
      (ev : Event) (s : S)
      → Returns
          (λ s'. (is_open ev.fd ≡ true → pending lib ev s' ≡ false) × Lessens streams s s')
          (del_event lib ev s)
  unfolding del_event
  del_event-Returns ev s = elim (Bool-cases (is_open ev.fd && pending lib ev s)) [
    | inl y ↦
        let gone = h.libevent.deleted s ev.id in
        rw (y, gone) ((λ o. gone), h.quiet.deleting s ev.id)
    | inr n ↦ rw n ((λ o. ground arith), Lessens-refl streams s)
  ]

  schedule-Returns :
      (ev : Event) (events : Events) (timeout : ℕ) (s₀ : S) (p : Bool × S)
      → Lessens streams s₀ p.1
      → Returns (λ s'. Lessens streams s₀ s') (switchflow.Event.schedule lib ev events timeout p)
  schedule-Returns ev events timeout s₀ (false, s) l = l
  schedule-Returns ev events timeout s₀ (true, s) l =
      let t = lib.event_set s ev.id ev.fd events in
      rw (h.libevent.added t ev.id timeout) (
        Lessens-trans streams s₀ s _ l (
          Lessens-trans streams s t _ (h.quiet.setting s ev.id ev.fd events)
            (h.quiet.adding t ev.id timeout)))

  pub add_event-Returns :
      (ev : Event) (events : Events) (timeout : ℕ) (s : S)
      → is_open ev.fd ≡ true
      → Returns (λ s'. Lessens streams s s') (add_event lib ev events timeout s)
  unfolding add_event
  add_event-Returns ev events timeout s o = elim (Bool-cases (pending lib ev s)) [
    | inr n ↦
        rw n (schedule-Returns ev events timeout s (lib.fcntl s ev.fd) (h.quiet.flags s ev.fd))
    | inl y ↦
        let (s', done, (gone, l)) =
          Returns-eq-ok
            (λ s'. (is_open ev.fd ≡ true → pending lib ev s' ≡ false) × Lessens streams s s') _
            (del_event-Returns ev s) in
        rw (y, done, gone o)
          (schedule-Returns ev events timeout s (lib.fcntl s' ev.fd)
            (Lessens-trans streams s s' _ l (h.quiet.flags s' ev.fd)))
  ]
