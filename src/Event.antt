-- ===== src/Event.antt =====
-- switchflow/event: event.cpp and poller.cpp, over the functions of libevent, which are a parameter.
use switchflow.Base.{
  ◌≡◌, ℕ, Bool, true, false, not, ◌&&◌, if◌then◌else◌, none, some, Outcome, ok, ◌>>=◌, ◌>>◌,
  check_condition,
}
use switchflow.Socketlib.Os.{Fd}

-- EV_READ and EV_WRITE.
pub record Events : Type 0 where
  pub ev_read : Bool
  pub ev_write : Bool

-- An `event`: its descriptor, and which `event_s` of the library it has.
pub record Event : Type 0 where
  pub fd : Fd
  pub id : ℕ

-- `fcntl` sets the flags of a descriptor, and answers whether it did; `event_add` has the timeout in
-- seconds, or 0 for none.
pub record Libevent (S : Type 0) : Type 0 where
  pub event_pending : S → ℕ → Bool
  pub event_set : S → ℕ → Fd → Events → S
  pub event_add : S → ℕ → ℕ → S
  pub event_del : S → ℕ → S
  pub fcntl : S → Fd → Bool × S

-- An event is pending once it was added, and no longer once it was deleted.
pub record IsLibevent {S : Type 0} (lib : Libevent S) : Type 0 where
  pub added : (s : S) (id timeout : ℕ) → lib.event_pending (lib.event_add s id timeout) id ≡ true
  pub deleted : (s : S) (id : ℕ) → lib.event_pending (lib.event_del s id) id ≡ false

abbrev pub is_open : Fd → Bool
is_open none = false
is_open (some n) = true

module _ {S : Type 0} (lib : Libevent S) where
  abbrev pub set_event : Event → Fd → S → Event × S
  set_event e fd s =
      (record e { fd = fd }, lib.event_set s e.id fd (record { ev_read = false; ev_write = false }))

  abbrev pub pending : Event → S → Bool
  pending e s = lib.event_pending s e.id

  unfoldable pub del_event : Event → S → Outcome S
  del_event e s =
      if is_open e.fd && pending e s
      then check_condition (not (pending e (lib.event_del s e.id))) >> ok (lib.event_del s e.id)
      else ok s

  abbrev pub del_pending : Event → S → Outcome S
  del_pending e s =
      if pending e s
      then (del_event e s >>= λ s'. check_condition (not (pending e s')) >> ok s')
      else ok s

  -- What follows `fcntl`.
  abbrev pub schedule : Event → Events → ℕ → Bool × S → Outcome S
  schedule e events timeout (false, s) = ok s
  schedule e events timeout (true, s) =
      let s' = lib.event_add (lib.event_set s e.id e.fd events) e.id timeout in
      check_condition (pending e s') >> ok s'

  -- An event that is pending is deleted first. Nothing is scheduled where `fcntl` fails.
  unfoldable pub add_event : Event → Events → ℕ → S → Outcome S
  add_event e events timeout s =
      del_pending e s >>= λ s'. schedule e events timeout (lib.fcntl s' e.fd)
