-- ===== src/Socketlib/Connection/States.antt =====
-- The order in which the two halves of a connection are shut, by `state(new_state)`.
use switchflow.Base.{◌≡◌, refl, true}
use switchflow.Socketlib.Connection.{
  State, write_shut, read_shut, hungup, Connection, open_for_read, next_state, set_state,
}

hungup_last : (old : State) → next_state (next_state old write_shut) read_shut ≡ hungup
hungup_last read_shut = refl
hungup_last _ = refl

open_again : (old : State) → open_for_read (next_state old write_shut) ≡ true
open_again read_shut = refl
open_again _ = refl

-- From any state: shut for writing and then for reading, a connection is hung up. Shut for reading
-- and then for writing it is not, but is open for reading again.
pub set_state-order :
    (c : Connection)
    → ((set_state (set_state c write_shut) read_shut).state ≡ hungup)
      × (open_for_read (set_state (set_state c read_shut) write_shut).state ≡ true)
set_state-order c = (hungup_last c.state, open_again (next_state c.state read_shut))
