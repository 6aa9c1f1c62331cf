-- ===== src/Http/Body/Receiver.antt =====
-- switchflow/http/i_body_receiver.hpp: what the body parsers ask of the layer above, as a record
-- of functions over that layer's state, and a receiver that accepts and collects everything.
use switchflow.Base.{ℕ, ◌+◌, ◌≤◌, ◌≡◌, refl, Bool, [], ◌∷◌, ◌++◌, Bytes}
use switchflow.Util.Buffer.{Buffer, slice}
use switchflow.Util.Buffer.Valid.{IsValid}
use switchflow.Http.{Status, complete}

-- `set_body_encoding` is called by none of the parsers.
pub record BodyReceiver (R : Type 0) : Type 0 where
  pub set_body : R → Buffer → Bool → Status × Buffer × R
  pub set_chunk_size : R → ℕ → R
  pub forward_chunk_size : R → Status × R
  pub forward_chunk_trailer : R → Status × R

-- The answer of `set_body`: the buffer is as it was, but for its write position.
abbrev pub Wrote : {R : Type 0} → Buffer → Status × Buffer × R → Type 0
Wrote b (st, b', r) = (w : ℕ) × (w ≤ b.working_length) × (b' ≡ record b { write_position = w })

-- The receiver writes what a valid buffer holds between its write positions, as `non_blocking_write`
-- of switchflow/socketlib/connection.cpp does, and so moves the write position alone.
pub record WritesOnly {R : Type 0} (receiver : BodyReceiver R) : Type 0 where
  pub wrote :
      (r : R) (b : Buffer) (is_last : Bool) → IsValid b → Wrote b (receiver.set_body r b is_last)

pub record Collected : Type 0 where
  pub body : Bytes
  pub chunk_sizes : Bytes
  pub trailers : ℕ

-- Takes all that it is handed at once.
abbrev pub collect_body : Collected → Buffer → Bool → Status × Buffer × Collected
collect_body r b is_last = (
  complete,
  record b { write_position = b.write_end_position },
  record r { body = r.body ++ slice b b.write_position b.write_end_position },
)

abbrev pub collector : BodyReceiver Collected
collector = record {
  set_body = collect_body;
  set_chunk_size = λ r n. record r { chunk_sizes = r.chunk_sizes ++ (n ∷ []) };
  forward_chunk_size = λ r. (complete, r);
  forward_chunk_trailer = λ r. (complete, record r { trailers = r.trailers + 1 });
}

pub collector-WritesOnly : WritesOnly collector
collector-WritesOnly = record { wrote = λ r b is_last v. (b.write_end_position, v.write_end, refl) }
