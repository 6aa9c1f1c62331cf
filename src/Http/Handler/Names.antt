-- ===== src/Http/Handler/Names.antt =====
-- A name that the header parser hands to `header_handler` makes room for a field; a value that goes
-- on behind a complete one finds none.
use switchflow.Base.{
  ◌+◌, ◌^◌, ◌≤◌, ◌<◌, ◌≡◌, refl, ◌∙◌, ◌⊎◌, inl, inr, Bool, true, false, arith, leb, ◌==◌,
  if◌then◌else◌, Bytes, length, Outcome, ok, fault, check_failed, ◌>>=◌, Bool-cases, Returns-eq-ok,
}
use switchflow.Http.{Status, complete, data_overflow}
use switchflow.Http.Message.{Shared, append_if_fits, append_to_name, append_to_value, add_field}
use switchflow.Http.Message.Room.{AppendsIfFits, append_if_fits-AppendsIfFits}
use switchflow.Http.Message.Owned.{
  total, get_header-HeaderRoom, get_header-fault, put_header-Kept, Adds, add_field-Adds,
}
use switchflow.Http.Handler.{World, name_appended, set_field_name, set_field_value}
use switchflow.Http.Handler.Values.{IsHandler, Valued, set_field_value-Valued}

abbrev pub Named : World → Outcome (Status × World) → Type 0
Named w (ok (st, w')) =
    IsHandler w'
    × (total w'.shared ≡ total w.shared)
    × (w'.handler ≡ w.handler)
    × ((st ≡ complete) × (w'.shared.message.current_num_fields ≡ w'.handler.current_field + 1)
        ⊎ (st ≡ data_overflow))
Named w (fault e) = ⊥

name_appended-Named :
    (w : World) (src : Bytes)
    → IsHandler w
    → w.shared.message.current_num_fields ≡ w.handler.current_field + 1
    → length src < 2 ^ 31
    → Named w (name_appended w src)
unfolding name_appended append_to_name
name_appended-Named w src v l h =
    let n = w.handler.current_field in
    let (k, e, r) = get_header-HeaderRoom w.shared n v.message (omega (arith, l)) in
    let ((done, b), f, post) =
      Returns-eq-ok (AppendsIfFits k.name src) (append_if_fits k.name src)
        (append_if_fits-AppendsIfFits k.name src r.name_room h) in
    let kept =
      put_header-Kept w.shared n (record k { name = b }) v.message
        (record { name_room = post.0; value_room = r.value_room }) in
    rw (e, f) (ground (arith, l, v.from, v.upto, kept))

Named-from :
    (w w₁ : World) (o : Outcome (Status × World))
    → w₁.handler ≡ w.handler
    → total w₁.shared ≡ total w.shared
    → Named w₁ o
    → Named w o
Named-from w w₁ (fault e) k t a = a
Named-from w w₁ (ok (st, w')) k t a = (a.0, a.1 ∙ t, a.2 ∙ k, a.3)

past_the_end :
    (w : World) (src : Bytes) (b_complete : Bool)
    → w.shared.message.current_num_fields ≤ w.handler.current_field
    → set_field_value w src b_complete ≡ fault check_failed
unfolding set_field_value append_to_value
past_the_end w src b_complete l =
    rw (get_header-fault w.shared.message w.handler.current_field l) refl

added-Named :
    (w : World) (src : Bytes) (o : Outcome (Bool × Shared))
    → IsHandler w
    → w.shared.message.current_num_fields ≡ w.handler.current_field
    → w.shared.message.current_num_fields < w.shared.message.max_fields
    → length src < 2 ^ 31
    → Adds w.shared o
    → Named w (
        o >>= λ (added, s).
        if added
        then name_appended (record w { shared = s }) src
        else ok (data_overflow, record w { shared = s }))
added-Named w src (fault e) v n m h a = absurd (omega (arith, n, m, a))
added-Named w src (ok (false, s)) v n m h a = ground arith
added-Named w src (ok (true, s)) v n m h a =
    let w₁ : World = record w { shared = s } in
    let v₁ : IsHandler w₁ = record {
      message = a.0;
      from = omega (arith, n, a.2);
      upto = omega (arith, n, a.2);
    } in
    Named-from w w₁ (name_appended w₁ src) refl a.1
      (name_appended-Named w₁ src v₁ (omega (arith, n, a.2)) h)

-- With a handler at a field of its message or at the next, a name that is handed on whole or in
-- part (of less than 2 ^ 31 bytes) does not abort: the answer is COMPLETE, and the field that the
-- handler is at is then the message's last, or DATAOVERFLOW. The handler's own members stay as they
-- are, and no header is lost between the message and the cache.
pub set_field_name-Named :
    (w : World) (src : Bytes) (b_complete : Bool)
    → IsHandler w
    → length src < 2 ^ 31
    → Named w (set_field_name w src b_complete)
unfolding set_field_name
set_field_name-Named w src b_complete v h =
    elim (Bool-cases (w.shared.message.current_num_fields == w.handler.current_field)) [
      | inl e ↦ elim (Bool-cases (leb w.shared.message.max_fields w.handler.current_field)) [
        | inl m ↦ ground (arith, v.message.few)
        | inr m ↦
            rw (e, m)
              (added-Named w src (add_field w.shared) v (ground arith) (ground arith) h
                (add_field-Adds w.shared v.message))
      ]
      | inr e ↦ rw e (name_appended-Named w src v (ground (arith, v.from, v.upto)) h)
    ]

-- With a handler at the last field of its message, where a complete value (of less than 2 ^ 31
-- bytes) is answered by COMPLETE, a further value, of any bytes, whole or in part, aborts by a
-- failed check.
pub set_field_value-continued :
    (w w' : World) (src src' : Bytes) (b_complete : Bool)
    → IsHandler w
    → w.shared.message.current_num_fields ≡ w.handler.current_field + 1
    → length src < 2 ^ 31
    → set_field_value w src true ≡ ok (complete, w')
    → set_field_value w' src' b_complete ≡ fault check_failed
unfolding append_to_value
set_field_value-continued w w' src src' b_complete v l h e =
    let valued : Valued w src true (ok (complete, w')) =
      rw e at (set_field_value-Valued w src true v l h) in
    past_the_end w' src' b_complete (omega (arith, l, valued))
