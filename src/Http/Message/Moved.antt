-- ===== src/Http/Message/Moved.antt =====
-- Which headers each operation of a message takes from the cache, gives back to it, or changes.
use switchflow.Base.{
  ℕ, ◌≡◌, refl, Bool, Bool-cases, true, false, inl, inr, Option-cases, some, [], ◌∷◌, ◌++◌, arith,
  Bytes, length, length-append, ltb, ◌==◌, ◌+◌, get_elem?, set, Outcome, ok, fault, ◌>>=◌,
}
use switchflow.Util.Buffer.{Buffer, reset}
use switchflow.Http.Message.{
  HeaderBuffer, reset_header, alloc_header, release_headers, Shared, reset_message, append_if_fits,
  append_to_status_line_1, append_to_status_line_2, append_to_status_line_3, get_header,
  append_to_name, append_to_value, add_field, put_header,
}
use switchflow.Http.Message.Room.{HeaderRoom, List-cases}
use switchflow.Http.Message.Owned.{
  IsMessage, Operation, resets, appends_to_line1, appends_to_line2, appends_to_line3, adds_field,
  appends_to_name, appends_to_value, apply_to_message, IsShort, Kept, apply_to_message-Kept,
  on_message,
}

-- The same memory, and nothing in it.
abbrev pub IsEmptied : HeaderBuffer → HeaderBuffer → Type 0
IsEmptied h k =
    (k.name.p_buffer ≡ h.name.p_buffer)
    × (k.value.p_buffer ≡ h.value.p_buffer)
    × (k.name.working_length ≡ 0)
    × (k.value.working_length ≡ 0)

abbrev pub Moved : Operation → Shared → Bool → Shared → Type 0
Moved resets s done s' = (s'.message.headers ≡ []) × (s'.cache ≡ s.cache ++ s.message.headers)
Moved adds_field s true s' =
    (h k : HeaderBuffer) × (s.cache ≡ h ∷ s'.cache)
    × (s'.message.headers ≡ s.message.headers ++ (k ∷ []))
    × IsEmptied h k
Moved adds_field s false s' = (s.cache ≡ []) × (s' ≡ s)
Moved (appends_to_name n src) s done s' =
    (s'.cache ≡ s.cache)
    × ((h k : HeaderBuffer) × (get_elem? s.message.headers n ≡ some h)
        × (s'.message.headers ≡ set s.message.headers n k)
        × (k.value ≡ h.value))
Moved (appends_to_value n src) s done s' =
    (s'.cache ≡ s.cache)
    × ((h k : HeaderBuffer) × (get_elem? s.message.headers n ≡ some h)
        × (s'.message.headers ≡ set s.message.headers n k)
        × (k.name ≡ h.name))
Moved _ s done s' = (s'.cache ≡ s.cache) × (s'.message.headers ≡ s.message.headers)

abbrev MovedIn : Operation → Shared → Outcome (Bool × Shared) → Type 0
MovedIn op s (ok (done, s')) = Moved op s done s'
MovedIn op s (fault e) = Unit

abbrev pub KeptMoved : Operation → Shared → Outcome (Bool × Shared) → Type 0
KeptMoved op s (ok (done, s')) = Kept op s (ok (done, s')) × Moved op s done s'
KeptMoved op s (fault e) = Kept op s (fault e)

reset_header-IsEmptied : (h : HeaderBuffer) → HeaderRoom h → IsEmptied h (reset_header h)
unfolding reset_header reset switchflow.Util.Buffer.reset_length
reset_header-IsEmptied h r =
    ground (arith, r.name_room.owned, r.value_room.owned, r.name_room.has_raw, r.value_room.has_raw)

appended_to_name :
    (s : Shared) (n : ℕ) (src : Bytes) (h : HeaderBuffer) (o : Outcome (Bool × Buffer))
    → get_elem? s.message.headers n ≡ some h
    → MovedIn (appends_to_name n src) s (
        on_message s.cache
          (o >>= λ (done, b). ok (done, put_header s.message n (record h { name = b }))))
appended_to_name s n src h (ok (done, b)) e = (refl, (h, record h { name = b }, e, refl, refl))
appended_to_name s n src h (fault f) e = tt

appended_to_value :
    (s : Shared) (n : ℕ) (src : Bytes) (h : HeaderBuffer) (o : Outcome (Bool × Buffer))
    → get_elem? s.message.headers n ≡ some h
    → MovedIn (appends_to_value n src) s (
        on_message s.cache
          (o >>= λ (done, b). ok (done, put_header s.message n (record h { value = b }))))
appended_to_value s n src h (ok (done, b)) e = (refl, (h, record h { value = b }, e, refl, refl))
appended_to_value s n src h (fault f) e = tt

add_field-MovedIn : (s : Shared) → IsMessage s → MovedIn adds_field s (add_field s)
unfolding add_field alloc_header
add_field-MovedIn s v = elim (List-cases s.cache) [
  | inl e ↦ ground arith
  | inr (h, cache, e) ↦ elim (Bool-cases (ltb s.message.current_num_fields s.message.max_fields)) [
    | inr full ↦ rw full tt
    | inl few ↦
        let longer = length-append s.message.headers (reset_header h ∷ []) in
        let counted : length (s.message.headers ++ (reset_header h ∷ []))
              == s.message.current_num_fields + 1
            ≡ true =
          ground (arith, v.counted) in
        let emptied = reset_header-IsEmptied h (rw e at v.cache_room).0 in
        rw (few, v.from_cache, e, counted) (h, reset_header h, refl, refl, emptied)
  ]
]

apply_to_message-MovedIn :
    (op : Operation) (s : Shared) → IsMessage s → MovedIn op s (apply_to_message op s)
unfolding apply_to_message reset_message release_headers append_to_status_line_1
    append_to_status_line_2 append_to_status_line_3 get_header append_to_name append_to_value
    add_field alloc_header
apply_to_message-MovedIn resets s v = ground (arith, v.from_cache)
apply_to_message-MovedIn (appends_to_line1 src) s v = ground arith
apply_to_message-MovedIn (appends_to_line2 src) s v = ground arith
apply_to_message-MovedIn (appends_to_line3 src) s v = ground arith
apply_to_message-MovedIn adds_field s v = add_field-MovedIn s v
apply_to_message-MovedIn (appends_to_name n src) s v =
    elim (Bool-cases (ltb n s.message.current_num_fields)) [
      | inr past ↦ rw past tt
      | inl there ↦ elim (Option-cases (get_elem? s.message.headers n)) [
        | inl e ↦ rw (there, e) tt
        | inr (h, e) ↦ rw (there, e) (appended_to_name s n src h (append_if_fits h.name src) e)
      ]
    ]
apply_to_message-MovedIn (appends_to_value n src) s v =
    elim (Bool-cases (ltb n s.message.current_num_fields)) [
      | inr past ↦ rw past tt
      | inl there ↦ elim (Option-cases (get_elem? s.message.headers n)) [
        | inl e ↦ rw (there, e) tt
        | inr (h, e) ↦ rw (there, e) (appended_to_value s n src h (append_if_fits h.value src) e)
      ]
    ]

Kept-Moved :
    (op : Operation) (s : Shared) (o : Outcome (Bool × Shared))
    → Kept op s o
    → MovedIn op s o
    → KeptMoved op s o
Kept-Moved op s (ok (done, s')) k m = (k, m)
Kept-Moved op s (fault e) k m = k

-- For a message with valid buffers of its own, fields as many as it counts and a cache, every
-- operation keeps it so. `reset` gives all its headers back, in order, behind those of the cache;
-- `add_field` takes the first of the cache, empties it and puts it behind the others, or, where the
-- cache is empty, changes nothing; appending to a name or a value changes that part of that header
-- alone, and appending to the start line none. Or the operation aborts, which it does only where
-- `reset` finds the cache empty, `add_field` as many fields as there may be, or `append_to_name` or
-- `append_to_value` a field that is not there. What is appended must be shorter than 2 ^ 31.
pub apply_to_message-KeptMoved :
    (op : Operation) (s : Shared)
    → IsMessage s
    → IsShort op
    → KeptMoved op s (apply_to_message op s)
apply_to_message-KeptMoved op s v h =
    Kept-Moved op s (apply_to_message op s) (apply_to_message-Kept op s v h)
      (apply_to_message-MovedIn op s v)
