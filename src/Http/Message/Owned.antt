-- ===== src/Http/Message/Owned.antt =====
-- A message with a cache: about its fields and its buffers, and the number of the headers.
use switchflow.Base.{
  if◌then◌else◌, ℕ, zero, suc, ◌+◌, ◌^◌, ◌≤◌, ◌<◌, ◌≡◌, refl, Bool, true, inl, inr, some, List, [],
  ◌∷◌, arith, Bytes, length, length-append, length-set, get_elem?, set, ltb, Bool-cases,
  Option-cases, Outcome, ok, fault, check_failed, ◌∙◌, Returns-eq-ok,
}
use switchflow.Http.Message.{
  HeaderBuffer, reset_header, HeaderCache, alloc_header, release_headers, MessageBuffer, Shared,
  reset_message, append_if_fits, append_to_status_line_1, append_to_status_line_2,
  append_to_status_line_3, get_header, put_header, append_to_name, append_to_value, add_field,
}
use switchflow.Http.Message.Room.{
  IsRoom, AppendsIfFits, append_if_fits-AppendsIfFits, HeaderRoom, List-cases, AllRoom,
  AllRoom-append, AllRoom-set, get_elem?-AllRoom, reset-IsRoom, reset_header-HeaderRoom,
}

-- A message that takes its fields from the cache.
pub record IsMessage (s : Shared) : Type 0 where
  pub from_cache : s.message.has_cache ≡ true
  pub counted : length s.message.headers ≡ s.message.current_num_fields
  pub few : s.message.current_num_fields ≤ s.message.max_fields
  pub room1 : IsRoom s.message.start_line1
  pub room2 : IsRoom s.message.start_line2
  pub room3 : IsRoom s.message.start_line3
  pub headers_room : AllRoom s.message.headers
  pub cache_room : AllRoom s.cache

-- The members that change a message, with their arguments.
pub data Operation : Type 0 where
  resets : Operation
  appends_to_line1 : Bytes → Operation
  appends_to_line2 : Bytes → Operation
  appends_to_line3 : Bytes → Operation
  adds_field : Operation
  appends_to_name : ℕ → Bytes → Operation
  appends_to_value : ℕ → Bytes → Operation

abbrev pub on_message : HeaderCache → Outcome (Bool × MessageBuffer) → Outcome (Bool × Shared)
on_message cache (ok (done, m)) = ok (done, record { message = m; cache = cache })
on_message cache (fault e) = fault e

abbrev was_reset : Outcome Shared → Outcome (Bool × Shared)
was_reset (ok s) = ok (true, s)
was_reset (fault e) = fault e

unfoldable pub apply_to_message : Operation → Shared → Outcome (Bool × Shared)
apply_to_message resets s = was_reset (reset_message s)
apply_to_message (appends_to_line1 src) s =
    on_message s.cache (append_to_status_line_1 s.message src)
apply_to_message (appends_to_line2 src) s =
    on_message s.cache (append_to_status_line_2 s.message src)
apply_to_message (appends_to_line3 src) s =
    on_message s.cache (append_to_status_line_3 s.message src)
apply_to_message adds_field s = add_field s
apply_to_message (appends_to_name n src) s = on_message s.cache (append_to_name s.message n src)
apply_to_message (appends_to_value n src) s = on_message s.cache (append_to_value s.message n src)

-- The lengths are cast to `int`.
abbrev pub IsShort : Operation → Type 0
IsShort (appends_to_line1 src) = length src < 2 ^ 31
IsShort (appends_to_line2 src) = length src < 2 ^ 31
IsShort (appends_to_line3 src) = length src < 2 ^ 31
IsShort (appends_to_name n src) = length src < 2 ^ 31
IsShort (appends_to_value n src) = length src < 2 ^ 31
IsShort _ = Unit

-- Why an operation aborts.
abbrev pub Refused : Operation → Shared → Type 0
Refused resets s = s.cache ≡ []
Refused adds_field s = s.message.current_num_fields ≡ s.message.max_fields
Refused (appends_to_name n src) s = s.message.current_num_fields ≤ n
Refused (appends_to_value n src) s = s.message.current_num_fields ≤ n
Refused _ s = ⊥

-- All the headers there are.
abbrev pub total : Shared → ℕ
total s = length s.cache + length s.message.headers

abbrev pub Kept : Operation → Shared → Outcome (Bool × Shared) → Type 0
Kept op s (ok (done, s')) = IsMessage s' × (total s' ≡ total s)
Kept op s (fault e) = Refused op s

-- What `add_field` answers: one field more, or the same message.
abbrev pub Adds : Shared → Outcome (Bool × Shared) → Type 0
Adds s (ok (added, s')) =
    IsMessage s'
    × (total s' ≡ total s)
    × (s'.message.current_num_fields
        ≡ (if added then s.message.current_num_fields + 1 else s.message.current_num_fields))
Adds s (fault e) = s.message.current_num_fields ≡ s.message.max_fields

pub add_field-Adds : (s : Shared) → IsMessage s → Adds s (add_field s)
unfolding add_field alloc_header
add_field-Adds s v = elim (List-cases s.cache) [
  | inl e ↦ ground arith
  | inr (h, cache, e) ↦ ground (
    arith,
    reset_header-HeaderRoom h,
    AllRoom-append s.message.headers (reset_header h ∷ []),
    length-append s.message.headers (reset_header h ∷ []),
  )
]

pub get_header-HeaderRoom :
    (s : Shared) (n : ℕ)
    → IsMessage s
    → n < s.message.current_num_fields
    → (h : HeaderBuffer) × (get_header s.message n ≡ ok h) × HeaderRoom h
unfolding get_header
get_header-HeaderRoom s n v l =
    let (h, e, r) =
      get_elem?-AllRoom s.message.headers n v.headers_room (omega (arith, v.counted)) in
    (h, ground arith, r)

pub get_elem?-set :
    (hs : List HeaderBuffer) (n : ℕ) {h : HeaderBuffer} (k : HeaderBuffer)
    → get_elem? hs n ≡ some h
    → get_elem? (set hs n k) n ≡ some k
get_elem?-set [] n k e = cc
get_elem?-set (h ∷ hs) zero k e = refl
get_elem?-set (h ∷ hs) (suc n) k e = get_elem?-set hs n k e

pub get_header-put_header :
    (m : MessageBuffer) (n : ℕ) (h k : HeaderBuffer)
    → get_header m n ≡ ok h
    → get_header (put_header m n k) n ≡ ok k
unfolding get_header
get_header-put_header m n h k e = elim (Option-cases (get_elem? m.headers n)) [
  | inl o ↦ ground arith
  | inr (x, o) ↦ ground (arith, get_elem?-set m.headers n k o)
]

pub get_header-fault :
    (m : MessageBuffer) (n : ℕ) → m.current_num_fields ≤ n → get_header m n ≡ fault check_failed
unfolding get_header
get_header-fault m n l = ground arith

abbrev pub changed : Shared → ℕ → HeaderBuffer → Shared
changed s n h = record s { message = put_header s.message n h }

pub put_header-Kept :
    (s : Shared) (n : ℕ) (h : HeaderBuffer)
    → IsMessage s
    → HeaderRoom h
    → IsMessage (changed s n h) × (total (changed s n h) ≡ total s)
put_header-Kept s n h v r = (
  record {
    from_cache = v.from_cache;
    counted = length-set s.message.headers n h ∙ v.counted;
    few = v.few;
    room1 = v.room1;
    room2 = v.room2;
    room3 = v.room3;
    headers_room = AllRoom-set s.message.headers n h v.headers_room r;
    cache_room = v.cache_room;
  },
  omega (arith, length-set s.message.headers n h),
)

Adds-Kept : (s : Shared) (o : Outcome (Bool × Shared)) → Adds s o → Kept adds_field s o
Adds-Kept s (ok (added, s')) a = (a.0, a.1)
Adds-Kept s (fault e) a = a

append_to_name-Kept :
    (n : ℕ) (src : Bytes) (s : Shared)
    → IsMessage s
    → length src < 2 ^ 31
    → Kept (appends_to_name n src) s (on_message s.cache (append_to_name s.message n src))
unfolding append_to_name
append_to_name-Kept n src s v h = elim (Bool-cases (ltb n s.message.current_num_fields)) [
  | inl lt ↦
      let (k, e, r) = get_header-HeaderRoom s n v (ground arith) in
      let ((done, b), f, post) =
        Returns-eq-ok (AppendsIfFits k.name src) (append_if_fits k.name src)
          (append_if_fits-AppendsIfFits k.name src r.name_room h) in
      rw (e, f)
        (put_header-Kept s n (record k { name = b }) v
          (record { name_room = post.0; value_room = r.value_room }))
  | inr ge ↦ rw (get_header-fault s.message n (ground arith)) (ground arith)
]

append_to_value-Kept :
    (n : ℕ) (src : Bytes) (s : Shared)
    → IsMessage s
    → length src < 2 ^ 31
    → Kept (appends_to_value n src) s (on_message s.cache (append_to_value s.message n src))
unfolding append_to_value
append_to_value-Kept n src s v h = elim (Bool-cases (ltb n s.message.current_num_fields)) [
  | inl lt ↦
      let (k, e, r) = get_header-HeaderRoom s n v (ground arith) in
      let ((done, b), f, post) =
        Returns-eq-ok (AppendsIfFits k.value src) (append_if_fits k.value src)
          (append_if_fits-AppendsIfFits k.value src r.value_room h) in
      rw (e, f)
        (put_header-Kept s n (record k { value = b }) v
          (record { value_room = post.0; name_room = r.name_room }))
  | inr ge ↦ rw (get_header-fault s.message n (ground arith)) (ground arith)
]

-- For a message with valid buffers of its own, fields as many as it counts and a cache, every
-- operation keeps it so, and there are as many headers in the message and the cache as before; or it
-- aborts, which it does only where `reset` finds the cache empty, `add_field` as many fields as
-- there may be, or `append_to_name` or `append_to_value` a field that is not there. What is
-- appended must be shorter than 2 ^ 31.
pub apply_to_message-Kept :
    (op : Operation) (s : Shared) → IsMessage s → IsShort op → Kept op s (apply_to_message op s)
unfolding apply_to_message reset_message release_headers append_to_status_line_1
    append_to_status_line_2 append_to_status_line_3 get_header append_to_name append_to_value
    add_field alloc_header
apply_to_message-Kept resets s v h = ground (
  arith,
  AllRoom-append s.cache s.message.headers,
  reset-IsRoom s.message.start_line1,
  reset-IsRoom s.message.start_line2,
  reset-IsRoom s.message.start_line3,
  length-append s.cache s.message.headers,
)
apply_to_message-Kept (appends_to_line1 src) s v h =
    ground (arith, append_if_fits-AppendsIfFits s.message.start_line1 src)
apply_to_message-Kept (appends_to_line2 src) s v h =
    ground (arith, append_if_fits-AppendsIfFits s.message.start_line2 src)
apply_to_message-Kept (appends_to_line3 src) s v h =
    ground (arith, append_if_fits-AppendsIfFits s.message.start_line3 src)
apply_to_message-Kept adds_field s v h = Adds-Kept s (add_field s) (add_field-Adds s v)
apply_to_message-Kept (appends_to_name n src) s v h = append_to_name-Kept n src s v h
apply_to_message-Kept (appends_to_value n src) s v h = append_to_value-Kept n src s v h
