-- ===== src/Http/Message/Room.antt =====
-- Buffers with a vector of their own, one by one and in lists of fields.
use switchflow.Base.{
  ℕ, zero, suc, ◌+◌, ◌^◌, ◌≤◌, ◌<◌, ◌≡◌, refl, ◌⊎◌, Bool, true, false, inl, inr, some, List, [],
  ◌∷◌, ◌++◌, arith, Bytes, length, get_elem?, set, leb, Bool-cases, Returns,
}
use switchflow.Util.Buffer.{Buffer, reset, fits_in_buffer, append_from_buffer, working_bytes}
use switchflow.Util.Buffer.Valid.{IsValid, capacity, length-overwrite}
use switchflow.Util.Buffer.Content.{append_from_buffer-Appends}
use switchflow.Http.Message.{HeaderBuffer, reset_header, append_if_fits}

-- A valid buffer with a vector of its own.
pub record IsRoom (b : Buffer) : Type 0 where
  pub valid : IsValid b
  pub owned : b.using_static_buffer ≡ false
  pub raw : Bytes
  pub has_raw : b.p_buffer ≡ some raw

-- What `append_if_fits` does with `src`.
abbrev pub AppendsIfFits : Buffer → Bytes → Bool × Buffer → Type 0
AppendsIfFits b src (done, b') =
    IsRoom b'
    × (capacity b' ≡ capacity b)
    × (b'.working_length ≤ b.working_length + length src)
    × (done ≡ true → working_bytes b' ≡ working_bytes b ++ src)
    × (done ≡ false → (b' ≡ b) × (capacity b < b.working_length + length src))

pub append_if_fits-AppendsIfFits :
    (b : Buffer) (src : Bytes)
    → IsRoom b
    → length src < 2 ^ 31
    → Returns (AppendsIfFits b src) (append_if_fits b src)
unfolding append_if_fits append_from_buffer fits_in_buffer
append_if_fits-AppendsIfFits b src r h =
    elim (Bool-cases (leb (b.working_length + length src) (length r.raw))) [
      | inl fits ↦ ground (
        arith,
        length-overwrite r.raw b.working_length src,
        append_from_buffer-Appends b r.raw src r.valid r.has_raw r.owned,
      )
      | inr full ↦ ground arith
    ]

pub record HeaderRoom (h : HeaderBuffer) : Type 0 where
  pub name_room : IsRoom h.name
  pub value_room : IsRoom h.value

abbrev pub AllRoom : List HeaderBuffer → Type 0
AllRoom [] = Unit
AllRoom (h ∷ hs) = HeaderRoom h × AllRoom hs

pub List-cases : {A : Type 0} (xs : List A) → (xs ≡ []) ⊎ ((x : A) × (ys : List A) × (xs ≡ x ∷ ys))
List-cases [] = inl refl
List-cases (x ∷ ys) = inr (x, ys, refl)

pub AllRoom-append : (hs ks : List HeaderBuffer) → AllRoom hs → AllRoom ks → AllRoom (hs ++ ks)
AllRoom-append [] ks a b = b
AllRoom-append (h ∷ hs) ks a b = (a.0, AllRoom-append hs ks a.1 b)

pub AllRoom-set :
    (hs : List HeaderBuffer) (n : ℕ) (h : HeaderBuffer)
    → AllRoom hs
    → HeaderRoom h
    → AllRoom (set hs n h)
AllRoom-set [] n h a r = a
AllRoom-set (k ∷ hs) zero h a r = (r, a.1)
AllRoom-set (k ∷ hs) (suc n) h a r = (a.0, AllRoom-set hs n h a.1 r)

pub get_elem?-AllRoom :
    (hs : List HeaderBuffer) (n : ℕ)
    → AllRoom hs
    → n < length hs
    → (h : HeaderBuffer) × (get_elem? hs n ≡ some h) × HeaderRoom h
get_elem?-AllRoom [] n a l = absurd (omega arith)
get_elem?-AllRoom (h ∷ hs) zero a l = (h, refl, a.0)
get_elem?-AllRoom (h ∷ hs) (suc n) a l = get_elem?-AllRoom hs n a.1 (omega arith)

pub reset-IsRoom : (b : Buffer) → IsRoom b → IsRoom (reset b)
unfolding reset
reset-IsRoom b r = ground arith

pub reset_header-HeaderRoom : (h : HeaderBuffer) → HeaderRoom h → HeaderRoom (reset_header h)
unfolding reset_header
reset_header-HeaderRoom h r = record {
  name_room = reset-IsRoom h.name r.name_room;
  value_room = reset-IsRoom h.value r.value_room;
}
