-- ===== src/Http/Message/Find.antt =====
-- `get_header_index_by_name` of switchflow/http/message_buffer.cpp.
use switchflow.Base.{
  ℕ, suc, ◌+◌, ◌≡◌, sym, true, false, inl, inr, Option, none, some, List, [], ◌∷◌, arith, Bytes,
  Bool-cases,
}
use switchflow.Util.Buffer.{working_bytes}
use switchflow.Util.Buffer.Compare.{
  CompareResult, substring, equal, not_equal, compare_no_case, is_equal, equals, lower, Means,
  not-IsProperPrefix-self, compare_no_case-Means,
}
use switchflow.Http.Message.{
  HeaderBuffer, name_equals, MessageBuffer, index_from, get_header_index_by_name,
}

-- The name of the header is this text, in any case of the letters.
abbrev pub HasName : HeaderBuffer → Bytes → Type 0
HasName h name = lower (working_bytes h.name) ≡ lower name

Means-HasName :
    (r : CompareResult) (h : HeaderBuffer) (name : Bytes)
    → Means r (lower (working_bytes h.name)) (lower name)
    → (is_equal r ≡ true → HasName h name) × (is_equal r ≡ false → ¬ HasName h name)
unfolding is_equal
Means-HasName equal h name m = (λ e. m, λ e. cc)
Means-HasName not_equal h name m = (λ e. cc, λ e. m.0)
Means-HasName substring h name (inl p) = (λ e. cc, λ e n. not-IsProperPrefix-self _ _ p n)
Means-HasName substring h name (inr p) = (λ e. cc, λ e n. not-IsProperPrefix-self _ _ p (sym n))

name_equals-HasName :
    (h : HeaderBuffer) (name : Bytes)
    → (name_equals h name ≡ true → HasName h name) × (name_equals h name ≡ false → ¬ HasName h name)
unfolding equals
name_equals-HasName h name =
    Means-HasName (compare_no_case h.name name) h name (compare_no_case-Means h.name name)

-- The header at this index has the name, and none before it.
pub data IsFirst (name : Bytes) : List HeaderBuffer → ℕ → Type 0 where
  here : {h : HeaderBuffer} {hs : List HeaderBuffer} → HasName h name → IsFirst name (h ∷ hs) 0
  later :
      {h : HeaderBuffer} {hs : List HeaderBuffer} {n : ℕ}
      → ¬ HasName h name
      → IsFirst name hs n
      → IsFirst name (h ∷ hs) (suc n)

abbrev pub IsMissing : Bytes → List HeaderBuffer → Type 0
IsMissing name [] = Unit
IsMissing name (h ∷ hs) = (¬ HasName h name) × IsMissing name hs

abbrev FoundFrom : Bytes → List HeaderBuffer → ℕ → Option ℕ → Type 0
FoundFrom name hs i none = IsMissing name hs
FoundFrom name hs i (some j) = (n : ℕ) × (j ≡ i + n) × IsFirst name hs n

FoundFrom-cons :
    (name : Bytes) (h : HeaderBuffer) (hs : List HeaderBuffer) (i : ℕ) (o : Option ℕ)
    → ¬ HasName h name
    → FoundFrom name hs (i + 1) o
    → FoundFrom name (h ∷ hs) i o
FoundFrom-cons name h hs i none e f = (e, f)
FoundFrom-cons name h hs i (some j) e (n, q, f) = (suc n, omega (arith, q), later e f)

index_from-FoundFrom :
    (hs : List HeaderBuffer) (name : Bytes) (i : ℕ) → FoundFrom name hs i (index_from hs name i)
unfolding index_from
index_from-FoundFrom [] name i = tt
index_from-FoundFrom (h ∷ hs) name i = elim (Bool-cases (name_equals h name)) [
  | inl e ↦ rw e (0, omega arith, here ((name_equals-HasName h name).0 e))
  | inr e ↦ rw e (
      FoundFrom-cons name h hs i (index_from hs name (i + 1)) ((name_equals-HasName h name).1 e)
        (index_from-FoundFrom hs name (i + 1)))
]

abbrev pub Found : Bytes → List HeaderBuffer → Option ℕ → Type 0
Found name hs none = IsMissing name hs
Found name hs (some i) = IsFirst name hs i

FoundFrom-zero :
    (name : Bytes) (hs : List HeaderBuffer) (o : Option ℕ) → FoundFrom name hs 0 o → Found name hs o
FoundFrom-zero name hs none f = f
FoundFrom-zero name hs (some i) (n, e, f) = let same : i ≡ n = omega (arith, e) in rw same f

-- The index is that of the first header whose name is the text, in any case of the letters; there
-- is none only if no header has it.
pub get_header_index_by_name-Found :
    (m : MessageBuffer) (name : Bytes) → Found name m.headers (get_header_index_by_name m name)
unfolding get_header_index_by_name
get_header_index_by_name-Found m name =
    FoundFrom-zero name m.headers (index_from m.headers name 0)
      (index_from-FoundFrom m.headers name 0)
