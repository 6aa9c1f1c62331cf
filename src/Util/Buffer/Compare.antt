-- ===== src/Util/Buffer/Compare.antt =====
-- `asci_tolower`, `compare_no_case` and `equals` of switchflow/util/read_write_buffer.cpp. A C
-- string is the list of its bytes before the terminating zero.
use switchflow.Base.{
  ℕ, ◌+◌, ◌-◌, Bool, true, false, ◌&&◌, [], ◌∷◌, map, ◌≡◌, refl, ◌≢◌, ◌⊎◌, inl, inr, arith, ◌==◌,
  leb, ltb, if◌then◌else◌, ==_iff, Bool-cases, Bytes,
}
use switchflow.Util.Buffer.{Buffer, working_bytes}

pub data CompareResult : Type 0 where
  substring : CompareResult
  equal : CompareResult
  not_equal : CompareResult

unfoldable pub asci_tolower : ℕ → ℕ
asci_tolower c = if leb b'A' c && leb c b'Z' then b'a' + c - b'A' else c

-- The loop of `compare_no_case`, with what its index has not passed of the buffer and the string.
unfoldable pub compare_from : Bytes → Bytes → CompareResult
compare_from [] [] = equal
compare_from [] (c ∷ cs) = substring
compare_from (b ∷ bs) [] = substring
compare_from (b ∷ bs) (c ∷ cs) =
    if asci_tolower b == asci_tolower c then compare_from bs cs else not_equal

unfoldable pub compare_no_case : Buffer → Bytes → CompareResult
unfolding compare_from asci_tolower
compare_no_case b compare_string = compare_from (working_bytes b) compare_string

unfoldable pub is_equal : CompareResult → Bool
is_equal equal = true
is_equal _ = false

unfoldable pub equals : Buffer → Bytes → Bool
unfolding compare_no_case is_equal
equals b compare_string = is_equal (compare_no_case b compare_string)

-- The letters of ASCII: 26 capitals from 65 on, and each small one 32 behind its capital.
abbrev lower_case : ℕ → ℕ
lower_case c = if leb 65 c && ltb c (65 + 26) then c + 32 else c

abbrev pub lower : Bytes → Bytes
lower = map lower_case

asci_tolower-lower_case : (c : ℕ) → asci_tolower c ≡ lower_case c
unfolding asci_tolower
asci_tolower-lower_case c = ground arith

-- One text goes on behind the other, and the other has ended.
pub data IsProperPrefix : Bytes → Bytes → Type 0 where
  ends : {y : ℕ} {ys : Bytes} → IsProperPrefix [] (y ∷ ys)
  goes_on :
      {x y : ℕ} {xs ys : Bytes} → x ≡ y → IsProperPrefix xs ys → IsProperPrefix (x ∷ xs) (y ∷ ys)

-- What each answer says of the two texts in lower case.
abbrev pub Means : CompareResult → Bytes → Bytes → Type 0
Means equal xs ys = xs ≡ ys
Means substring xs ys = IsProperPrefix xs ys ⊎ IsProperPrefix ys xs
Means not_equal xs ys = (xs ≢ ys) × (¬ IsProperPrefix xs ys) × (¬ IsProperPrefix ys xs)

not-IsProperPrefix-head : (x y : ℕ) (xs ys : Bytes) → x ≢ y → ¬ IsProperPrefix (x ∷ xs) (y ∷ ys)
not-IsProperPrefix-head x y xs ys ne (goes_on e p) = ne e

IsProperPrefix-tail :
    (x y : ℕ) (xs ys : Bytes) → IsProperPrefix (x ∷ xs) (y ∷ ys) → IsProperPrefix xs ys
IsProperPrefix-tail x y xs ys (goes_on e p) = p

pub not-IsProperPrefix-self : (xs ys : Bytes) → IsProperPrefix xs ys → xs ≢ ys
not-IsProperPrefix-self [] [] p e = elim p [ ]
not-IsProperPrefix-self (x ∷ xs) [] p e = elim p [ ]
not-IsProperPrefix-self [] (y ∷ ys) ends e = cc
not-IsProperPrefix-self (x ∷ xs) (y ∷ ys) (goes_on q p) e = not-IsProperPrefix-self xs ys p (cc)

Means-cons :
    (r : CompareResult) (x y : ℕ) (xs ys : Bytes)
    → x ≡ y
    → Means r xs ys
    → Means r (x ∷ xs) (y ∷ ys)
Means-cons equal x y xs ys e m = cc
Means-cons substring x y xs ys e (inl p) = inl (goes_on e p)
Means-cons substring x y xs ys e (inr p) = inr (goes_on (cc) p)
Means-cons not_equal x y xs ys e m = (
  λ q. m.0 (cc),
  λ p. m.1 (IsProperPrefix-tail x y xs ys p),
  λ p. m.2 (IsProperPrefix-tail y x ys xs p),
)

compare_from-Means : (bs cs : Bytes) → Means (compare_from bs cs) (lower bs) (lower cs)
unfolding compare_from
compare_from-Means [] [] = refl
compare_from-Means [] (c ∷ cs) = inl ends
compare_from-Means (b ∷ bs) [] = inr ends
compare_from-Means (b ∷ bs) (c ∷ cs) =
    rw (asci_tolower-lower_case b, asci_tolower-lower_case c)
      elim (Bool-cases (lower_case b == lower_case c)) [
        | inl e ↦
            rw e (
              Means-cons (compare_from bs cs) _ _ _ _ ((==_iff _ _).0 e) (compare_from-Means bs cs))
        | inr e ↦
            let ne : lower_case b ≢ lower_case c = λ q. ground arith in
            rw e (
              λ q. ne (ground arith),
              not-IsProperPrefix-head _ _ _ _ ne,
              not-IsProperPrefix-head _ _ _ _ (λ q. ne (cc)),
            )
      ]

-- `compare_no_case` answers EQUAL, SUBSTRING or NOT_EQUAL as the two texts in lower case are the
-- same, one is a proper beginning of the other (either way round), or neither.
pub compare_no_case-Means :
    (b : Buffer) (s : Bytes) → Means (compare_no_case b s) (lower (working_bytes b)) (lower s)
unfolding compare_no_case
compare_no_case-Means b s = compare_from-Means (working_bytes b) s
