-- ===== src/Util/PooledList/Removed.antt =====
-- remove_if of pooled_list.
use Prim.Derive.{subst}
use mathlib.Core.List.{Perm}
use mathlib.Core.List.Perm
use switchflow.Base.{
  true, false, ℕ, zero, suc, ◌+◌, ◌≤◌, ◌≡◌, refl, sym, ◌∙◌, Bool, Bool-cases, inl, inr, List, [],
  ◌∷◌, ◌++◌, append_assoc, append-nil, arith, le→ltb, length, length-append, take-append,
  drop-append, Returns, Returns-mono, if◌then◌else◌,
}
use switchflow.Util.PooledList.{Pooled, remove_from, remove_if}
use switchflow.Util.PooledList.Values.{cells, pooled, values_of, values_of-append, moved-Perm}

module _ {T : Type 0} where
  -- The values that a test does not hold of.
  abbrev pub rejected : (T → Bool) → List T → List T
  rejected pred [] = []
  rejected pred (v ∷ vs) = if pred v then rejected pred vs else v ∷ rejected pred vs

  abbrev pub Removed : (T → Bool) → List (ℕ × T) → List (ℕ × T) → List ℕ → Pooled T → Type 0
  Removed pred xs ys free w =
      (values_of w.active_list ≡ values_of xs ++ rejected pred (values_of ys))
      × Perm (cells w) (cells (pooled free (xs ++ ys)))

  Removed-dropped :
      (pred : T → Bool) (xs ys : List (ℕ × T)) (y : ℕ × T) (free : List ℕ) (w : Pooled T)
      → pred y.1 ≡ true
      → Removed pred xs ys (y.0 ∷ free) w
      → Removed pred xs (y ∷ ys) free w
  Removed-dropped pred xs ys y free w p (values, kept) =
      (values ∙ (rw p refl), Perm.trans kept (Perm.symm (moved-Perm y xs ys free)))

  Removed-kept :
      (pred : T → Bool) (xs ys : List (ℕ × T)) (y : ℕ × T) (free : List ℕ) (w : Pooled T)
      → pred y.1 ≡ false
      → Removed pred (xs ++ (y ∷ [])) ys free w
      → Removed pred xs (y ∷ ys) free w
  Removed-kept pred xs ys y free w p (values, kept) =
      let one_kept = values_of-append xs (y ∷ []) in
      (
        values
            ∙ rw (p, one_kept)
                (append_assoc (values_of xs) (y.1 ∷ []) (rejected pred (values_of ys))),
        subst (λ t. Perm (cells w) (cells (pooled free t))) (append_assoc xs (y ∷ []) ys) kept,
      )

  remove_from-Removed :
      (pred : T → Bool) (xs ys : List (ℕ × T)) (free : List ℕ) (fuel pos : ℕ)
      → pos ≡ length xs
      → length ys ≤ fuel
      → Returns (Removed pred xs ys free) (remove_from pred fuel pos (pooled free (xs ++ ys)))
  unfolding remove_from
  remove_from-Removed pred xs [] free zero pos e h =
      let at_end = le→ltb pos (length xs) (omega arith) in
      rw (append-nil xs, at_end)
        (sym (append-nil (values_of xs)), rw (append-nil xs) (Perm.refl (cells (pooled free xs))))
  remove_from-Removed pred xs (y ∷ ys) free zero pos e h = absurd (omega arith)
  remove_from-Removed pred xs [] free (suc fuel) pos e h =
      rw (drop-append xs [] pos e, append-nil xs)
        (sym (append-nil (values_of xs)), Perm.refl (cells (pooled free xs)))
  remove_from-Removed pred xs (y ∷ ys) free (suc fuel) pos e h = elim (Bool-cases (pred y.1)) [
    | inl p ↦
        rw (drop-append xs (y ∷ ys) pos e, p, take-append xs (y ∷ ys) pos e)
          (Returns-mono (Removed pred xs ys (y.0 ∷ free)) (Removed pred xs (y ∷ ys) free)
            (remove_from pred fuel pos (pooled (y.0 ∷ free) (xs ++ ys)))
            (λ w. Removed-dropped pred xs ys y free w p)
            (remove_from-Removed pred xs ys (y.0 ∷ free) fuel pos e (omega arith)))
    | inr p ↦
        rw (drop-append xs (y ∷ ys) pos e, p, sym (append_assoc xs (y ∷ []) ys))
          (let longer = length-append xs (y ∷ []) in
            Returns-mono (Removed pred (xs ++ (y ∷ [])) ys free) (Removed pred xs (y ∷ ys) free)
              (remove_from pred fuel (pos + 1) (pooled free ((xs ++ (y ∷ [])) ++ ys)))
              (λ w. Removed-kept pred xs ys y free w p)
              (remove_from-Removed pred (xs ++ (y ∷ [])) ys free fuel (pos + 1) (omega arith)
                (omega arith)))
  ]

  -- `remove_if` leaves, in order, the values that the test does not hold of, and gives the cells of the
  -- others to the pool.
  pub remove_if-Removed :
      (pred : T → Bool) (w : Pooled T)
      → Returns
          (λ w'.
            (values_of w'.active_list ≡ rejected pred (values_of w.active_list))
            × Perm (cells w') (cells w))
          (remove_if pred w)
  unfolding remove_if
  remove_if-Removed pred w =
      remove_from-Removed pred [] w.active_list w.free_list (length w.active_list) 0 refl
        (omega arith)
