-- ===== src/Util/PooledList/Values.antt =====
-- What insert and erase of pooled_list do over a range.
use mathlib.Core.List.{Perm, perm_middle}
use mathlib.Core.List.Perm
use switchflow.Base.{
  ℕ, ◌+◌, ◌<◌, ◌≡◌, refl, sym, ap, ◌∙◌, Bool, true, false, List, [], ◌∷◌, ◌++◌, append_assoc, arith,
  length, length-append, take, take-append, drop-append, ok, Returns, Returns-mono,
}
use switchflow.Util.PooledList.{Pooled, insert_range, erase, erase_range}

module _ {T : Type 0} where
  abbrev pub pooled : List ℕ → List (ℕ × T) → Pooled T
  pooled free active = record { free_list = free; active_list = active }

  abbrev pub cells_of : List (ℕ × T) → List ℕ
  cells_of [] = []
  cells_of (x ∷ xs) = x.0 ∷ cells_of xs

  abbrev pub values_of : List (ℕ × T) → List T
  values_of [] = []
  values_of (x ∷ xs) = x.1 ∷ values_of xs

  -- The cells of the list and of the pool.
  abbrev pub cells : Pooled T → List ℕ
  cells w = cells_of w.active_list ++ w.free_list

  cells_of-append : (xs ys : List (ℕ × T)) → cells_of (xs ++ ys) ≡ cells_of xs ++ cells_of ys
  cells_of-append [] ys = refl
  cells_of-append (x ∷ xs) ys = ap (λ t. x.0 ∷ t) (cells_of-append xs ys)

  pub values_of-append :
      (xs ys : List (ℕ × T)) → values_of (xs ++ ys) ≡ values_of xs ++ values_of ys
  values_of-append [] ys = refl
  values_of-append (x ∷ xs) ys = ap (λ t. x.1 ∷ t) (values_of-append xs ys)

  -- A cell goes from the pool to the list, or back.
  pub moved-Perm :
      (x : ℕ × T) (xs ys : List (ℕ × T)) (free : List ℕ)
      → Perm (cells (pooled free (xs ++ (x ∷ ys)))) (cells (pooled (x.0 ∷ free) (xs ++ ys)))
  moved-Perm x xs ys free =
      let before = cells_of-append xs (x ∷ ys) in
      let behind = cells_of-append xs ys in
      let to_front = perm_middle {a = x.0} (cells_of xs) (cells_of ys ++ free) in
      let from_front = perm_middle {a = x.0} (cells_of xs ++ cells_of ys) free in
      rw (before, behind, append_assoc (cells_of xs) (x.0 ∷ cells_of ys) free)
        (Perm.trans to_front
          (rw (sym (append_assoc (cells_of xs) (cells_of ys) free)) (Perm.symm from_front)))

  pub erase-eq :
      (xs ys : List (ℕ × T)) (x : ℕ × T) (free : List ℕ) (pos : ℕ)
      → pos ≡ length xs
      → erase pos (pooled free (xs ++ (x ∷ ys))) ≡ ok (pooled (x.0 ∷ free) (xs ++ ys))
  unfolding erase
  erase-eq xs ys x free pos e =
      rw (drop-append xs (x ∷ ys) pos e, take-append xs (x ∷ ys) pos e) refl

  -- Some new elements stand between the two parts: all that were to be inserted, or, if the pool ran
  -- out, as many as it had cells.
  abbrev pub Inserted : List (ℕ × T) → List (ℕ × T) → List ℕ → List T → Bool × Pooled T → Type 0
  Inserted xs ys free values (done, w) =
      (ns : List (ℕ × T)) × (w.active_list ≡ xs ++ (ns ++ ys))
      × Perm (cells w) (cells (pooled free (xs ++ ys)))
      × (length ns + length w.free_list ≡ length free)
      × (values_of ns ≡ take (length ns) values)
      × (done ≡ true → length ns ≡ length values)
      × (done ≡ false → (w.free_list ≡ []) × (length free < length values))

  -- The values from `values` are inserted, in order, at a position, before which stands `xs` and behind
  -- it `ys`: all of them, or, with bad_alloc thrown, as many as there were free cells; no cell of the
  -- list or of the pool is lost or used twice.
  pub insert_range-Inserted :
      (values : List T) (xs ys : List (ℕ × T)) (free : List ℕ) (pos : ℕ)
      → pos ≡ length xs
      → Inserted xs ys free values (insert_range pos values (pooled free (xs ++ ys)))
  unfolding insert_range
  insert_range-Inserted [] xs ys free pos e =
      ([], refl, Perm.refl (cells (pooled free (xs ++ ys))), omega arith, refl, λ d. refl, λ d. cc)
  insert_range-Inserted (v ∷ vs) xs ys [] pos e = (
    [],
    refl,
    Perm.refl (cells (pooled [] (xs ++ ys))),
    refl,
    refl,
    λ d. cc,
    λ d. (refl, omega arith),
  )
  insert_range-Inserted (v ∷ vs) xs ys (cell ∷ free) pos e =
      let x : ℕ × T = (cell, v) in
      let longer = length-append xs (x ∷ []) in
      rw (take-append xs ys pos e, drop-append xs ys pos e, sym (append_assoc xs (x ∷ []) ys))
        (one_more (insert_range (pos + 1) vs (pooled free ((xs ++ (x ∷ [])) ++ ys)))
          (insert_range-Inserted vs (xs ++ (x ∷ [])) ys free (pos + 1) (omega arith)))
    where
      one_more :
          (r : Bool × Pooled T)
          → Inserted (xs ++ ((cell, v) ∷ [])) ys free vs r
          → Inserted xs ys (cell ∷ free) (v ∷ vs) r
      one_more (done, w) (ns, active, kept, used, same, all, partly) = (
        (cell, v) ∷ ns,
        active ∙ append_assoc xs ((cell, v) ∷ []) (ns ++ ys),
        Perm.trans kept rw (append_assoc xs ((cell, v) ∷ []) ys) (moved-Perm (cell, v) xs ys free),
        omega arith,
        ap (λ t. v ∷ t) same,
        λ d. let e = all d in omega arith,
        λ d. let e = (partly d).1 in ((partly d).0, omega arith),
      )

  -- `ms` has been erased.
  abbrev pub Erased : List (ℕ × T) → List (ℕ × T) → List (ℕ × T) → List ℕ → Pooled T → Type 0
  Erased xs ms ys free w =
      (w.active_list ≡ xs ++ ys)
      × Perm (cells w) (cells (pooled free (xs ++ (ms ++ ys))))
      × (length w.free_list ≡ length free + length ms)

  -- `erase(first, last)` takes out the elements between the two positions and gives all their cells to
  -- the pool, and none other.
  pub erase_range-Erased :
      (xs ms ys : List (ℕ × T)) (free : List ℕ) (pos : ℕ)
      → pos ≡ length xs
      → Returns
          (Erased xs ms ys free)
          (erase_range pos (length ms) (pooled free (xs ++ (ms ++ ys))))
  unfolding erase_range
  erase_range-Erased xs [] ys free pos e =
      (refl, Perm.refl (cells (pooled free (xs ++ ys))), omega arith)
  erase_range-Erased xs (m ∷ ms) ys free pos e = rw (erase-eq xs (ms ++ ys) m free pos e) (
      Returns-mono (Erased xs ms ys (m.0 ∷ free)) (Erased xs (m ∷ ms) ys free)
        (erase_range pos (length ms) (pooled (m.0 ∷ free) (xs ++ (ms ++ ys))))
        (λ w (active, kept, given).
          (active, Perm.trans kept (Perm.symm (moved-Perm m xs (ms ++ ys) free)), omega arith))
        (erase_range-Erased xs ms ys (m.0 ∷ free) pos e))
