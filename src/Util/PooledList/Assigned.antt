-- ===== src/Util/PooledList/Assigned.antt =====
-- clear and assign of pooled_list.
use Prim.Derive.{subst}
use mathlib.Core.List.{Perm}
use mathlib.Core.List.Perm
use switchflow.Base.{
  ℕ, ◌+◌, ◌<◌, ◌≡◌, refl, sym, ap, ◌∙◌, Bool, true, false, List, [], append-nil, arith, length,
  take, Returns, Returns-eq-ok,
}
use switchflow.Util.PooledList.{Pooled, insert_range, erase_range, clear, assign}
use switchflow.Util.PooledList.Values.{
  cells, pooled, values_of, erase_range-Erased, Inserted, insert_range-Inserted,
}

module _ {T : Type 0} where
  pub clear-cleared :
      (w : Pooled T)
      → Returns
          (λ w'.
            (w'.active_list ≡ [])
            × Perm (cells w') (cells w)
            × (length w'.free_list ≡ length w.free_list + length w.active_list))
          (clear w)
  unfolding clear
  clear-cleared w =
      subst
        (λ t.
          Returns
            (λ w'.
              (w'.active_list ≡ [])
              × Perm (cells w') (cells (pooled w.free_list t))
              × (length w'.free_list ≡ length w.free_list + length w.active_list))
            (erase_range 0 (length w.active_list) (pooled w.free_list t)))
        (append-nil w.active_list) (erase_range-Erased [] w.active_list [] w.free_list 0 refl)

  -- As many of `values`, from their front, as `w` has cells.
  abbrev pub Assigned : List T → Pooled T → Bool × Pooled T → Type 0
  Assigned values w (done, w') =
      (values_of w'.active_list ≡ take (length w'.active_list) values)
      × (done ≡ true → length w'.active_list ≡ length values)
      × (done ≡ false
          → (w'.free_list ≡ [])
            × (length w'.active_list ≡ length w.active_list + length w.free_list)
            × (length w.active_list + length w.free_list < length values))
      × Perm (cells w') (cells w)

  Inserted-Assigned :
      (values : List T) (w : Pooled T) (free : List ℕ) (r : Bool × Pooled T)
      → Inserted [] [] free values r
      → Perm free (cells w)
      → length free ≡ length w.free_list + length w.active_list
      → Assigned values w r
  Inserted-Assigned values w free (done, w') (ns, active, kept, used, same, all, partly) k n =
      let only : w'.active_list ≡ ns = active ∙ append-nil ns in
      (
        rw only same,
        λ d. rw only (all d),
        λ d.
            let (emptied, less) = partly d in
            let none_left = ap length emptied in
            let filled = ap length only in (emptied, omega arith, omega arith),
        Perm.trans kept k,
      )

  -- `assign` replaces the values by as many of the new ones, from their front, as the list and its pool
  -- have cells together: by all of them, or else, with bad_alloc thrown, by as many as there are
  -- cells, and the pool is empty then; no cell is lost.
  pub assign-Assigned :
      (values : List T) (w : Pooled T) → Returns (Assigned values w) (assign values w)
  unfolding assign
  assign-Assigned values w =
      let (w₁, done, (nothing, kept, given)) =
        Returns-eq-ok
          (λ w'.
            (w'.active_list ≡ [])
            × Perm (cells w') (cells w)
            × (length w'.free_list ≡ length w.free_list + length w.active_list))
          (clear w) (clear-cleared w) in
      let bare : w₁ ≡ pooled w₁.free_list [] = ap (λ a. pooled w₁.free_list a) nothing in
      let kept' : Perm w₁.free_list (cells w) = subst (λ u. Perm (cells u) (cells w)) bare kept in
      rw done (
        Inserted-Assigned values w w₁.free_list (insert_range 0 values w₁)
          (subst (λ u. Inserted [] [] w₁.free_list values (insert_range 0 values u)) (sym bare)
            (insert_range-Inserted values [] [] w₁.free_list 0 refl))
          kept' given)
