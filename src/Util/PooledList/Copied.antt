-- ===== src/Util/PooledList/Copied.antt =====
-- The copy assignment of pooled_list.
use Prim.Derive.{subst}
use mathlib.Core.List.{Perm, perm_append_comm}
use mathlib.Core.List.Perm
use switchflow.Base.{
  ℕ, ◌+◌, ◌≤◌, ◌<◌, ◌≡◌, refl, sym, ap, ◌∙◌, ◌∷◌, Bool, true, false, List, [], ◌++◌, append-nil,
  append_assoc, arith, length, take, take-append, Returns, Returns-eq-ok,
}
use switchflow.Util.PooledList.{Pooled, clear}
use switchflow.Util.PooledList.Values.{
  cells, pooled, values_of, cells_of, Inserted, insert_range-Inserted,
}
use switchflow.Util.PooledList.Assigned.{clear-cleared}
use switchflow.Util.PooledList.Copies.{Attached, copy, take_over, copy_assign}

-- The old list's cells go to the pool, from which those of the new one have come.
exchanged-Perm :
    (mine given pool free rest : List ℕ)
    → Perm (given ++ pool) free
    → Perm rest (mine ++ pool)
    → Perm (given ++ rest) (mine ++ free)
exchanged-Perm mine given pool free rest taken back = Perm.trans (Perm.append_left given back) (
    Perm.trans
      (rw (sym (append_assoc given mine pool), sym (append_assoc mine given pool))
        (Perm.append_right pool (perm_append_comm given mine)))
      (Perm.append_left mine taken))

module _ {T : Type 0} where
  abbrev pub CopyAssigned : Attached T → Bool × Attached T → Type 0
  CopyAssigned w (true, w') =
      (length w.x ≤ length w.free_list)
      × (values_of w'.active_list ≡ values_of w.x)
      × (w'.x ≡ w.x)
      × Perm (cells (pooled w'.free_list w'.active_list)) (cells (pooled w.free_list w.active_list))
  CopyAssigned w (false, w') =
      (length w.free_list < length w.x) × (w' ≡ record w { free_list = [] })

  length-values_of : (xs : List (ℕ × T)) → length (values_of xs) ≡ length xs
  length-values_of [] = refl
  length-values_of (x ∷ xs) = let rest = length-values_of xs in omega arith

  take-all : (vs : List T) (n : ℕ) → n ≡ length vs → take n vs ≡ vs
  take-all vs n e = ap (take n) (sym (append-nil vs)) ∙ take-append vs [] n e

  take_over-CopyAssigned :
      (w : Attached T) (r : Bool × Pooled T)
      → Inserted [] [] w.free_list (values_of w.x) r
      → Returns (CopyAssigned w) (take_over w r)
  take_over-CopyAssigned w (true, temp) (ns, active, kept, used, same, all, partly) =
      let old = pooled temp.free_list w.active_list in
      let (t, done, (nothing, back, given)) =
        Returns-eq-ok
          (λ t.
            (t.active_list ≡ [])
            × Perm (cells t) (cells old)
            × (length t.free_list ≡ length temp.free_list + length w.active_list))
          (clear old) (clear-cleared old) in
      let only : temp.active_list ≡ ns = active ∙ append-nil ns in
      let n = length-values_of w.x in
      let many = all refl in
      rw done (
        omega arith,
        rw only (same ∙ take-all (values_of w.x) (length ns) many),
        refl,
        exchanged-Perm (cells_of w.active_list) (cells_of temp.active_list) temp.free_list
            w.free_list t.free_list kept
            (subst (λ a. Perm (cells (pooled t.free_list a)) (cells old)) nothing back),
      )
  take_over-CopyAssigned w (false, temp) (ns, active, kept, used, same, all, partly) =
      let (emptied, few) = partly refl in
      let n = length-values_of w.x in (omega arith, ap (λ f. record w { free_list = f }) emptied)

  -- `operator=` returns. With as many free cells as `x` has elements, the list then has the values of
  -- `x`, `x` is as before, and the cells of the list and of the pool are those that they had before.
  -- With fewer, bad_alloc is thrown; both lists are as before, but the pool is empty.
  pub copy_assign-CopyAssigned : (w : Attached T) → Returns (CopyAssigned w) (copy_assign w)
  unfolding copy_assign copy
  copy_assign-CopyAssigned w =
      take_over-CopyAssigned w (copy w.x w.free_list)
        (insert_range-Inserted (values_of w.x) [] [] w.free_list 0 refl)
