-- ===== src/Util/MemoryManager/Held.antt =====
-- The memory manager and the objects that its users hold.
use mathlib.Core.List.{Mem, Perm, Nodup, Nodup-cons, perm_middle, mem-append_left}
use mathlib.Core.List.Perm
use switchflow.Base.{
  ℕ, zero, suc, ◌+◌, ◌^◌, ◌≤◌, ◌<◌, ◌≡◌, ◌≢◌, refl, sym, ap, ◌∙◌, false, inl, inr, Bool-cases,
  Option, none, some, List, [], ◌∷◌, ◌++◌, append_assoc, arith, ◌==◌, leb, lt→ltb, u32, length,
  length-append, length-set, get_elem?, get_elem?-drop, drop, drop-set, set, Outcome, ok, fault,
  Returns,
}
use switchflow.Util.MemoryManager.{
  MemoryManager, before, within, element, allocate_element, release_element, destroy,
}

-- All the objects there are, each once: those that are held, and those behind the position.
pub record IsManager (all held : List ℕ) (m : MemoryManager) : Type 0 where
  pub shared : Perm (held ++ drop m.current_free_position m.free_data_stack) all
  pub distinct : Nodup all
  pub counted : length held ≡ m.current_free_position
  pub size : length m.free_data_stack ≡ length all
  pub fits : m.current_free_position ≤ length m.free_data_stack
  pub small : length all < 2 ^ 32

-- `releases xs p ys` gives back `p`, before and behind which `xs` and `ys` are held.
pub data Operation : Type 0 where
  allocates : Operation
  releases : List ℕ → ℕ → List ℕ → Operation
  destroys : Operation

abbrev pub Allowed : List ℕ → Operation → Type 0
Allowed held allocates = Unit
Allowed held (releases xs p ys) = held ≡ xs ++ (p ∷ ys)
Allowed held destroys = Unit

abbrev pub Allocated : List ℕ → List ℕ → MemoryManager → Outcome (Option ℕ × MemoryManager) → Type 0
Allocated all held m (ok (some p, m')) = (¬ Mem p held) × IsManager all (p ∷ held) m'
Allocated all held m (ok (none, m')) = (m' ≡ m) × (length held ≡ length all)
Allocated all held m (fault e) = ⊥

abbrev pub Destroyed : List ℕ → List ℕ → Outcome (List ℕ) → Type 0
Destroyed all held (ok deleted) = (held ≡ []) × Perm deleted all
Destroyed all held (fault e) = held ≢ []

-- What an operation does with the manager `m`, where `held` is held.
abbrev pub Managed : List ℕ → List ℕ → MemoryManager → Operation → Type 0
Managed all held m allocates = Allocated all held m (allocate_element m)
Managed all held m (releases xs p ys) = Returns (IsManager all (xs ++ ys)) (release_element p m)
Managed all held m destroys = Destroyed all held (destroy m)

abbrev manager : List ℕ → ℕ → MemoryManager
manager stack n = record { free_data_stack = stack; current_free_position = n }

element-eq :
    (m : MemoryManager) (i j p : ℕ)
    → i ≡ j
    → get_elem? m.free_data_stack j ≡ some p
    → element m i ≡ ok p
element-eq m i j p e at = ap within (ap (get_elem? m.free_data_stack) e ∙ at)

allocate-Managed :
    (all held : List ℕ) (m : MemoryManager)
    → IsManager all held m
    → Allocated all held m (allocate_element m)
unfolding allocate_element
allocate-Managed all held m i =
    let counted = i.counted in
    let size = i.size in
    let fits = i.fits in
    let small = i.small in
    elim (Bool-cases (leb (length m.free_data_stack) m.current_free_position)) [
      | inl e ↦ rw e (refl, ground arith)
      | inr e ↦
          let room : m.current_free_position < length m.free_data_stack = ground arith in
          let (p, at, behind) = get_elem?-drop m.current_free_position m.free_data_stack room in
          let next : u32 (m.current_free_position + 1) ≡ m.current_free_position + 1 =
            omega arith in
          let back : before (u32 (m.current_free_position + 1)) ≡ m.current_free_position =
            omega arith in
          let shared : Perm (held ++ (p ∷ drop (m.current_free_position + 1) m.free_data_stack))
              all =
            rw (sym behind) i.shared in
          let moved =
            Perm.trans
              (Perm.symm (perm_middle held (drop (m.current_free_position + 1) m.free_data_stack)))
              shared in
          let got =
            element-eq m (before (u32 (m.current_free_position + 1))) m.current_free_position p back
              at in
          let fresh = Nodup-cons.0 (Perm.nodup (Perm.symm moved) i.distinct) in
          rw (e, got, next)
            (
              (λ h.
                  fresh.0
                    (mem-append_left (drop (m.current_free_position + 1) m.free_data_stack) h)),
              record {
                shared = moved;
                distinct = i.distinct;
                counted = omega arith;
                size = size;
                fits = omega arith;
                small = small;
              },
            )
    ]

release-Managed :
    (all xs ys : List ℕ) (p : ℕ) (stack : List ℕ) (n : ℕ)
    → IsManager all (xs ++ (p ∷ ys)) (manager stack n)
    → Returns (IsManager all (xs ++ ys)) (release_element p (manager stack n))
unfolding release_element
release-Managed all xs ys p stack zero i =
    let counted = i.counted in let longer = length-append xs (p ∷ ys) in absurd (omega arith)
release-Managed all xs ys p stack (suc n) i =
    let counted = i.counted in
    let size = i.size in
    let fits = i.fits in
    let small = i.small in
    let longer = length-append xs (p ∷ ys) in
    let shorter = length-append xs ys in
    let back : before (suc n) ≡ n = omega arith in
    let inside = lt→ltb n (length stack) (omega arith) in
    let next : n + 1 ≡ suc n = omega arith in
    let stacked : drop n (set stack n p) ≡ p ∷ drop (suc n) stack =
      drop-set n stack p (omega arith) ∙ (rw next refl) in
    let behind = drop (suc n) stack in
    let shared : Perm (xs ++ (p ∷ (ys ++ behind))) all =
      rw (sym (append_assoc xs (p ∷ ys) behind)) i.shared in
    let kept : Perm (p ∷ ((xs ++ ys) ++ behind)) all =
      rw (append_assoc xs ys behind)
        (Perm.trans (Perm.symm (perm_middle xs (ys ++ behind))) shared) in
    rw (back, inside)
      (record {
        shared = rw stacked (Perm.trans (perm_middle (xs ++ ys) behind) kept);
        distinct = i.distinct;
        counted = omega arith;
        size = length-set stack n p ∙ size;
        fits = rw (length-set stack n p) (omega arith);
        small = small;
      })

destroy-Managed :
    (all held stack : List ℕ) (n : ℕ)
    → IsManager all held (manager stack n)
    → Destroyed all held (destroy (manager stack n))
unfolding destroy
destroy-Managed all [] stack zero i = (refl, i.shared)
destroy-Managed all (x ∷ held) stack zero i = let counted = i.counted in absurd (omega arith)
destroy-Managed all [] stack (suc n) i = let counted = i.counted in absurd (omega arith)
destroy-Managed all (x ∷ held) stack (suc n) i =
    let held_one : (suc n == 0) ≡ false = ground arith in rw held_one (λ e. cc)

-- As long as its users give back only what they hold, the manager and they have every object between
-- them, once: an object that is allocated is held by nobody, null is answered only where all are held,
-- giving one back succeeds, and so does destroying the manager, which deletes every object, unless an
-- object is held, where it aborts.
pub operation-Managed :
    (all held : List ℕ) (m : MemoryManager) (op : Operation)
    → IsManager all held m
    → Allowed held op
    → Managed all held m op
operation-Managed all held m allocates i a = allocate-Managed all held m i
operation-Managed all held m (releases xs p ys) i a =
    release-Managed all xs ys p m.free_data_stack m.current_free_position (rw (sym a) i)
operation-Managed all held m destroys i a =
    destroy-Managed all held m.free_data_stack m.current_free_position i
