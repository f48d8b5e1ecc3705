-- ===== src/Heuristic/Best/Choice.antt =====
-- heuristic/src/fastinsertremove.cpp: what `bestInsert`, `bestBlockInsert` and `bestRemove` choose.
use pbbperm.Base.{
  ℕ, zero, suc, ◌+◌, ◌≤◌, ◌<◌, ◌≡◌, refl, ap, ◌∙◌, sym, true, false, Option, none, some, arith, ltb,
  if◌then◌else◌, Bool-cases, ◌⊎◌, inl, inr, slice, ℕ_discrete,
}
use pbbperm.Flowshop.Vectors.{Instance, makespan, int_max}
use pbbperm.Heuristic.Tables.{Tables}
use pbbperm.Heuristic.Tabu.{Tabu, is_tabu}
use pbbperm.Heuristic.Edits.{insert, block_insert}
use pbbperm.Heuristic.Makespans.{insert_makespans, insert_block_makespans}
use pbbperm.Heuristic.Makespans.Entries.{insert_makespans-makespan}
use pbbperm.Heuristic.Makespans.Blocks.{insert_block_makespans-makespan}
use pbbperm.Heuristic.Best.{
  least_position, insert_at, best_insert, insert_block_at, best_block_insert,
}

module _ (makespans : ℕ → ℕ) (tabupos : Tabu) where
  abbrev after_position : ℕ → ℕ × Option ℕ → ℕ × Option ℕ
  after_position i best =
      if is_tabu tabupos i
      then best
      else (if ltb (makespans i) best.0 then (makespans i, some i) else best)

  least_position-le_best :
      (n i : ℕ) (best : ℕ × Option ℕ) → (least_position n i makespans tabupos best).0 ≤ best.0
  unfolding least_position
  least_position-le_best zero i best = omega arith
  least_position-le_best (suc n) i best =
      let step : (after_position i best).0 ≤ best.0 = ground arith in
      omega (arith, step, least_position-le_best n (suc i) (after_position i best))

  pub least_position-le :
      (n i : ℕ) (best : ℕ × Option ℕ) (k : ℕ)
      → i ≤ k
      → k < i + n
      → is_tabu tabupos k ≡ false
      → (least_position n i makespans tabupos best).0 ≤ makespans k
  unfolding least_position
  least_position-le zero i best k lo hi free = absurd (omega arith)
  least_position-le (suc n) i best k lo hi free = elim (ℕ_discrete i k) [
    | yes e ↦
        let step : (after_position i best).0 ≤ makespans k =
          ground (arith, free, ap (is_tabu tabupos) e, ap makespans e) in
        omega (arith, step, least_position-le_best n (suc i) (after_position i best))
    | no ne ↦ least_position-le n (suc i) (after_position i best) k (omega arith) (omega arith) free
  ]

  -- The result is the one before, or a position that is not tabu, with its makespan.
  pub least_position-found :
      (n i : ℕ) (best : ℕ × Option ℕ)
      → (least_position n i makespans tabupos best ≡ best)
        ⊎ ((p : ℕ) × (least_position n i makespans tabupos best ≡ (makespans p, some p))
            × (p < i + n)
            × (is_tabu tabupos p ≡ false))
  unfolding least_position
  least_position-found zero i best = inl refl
  least_position-found (suc n) i best =
      elim (least_position-found n (suc i) (after_position i best)) [
        | inr later ↦ inr (later.0, later.1, omega (arith, later.2), later.3)
        | inl same ↦ elim (Bool-cases (is_tabu tabupos i)) [
          | inl tabu ↦ inl (
              same
              ∙ ap
                  (λ b.
                    if b
                    then best
                    else (if ltb (makespans i) best.0 then (makespans i, some i) else best))
                  tabu)
          | inr free ↦ elim (Bool-cases (ltb (makespans i) best.0)) [
            | inl less ↦ inr (
              i,
              same
                  ∙ ap
                      (λ b.
                        if b
                        then best
                        else (if ltb (makespans i) best.0 then (makespans i, some i) else best))
                      free
                  ∙ ap (λ b. if b then (makespans i, some i) else best) less,
              omega arith,
              free,
            )
            | inr more ↦ inl (
                same
                ∙ ap
                    (λ b.
                      if b
                      then best
                      else (if ltb (makespans i) best.0 then (makespans i, some i) else best))
                    free
                ∙ ap (λ b. if b then (makespans i, some i) else best) more)
          ]
        ]
      ]

module _ (inst : Instance) (perm : ℕ → ℕ) (len job : ℕ) (tabupos : Tabu) (tables : Tables)
    (some_job : 0 < len) (some_machine : 0 < inst.nb_machines)
    (clean : (k : ℕ) → k < inst.nb_machines → tables.tail k len ≡ 0) where
  -- `bestInsert` inserts the job at a position that is not tabu, and `cmax` is then the makespan of
  -- the new schedule, at most that of the insertion at any position that is not tabu; or it inserts
  -- nothing, and none of these is below INT_MAX. Conditions: the permutation is not empty, there is
  -- a machine, and the tails that the tables hold behind the last job are 0.
  pub best_insert-least :
      (i : ℕ)
      → i ≤ len
      → is_tabu tabupos i ≡ false
      → (((best_insert inst perm len job tabupos tables).pos ≡ none)
          × ((best_insert inst perm len job tabupos tables).perm ≡ perm)
          × (int_max ≤ makespan inst (slice (suc len) 0 (insert perm len i job).0)))
        ⊎ ((p : ℕ) × ((best_insert inst perm len job tabupos tables).pos ≡ some p)
            × (p ≤ len)
            × (is_tabu tabupos p ≡ false)
            × ((best_insert inst perm len job tabupos tables).perm ≡ (insert perm len p job).0)
            × ((best_insert inst perm len job tabupos tables).cmax
                ≡ makespan inst
                    (slice (suc len) 0 (best_insert inst perm len job tabupos tables).perm))
            × ((best_insert inst perm len job tabupos tables).cmax
                ≤ makespan inst (slice (suc len) 0 (insert perm len i job).0)))
  unfolding best_insert insert_at
  best_insert-least i hi free =
      let (after, makespans, _) = insert_makespans inst perm len job tables (λ l. 0) in
      let best = least_position (suc len) 0 makespans tabupos (int_max, none) in
      let entry : (l : ℕ)
          → l ≤ len
          → makespans l ≡ makespan inst (slice (suc len) 0 (insert perm len l job).0) =
        λ l hl.
          (insert_makespans-makespan inst perm len job tables (λ l. 0) l some_job some_machine hl
            (λ e. clean)).0 in
      let least =
        least_position-le makespans tabupos (suc len) 0 (int_max, none) i (omega arith)
          (omega arith) free in
      elim (least_position-found makespans tabupos (suc len) 0 (int_max, none)) [
        | inl same ↦
            let done = ap (λ b. insert_at perm len job b after) same in
            inl (
              ap (λ r. r.pos) done,
              ap (λ r. r.perm) done,
              omega (arith, least, ap (λ b. b.0) same, entry i hi),
            )
        | inr (p, found, hp, allowed) ↦
            let done = ap (λ b. insert_at perm len job b after) found in
            let moved = ap (λ r. r.perm) done in
            let cost = ap (λ r. r.cmax) done in
            inr (
              p,
              ap (λ r. r.pos) done,
              omega arith,
              allowed,
              moved,
              cost
                  ∙ entry p (omega arith)
                  ∙ sym (ap (λ q. makespan inst (slice (suc len) 0 q)) moved),
              omega (arith, least, ap (λ b. b.0) found, cost, entry i hi),
            )
      ]

-- When all positions are tabu, `bestInsert` inserts nothing: the permutation and its length stay, and
-- `cmax` becomes INT_MAX.
pub best_insert-all_tabu :
    (inst : Instance) (perm : ℕ → ℕ) (len job : ℕ) (tabupos : Tabu) (tables : Tables)
    → ((i : ℕ) → i ≤ len → is_tabu tabupos i ≡ true)
    → ((best_insert inst perm len job tabupos tables).pos ≡ none)
      × ((best_insert inst perm len job tabupos tables).perm ≡ perm)
      × ((best_insert inst perm len job tabupos tables).len ≡ len)
      × ((best_insert inst perm len job tabupos tables).cmax ≡ int_max)
unfolding best_insert insert_at
best_insert-all_tabu inst perm len job tabupos tables all =
    let (after, makespans, _) = insert_makespans inst perm len job tables (λ l. 0) in
    elim (least_position-found makespans tabupos (suc len) 0 (int_max, none)) [
      | inl same ↦
          let done = ap (λ b. insert_at perm len job b after) same in
          (ap (λ r. r.pos) done, ap (λ r. r.perm) done, ap (λ r. r.len) done, ap (λ r. r.cmax) done)
      | inr (p, found, hp, allowed) ↦ absurd (ground (arith, sym (all p (omega arith)) ∙ allowed))
    ]

-- `bestBlockInsert` returns at most the makespan of the insertion of the block at any position that
-- is not tabu, and it is the makespan of the schedule it leaves; or it inserts nothing, and none of
-- these is below INT_MAX. Conditions: the permutation is not empty, there is a machine, and the fresh
-- cell behind the others holds 0.
pub best_block_insert-least :
    (inst : Instance) (perm : ℕ → ℕ) (len : ℕ) (block : ℕ → ℕ) (bl : ℕ) (tabupos : Tabu)
    (tables : Tables) (memory : ℕ → ℕ) (i : ℕ)
    → 0 < len
    → 0 < inst.nb_machines
    → memory len ≡ 0
    → i ≤ len
    → is_tabu tabupos i ≡ false
    → ((best_block_insert inst perm len block bl tabupos tables memory ≡ (perm, int_max))
        × (int_max ≤ makespan inst (slice (len + bl) 0 (block_insert bl 0 perm len i block).0)))
      ⊎ (((best_block_insert inst perm len block bl tabupos tables memory).1
            ≡ makespan inst (
                slice
                  (len + bl)
                  0
                  (best_block_insert inst perm len block bl tabupos tables memory).0))
          × ((best_block_insert inst perm len block bl tabupos tables memory).1
              ≤ makespan inst (slice (len + bl) 0 (block_insert bl 0 perm len i block).0)))
unfolding best_block_insert insert_block_at
best_block_insert-least inst perm len block bl tabupos tables memory i pos hm fresh hi free =
    let (after, makespans, _) = insert_block_makespans inst perm len block bl tables memory in
    let entry : (l : ℕ)
        → l ≤ len
        → makespans l ≡ makespan inst (slice (len + bl) 0 (block_insert bl 0 perm len l block).0) =
      λ l hl.
        (insert_block_makespans-makespan inst perm len block bl tables memory l pos hm hl
          (λ e. omega arith)).0 in
    let least =
      least_position-le makespans tabupos (suc len) 0 (int_max, none) i (omega arith) (omega arith)
        free in
    elim (least_position-found makespans tabupos (suc len) 0 (int_max, none)) [
      | inl same ↦ inl (
        ap (insert_block_at perm len block bl) same,
        omega (arith, least, ap (λ b. b.0) same, entry i hi),
      )
      | inr (p, found, hp, allowed) ↦
          let done = ap (insert_block_at perm len block bl) found in
          inr (
            ap (λ r. r.1) done
                ∙ entry p (omega arith)
                ∙ sym (ap (λ r. makespan inst (slice (len + bl) 0 r.0)) done),
            omega (arith, least, ap (λ b. b.0) found, ap (λ r. r.1) done, entry i hi),
          )
    ]
