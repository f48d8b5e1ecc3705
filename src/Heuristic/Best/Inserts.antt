-- ===== src/Heuristic/Best/Inserts.antt =====
-- heuristic/src/fastinsertremove.cpp: `bestInsert` inserts when a position before the end is not tabu.
use pbbperm.Base.{
  ℕ, suc, ◌<◌, ◌≡◌, refl, ap, ◌∙◌, sym, subst, ◌∷◌, Perm, false, none, arith, inl, inr, slice,
}
use pbbperm.Flowshop.Vectors.{Instance, int_max}
use pbbperm.Heuristic.Tables.{Tables}
use pbbperm.Heuristic.Tabu.{Tabu, is_tabu}
use pbbperm.Heuristic.Edits.{insert}
use pbbperm.Heuristic.Orders.{insert-perm}
use pbbperm.Heuristic.Makespans.{insert_makespans}
use pbbperm.Heuristic.Makespans.Entries.{insert_makespans-makespan}
use pbbperm.Heuristic.Best.{insert_at, best_insert}
use pbbperm.Heuristic.Best.Choice.{least_position-le, least_position-found}
use pbbperm.Heuristic.Neh.Work.{work, work-perm, makespan-le-work}

-- `bestInsert` adds the job to those of the permutation, whatever the tables held, when a position
-- before the last is not tabu and the work of the jobs is below INT_MAX.
pub best_insert-perm :
    (inst : Instance) (perm : ℕ → ℕ) (len job : ℕ) (tabupos : Tabu) (tables : Tables) (i : ℕ)
    → 0 < inst.nb_machines
    → i < len
    → is_tabu tabupos i ≡ false
    → work inst (job ∷ slice len 0 perm) < int_max
    → Perm
        (slice (suc len) 0 (best_insert inst perm len job tabupos tables).perm)
        (job ∷ slice len 0 perm)
      × ((best_insert inst perm len job tabupos tables).len ≡ suc len)
unfolding best_insert insert_at
best_insert-perm inst perm len job tabupos tables i hm hi free small =
    let (after, makespans, _) = insert_makespans inst perm len job tables (λ l. 0) in
    let entry =
      (insert_makespans-makespan inst perm len job tables (λ l. 0) i (omega arith) hm (omega arith)
        (λ e. absurd (omega arith))).0 in
    let finite : makespans i < int_max = omega (
      arith,
      entry,
      makespan-le-work inst _ hm,
      work-perm inst (insert-perm perm len i job (omega arith)),
    ) in
    let least =
      least_position-le makespans tabupos (suc len) 0 (int_max, none) i (omega arith) (omega arith)
        free in
    elim (least_position-found makespans tabupos (suc len) 0 (int_max, none)) [
      | inl same ↦ absurd (omega (arith, least, ap (λ b. b.0) same, finite))
      | inr (p, found, hp, allowed) ↦
          let done = ap (λ b. insert_at perm len job b after) found in
          (
            subst (λ q. Perm (slice (suc len) 0 q) (job ∷ slice len 0 perm))
                (sym (ap (λ r. r.perm) done)) (insert-perm perm len p job (omega arith)),
            ap (λ r. r.len) done ∙ (unfold insert in refl),
          )
    ]
