-- ===== src/Heuristic/Best/Removal.antt =====
-- heuristic/src/fastinsertremove.cpp: what `bestRemove` removes.
use pbbperm.Base.{
  ℕ, zero, suc, ◌+◌, ◌<◌, ◌≡◌, refl, ap, ◌∙◌, Bool, false, Option, none, some, arith, if◌then◌else◌,
  Bool-cases, ◌⊎◌, inl, inr, slice,
}
use pbbperm.Flowshop.Vectors.{Instance, makespan}
use pbbperm.Heuristic.Tables.{Tables}
use pbbperm.Heuristic.Tabu.{Tabu, is_tabu}
use pbbperm.Heuristic.Edits.{remove}
use pbbperm.Heuristic.Makespans.{remove_makespans}
use pbbperm.Heuristic.Makespans.Removals.{remove_makespans-makespan}
use pbbperm.Heuristic.Best.{sum_pt, best_removal, Removed, remove_at, best_remove}

module _ (inst : Instance) (F : Type 0) (quotient : ℕ → ℕ → ℕ → F) (greater : F → F → Bool)
    (flt_min : F) where
  module _ (perm : ℕ → ℕ) (oldcmax : ℕ) (makespans : ℕ → ℕ) (tabujobs : Tabu) where
    abbrev pub gain : ℕ → F
    gain i = quotient oldcmax (makespans i) (sum_pt inst inst.nb_machines (perm i))

    -- The result is the one before, or a position whose job is not tabu, with its quotient.
    best_removal-found :
        (n i : ℕ) (best : F × Option ℕ)
        → (best_removal inst F quotient greater flt_min n i perm oldcmax makespans tabujobs best
            ≡ best)
          ⊎ ((p : ℕ) × (best_removal inst F quotient greater flt_min n i perm oldcmax makespans
                  tabujobs best
                ≡ (gain p, some p))
              × (p < i + n)
              × (is_tabu tabujobs (perm p) ≡ false))
    unfolding best_removal
    best_removal-found zero i best = inl refl
    best_removal-found (suc n) i best =
        let val = gain i in
        let tried : F × Option ℕ = if greater val best.0 then (val, some i) else best in
        let next : F × Option ℕ = if is_tabu tabujobs (perm i) then best else tried in
        elim (best_removal-found n (suc i) next) [
          | inr later ↦ inr (later.0, later.1, omega (arith, later.2), later.3)
          | inl same ↦ elim (Bool-cases (is_tabu tabujobs (perm i))) [
            | inl tabu ↦ inl (same ∙ ap (λ b. if b then best else tried) tabu)
            | inr free ↦
                let here = same ∙ ap (λ b. if b then best else tried) free in
                elim (Bool-cases (greater val best.0)) [
                  | inl more ↦ inr (
                    i,
                    here ∙ ap (λ b. if b then (val, some i) else best) more,
                    omega arith,
                    free,
                  )
                  | inr less ↦ inl (here ∙ ap (λ b. if b then (val, some i) else best) less)
                ]
          ]
        ]

  -- `bestRemove` removes a job that is not tabu, and `cmax` is then the makespan of the schedule it
  -- leaves; or it finds no job, and reads the makespan at position -1. Whatever the floating point
  -- numbers are. Conditions: the permutation has at least two jobs, and there is a machine.
  pub best_remove-makespan :
      (perm : ℕ → ℕ) (len : ℕ) (tabujobs : Tabu) (tables : Tables) (memory : ℕ → ℕ)
      → 1 < len
      → 0 < inst.nb_machines
      → (best_remove inst F quotient greater flt_min perm len tabujobs tables memory ≡ none)
        ⊎ ((r : Removed) × (best_remove inst F quotient greater flt_min perm len tabujobs tables
                memory
              ≡ some r)
            × (r.pos < len)
            × (r.remjob ≡ perm r.pos)
            × (is_tabu tabujobs r.remjob ≡ false)
            × (r.perm ≡ (remove perm len r.pos).1)
            × (suc r.len ≡ len)
            × (r.cmax ≡ makespan inst (slice r.len 0 r.perm)))
  unfolding best_remove remove_at
  best_remove-makespan perm len tabujobs tables memory two hm =
      let (after, makespans, oldcmax) = remove_makespans inst perm len tables memory in
      elim (best_removal-found perm oldcmax makespans tabujobs len 0 (flt_min, none)) [
        | inl same ↦
            inl (
              ap (λ b. remove_at inst F quotient greater flt_min perm len makespans b.1 after) same)
        | inr (p, found, hp, free) ↦ inr (
          _,
          ap (λ b. remove_at inst F quotient greater flt_min perm len makespans b.1 after) found,
          omega arith,
          unfold remove in refl,
          unfold remove in free,
          refl,
          unfold remove in omega arith,
          unfold remove in
              (remove_makespans-makespan inst perm len tables memory p two hm (omega arith)).0,
        )
      ]
