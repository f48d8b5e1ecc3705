-- ===== src/Heuristic/Best/Gains.antt =====
-- heuristic/src/fastinsertremove.cpp: when `bestRemove` finds no job.
use pbbperm.Base.{
  ℕ, zero, suc, ◌+◌, ◌≤◌, ◌<◌, ◌≡◌, refl, ap, ◌∙◌, Bool, true, false, Option, none, some, arith,
  if◌then◌else◌, ◌⊎◌, inl, inr, slice, ℕ_discrete, subst,
}
use pbbperm.Flowshop.Vectors.{Instance, makespan}
use pbbperm.Heuristic.Tables.{Tables}
use pbbperm.Heuristic.Tabu.{Tabu, is_tabu}
use pbbperm.Heuristic.Edits.{remove}
use pbbperm.Heuristic.Makespans.{remove_makespans}
use pbbperm.Heuristic.Best.{sum_pt, best_removal, Removed, remove_at, best_remove}
use pbbperm.Heuristic.Best.Removal.{gain, best_remove-makespan}

module _ (inst : Instance) (F : Type 0) (quotient : ℕ → ℕ → ℕ → F) (greater : F → F → Bool)
    (flt_min : F) where
  module _ (perm : ℕ → ℕ) (oldcmax : ℕ) (makespans : ℕ → ℕ) (tabujobs : Tabu) where
    abbrev search : ℕ → ℕ → F × Option ℕ → F × Option ℕ
    search n i best =
        best_removal inst F quotient greater flt_min n i perm oldcmax makespans tabujobs best

    step-cases :
        (b c : Bool) (best : F × Option ℕ) (val : F) (i : ℕ)
        → (((if b then best else (if c then (val, some i) else best)) ≡ best)
            × ((b ≡ true) ⊎ (c ≡ false)))
          ⊎ ((if b then best else (if c then (val, some i) else best)) ≡ (val, some i))
    step-cases true c best val i = inl (refl, inl refl)
    step-cases false true best val i = inr refl
    step-cases false false best val i = inl (refl, inr refl)

    -- A position that is found stays or gives way to another one.
    best_removal-some :
        (n i : ℕ) (best : F × Option ℕ) (p : ℕ) → best.1 ≡ some p → (search n i best).1 ≡ none → ⊥
    unfolding best_removal
    best_removal-some zero i best p e missing = absurd (ground (arith, e, missing))
    best_removal-some (suc n) i best p e missing =
        let val = gain inst F quotient greater flt_min perm oldcmax makespans tabujobs i in
        elim (step-cases (is_tabu tabujobs (perm i)) (greater val best.0) best val i) [
          | inl same ↦
              best_removal-some n (suc i) _ p (ap (λ (b : F × Option ℕ). b.1) same.0 ∙ e) missing
          | inr found ↦
              best_removal-some n (suc i) _ i (ap (λ (b : F × Option ℕ). b.1) found) missing
        ]

    -- Without a result each job is tabu, or its quotient is not above the first value.
    best_removal-none :
        (n i : ℕ) (best : F × Option ℕ) (p : ℕ)
        → best.1 ≡ none
        → (search n i best).1 ≡ none
        → i ≤ p
        → p < i + n
        → (is_tabu tabujobs (perm p) ≡ true)
          ⊎ (greater (gain inst F quotient greater flt_min perm oldcmax makespans tabujobs p) best.0
              ≡ false)
    unfolding best_removal
    best_removal-none zero i best p e missing lo hi = absurd (omega arith)
    best_removal-none (suc n) i best p e missing lo hi =
        let val = gain inst F quotient greater flt_min perm oldcmax makespans tabujobs i in
        elim (step-cases (is_tabu tabujobs (perm i)) (greater val best.0) best val i) [
          | inr found ↦
              absurd
                (best_removal-some n (suc i) _ i (ap (λ (b : F × Option ℕ). b.1) found) missing)
          | inl (same, why) ↦ elim (ℕ_discrete i p) [
            | yes here ↦
                subst
                  (λ q.
                    (is_tabu tabujobs (perm q) ≡ true)
                    ⊎ (greater
                          (gain inst F quotient greater flt_min perm oldcmax makespans tabujobs q)
                          best.0
                        ≡ false))
                  here why
            | no later ↦
                subst
                  (λ (b : F × Option ℕ).
                    (is_tabu tabujobs (perm p) ≡ true)
                    ⊎ (greater
                          (gain inst F quotient greater flt_min perm oldcmax makespans tabujobs p)
                          b.0
                        ≡ false))
                  same
                  (best_removal-none n (suc i) _ p (ap (λ (b : F × Option ℕ). b.1) same ∙ e) missing
                    (omega arith) (omega arith))
          ]
        ]

  -- Each job of the permutation is tabu, or its quotient is not above FLT_MIN.
  abbrev pub NoGain : (ℕ → ℕ) → ℕ → Tabu → Tables → (ℕ → ℕ) → Type 0
  NoGain perm len tabujobs tables memory =
      let (_, makespans, oldcmax) = remove_makespans inst perm len tables memory in
      (p : ℕ)
      → p < len
      → (is_tabu tabujobs (perm p) ≡ true)
        ⊎ (greater (quotient oldcmax (makespans p) (sum_pt inst inst.nb_machines (perm p))) flt_min
            ≡ false)

  remove_at-none :
      (perm : ℕ → ℕ) (len : ℕ) (makespans : ℕ → ℕ) (o : Option ℕ) (tables : Tables)
      → remove_at inst F quotient greater flt_min perm len makespans o tables ≡ none
      → o ≡ none
  unfolding remove_at
  remove_at-none perm len makespans none tables e = refl
  remove_at-none perm len makespans (some pos) tables e = absurd (ground (arith, e))

  best_remove-NoGain :
      (perm : ℕ → ℕ) (len : ℕ) (tabujobs : Tabu) (tables : Tables) (memory : ℕ → ℕ)
      → best_remove inst F quotient greater flt_min perm len tabujobs tables memory ≡ none
      → NoGain perm len tabujobs tables memory
  unfolding best_remove
  best_remove-NoGain perm len tabujobs tables memory e p h =
      let (after, makespans, oldcmax) = remove_makespans inst perm len tables memory in
      best_removal-none perm oldcmax makespans tabujobs len 0 (flt_min, none) p refl
        (remove_at-none perm len makespans _ after e) (omega arith) (omega arith)

  -- `bestRemove` finds no job only where there is none to find.
  pub best_remove-cases :
      (perm : ℕ → ℕ) (len : ℕ) (tabujobs : Tabu) (tables : Tables) (memory : ℕ → ℕ)
      → 1 < len
      → 0 < inst.nb_machines
      → ((best_remove inst F quotient greater flt_min perm len tabujobs tables memory ≡ none)
          × NoGain perm len tabujobs tables memory)
        ⊎ ((r : Removed) × (best_remove inst F quotient greater flt_min perm len tabujobs tables
                memory
              ≡ some r)
            × (r.pos < len)
            × (r.remjob ≡ perm r.pos)
            × (is_tabu tabujobs r.remjob ≡ false)
            × (r.perm ≡ (remove perm len r.pos).1)
            × (suc r.len ≡ len)
            × (r.cmax ≡ makespan inst (slice r.len 0 r.perm)))
  best_remove-cases perm len tabujobs tables memory two hm =
      elim (best_remove-makespan inst F quotient greater flt_min perm len tabujobs tables memory two
        hm) [
          | inl missing ↦ inl (missing, best_remove-NoGain perm len tabujobs tables memory missing)
          | inr found ↦ inr found
        ]
