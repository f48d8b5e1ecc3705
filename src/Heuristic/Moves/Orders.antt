-- ===== src/Heuristic/Moves/Orders.antt =====
-- heuristic/src/fspnhoods.cpp: `fastBREmove` keeps the jobs of the permutation.
use mathlib.Core.List.Perm
use pbbperm.Base.{
  ℕ, suc, ◌-◌, ◌≤◌, ◌<◌, ◌≡◌, refl, ap, ◌∙◌, sym, subst, List, ◌∷◌, Perm, Bool, true, false, Option,
  none, some, arith, ltb, ◌==◌, if◌then◌else◌, inl, inr, slice, ℕ_discrete, ◌⊎◌,
}
use pbbperm.Flowshop.Vectors.{Instance, int_max}
use pbbperm.Heuristic.Tables.{Tables}
use pbbperm.Heuristic.Tabu.{Tabu, add, clear, is_tabu, listed}
use pbbperm.Heuristic.Edits.{remove}
use pbbperm.Heuristic.Orders.{remove-perm}
use pbbperm.Heuristic.Best.{best_insert}
use pbbperm.Heuristic.Best.Inserts.{best_insert-perm}
use pbbperm.Heuristic.Best.Gains.{NoGain, best_remove-cases}
use pbbperm.Heuristic.Neh.Work.{work, work-perm}
use pbbperm.Heuristic.Moves.{
  Fast, Moved, Floats, remove_best, heads_of, insert_elsewhere, move_first, move_second,
  fast_bre_move,
}

-- A list of one entry leaves one of the first two positions free.
one_tabu : (t : Tabu) (len : ℕ) → t.num ≡ 1 → 1 < len → (i : ℕ) × (i < len) × (is_tabu t i ≡ false)
unfolding is_tabu listed
one_tabu t len e h =
    let one : (i : ℕ) → is_tabu t i ≡ (if t.arr 0 == i then true else false) =
      λ i. ap (λ n. listed n 0 i t.arr) e in
    elim (ℕ_discrete (t.arr 0) 0) [
      | yes first ↦ (1, h, one 1 ∙ ground arith)
      | no other ↦ (0, omega arith, one 0 ∙ ground arith)
    ]

-- `remove` from a permutation leaves a job and the others.
pub remove-parts :
    (perm : ℕ → ℕ) (len pos : ℕ) (base : List ℕ)
    → pos < len
    → Perm (slice len 0 perm) base
    → Perm ((remove perm len pos).0 ∷ slice (len - 1) 0 (remove perm len pos).1) base
remove-parts perm len pos base h p = Perm.trans (remove-perm perm len pos h) p

module _ (inst : Instance) (floats : Floats) (memory : ℕ → ℕ) (some_machine : 0 < inst.nb_machines)
    (many : 3 ≤ inst.nb_job) (base : List ℕ) (small : work inst base < int_max) where
  -- All the jobs are in the permutation.
  abbrev IsWhole : Moved → Type 0
  IsWhole r = Perm (slice inst.nb_job 0 r.perm) base × (r.len ≡ inst.nb_job)

  pub inserted-perm :
      (perm : ℕ → ℕ) (len job : ℕ) (tabupos : Tabu) (tables : Tables)
      → suc len ≡ inst.nb_job
      → tabupos.num ≡ 1
      → Perm (job ∷ slice len 0 perm) base
      → Perm (slice inst.nb_job 0 (best_insert inst perm len job tabupos tables).perm) base
        × ((best_insert inst perm len job tabupos tables).len ≡ inst.nb_job)
  inserted-perm perm len job tabupos tables e one p =
      let (i, hi, free) = one_tabu tabupos len one (omega arith) in
      let (order, longer) =
        best_insert-perm inst perm len job tabupos tables i some_machine hi free
          (omega (arith, work-perm inst p)) in
      (
        subst (λ n. Perm (slice n 0 (best_insert inst perm len job tabupos tables).perm) base) e
            (Perm.trans order p),
        longer ∙ e,
      )

  insert_elsewhere-IsWhole :
      (perm : ℕ → ℕ) (len job pos : ℕ) (fast : Fast)
      → suc len ≡ inst.nb_job
      → fast.tabupos.num ≡ 0
      → Perm (job ∷ slice len 0 perm) base
      → IsWhole (insert_elsewhere inst floats memory perm len job pos fast)
        × ((insert_elsewhere inst floats memory perm len job pos fast).fast.tabupos.num ≡ 0)
  unfolding insert_elsewhere
  insert_elsewhere-IsWhole perm len job pos fast e none_barred p = (
    inserted-perm perm len job (add pos fast.tabupos) fast.tables e
        (unfold add in ap suc none_barred) p,
    (unfold clear in refl),
  )

  -- A result with all jobs, and no tabu position.
  abbrev IsMove : Option Moved → Type 0
  IsMove o =
      (r : Moved) × (o ≡ some r)
      × Perm (slice inst.nb_job 0 r.perm) base
      × (r.len ≡ inst.nb_job)
      × (r.fast.tabupos.num ≡ 0)

  pick-IsMove :
      (b : Bool) (missing : Type 0) (second : Option Moved) (first : Moved)
      → ((second ≡ none) × missing) ⊎ IsMove second
      → Perm (slice inst.nb_job 0 first.perm) base
        × (first.len ≡ inst.nb_job)
        × (first.fast.tabupos.num ≡ 0)
      → (((if b then second else some first) ≡ none) × (b ≡ true) × missing)
        ⊎ IsMove (if b then second else some first)
  pick-IsMove true missing second first (inl h) hf = inl (h.0, refl, h.1)
  pick-IsMove true missing second first (inr h) hf = inr h
  pick-IsMove false missing second first hs hf = inr (first, refl, hf.0, hf.1, hf.2)

  second-IsWhole :
      (perm : ℕ → ℕ) (len : ℕ) (barred cleared : Fast)
      → len ≡ inst.nb_job
      → Perm (slice inst.nb_job 0 perm) base
      → cleared.tabupos.num ≡ 0
      → ((move_second inst floats memory (remove_best inst floats memory perm len barred) cleared
            ≡ none)
          × NoGain inst floats.F floats.quotient floats.greater floats.flt_min perm len
              barred.tabujobs barred.tables memory)
        ⊎ IsMove (
            move_second inst floats memory (remove_best inst floats memory perm len barred) cleared)
  unfolding move_second
  second-IsWhole perm len barred cleared e p free =
      elim (best_remove-cases inst floats.F floats.quotient floats.greater floats.flt_min perm len
        barred.tabujobs barred.tables memory (omega arith) some_machine) [
          | inl (missing, poor) ↦
              inl (ap (λ o. move_second inst floats memory o cleared) missing, poor)
          | inr (r, found, hpos, job, allowed, order, shorter, cost) ↦
              let last : r.len ≡ len - 1 = omega arith in
              let parts : Perm (r.remjob ∷ slice r.len 0 r.perm) base =
                subst (λ q. Perm (r.remjob ∷ slice r.len 0 q) base) (sym order)
                  (subst (λ n. Perm (r.remjob ∷ slice n 0 (remove perm len r.pos).1) base)
                    (sym last)
                    (subst (λ j. Perm (j ∷ slice (len - 1) 0 (remove perm len r.pos).1) base)
                      (sym job)
                      (unfold remove in
                        remove-parts perm len r.pos base hpos
                          (subst (λ n. Perm (slice n 0 perm) base) (sym e) p)))) in
              let (whole, free') =
                insert_elsewhere-IsWhole r.perm r.len r.remjob r.pos
                  (record cleared { tables = r.tables }) (omega arith) free parts in
              inr (
                _,
                ap (λ o. move_second inst floats memory o cleared) found,
                whole.0,
                whole.1,
                free',
              )
        ]

  -- `fastBREmove` keeps the jobs of the permutation, whatever the tables held; or it reads outside
  -- its arrays, and then its first insertion costs more than the permutation, and `bestRemove` finds
  -- no job in what that leaves: each job there is the tabu one, or its quotient is not above FLT_MIN.
  -- Conditions: there are three jobs and a machine, the position is in range, no position is tabu, and
  -- the work of the jobs is below INT_MAX.
  pub fast_bre_move-Perm :
      (perm : ℕ → ℕ) (pos : ℕ) (fast : Fast)
      → pos < inst.nb_job
      → fast.tabupos.num ≡ 0
      → Perm (slice inst.nb_job 0 perm) base
      → let headed = heads_of inst floats memory perm inst.nb_job fast in
        let first = move_first inst floats memory perm pos headed.1 in
        ((fast_bre_move inst floats memory perm pos fast ≡ none)
          × (ltb headed.0 first.cmax ≡ true)
          × NoGain inst floats.F floats.quotient floats.greater floats.flt_min first.perm first.len
              (add (perm pos) first.fast.tabujobs)
              first.fast.tables
              memory)
        ⊎ ((r : Moved) × (fast_bre_move inst floats memory perm pos fast ≡ some r)
            × Perm (slice inst.nb_job 0 r.perm) base
            × (r.len ≡ inst.nb_job)
            × (r.fast.tabupos.num ≡ 0))
  unfolding fast_bre_move move_first
  fast_bre_move-Perm perm pos fast hpos none_barred p =
      let headed = (heads_of inst floats memory perm inst.nb_job fast).1 in
      let out = remove perm inst.nb_job pos in
      let first = insert_elsewhere inst floats memory out.1 out.2 out.0 pos headed in
      let (whole, free) =
        insert_elsewhere-IsWhole out.1 out.2 out.0 pos headed (unfold remove in omega arith)
          none_barred (unfold remove in remove-parts perm inst.nb_job pos base hpos p) in
      let barred : Fast = record first.fast { tabujobs = add (perm pos) first.fast.tabujobs } in
      let cleared : Fast = record barred { tabujobs = clear barred.tabujobs } in
      pick-IsMove (ltb (heads_of inst floats memory perm inst.nb_job fast).0 first.cmax) _
        (move_second inst floats memory (remove_best inst floats memory first.perm first.len barred)
          cleared)
        first (second-IsWhole first.perm first.len barred cleared whole.1 whole.0 free)
        (whole.0, whole.1, free)
