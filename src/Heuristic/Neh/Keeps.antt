-- ===== src/Heuristic/Neh/Keeps.antt =====
-- heuristic/src/fastNEH.cpp: NEH keeps the jobs of the permutation, and chooses positions in range.
use mathlib.Core.List.Perm
use pbbperm.Base.{
  ℕ, zero, suc, ◌+◌, ◌-◌, ◌≤◌, ◌<◌, ◌≡◌, refl, ap, ◌∙◌, sym, subst, ◌∷◌, Perm, arith, Bool, true,
  false, Bool-cases, ltb, if◌then◌else◌, ◌⊎◌, inl, inr, slice, slice_split_front, slice_congr,
  ℕ_discrete, write,
}
use pbbperm.Flowshop.Vectors.{Instance, makespan, int_max}
use pbbperm.Flowshop.Lists.{front_loop-heads}
use pbbperm.Heuristic.Tables.{Tables}
use pbbperm.Heuristic.Edits.{insert, shift_up}
use pbbperm.Heuristic.Orders.{insert_within-perm}
use pbbperm.Heuristic.Makespans.{insert_makespans}
use pbbperm.Heuristic.Makespans.Entries.{insert_makespans-makespan}
use pbbperm.Heuristic.Neh.{
  least_of, swap_first, eval_makespan, find_best_pos, insert_job_in_best_position, insert_jobs,
  run_neh,
}
use pbbperm.Heuristic.Neh.Work.{work, work-perm, work-append, makespan-le-work}

least_of-le_best : (n i : ℕ) (tmp : ℕ → ℕ) (best : ℕ × ℕ) → (least_of n i tmp best).0 ≤ best.0
unfolding least_of
least_of-le_best zero i tmp best = omega arith
least_of-le_best (suc n) i tmp best =
    let next : ℕ × ℕ = if ltb (tmp i) best.0 then (tmp i, i) else best in
    let step : next.0 ≤ best.0 = ground arith in
    omega (arith, step, least_of-le_best n (suc i) tmp next)

least_of-le :
    (n i : ℕ) (tmp : ℕ → ℕ) (best : ℕ × ℕ) (k : ℕ)
    → i ≤ k
    → k < i + n
    → (least_of n i tmp best).0 ≤ tmp k
unfolding least_of
least_of-le zero i tmp best k lo hi = absurd (omega arith)
least_of-le (suc n) i tmp best k lo hi =
    let next : ℕ × ℕ = if ltb (tmp i) best.0 then (tmp i, i) else best in
    elim (ℕ_discrete i k) [
      | yes e ↦
          let step : next.0 ≤ tmp k = ground (arith, ap tmp e) in
          omega (arith, step, least_of-le_best n (suc i) tmp next)
      | no ne ↦ least_of-le n (suc i) tmp next k (omega arith) (omega arith)
    ]

least_of-found :
    (n i : ℕ) (tmp : ℕ → ℕ) (best : ℕ × ℕ)
    → (least_of n i tmp best ≡ best)
      ⊎ ((p : ℕ) × (least_of n i tmp best ≡ (tmp p, p)) × (p < i + n))
unfolding least_of
least_of-found zero i tmp best = inl refl
least_of-found (suc n) i tmp best =
    let next : ℕ × ℕ = if ltb (tmp i) best.0 then (tmp i, i) else best in
    elim (least_of-found n (suc i) tmp next) [
      | inr later ↦ inr (later.0, later.1, omega (arith, later.2))
      | inl same ↦ elim (Bool-cases (ltb (tmp i) best.0)) [
        | inl less ↦ inr (i, same ∙ ap (λ b. if b then (tmp i, i) else best) less, omega arith)
        | inr more ↦ inl (same ∙ ap (λ b. if b then (tmp i, i) else best) more)
      ]
    ]

module _ (inst : Instance) (some_machine : 0 < inst.nb_machines) where
  work-slice-le :
      (perm : ℕ → ℕ) (m n : ℕ) → m ≤ n → work inst (slice m 0 perm) ≤ work inst (slice n 0 perm)
  work-slice-le perm m n h = omega (
    arith,
    ap (λ l. work inst (slice l 0 perm)) {x = n} {y = m + (n - m)} (omega arith),
    ap (work inst) (slice_split_front m (n - m) perm),
    work-append inst (slice m 0 perm) (slice (n - m) m perm),
  )

  -- The entries of `tmp` are the entries of `insertMakespans`.
  abbrev entries : (ℕ → ℕ) → ℕ → Tables → ℕ → ℕ
  entries perm k tables = (insert_makespans inst perm k (perm k) tables (λ i. 0)).1

  module _ (perm : ℕ → ℕ) (k : ℕ) (tables : Tables) (memory : ℕ) (some_job : 0 < k) where
    -- The position is in range, and its entry is the least: for schedules with work below INT_MAX.
    insert_job_in_best_position-pos :
        (n : ℕ)
        → k < n
        → work inst (slice n 0 perm) < int_max
        → (p : ℕ) × (p ≤ k)
          × ((insert_job_in_best_position inst perm k tables memory).0
              ≡ (insert perm k p (perm k)).0)
          × ((i : ℕ) → i ≤ k → entries perm k tables p ≤ entries perm k tables i)
    unfolding insert_job_in_best_position find_best_pos insert_makespans insert
    insert_job_in_best_position-pos n hk small =
        let tmp = entries perm k tables in
        let first = (insert perm k 0 (perm k)).0 in
        let entry : tmp 0 ≡ makespan inst (slice (suc k) 0 first) =
          (insert_makespans-makespan inst perm k (perm k) tables (λ i. 0) 0 some_job some_machine
            (omega arith) (λ e. absurd (omega arith))).0 in
        let below : work inst (slice (suc k) 0 first) ≤ work inst (slice n 0 first) =
          work-slice-le first (suc k) n (omega arith) in
        let finite : tmp 0 < int_max = omega (
          arith,
          entry,
          makespan-le-work inst (slice (suc k) 0 first) some_machine,
          below,
          work-perm inst (insert_within-perm perm n k 0 (omega arith) hk),
        ) in
        let best = least_of (suc k) 0 tmp (int_max, memory) in
        elim (least_of-found (suc k) 0 tmp (int_max, memory)) [
          | inl same ↦ absurd (
              omega (
                arith,
                finite,
                least_of-le (suc k) 0 tmp (int_max, memory) 0 (omega arith) (omega arith),
                ap (λ b. b.0) same,
              ))
          | inr (p, found, hp) ↦ (
            p,
            omega arith,
            ap (λ b. write (shift_up (k - b.1) k perm) b.1 (perm k)) found,
            λ i hi. omega (
              arith,
              least_of-le (suc k) 0 tmp (int_max, memory) i (omega arith) (omega arith),
              ap (λ b. b.0) found,
            ),
          )
        ]

    -- `insertJobInBestPosition` leaves a schedule whose makespan is at most that of the insertion of
    -- the job at any of the positions. Conditions: jobs precede the job, it lies among the `n` cells,
    -- whose work is below INT_MAX, and the tails that the tables hold at its position are 0.
    pub insert_job_in_best_position-least :
        (n i : ℕ)
        → k < n
        → work inst (slice n 0 perm) < int_max
        → ((l : ℕ) → l < inst.nb_machines → tables.tail l k ≡ 0)
        → i ≤ k
        → makespan inst (slice (suc k) 0 (insert_job_in_best_position inst perm k tables memory).0)
          ≤ makespan inst (slice (suc k) 0 (insert perm k i (perm k)).0)
    insert_job_in_best_position-least n i hk small clean hi =
        let (p, hp, moved, least) = insert_job_in_best_position-pos n hk small in
        let entry : (l : ℕ)
            → l ≤ k
            → entries perm k tables l
              ≡ makespan inst (slice (suc k) 0 (insert perm k l (perm k)).0) =
          λ l hl.
            (insert_makespans-makespan inst perm k (perm k) tables (λ j. 0) l some_job some_machine
              hl (λ e. clean)).0 in
        omega (
          arith,
          ap (λ q. makespan inst (slice (suc k) 0 q)) moved,
          entry p hp,
          entry i hi,
          least i hi,
        )

  insert_jobs-perm :
      (m k n : ℕ) (perm : ℕ → ℕ) (tables : Tables) (memory : ℕ)
      → 0 < k
      → k + m ≤ n
      → work inst (slice n 0 perm) < int_max
      → Perm (slice n 0 (insert_jobs inst m k perm tables memory).0) (slice n 0 perm)
  unfolding insert_jobs
  insert_jobs-perm zero k n perm tables memory hk hn small = Perm.refl _
  insert_jobs-perm (suc m) k n perm tables memory hk hn small =
      let step = insert_job_in_best_position inst perm k tables memory in
      let (p, hp, moved, _) =
        insert_job_in_best_position-pos perm k tables memory hk n (omega arith) small in
      let kept : Perm (slice n 0 step.0) (slice n 0 perm) =
        subst (λ q. Perm (slice n 0 q) (slice n 0 perm)) (sym moved)
          (insert_within-perm perm n k p hp (omega arith)) in
      Perm.trans
        (insert_jobs-perm m (suc k) n step.0 step.1 memory (omega arith) (omega arith)
          (omega (arith, work-perm inst kept)))
        kept

swap_first-perm :
    (n : ℕ) (perm : ℕ → ℕ)
    → Perm (slice (suc (suc n)) 0 (swap_first perm)) (slice (suc (suc n)) 0 perm)
unfolding slice
swap_first-perm n perm =
    let rest : slice n 2 perm ≡ slice n 2 (swap_first perm) =
      slice_congr n 2 perm (swap_first perm) (λ j lo hi. ground arith) in
    subst (λ l. Perm (perm 1 ∷ (perm 0 ∷ l)) (perm 0 ∷ (perm 1 ∷ slice n 2 perm))) rest
      (Perm.swap (perm 0) (perm 1) (slice n 2 perm))

either-perm :
    (b : Bool) (n : ℕ) (p q perm : ℕ → ℕ)
    → Perm (slice n 0 p) (slice n 0 perm)
    → Perm (slice n 0 q) (slice n 0 perm)
    → Perm (slice n 0 (if b then p else q)) (slice n 0 perm)
either-perm true n p q perm hp hq = hp
either-perm false n p q perm hp hq = hq

pub eval_makespan-makespan :
    (inst : Instance) (perm : ℕ → ℕ) (len : ℕ)
    → eval_makespan inst perm len ≡ makespan inst (slice len 0 perm)
unfolding eval_makespan makespan
eval_makespan-makespan inst perm len =
    ap (λ f. f (inst.nb_machines - 1)) (front_loop-heads inst len 0 perm (λ j. 0))

-- `runNEH` keeps the jobs of the permutation, and its cost is the makespan of the permutation it
-- leaves: whatever the tables and the position held before. Conditions: there are two jobs and a
-- machine, and the work of the jobs is below INT_MAX.
pub run_neh-Perm :
    (inst : Instance) (perm : ℕ → ℕ) (tables : Tables) (memory : ℕ)
    → 1 < inst.nb_job
    → 0 < inst.nb_machines
    → work inst (slice inst.nb_job 0 perm) < int_max
    → Perm (slice inst.nb_job 0 (run_neh inst perm tables memory).0) (slice inst.nb_job 0 perm)
      × ((run_neh inst perm tables memory).1
          ≡ makespan inst (slice inst.nb_job 0 (run_neh inst perm tables memory).0))
unfolding run_neh
run_neh-Perm inst perm tables memory two some_machine small =
    let n = inst.nb_job in
    let swapped = swap_first perm in
    let first : ℕ → ℕ =
      if ltb (eval_makespan inst perm 2) (eval_makespan inst swapped 2)
      then swap_first swapped
      else swapped in
    let swap : (q : ℕ → ℕ) → Perm (slice n 0 (swap_first q)) (slice n 0 q) = λ q.
      subst (λ l. Perm (slice l 0 (swap_first q)) (slice l 0 q)) {x = suc (suc (n - 2))}
        (omega arith) (swap_first-perm (n - 2) q) in
    let start : Perm (slice n 0 first) (slice n 0 perm) =
      either-perm (ltb (eval_makespan inst perm 2) (eval_makespan inst swapped 2)) n
        (swap_first swapped) swapped perm (Perm.trans (swap swapped) (swap perm)) (swap perm) in
    (
      Perm.trans
          (insert_jobs-perm inst some_machine (n - 2) 2 n first tables memory (omega arith)
            (omega arith) (omega (arith, work-perm inst start)))
          start,
      eval_makespan-makespan inst _ n,
    )
