-- ===== src/Heuristic/Makespans/Entries.antt =====
-- heuristic/src/fastinsertremove.cpp: the entries of `insertMakespans` are the makespans of the
-- schedules that `insert` produces.
use mathlib.Core.List.{append_assoc}
use pbbperm.Base.{
  ℕ, zero, suc, ◌+◌, ◌-◌, ◌≤◌, ◌<◌, ◌≡◌, refl, sym, ap, ap₂, ◌∙◌, List, [], ◌∷◌, ◌++◌, arith, slice,
  dec_lt, if◌then◌else◌, ltb,
}
use pbbperm.Flowshop.Vectors.{Instance, push_front, heads, tails, makespan}
use pbbperm.Flowshop.Lists.{heads-append}
use pbbperm.Heuristic.Tables.{Tables, compute_heads, compute_tails, compute_inser}
use pbbperm.Heuristic.Heads.{head_value, compute_heads-value}
use pbbperm.Heuristic.Tails.{tail_value, compute_tails-value, compute_tails-stale}
use pbbperm.Heuristic.Inser.{before, compute_inser-value}
use pbbperm.Heuristic.Edits.{insert, insert-slice}
use pbbperm.Heuristic.Peak.{peak_congr, makespan-append-peak}
use pbbperm.Heuristic.Makespans.{fill, insert_makespans}

pub fill-cell :
    (n i : ℕ) (val makespans : ℕ → ℕ) (k : ℕ)
    → fill n i val makespans k
      ≡ (if ltb k i then makespans k else (if ltb k (i + n) then val k else makespans k))
unfolding fill
fill-cell zero i val makespans k = ground arith
fill-cell (suc n) i val makespans k =
    fill-cell n (suc i) val _ k ∙ ground (arith, ap val {x = i} {y = k})

module _ (inst : Instance) where
  push_front_congr :
      (job : ℕ) (f g : ℕ → ℕ) (k : ℕ)
      → ((i : ℕ) → i ≤ k → f i ≡ g i)
      → push_front inst job f k ≡ push_front inst job g k
  unfolding push_front
  push_front_congr job f g zero e = omega (arith, e 0 (omega arith))
  push_front_congr job f g (suc k) e =
      omega (arith, e (suc k) (omega arith), push_front_congr job f g k (λ i hi. e i (omega arith)))

  pub heads_congr :
      (jobs : List ℕ) (f g : ℕ → ℕ) (k : ℕ)
      → ((i : ℕ) → i ≤ k → f i ≡ g i)
      → heads inst f jobs k ≡ heads inst g jobs k
  unfolding heads
  heads_congr [] f g k e = e k (omega arith)
  heads_congr (job ∷ jobs) f g k e =
      heads_congr jobs (push_front inst job f) (push_front inst job g) k
        (λ i hi. push_front_congr job f g i λ l hl. e l (omega arith))

  module _ (perm : ℕ → ℕ) (len : ℕ) where
    pub before-heads :
        (h : ℕ → ℕ → ℕ) (i k : ℕ)
        → i ≤ len
        → k < inst.nb_machines
        → before inst (compute_heads inst perm len h) i k ≡ heads inst (λ l. 0) (slice i 0 perm) k
    unfolding before heads slice
    before-heads h zero k hi hk = refl
    before-heads h (suc i) k hi hk =
        compute_heads-value inst perm len h k i hk (omega arith)
        ∙ (unfold head_value heads slice in refl)

    -- The result of the three functions: the makespan before.
    pub compute_heads-makespan :
        (h : ℕ → ℕ → ℕ)
        → 0 < len
        → 0 < inst.nb_machines
        → compute_heads inst perm len h (inst.nb_machines - 1) (len - 1)
          ≡ makespan inst (slice len 0 perm)
    compute_heads-makespan h pos hm =
        compute_heads-value inst perm len h _ _ (omega arith) (omega arith)
        ∙ (unfold head_value makespan in
            ap (λ n. heads inst (λ i. 0) (slice n 0 perm) (inst.nb_machines - 1))
              {x = suc (len - 1)} {y = len} (omega arith))

    pub no_tails : (i k : ℕ) → i ≡ len → tails inst (λ l. 0) (slice (len - i) i perm) k ≡ 0
    unfolding tails slice
    no_tails i k e = ap (λ n. tails inst (λ l. 0) (slice n i perm) k) {y = 0} (omega arith)

    -- The tails at a position, where the last one reads the cell that `computeTails` leaves alone.
    pub tails-cell :
        (t : ℕ → ℕ → ℕ) (i k : ℕ)
        → 0 < len
        → i ≤ len
        → k < inst.nb_machines
        → (i ≡ len → t k len ≡ 0)
        → compute_tails inst perm len t k i ≡ tails inst (λ l. 0) (slice (len - i) i perm) k
    tails-cell t i k pos hi hk stale = elim (dec_lt i len) [
      | yes inside ↦ compute_tails-value inst perm len t k i hk inside ∙ (unfold tail_value in refl)
      | no last ↦
          let e : i ≡ len = omega arith in
          ap (compute_tails inst perm len t k) e
          ∙ compute_tails-stale inst perm len t k len pos (omega arith)
          ∙ stale e
          ∙ sym (no_tails i k e)
    ]

    -- Each entry of `insertMakespans` is the makespan of the schedule after that insertion, and its
    -- result is the makespan before. Conditions: the permutation is not empty, there is a machine,
    -- and for the entry behind the last job the tails that the tables hold at that position are 0.
    pub insert_makespans-makespan :
        (job : ℕ) (tables : Tables) (makespans : ℕ → ℕ) (i : ℕ)
        → 0 < len
        → 0 < inst.nb_machines
        → i ≤ len
        → (i ≡ len → (k : ℕ) → k < inst.nb_machines → tables.tail k len ≡ 0)
        → ((insert_makespans inst perm len job tables makespans).1 i
            ≡ makespan inst (slice (suc len) 0 (insert perm len i job).0))
          × ((insert_makespans inst perm len job tables makespans).2
              ≡ makespan inst (slice len 0 perm))
    unfolding insert_makespans
    insert_makespans-makespan job tables makespans i pos hm hi stale =
        let head = compute_heads inst perm len tables.head in
        let tail = compute_tails inst perm len tables.tail in
        let inser = compute_inser inst len job head tables.inser in
        let front = slice i 0 perm ++ job ∷ [] in
        let rest = slice (len - i) i perm in
        let cells : (j : ℕ)
            → 0 ≤ j
            → j < 0 + inst.nb_machines
            → inser j i + tail j i ≡ heads inst (λ l. 0) front j + tails inst (λ l. 0) rest j =
          λ j lo hj.
            ap₂ ◌+◌
              (compute_inser-value inst head job len tables.inser j i (omega arith) hi
                ∙ push_front_congr job _ (heads inst (λ l. 0) (slice i 0 perm)) j
                    (λ k hk. before-heads tables.head i k hi (omega arith))
                ∙ sym (
                    ap (λ f. f j) (heads-append inst (slice i 0 perm) (job ∷ []) (λ l. 0))
                    ∙ (unfold heads in refl)))
              (tails-cell tables.tail i j pos hi (omega arith) (λ e. stale e j (omega arith))) in
        (
          fill-cell (suc len) 0 _ makespans i
              ∙ ground arith
              ∙ peak_congr inst.nb_machines 0 _ _ 0 cells
              ∙ sym (
                  ap (makespan inst) (
                    insert-slice perm len i job hi
                    ∙ sym (append_assoc (slice i 0 perm) (job ∷ []) rest))
                  ∙ makespan-append-peak inst front rest hm),
          compute_heads-makespan tables.head pos hm,
        )
