-- ===== src/Heuristic/Moves/Rounds.antt =====
-- heuristic/src/fspnhoods.cpp: `kImove` keeps the jobs of the permutation.
use pbbperm.Base.{
  ℕ, zero, suc, ◌+◌, ◌≤◌, ◌<◌, ◌≡◌, refl, ap, ◌∙◌, sym, subst, List, ◌∷◌, Perm, Bool, true, false,
  Option, none, some, arith, leb, ltb, ◌==◌, ◌||◌, if◌then◌else◌, inl, inr, slice, ℕ_discrete, ◌⊎◌,
  Bool-cases,
}
use pbbperm.Flowshop.Vectors.{Instance, int_max}
use pbbperm.Heuristic.Tabu.{add, clear}
use pbbperm.Heuristic.Edits.{remove}
use pbbperm.Heuristic.Makespans.{remove_makespans}
use pbbperm.Heuristic.Best.{Removed, best_insert}
use pbbperm.Heuristic.Neh.Work.{work}
use pbbperm.Heuristic.Moves.{
  Fast, Moved, Floats, weight, some_positive, best_remove2, k_round, k_loop, k_imove,
}
use pbbperm.Heuristic.Moves.Orders.{remove-parts, inserted-perm}

some_positive-cases :
    (inst : Instance) (floats : Floats) (memory : ℕ → ℕ) (n i : ℕ) (w : ℕ → floats.F)
    → ((some_positive inst floats memory n i w ≡ true)
        × ((p : ℕ) × (p < i + n) × (floats.positive (w p) ≡ true)))
      ⊎ ((some_positive inst floats memory n i w ≡ false)
          × ((p : ℕ) → i ≤ p → p < i + n → floats.positive (w p) ≡ false))
unfolding some_positive
some_positive-cases inst floats memory zero i w = inr (refl, λ p lo hi. absurd (omega arith))
some_positive-cases inst floats memory (suc n) i w = elim (Bool-cases (floats.positive (w i))) [
  | inl here ↦
      inl (ap (λ b. b || some_positive inst floats memory n (suc i) w) here, (i, omega arith, here))
  | inr not_here ↦
      let skip : some_positive inst floats memory (suc n) i w
          ≡ some_positive inst floats memory n (suc i) w =
        ap (λ b. b || some_positive inst floats memory n (suc i) w) not_here in
      elim (some_positive-cases inst floats memory n (suc i) w) [
        | inl (e, (p, hi, above)) ↦ inl (skip ∙ e, (p, omega (arith, hi), above))
        | inr (e, others) ↦ inr (
          skip ∙ e,
          λ p lo hi. elim (ℕ_discrete i p) [
            | yes same ↦ subst (λ q. floats.positive (w q) ≡ false) same not_here
            | no later ↦ others p (omega arith) (omega arith)
          ],
        )
      ]
]

module _ (inst : Instance) (floats : Floats) (memory : ℕ → ℕ) (some_machine : 0 < inst.nb_machines)
    (many : 3 ≤ inst.nb_job)
    (draws : (n : ℕ) (w : ℕ → floats.F) (i : ℕ)
      → i < n
      → floats.positive (w i) ≡ true
      → floats.draw n w < n)
    (base : List ℕ) (small : work inst base < int_max) where
  -- An order of the jobs, with tabu jobs for which no weight is above 0.
  abbrev pub IsStuck : Type 0
  IsStuck =
      (perm : ℕ → ℕ) × (fast : Fast) × Perm (slice inst.nb_job 0 perm) base
      × ((i : ℕ)
          → i < inst.nb_job
          → floats.positive (weight inst floats memory perm inst.nb_job fast i) ≡ false)

  -- What is left of a permutation of all jobs.
  abbrev IsShorter : Removed → Type 0
  IsShorter out = (suc out.len ≡ inst.nb_job) × Perm (out.remjob ∷ slice out.len 0 out.perm) base

  best_remove2-cases :
      (perm : ℕ → ℕ) (len : ℕ) (fast : Fast)
      → len ≡ inst.nb_job
      → Perm (slice inst.nb_job 0 perm) base
      → ((best_remove2 inst floats memory perm len fast ≡ none) × IsStuck)
        ⊎ ((out : Removed) × (best_remove2 inst floats memory perm len fast ≡ some out)
            × IsShorter out)
  unfolding best_remove2
  best_remove2-cases perm len fast e p =
      let w = weight inst floats memory perm len fast in
      let (after, makespans, _) = remove_makespans inst perm len fast.tables memory in
      let number = floats.draw len w in
      let out : Removed = record {
        perm = (remove perm len number).1;
        len = (remove perm len number).2;
        remjob = (remove perm len number).0;
        cmax = makespans number;
        pos = number;
        tables = after;
      } in
      elim (some_positive-cases inst floats memory len 0 w) [
        | inr (no_weight, others) ↦ inl (
          ap (λ b. if b then some out else none) no_weight,
          (
            perm,
            fast,
            p,
            λ i h.
                subst (λ n. floats.positive (weight inst floats memory perm n fast i) ≡ false) e
                  (others i (omega arith) (omega arith)),
          ),
        )
        | inl (weighted, (i, hi, above)) ↦ inr (
          out,
          ap (λ b. if b then some out else none) weighted,
          (
            unfold remove in omega arith,
            unfold remove in
                remove-parts perm len (floats.draw len w) base
                  (draws len w i (omega (arith, hi)) above)
                  (subst (λ n. Perm (slice n 0 perm) base) (sym e) p),
          ),
        )
      ]

  module _ (cells : ℕ) where
    -- All the jobs are in the permutation, and `tabujobs` has its size.
    abbrev pub IsWhole : Moved → Type 0
    IsWhole r =
        Perm (slice inst.nb_job 0 r.perm) base
        × (r.len ≡ inst.nb_job)
        × (r.fast.tabujobs.nmax ≡ cells)

    abbrev pub IsRound : Option Moved → Type 0
    IsRound o = ((o ≡ none) × IsStuck) ⊎ ((r : Moved) × (o ≡ some r) × IsWhole r)

    pick-IsRound :
        (b c : Bool) (stop : Moved) (rest : Option Moved)
        → IsWhole stop
        → (c ≡ false → IsRound rest)
        → IsRound (if b then some stop else (if c then some stop else rest))
    pick-IsRound true c stop rest hs hr = inr (stop, refl, hs)
    pick-IsRound false true stop rest hs hr = inr (stop, refl, hs)
    pick-IsRound false false stop rest hs hr = hr refl

    k_round-IsRound :
        (o : Option Removed) (rest : Removed → Option Moved)
        → ((o ≡ none) × IsStuck) ⊎ ((out : Removed) × (o ≡ some out) × IsShorter out)
        → ((out : Removed) → IsShorter out → IsRound (rest out))
        → IsRound (k_round inst floats memory o rest)
    unfolding k_round
    k_round-IsRound o rest (inl (e, stuck)) h =
        inl (ap (λ x. k_round inst floats memory x rest) e, stuck)
    k_round-IsRound o rest (inr (out, e, shorter)) h =
        subst IsRound (sym (ap (λ x. k_round inst floats memory x rest) e)) (h out shorter)

    k_loop-IsRound :
        (n : ℕ) (perm : ℕ → ℕ) (len rjob cmax0 : ℕ) (fast : Fast)
        → 0 < n
        → suc len ≡ inst.nb_job
        → fast.tabupos.num ≡ 1
        → fast.tabujobs.nmax ≡ cells
        → fast.tabujobs.num + n ≤ suc cells
        → Perm (rjob ∷ slice len 0 perm) base
        → IsRound (k_loop inst floats memory n perm len rjob cmax0 fast)
    unfolding k_loop
    k_loop-IsRound zero perm len rjob cmax0 fast hn e one size room p = absurd (omega arith)
    k_loop-IsRound (suc n) perm len rjob cmax0 fast hn e one size room p =
        let done = best_insert inst perm len rjob fast.tabupos fast.tables in
        let whole =
          inserted-perm inst floats memory some_machine many base small perm len rjob fast.tabupos
            fast.tables e one p in
        let again : Fast = record fast { tables = done.tables; tabupos = clear fast.tabupos } in
        pick-IsRound (leb done.cmax cmax0) (n == 0) _ _ (whole.0, whole.1, size)
          (λ more.
            k_round-IsRound (best_remove2 inst floats memory done.perm done.len again) _
              (best_remove2-cases done.perm done.len again whole.1 whole.0)
              (λ out shorter.
                let fits : ltb fast.tabujobs.num fast.tabujobs.nmax ≡ true =
                  ground (arith, more, room, size) in
                rw fits (
                  k_loop-IsRound n out.perm out.len out.remjob cmax0 _ (ground (arith, more))
                    shorter.0 (unfold add clear in refl) (unfold add in size)
                    (unfold add in omega arith) shorter.1)))

    -- `kImove` keeps the jobs of the permutation.
    pub k_imove-IsRound :
        (perm : ℕ → ℕ) (pos kmax : ℕ) (fast : Fast)
        → pos < inst.nb_job
        → 0 < kmax
        → kmax ≤ cells
        → fast.tabujobs.nmax ≡ cells
        → Perm (slice inst.nb_job 0 perm) base
        → IsRound (k_imove inst floats memory perm pos kmax fast)
    unfolding k_imove remove
    k_imove-IsRound perm pos kmax fast hpos hk room size p =
        k_loop-IsRound kmax _ _ _ _ _ hk (omega arith) (unfold add clear in refl)
          (unfold add clear in size) (unfold add clear in omega arith)
          (remove-parts perm inst.nb_job pos base hpos p)
