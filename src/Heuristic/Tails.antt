-- ===== src/Heuristic/Tails.antt =====
-- heuristic/src/fastinsertremove.cpp: what `computeTails` writes.
use pbbperm.Base.{
  ℕ, zero, suc, ◌+◌, ◌-◌, ◌≤◌, ◌<◌, max, ◌≡◌, refl, ap, ◌∙◌, arith, slice, write2, ℕ_discrete,
  subst,
}
use pbbperm.Flowshop.Vectors.{Instance, push_back, tails}
use pbbperm.Flowshop.Paths.{push_back_last, push_back_next}
use pbbperm.Heuristic.Tables.{
  Matrix, tails_of_last_machine, tails_of_last_job, tails_of_job, tails_of_rest, compute_tails,
}
use pbbperm.Heuristic.Tables.Cells.{Right, Keeps, write2-Keeps, write2-Right}

module _ (inst : Instance) (perm : ℕ → ℕ) (len : ℕ) where
  -- The tails before the jobs from position `j` on.
  unfoldable pub tail_value : ℕ → ℕ → ℕ
  unfolding tails slice
  tail_value k j = tails inst (λ i. 0) (slice (len - j) j perm) k

  pub tail_value_step :
      (k j : ℕ) → j < len → tail_value k j ≡ push_back inst (perm j) (λ i. tail_value i (suc j)) k
  unfolding tail_value tails slice
  tail_value_step k j h =
      let e : len - j ≡ suc (len - suc j) = omega arith in
      ap (λ n. tails inst (λ i. 0) (slice n j perm) k) e

  pub tail_value_end : (k : ℕ) → tail_value k len ≡ 0
  unfolding tail_value tails slice
  tail_value_end k =
      let e : len - len ≡ 0 = omega arith in ap (λ n. tails inst (λ i. 0) (slice n len perm) k) e

  tail_value_last :
      (k j : ℕ)
      → suc k ≡ inst.nb_machines
      → j < len
      → tail_value k j ≡ tail_value k (suc j) + inst.temps_job k (perm j)
  tail_value_last k j hk h =
      tail_value_step k j h ∙ push_back_last inst (perm j) (λ i. tail_value i (suc j)) k hk

  tail_value_next :
      (k j : ℕ)
      → suc k < inst.nb_machines
      → j < len
      → tail_value k j
        ≡ max (tail_value k (suc j)) (tail_value (suc k) j) + inst.temps_job k (perm j)
  tail_value_next k j hk h = omega (
    arith,
    tail_value_step k j h,
    push_back_next inst (perm j) (λ i. tail_value i (suc j)) k hk,
    tail_value_step (suc k) j h,
  )

  abbrev RightTail : Matrix → ℕ → ℕ → Type 0
  RightTail = Right tail_value

  tails_of_last_machine-Right :
      (n : ℕ) (t : Matrix)
      → 0 < inst.nb_machines
      → n < len
      → RightTail t (inst.nb_machines - 1) n
      → Keeps tail_value t (tails_of_last_machine inst n perm t)
        × ((i : ℕ)
            → i ≤ n
            → RightTail (tails_of_last_machine inst n perm t) (inst.nb_machines - 1) i)
  unfolding tails_of_last_machine
  tails_of_last_machine-Right zero t hm hn r =
      (λ k i p. p, λ i hi. subst (RightTail t (inst.nb_machines - 1)) {x = 0} (omega arith) r)
  tails_of_last_machine-Right (suc n) t hm hn r =
      let last = inst.nb_machines - 1 in
      let v = t last (suc n) + inst.temps_job last (perm n) in
      let e : v ≡ tail_value last n =
        omega (arith, tail_value_last last n (omega arith) (omega arith), r) in
      let kept = write2-Keeps tail_value t last n v e in
      let (keeps, fills) =
        tails_of_last_machine-Right n (write2 t last n v) hm (omega arith)
          (write2-Right tail_value t last n v e) in
      (
        λ k i p. keeps k i (kept k i p),
        λ i hi. elim (ℕ_discrete (suc n) i) [
          | yes first ↦ keeps last i (kept last i (subst (RightTail t last) first r))
          | no later ↦ fills i (omega arith)
        ],
      )

  tails_of_last_job-Right :
      (n j : ℕ) (t : Matrix)
      → suc j ≡ len
      → n < inst.nb_machines
      → RightTail t n j
      → Keeps tail_value t (tails_of_last_job inst n j (perm j) t)
        × ((i : ℕ) → i ≤ n → RightTail (tails_of_last_job inst n j (perm j) t) i j)
  unfolding tails_of_last_job
  tails_of_last_job-Right zero j t hj hn r =
      (λ k i p. p, λ i hi. subst (λ l. RightTail t l j) {x = 0} (omega arith) r)
  tails_of_last_job-Right (suc n) j t hj hn r =
      let v = t (suc n) j + inst.temps_job n (perm j) in
      let behind : tail_value n (suc j) ≡ 0 = ap (tail_value n) hj ∙ tail_value_end n in
      let e : v ≡ tail_value n j = omega (arith, tail_value_next n j hn (omega arith), r, behind) in
      let kept = write2-Keeps tail_value t n j v e in
      let (keeps, fills) =
        tails_of_last_job-Right n j (write2 t n j v) hj (omega arith)
          (write2-Right tail_value t n j v e) in
      (
        λ k i p. keeps k i (kept k i p),
        λ i hi. elim (ℕ_discrete (suc n) i) [
          | yes first ↦ keeps i j (kept i j (subst (λ l. RightTail t l j) first r))
          | no later ↦ fills i (omega arith)
        ],
      )

  tails_of_job-Right :
      (n j : ℕ) (t : Matrix)
      → j < len
      → n < inst.nb_machines
      → RightTail t n j
      → ((i : ℕ) → i < n → RightTail t i (suc j))
      → Keeps tail_value t (tails_of_job inst n j (perm j) t)
        × ((i : ℕ) → i ≤ n → RightTail (tails_of_job inst n j (perm j) t) i j)
  unfolding tails_of_job
  tails_of_job-Right zero j t hj hn r behind =
      (λ k i p. p, λ i hi. subst (λ l. RightTail t l j) {x = 0} (omega arith) r)
  tails_of_job-Right (suc n) j t hj hn r behind =
      let v = max (t (suc n) j) (t n (suc j)) + inst.temps_job n (perm j) in
      let e : v ≡ tail_value n j =
        omega (arith, tail_value_next n j hn hj, r, behind n (omega arith)) in
      let kept = write2-Keeps tail_value t n j v e in
      let (keeps, fills) =
        tails_of_job-Right n j (write2 t n j v) hj (omega arith) (write2-Right tail_value t n j v e)
          (λ i hi. kept i (suc j) (behind i (omega arith))) in
      (
        λ k i p. keeps k i (kept k i p),
        λ i hi. elim (ℕ_discrete (suc n) i) [
          | yes first ↦ keeps i j (kept i j (subst (λ l. RightTail t l j) first r))
          | no later ↦ fills i (omega arith)
        ],
      )

  tails_of_rest-Right :
      (n : ℕ) (t : Matrix)
      → 0 < inst.nb_machines
      → n < len
      → ((k : ℕ) → k < inst.nb_machines → RightTail t k n)
      → ((i : ℕ) → i ≤ n → RightTail t (inst.nb_machines - 1) i)
      → Keeps tail_value t (tails_of_rest inst n perm t)
        × ((k i : ℕ) → k < inst.nb_machines → i ≤ n → RightTail (tails_of_rest inst n perm t) k i)
  unfolding tails_of_rest
  tails_of_rest-Right zero t hm hn column row =
      (λ k i p. p, λ k i hk hi. subst (RightTail t k) {x = 0} (omega arith) (column k hk))
  tails_of_rest-Right (suc n) t hm hn column row =
      let last = inst.nb_machines - 1 in
      let (kept, filled) =
        tails_of_job-Right last n t (omega arith) (omega arith) (row n (omega arith))
          (λ l hl. column l (omega arith)) in
      let (keeps, fills) =
        tails_of_rest-Right n (tails_of_job inst last n (perm n) t) hm (omega arith)
          (λ l hl. filled l (omega arith)) (λ l hl. kept last l (row l (omega arith))) in
      (
        λ k i p. keeps k i (kept k i p),
        λ k i hk hi. elim (ℕ_discrete (suc n) i) [
          | yes first ↦ keeps k i (kept k i (subst (RightTail t k) first (column k hk)))
          | no later ↦ fills k i hk (omega arith)
        ],
      )

  -- `computeTails` writes the tails from each position.
  pub compute_tails-value :
      (t : Matrix) (k j : ℕ)
      → k < inst.nb_machines
      → j < len
      → compute_tails inst perm len t k j ≡ tail_value k j
  unfolding compute_tails
  compute_tails-value t k j hk hj =
      let last = inst.nb_machines - 1 in
      let behind : tail_value last (suc (len - 1)) ≡ 0 =
        ap (tail_value last) {y = len} (omega arith) ∙ tail_value_end last in
      let e : inst.temps_job last (perm (len - 1)) ≡ tail_value last (len - 1) =
        omega (arith, tail_value_last last (len - 1) (omega arith) (omega arith), behind) in
      let first = write2 t last (len - 1) (inst.temps_job last (perm (len - 1))) in
      let (_, row) =
        tails_of_last_machine-Right (len - 1) first (omega arith) (omega arith)
          (write2-Right tail_value t last (len - 1) _ e) in
      let machine = tails_of_last_machine inst (len - 1) perm first in
      let (kept, column) =
        tails_of_last_job-Right last (len - 1) machine (omega arith) (omega arith)
          (row (len - 1) (omega arith)) in
      let (_, all) =
        tails_of_rest-Right (len - 1)
          (tails_of_last_job inst last (len - 1) (perm (len - 1)) machine) (omega arith)
          (omega arith) (λ i hi. column i (omega arith)) (λ i hi. kept last i (row i hi)) in
      all k j hk (omega arith)

  -- The loops leave the positions from `len` on alone.
  tails_of_last_machine-stale :
      (n : ℕ) (t : Matrix) (k j : ℕ) → n ≤ j → tails_of_last_machine inst n perm t k j ≡ t k j
  unfolding tails_of_last_machine
  tails_of_last_machine-stale zero t k j h = refl
  tails_of_last_machine-stale (suc n) t k j h =
      tails_of_last_machine-stale n _ k j (omega arith) ∙ ground arith

  tails_of_last_job-stale :
      (n i : ℕ) (t : Matrix) (k j : ℕ) → i < j → tails_of_last_job inst n i (perm i) t k j ≡ t k j
  unfolding tails_of_last_job
  tails_of_last_job-stale zero i t k j h = refl
  tails_of_last_job-stale (suc n) i t k j h = tails_of_last_job-stale n i _ k j h ∙ ground arith

  tails_of_job-stale :
      (n i : ℕ) (t : Matrix) (k j : ℕ) → i < j → tails_of_job inst n i (perm i) t k j ≡ t k j
  unfolding tails_of_job
  tails_of_job-stale zero i t k j h = refl
  tails_of_job-stale (suc n) i t k j h = tails_of_job-stale n i _ k j h ∙ ground arith

  tails_of_rest-stale :
      (n : ℕ) (t : Matrix) (k j : ℕ) → n ≤ j → tails_of_rest inst n perm t k j ≡ t k j
  unfolding tails_of_rest
  tails_of_rest-stale zero t k j h = refl
  tails_of_rest-stale (suc n) t k j h =
      tails_of_rest-stale n _ k j (omega arith)
      ∙ tails_of_job-stale (inst.nb_machines - 1) n t k j (omega arith)

  -- `computeTails` leaves the positions from `len` on alone.
  pub compute_tails-stale :
      (t : Matrix) (k j : ℕ) → 0 < len → len ≤ j → compute_tails inst perm len t k j ≡ t k j
  unfolding compute_tails
  compute_tails-stale t k j pos h =
      tails_of_rest-stale (len - 1) _ k j (omega arith)
      ∙ tails_of_last_job-stale (inst.nb_machines - 1) (len - 1) _ k j (omega arith)
      ∙ tails_of_last_machine-stale (len - 1) _ k j (omega arith)
      ∙ ground arith
