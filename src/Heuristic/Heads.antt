-- ===== src/Heuristic/Heads.antt =====
-- heuristic/src/fastinsertremove.cpp: what `computeHeads` writes.
use pbbperm.Base.{
  ℕ, zero, suc, ◌+◌, ◌-◌, ◌≤◌, ◌<◌, max, ◌≡◌, ap, ◌∙◌, [], ◌∷◌, arith, slice, slice-snoc, write2,
  dec_lt, ℕ_discrete, subst,
}
use pbbperm.Flowshop.Vectors.{Instance, push_front, heads}
use pbbperm.Flowshop.Lists.{heads-append}
use pbbperm.Heuristic.Tables.{
  Matrix, heads_of_first_machine, heads_of_first_job, heads_of_job, heads_of_rest, compute_heads,
}
use pbbperm.Heuristic.Tables.Cells.{Right, Keeps, write2-Keeps, write2-Right}

module _ (inst : Instance) (perm : ℕ → ℕ) where
  -- The vector after the jobs at the positions up to `j`.
  unfoldable pub head_value : ℕ → ℕ → ℕ
  unfolding heads slice
  head_value k j = heads inst (λ i. 0) (slice (suc j) 0 perm) k

  pub head_value-suc :
      (k j : ℕ) → head_value k (suc j) ≡ push_front inst (perm (suc j)) (λ i. head_value i j) k
  unfolding head_value heads
  head_value-suc k j =
      ap (λ jobs. heads inst (λ i. 0) jobs k) (slice-snoc (suc j) 0 perm)
      ∙ ap (λ f. f k) (heads-append inst (slice (suc j) 0 perm) (perm (0 + suc j) ∷ []) (λ i. 0))
      ∙ ap (λ i. push_front inst (perm i) (λ l. head_value l j) k) (omega arith)

  head_value_first :
      (k : ℕ) → head_value (suc k) 0 ≡ head_value k 0 + inst.temps_job (suc k) (perm 0)
  unfolding head_value heads slice push_front
  head_value_first k = omega arith

  head_value_machine :
      (j : ℕ) → head_value 0 (suc j) ≡ head_value 0 j + inst.temps_job 0 (perm (suc j))
  unfolding push_front
  head_value_machine j = head_value-suc 0 j

  head_value_next :
      (k j : ℕ)
      → head_value (suc k) (suc j)
        ≡ max (head_value k (suc j)) (head_value (suc k) j) + inst.temps_job (suc k) (perm (suc j))
  unfolding push_front
  head_value_next k j = omega (arith, head_value-suc (suc k) j, head_value-suc k j)

  back : (n : ℕ) → suc n - 1 ≡ n
  back n = omega arith

  abbrev RightHead : Matrix → ℕ → ℕ → Type 0
  RightHead = Right head_value

  heads_of_first_machine-Right :
      (n j : ℕ) (h : Matrix)
      → RightHead h 0 j
      → Keeps head_value h (heads_of_first_machine inst n (suc j) perm h)
        × ((i : ℕ)
            → i ≤ j + n
            → j ≤ i
            → RightHead (heads_of_first_machine inst n (suc j) perm h) 0 i)
  unfolding heads_of_first_machine
  heads_of_first_machine-Right zero j h r =
      (λ k i p. p, λ i hi lo. subst (RightHead h 0) {x = j} (omega arith) r)
  heads_of_first_machine-Right (suc n) j h r =
      let v = h 0 (suc j - 1) + inst.temps_job 0 (perm (suc j)) in
      let e : v ≡ head_value 0 (suc j) =
        omega (arith, head_value_machine j, r, ap (h 0) (back j)) in
      let kept = write2-Keeps head_value h 0 (suc j) v e in
      let (keeps, fills) =
        heads_of_first_machine-Right n (suc j) (write2 h 0 (suc j) v)
          (write2-Right head_value h 0 (suc j) v e) in
      (
        λ k i p. keeps k i (kept k i p),
        λ i hi lo. elim (ℕ_discrete j i) [
          | yes first ↦ keeps 0 i (kept 0 i (subst (RightHead h 0) first r))
          | no later ↦ fills i (omega arith) (omega arith)
        ],
      )

  heads_of_first_job-Right :
      (n k : ℕ) (h : Matrix)
      → RightHead h k 0
      → Keeps head_value h (heads_of_first_job inst n (suc k) (perm 0) h)
        × ((i : ℕ)
            → i ≤ k + n
            → k ≤ i
            → RightHead (heads_of_first_job inst n (suc k) (perm 0) h) i 0)
  unfolding heads_of_first_job
  heads_of_first_job-Right zero k h r =
      (λ l i p. p, λ i hi lo. subst (λ l. RightHead h l 0) {x = k} (omega arith) r)
  heads_of_first_job-Right (suc n) k h r =
      let v = h (suc k - 1) 0 + inst.temps_job (suc k) (perm 0) in
      let e : v ≡ head_value (suc k) 0 =
        omega (arith, head_value_first k, r, ap (λ l. h l 0) (back k)) in
      let kept = write2-Keeps head_value h (suc k) 0 v e in
      let (keeps, fills) =
        heads_of_first_job-Right n (suc k) (write2 h (suc k) 0 v)
          (write2-Right head_value h (suc k) 0 v e) in
      (
        λ l i p. keeps l i (kept l i p),
        λ i hi lo. elim (ℕ_discrete k i) [
          | yes first ↦ keeps i 0 (kept i 0 (subst (λ l. RightHead h l 0) first r))
          | no later ↦ fills i (omega arith) (omega arith)
        ],
      )

  heads_of_job-Right :
      (n k j : ℕ) (h : Matrix)
      → RightHead h k (suc j)
      → ((i : ℕ) → i ≤ k + n → RightHead h i j)
      → Keeps head_value h (heads_of_job inst n (suc k) (suc j) (perm (suc j)) h)
        × ((i : ℕ)
            → i ≤ k + n
            → k ≤ i
            → RightHead (heads_of_job inst n (suc k) (suc j) (perm (suc j)) h) i (suc j))
  unfolding heads_of_job
  heads_of_job-Right zero k j h r before =
      (λ l i p. p, λ i hi lo. subst (λ l. RightHead h l (suc j)) {x = k} (omega arith) r)
  heads_of_job-Right (suc n) k j h r before =
      let v =
        max (h (suc k - 1) (suc j)) (h (suc k) (suc j - 1))
        + inst.temps_job (suc k) (perm (suc j)) in
      let e : v ≡ head_value (suc k) (suc j) = omega (
        arith,
        head_value_next k j,
        r,
        before (suc k) (omega arith),
        ap (λ l. h l (suc j)) (back k),
        ap (h (suc k)) (back j),
      ) in
      let kept = write2-Keeps head_value h (suc k) (suc j) v e in
      let (keeps, fills) =
        heads_of_job-Right n (suc k) j (write2 h (suc k) (suc j) v)
          (write2-Right head_value h (suc k) (suc j) v e)
          (λ i hi. kept i j (before i (omega arith))) in
      (
        λ l i p. keeps l i (kept l i p),
        λ i hi lo. elim (ℕ_discrete k i) [
          | yes first ↦
              keeps i (suc j) (kept i (suc j) (subst (λ l. RightHead h l (suc j)) first r))
          | no later ↦ fills i (omega arith) (omega arith)
        ],
      )

  heads_of_rest-Right :
      (n j : ℕ) (h : Matrix)
      → ((k : ℕ) → k < inst.nb_machines → RightHead h k j)
      → ((i : ℕ) → i ≤ j + n → RightHead h 0 i)
      → Keeps head_value h (heads_of_rest inst n (suc j) perm h)
        × ((k i : ℕ)
            → k < inst.nb_machines
            → i ≤ j + n
            → j ≤ i
            → RightHead (heads_of_rest inst n (suc j) perm h) k i)
  unfolding heads_of_rest
  heads_of_rest-Right zero j h column row =
      (λ k i p. p, λ k i hk hi lo. subst (RightHead h k) {x = j} (omega arith) (column k hk))
  heads_of_rest-Right (suc n) j h column row =
      let (kept, filled) =
        heads_of_job-Right (inst.nb_machines - 1) 0 j h (row (suc j) (omega arith)) (λ i hi.
          elim (dec_lt i inst.nb_machines) [
            | yes inside ↦ column i inside
            | no outside ↦ subst (λ l. RightHead h l j) {x = 0} (omega arith) (row j (omega arith))
          ]) in
      let (keeps, fills) =
        heads_of_rest-Right n (suc j)
          (heads_of_job inst (inst.nb_machines - 1) 1 (suc j) (perm (suc j)) h)
          (λ k hk. filled k (omega arith) (omega arith)) (λ i hi. kept 0 i (row i (omega arith))) in
      (
        λ k i p. keeps k i (kept k i p),
        λ k i hk hi lo. elim (ℕ_discrete j i) [
          | yes first ↦ keeps k i (kept k i (subst (RightHead h k) first (column k hk)))
          | no later ↦ fills k i hk (omega arith) (omega arith)
        ],
      )

  -- `computeHeads` writes the vectors of the jobs up to each position.
  pub compute_heads-value :
      (len : ℕ) (h : Matrix) (k j : ℕ)
      → k < inst.nb_machines
      → j < len
      → compute_heads inst perm len h k j ≡ head_value k j
  unfolding compute_heads
  compute_heads-value len h k j hk hj =
      let e : inst.temps_job 0 (perm 0) ≡ head_value 0 0 =
        unfold head_value heads slice push_front in omega arith in
      let first = write2 h 0 0 (inst.temps_job 0 (perm 0)) in
      let (_, row) =
        heads_of_first_machine-Right (len - 1) 0 first (write2-Right head_value h 0 0 _ e) in
      let machine = heads_of_first_machine inst (len - 1) 1 perm first in
      let (kept, column) =
        heads_of_first_job-Right (inst.nb_machines - 1) 0 machine
          (row 0 (omega arith) (omega arith)) in
      let (_, all) =
        heads_of_rest-Right (len - 1) 0
          (heads_of_first_job inst (inst.nb_machines - 1) 1 (perm 0) machine)
          (λ i hi. column i (omega arith) (omega arith))
          (λ i hi. kept 0 i (row i hi (omega arith))) in
      all k j hk (omega arith) (omega arith)
