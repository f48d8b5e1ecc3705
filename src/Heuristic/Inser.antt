-- ===== src/Heuristic/Inser.antt =====
-- heuristic/src/fastinsertremove.cpp: what `computeInser` and `computeInserBlock` write.
use pbbperm.Base.{
  ℕ, zero, suc, ◌+◌, ◌-◌, ◌≤◌, ◌<◌, max, ◌≡◌, refl, ap, ◌∙◌, arith, slice, write2, ℕ_discrete,
  subst,
}
use pbbperm.Flowshop.Vectors.{Instance, push_front, heads}
use pbbperm.Heuristic.Tables.{
  Matrix, inser_before, inser_at, inser_after, compute_inser, block_loop, store, inser_block_after,
  compute_inser_block,
}
use pbbperm.Heuristic.Tables.Cells.{Right, Keeps, write2-Keeps, write2-Right}

module _ (inst : Instance) (h : Matrix) where
  -- The vector that the jobs before position `j` leave.
  unfoldable pub before : ℕ → ℕ → ℕ
  before zero k = 0
  before (suc j) k = h k j

  before_pred : (j k : ℕ) → h k (suc j - 1) ≡ before (suc j) k
  unfolding before
  before_pred j k = ap (h k) (omega arith)

  module _ (job : ℕ) where
    abbrev inser_value : ℕ → ℕ → ℕ
    inser_value k j = push_front inst job (before j) k

    inser_before-Right :
        (n k : ℕ) (s : Matrix)
        → Right inser_value s k 0
        → Keeps inser_value s (inser_before inst n (suc k) job s)
          × ((i : ℕ)
              → i ≤ k + n
              → k ≤ i
              → Right inser_value (inser_before inst n (suc k) job s) i 0)
    unfolding inser_before
    inser_before-Right zero k s r =
        (λ l i p. p, λ i hi lo. subst (λ l. Right inser_value s l 0) {x = k} (omega arith) r)
    inser_before-Right (suc n) k s r =
        let v = s (suc k - 1) 0 + inst.temps_job (suc k) job in
        let source : s (suc k - 1) 0 ≡ s k 0 = ap (λ l. s l 0) (omega arith) in
        let e : v ≡ inser_value (suc k) 0 = unfold push_front before in omega (arith, r, source) in
        let kept = write2-Keeps inser_value s (suc k) 0 v e in
        let (keeps, fills) =
          inser_before-Right n (suc k) (write2 s (suc k) 0 v)
            (write2-Right inser_value s (suc k) 0 v e) in
        (
          λ l i p. keeps l i (kept l i p),
          λ i hi lo. elim (ℕ_discrete k i) [
            | yes first ↦ keeps i 0 (kept i 0 (subst (λ l. Right inser_value s l 0) first r))
            | no later ↦ fills i (omega arith) (omega arith)
          ],
        )

    inser_at-Right :
        (n k j : ℕ) (s : Matrix)
        → Right inser_value s k (suc j)
        → Keeps inser_value s (inser_at inst n (suc k) (suc j) job h s)
          × ((i : ℕ)
              → i ≤ k + n
              → k ≤ i
              → Right inser_value (inser_at inst n (suc k) (suc j) job h s) i (suc j))
    unfolding inser_at
    inser_at-Right zero k j s r =
        (λ l i p. p, λ i hi lo. subst (λ l. Right inser_value s l (suc j)) {x = k} (omega arith) r)
    inser_at-Right (suc n) k j s r =
        let v = max (s (suc k - 1) (suc j)) (h (suc k) (suc j - 1)) + inst.temps_job (suc k) job in
        let source : s (suc k - 1) (suc j) ≡ s k (suc j) = ap (λ l. s l (suc j)) (omega arith) in
        let e : v ≡ inser_value (suc k) (suc j) =
          unfold push_front in omega (arith, r, source, before_pred j (suc k)) in
        let kept = write2-Keeps inser_value s (suc k) (suc j) v e in
        let (keeps, fills) =
          inser_at-Right n (suc k) j (write2 s (suc k) (suc j) v)
            (write2-Right inser_value s (suc k) (suc j) v e) in
        (
          λ l i p. keeps l i (kept l i p),
          λ i hi lo. elim (ℕ_discrete k i) [
            | yes first ↦
                keeps i (suc j)
                  (kept i (suc j) (subst (λ l. Right inser_value s l (suc j)) first r))
            | no later ↦ fills i (omega arith) (omega arith)
          ],
        )

    inser_after-Right :
        (n j : ℕ) (s : Matrix)
        → ((k : ℕ) → k < inst.nb_machines → Right inser_value s k j)
        → Keeps inser_value s (inser_after inst n (suc j) job h s)
          × ((k i : ℕ)
              → k < inst.nb_machines
              → i ≤ j + n
              → j ≤ i
              → Right inser_value (inser_after inst n (suc j) job h s) k i)
    unfolding inser_after
    inser_after-Right zero j s column = (
      λ l i p. p,
      λ k i hk hi lo. subst (Right inser_value s k) {x = j} (omega arith) (column k hk),
    )
    inser_after-Right (suc n) j s column =
        let v = h 0 (suc j - 1) + inst.temps_job 0 job in
        let e : v ≡ inser_value 0 (suc j) = unfold push_front in omega (arith, before_pred j 0) in
        let first = write2 s 0 (suc j) v in
        let (kept, filled) =
          inser_at-Right (inst.nb_machines - 1) 0 j first
            (write2-Right inser_value s 0 (suc j) v e) in
        let (keeps, fills) =
          inser_after-Right n (suc j) (inser_at inst (inst.nb_machines - 1) 1 (suc j) job h first)
            (λ k hk. filled k (omega arith) (omega arith)) in
        (
          λ l i p. keeps l i (kept l i (write2-Keeps inser_value s 0 (suc j) v e l i p)),
          λ k i hk hi lo. elim (ℕ_discrete j i) [
            | yes same ↦ keeps k i (
                kept k i (
                  write2-Keeps inser_value s 0 (suc j) v e k i
                    (subst (Right inser_value s k) same (column k hk))))
            | no later ↦ fills k i hk (omega arith) (omega arith)
          ],
        )

    -- `computeInser` writes the vectors of the job inserted at each position.
    pub compute_inser-value :
        (len : ℕ) (s : Matrix) (k j : ℕ)
        → k < inst.nb_machines
        → j ≤ len
        → compute_inser inst len job h s k j ≡ push_front inst job (before j) k
    unfolding compute_inser
    compute_inser-value len s k j hk hj =
        let e : inst.temps_job 0 job ≡ inser_value 0 0 = unfold push_front before in omega arith in
        let first = write2 s 0 0 (inst.temps_job 0 job) in
        let (_, column) =
          inser_before-Right (inst.nb_machines - 1) 0 first (write2-Right inser_value s 0 0 _ e) in
        let (_, all) =
          inser_after-Right len 0 (inser_before inst (inst.nb_machines - 1) 1 job first)
            (λ i hi. column i (omega arith) (omega arith)) in
        all k j hk (omega arith) (omega arith)

  pub block_loop-heads :
      (n b : ℕ) (block tmp : ℕ → ℕ)
      → block_loop inst n b block tmp ≡ heads inst tmp (slice n b block)
  unfolding block_loop heads slice
  block_loop-heads zero b block tmp = refl
  block_loop-heads (suc n) b block tmp =
      block_loop-heads n (suc b) block (push_front inst (block b) tmp)

  module _ (bl : ℕ) (block : ℕ → ℕ) where
    abbrev block_value : ℕ → ℕ → ℕ
    block_value k j = block_loop inst bl 0 block (before j) k

    store-Right :
        (n k j : ℕ) (tmp : ℕ → ℕ) (s : Matrix)
        → ((i : ℕ) → tmp i ≡ block_value i j)
        → Keeps block_value s (store inst n k j tmp s)
          × ((i : ℕ) → i < k + n → k ≤ i → Right block_value (store inst n k j tmp s) i j)
    unfolding store
    store-Right zero k j tmp s e = (λ l i p. p, λ i hi lo. absurd (omega arith))
    store-Right (suc n) k j tmp s e =
        let (keeps, fills) = store-Right n (suc k) j tmp (write2 s k j (tmp k)) e in
        (
          λ l i p. keeps l i (write2-Keeps block_value s k j (tmp k) (e k) l i p),
          λ i hi lo. elim (ℕ_discrete k i) [
            | yes first ↦ keeps i j (
                subst (λ l. Right block_value (write2 s k j (tmp k)) l j) first
                  (write2-Right block_value s k j (tmp k) (e k)))
            | no later ↦ fills i (omega arith) (omega arith)
          ],
        )

    inser_block_after-Right :
        (n j : ℕ) (s : Matrix)
        → Keeps block_value s (inser_block_after inst n (suc j) block bl h s)
          × ((k i : ℕ)
              → k < inst.nb_machines
              → i ≤ j + n
              → j < i
              → Right block_value (inser_block_after inst n (suc j) block bl h s) k i)
    unfolding inser_block_after
    inser_block_after-Right zero j s = (λ l i p. p, λ k i hk hi lo. absurd (omega arith))
    inser_block_after-Right (suc n) j s =
        let tmp = block_loop inst bl 0 block (λ k. h k (suc j - 1)) in
        let source : (i : ℕ) → tmp i ≡ block_value i (suc j) = λ i.
          ap (λ m. block_loop inst bl 0 block (λ k. h k m) i) {y = j} (omega arith)
          ∙ (unfold before in refl) in
        let (kept, filled) = store-Right inst.nb_machines 0 (suc j) tmp s source in
        let (keeps, fills) =
          inser_block_after-Right n (suc j) (store inst inst.nb_machines 0 (suc j) tmp s) in
        (
          λ l i p. keeps l i (kept l i p),
          λ k i hk hi lo. elim (ℕ_discrete (suc j) i) [
            | yes same ↦
                subst (Right block_value (inser_block_after inst (suc n) (suc j) block bl h s) k)
                  same (keeps k (suc j) (filled k (omega arith) (omega arith)))
            | no later ↦ fills k i hk (omega arith) (omega arith)
          ],
        )

    -- `computeInserBlock` writes the vectors of the block inserted at each position.
    pub compute_inser_block-value :
        (len : ℕ) (s : Matrix) (k j : ℕ)
        → k < inst.nb_machines
        → j ≤ len
        → compute_inser_block inst len block bl h s k j ≡ block_loop inst bl 0 block (before j) k
    unfolding compute_inser_block
    compute_inser_block-value len s k j hk hj =
        let tmp = block_loop inst bl 0 block (λ i. 0) in
        let source : (i : ℕ) → tmp i ≡ block_value i 0 = λ i. unfold before in refl in
        let (_, filled) = store-Right inst.nb_machines 0 0 tmp s source in
        let (keeps, fills) =
          inser_block_after-Right len 0 (store inst inst.nb_machines 0 0 tmp s) in
        elim (ℕ_discrete 0 j) [
          | yes none ↦
              subst (Right block_value (compute_inser_block inst len block bl h s) k) none
                (keeps k 0 (filled k (omega arith) (omega arith)))
          | no some ↦ fills k j hk (omega arith) (omega arith)
        ]
