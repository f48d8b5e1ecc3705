-- ===== src/Heuristic/Tables.antt =====
-- heuristic/src/fastinsertremove.cpp: the tables of heads, tails and insertions. `m k j` is the cell
-- of machine `k` at position `j`; the cells that a call does not write keep what they held.
pub mod Cells
use pbbperm.Base.{ℕ, zero, suc, ◌+◌, ◌-◌, max, write2}
use pbbperm.Flowshop.Vectors.{Instance, push_front}

abbrev pub Matrix : Type 0
Matrix = ℕ → ℕ → ℕ

-- `head`, `tail` and `inser`
pub record Tables : Type 0 where
  pub head : Matrix
  pub tail : Matrix
  pub inser : Matrix

module _ (inst : Instance) where
  -- `computeHeads`: machine 1, `n` positions from `j` on
  unfoldable pub heads_of_first_machine : ℕ → ℕ → (ℕ → ℕ) → Matrix → Matrix
  heads_of_first_machine zero j perm h = h
  heads_of_first_machine (suc n) j perm h =
      heads_of_first_machine n (suc j) perm (write2 h 0 j (h 0 (j - 1) + inst.temps_job 0 (perm j)))

  -- `computeHeads`: job 1, `n` machines from `k` on
  unfoldable pub heads_of_first_job : ℕ → ℕ → ℕ → Matrix → Matrix
  heads_of_first_job zero k job h = h
  heads_of_first_job (suc n) k job h =
      heads_of_first_job n (suc k) job (write2 h k 0 (h (k - 1) 0 + inst.temps_job k job))

  -- `computeHeads`: the job at position `j`, `n` machines from `k` on
  unfoldable pub heads_of_job : ℕ → ℕ → ℕ → ℕ → Matrix → Matrix
  heads_of_job zero k j job h = h
  heads_of_job (suc n) k j job h =
      heads_of_job n (suc k) j job
        (write2 h k j (max (h (k - 1) j) (h k (j - 1)) + inst.temps_job k job))

  -- `computeHeads`: the rest, `n` positions from `j` on
  unfoldable pub heads_of_rest : ℕ → ℕ → (ℕ → ℕ) → Matrix → Matrix
  unfolding heads_of_job
  heads_of_rest zero j perm h = h
  heads_of_rest (suc n) j perm h =
      heads_of_rest n (suc j) perm (heads_of_job (inst.nb_machines - 1) 1 j (perm j) h)

  -- `computeHeads`, which writes `head`
  unfoldable pub compute_heads : (ℕ → ℕ) → ℕ → Matrix → Matrix
  unfolding heads_of_first_machine heads_of_first_job heads_of_rest
  compute_heads perm len h =
      let first = write2 h 0 0 (inst.temps_job 0 (perm 0)) in
      let machine = heads_of_first_machine (len - 1) 1 perm first in
      let job = heads_of_first_job (inst.nb_machines - 1) 1 (perm 0) machine in
      heads_of_rest (len - 1) 1 perm job

  -- `computeTails`: machine M, the `n` positions below `n`
  unfoldable pub tails_of_last_machine : ℕ → (ℕ → ℕ) → Matrix → Matrix
  tails_of_last_machine zero perm t = t
  tails_of_last_machine (suc n) perm t =
      let last = inst.nb_machines - 1 in
      tails_of_last_machine n perm (write2 t last n (t last (suc n) + inst.temps_job last (perm n)))

  -- `computeTails`: the last job, the `n` machines below `n`
  unfoldable pub tails_of_last_job : ℕ → ℕ → ℕ → Matrix → Matrix
  tails_of_last_job zero j job t = t
  tails_of_last_job (suc n) j job t =
      tails_of_last_job n j job (write2 t n j (t (suc n) j + inst.temps_job n job))

  -- `computeTails`: the job at position `j`, the `n` machines below `n`
  unfoldable pub tails_of_job : ℕ → ℕ → ℕ → Matrix → Matrix
  tails_of_job zero j job t = t
  tails_of_job (suc n) j job t =
      tails_of_job n j job (write2 t n j (max (t (suc n) j) (t n (suc j)) + inst.temps_job n job))

  -- `computeTails`: the rest, the `n` positions below `n`
  unfoldable pub tails_of_rest : ℕ → (ℕ → ℕ) → Matrix → Matrix
  unfolding tails_of_job
  tails_of_rest zero perm t = t
  tails_of_rest (suc n) perm t =
      tails_of_rest n perm (tails_of_job (inst.nb_machines - 1) n (perm n) t)

  -- `computeTails`, which writes `tail`
  unfoldable pub compute_tails : (ℕ → ℕ) → ℕ → Matrix → Matrix
  unfolding tails_of_last_machine tails_of_last_job tails_of_rest
  compute_tails perm len t =
      let last = inst.nb_machines - 1 in
      let first = write2 t last (len - 1) (inst.temps_job last (perm (len - 1))) in
      let machine = tails_of_last_machine (len - 1) perm first in
      let job = tails_of_last_job last (len - 1) (perm (len - 1)) machine in
      tails_of_rest (len - 1) perm job

  -- `computeInser`: insertion before, `n` machines from `k` on
  unfoldable pub inser_before : ℕ → ℕ → ℕ → Matrix → Matrix
  inser_before zero k job s = s
  inser_before (suc n) k job s =
      inser_before n (suc k) job (write2 s k 0 (s (k - 1) 0 + inst.temps_job k job))

  -- `computeInser`: insertion at position `j`, `n` machines from `k` on
  unfoldable pub inser_at : ℕ → ℕ → ℕ → ℕ → Matrix → Matrix → Matrix
  inser_at zero k j job h s = s
  inser_at (suc n) k j job h s =
      inser_at n (suc k) j job h
        (write2 s k j (max (s (k - 1) j) (h k (j - 1)) + inst.temps_job k job))

  -- `computeInser`: 2nd position to last, `n` positions from `j` on
  unfoldable pub inser_after : ℕ → ℕ → ℕ → Matrix → Matrix → Matrix
  unfolding inser_at
  inser_after zero j job h s = s
  inser_after (suc n) j job h s =
      let first = write2 s 0 j (h 0 (j - 1) + inst.temps_job 0 job) in
      inser_after n (suc j) job h (inser_at (inst.nb_machines - 1) 1 j job h first)

  -- `computeInser`, which reads `head` and writes `inser`
  unfoldable pub compute_inser : ℕ → ℕ → Matrix → Matrix → Matrix
  unfolding inser_before inser_after
  compute_inser len job h s =
      let first = write2 s 0 0 (inst.temps_job 0 job) in
      inser_after len 1 job h (inser_before (inst.nb_machines - 1) 1 job first)

  -- `computeInserBlock`: the jobs of the block on the vector `tmp`, `n` of them from `b` on
  unfoldable pub block_loop : ℕ → ℕ → (ℕ → ℕ) → (ℕ → ℕ) → ℕ → ℕ
  block_loop zero b block tmp = tmp
  block_loop (suc n) b block tmp = block_loop n (suc b) block (push_front inst (block b) tmp)

  -- `computeInserBlock`: the vector `tmp` to position `j`, `n` machines from `k` on
  unfoldable pub store : ℕ → ℕ → ℕ → (ℕ → ℕ) → Matrix → Matrix
  store zero k j tmp s = s
  store (suc n) k j tmp s = store n (suc k) j tmp (write2 s k j (tmp k))

  -- `computeInserBlock`: 2nd position to last, `n` positions from `j` on
  unfoldable pub inser_block_after : ℕ → ℕ → (ℕ → ℕ) → ℕ → Matrix → Matrix → Matrix
  unfolding block_loop store
  inser_block_after zero j block bl h s = s
  inser_block_after (suc n) j block bl h s =
      inser_block_after n (suc j) block bl h
        (store inst.nb_machines 0 j (block_loop bl 0 block (λ k. h k (j - 1))) s)

  -- `computeInserBlock`, which reads `head` and writes `inser`
  unfoldable pub compute_inser_block : ℕ → (ℕ → ℕ) → ℕ → Matrix → Matrix → Matrix
  unfolding block_loop store inser_block_after
  compute_inser_block len block bl h s =
      inser_block_after len 1 block bl h
        (store inst.nb_machines 0 0 (block_loop bl 0 block (λ k. 0)) s)
