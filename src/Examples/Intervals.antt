-- ===== src/Examples/Intervals.antt =====
-- Explorers and position vectors of small problems.
use pbbperm.Ivm.Reach.{Step, Steps, Steps-IsConsistent}
use pbbperm.Base.{ℕ, ◌-◌, ◌≤◌, ◌<◌, ◌≡◌, refl, ◌⊎◌, ◌↔◌, some, true, arith, pos}
use pbbperm.Weights.{depth, vect_to_bigint, bigint_to_vect}
use pbbperm.Weights.Rank.{fact, fact-suc, fact_zero, rank, IsPosition}
use pbbperm.Weights.RoundTrip.{
  depth-fact, vect_to_bigint-bigint_to_vect, bigint_to_vect-vect_to_bigint,
}
use pbbperm.Ivm.{
  Ivm, before_end, cutting_position, open_level, share_work, go_up, go_down, line_end_state,
}
use pbbperm.Ivm.Order.{before_end-le}
use pbbperm.Ivm.Share.{cutting_position-some}
use pbbperm.Ivm.Partition.{IsCut, share_work-IsCut}
use pbbperm.Ivm.Jobs.{IsConsistent}

abbrev zeros : ℕ → ℕ
zeros i = 0

-- The last position of three jobs: 2, 1, 0.
abbrev last_position : ℕ → ℕ
last_position i = 2 - i

-- An explorer of three jobs that has the whole interval and stands at the root.
abbrev explorer : Ivm
explorer = record {
  size = 3;
  line = 0;
  job_mat = λ k i. pos i;
  pos_vect = zeros;
  end_vect = last_position;
  dir_vect = λ k. pos 0;
}

zeros-IsPosition : IsPosition 3 0 zeros
zeros-IsPosition = (omega arith, (omega arith, (omega arith, tt)))

last-IsPosition : IsPosition 3 0 last_position
last-IsPosition = (omega arith, (omega arith, (omega arith, tt)))

explorer-IsConsistent : IsConsistent explorer
explorer-IsConsistent = record {
  in_matrix = omega arith;
  points = λ k hk. absurd (omega arith);
  rests = λ k hk. absurd (omega arith);
}

depth-fact_example : depth 3 zeros 1 ≡ fact (3 - 1)
depth-fact_example = depth-fact 3 zeros 1 (omega arith) (omega arith)

fact_three : fact 3 ≡ 6
fact_three = omega (arith, fact-suc 2, fact-suc 1, fact-suc 0, fact_zero)

vect_to_bigint-bigint_to_vect_example :
    let (p, e) = bigint_to_vect 3 zeros 1 4 zeros zeros in
    IsPosition 3 0 p × IsPosition 3 0 e × (vect_to_bigint 3 zeros p e ≡ (1, 4))
vect_to_bigint-bigint_to_vect_example =
    vect_to_bigint-bigint_to_vect 3 zeros (omega arith) 1 4 zeros zeros (omega (arith, fact_three))
      (omega (arith, fact_three))

bigint_to_vect-vect_to_bigint_example :
    let (begin, end) = vect_to_bigint 3 zeros zeros last_position in
    let (p, e) = bigint_to_vect 3 zeros begin end zeros zeros in (p 1 ≡ 0) × (e 1 ≡ 1)
bigint_to_vect-vect_to_bigint_example =
    bigint_to_vect-vect_to_bigint 3 zeros (omega arith) zeros last_position zeros zeros
      zeros-IsPosition last-IsPosition 1 (omega arith)

before_end-le_example : (before_end explorer ≡ true) ↔ (rank 3 0 zeros ≤ rank 3 0 last_position)
before_end-le_example = before_end-le explorer zeros-IsPosition last-IsPosition

cutting_position-some_example :
    (c : ℕ) × (cutting_position explorer 0 2 ≡ some c) × (0 < c) × (c ≤ 2)
cutting_position-some_example = cutting_position-some explorer 0 (omega arith) (omega arith)

share_work-IsCut_example :
    let l = open_level 0 0 explorer in
    (last_position l ≤ 0) × (share_work explorer explorer ≡ some (0, explorer, explorer))
    ⊎ (0 < last_position l)
      × ((v : Ivm) × (t : Ivm) × (share_work explorer explorer ≡ some (1, v, t))
          × IsCut explorer v t)
share_work-IsCut_example =
    share_work-IsCut explorer explorer (omega arith) zeros-IsPosition last-IsPosition

descent : Steps explorer (go_up (go_down explorer))
unfolding line_end_state
descent =
    Steps.move (Step.down explorer (omega arith) refl)
      (Steps.move (Step.up (go_down explorer)) (Steps.stay (go_up (go_down explorer))))

Steps-IsConsistent_example : IsConsistent (go_up (go_down explorer))
Steps-IsConsistent_example =
    Steps-IsConsistent explorer (go_up (go_down explorer)) descent explorer-IsConsistent
