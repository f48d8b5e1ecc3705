-- ===== src/Heuristic/Greedy/Visits.antt =====
-- heuristic/src/IG.cpp: the visits stay in range.
use pbbperm.Base.{
  ℕ, zero, suc, ◌+◌, ◌-◌, ◌*◌, ◌/◌, ◌<◌, ◌≡◌, ◌≢◌, refl, ap, ◌∙◌, arith, ℕ_discrete, write,
}
use pbbperm.Heuristic.Greedy.{visit_up, visit_down, visit_order}

visit_up-other :
    (n i ind : ℕ) (order : ℕ → ℕ) (k : ℕ) → k < ind → visit_up n i ind order k ≡ order k
unfolding visit_up
visit_up-other zero i ind order k h = refl
visit_up-other (suc n) i ind order k h =
    visit_up-other n (suc i) (ind + 2) _ k (omega arith) ∙ ground arith

visit_up-place :
    (n i ind : ℕ) (order : ℕ → ℕ) (t : ℕ) → t < n → visit_up n i ind order (ind + 2 * t) ≡ i + t
unfolding visit_up
visit_up-place zero i ind order t h = absurd (omega arith)
visit_up-place (suc n) i ind order zero h =
    visit_up-other n (suc i) (ind + 2) (write order ind i) (ind + 2 * 0) (omega arith)
    ∙ ground arith
visit_up-place (suc n) i ind order (suc t) h = omega (
  arith,
  visit_up-place n (suc i) (ind + 2) (write order ind i) t (omega arith),
  ap (visit_up n (suc i) (ind + 2) (write order ind i)) {x = ind + 2 * suc t} {y = ind + 2 + 2 * t}
      (omega arith),
)

visit_down-other :
    (n ind : ℕ) (order : ℕ → ℕ) (k : ℕ)
    → ((t : ℕ) → k ≢ ind + 2 * t)
    → visit_down n ind order k ≡ order k
unfolding visit_down
visit_down-other zero ind order k h = refl
visit_down-other (suc n) ind order k h =
    let here : k ≢ ind = λ e. h 0 (omega arith) in
    visit_down-other n (ind + 2) _ k (λ t e. h (suc t) (omega arith)) ∙ ground (arith, here)

visit_down-below :
    (n ind : ℕ) (order : ℕ → ℕ) (t : ℕ) → t < n → visit_down n ind order (ind + 2 * t) < n
unfolding visit_down
visit_down-below zero ind order t h = absurd (omega arith)
visit_down-below (suc n) ind order zero h = omega (
  arith,
  visit_down-other n (ind + 2) (write order ind n) (ind + 2 * 0) (λ t e. absurd (omega arith)),
  first,
)
  where
    first : write order ind n (ind + 2 * 0) ≡ n
    first = ground arith
visit_down-below (suc n) ind order (suc t) h = omega (
  arith,
  visit_down-below n (ind + 2) (write order ind n) t (omega arith),
  ap (visit_down n (ind + 2) (write order ind n)) {x = ind + 2 * suc t} {y = ind + 2 + 2 * t}
      (omega arith),
)

-- `visitOrder` holds positions of the permutation.
pub visit_order-lt :
    (nb_job : ℕ) (memory : ℕ → ℕ) (j : ℕ) → j < nb_job → visit_order nb_job memory j < nb_job
unfolding visit_order
visit_order-lt nb_job memory j h =
    let start = nb_job / 2 in
    let up = visit_up (nb_job - start) start 0 memory in
    let t = j / 2 in
    elim (ℕ_discrete j (2 * t)) [
      | yes even ↦ omega (
        arith,
        visit_down-other start 1 up j (λ s e. absurd (omega arith)),
        visit_up-place (nb_job - start) start 0 memory t (omega arith),
        ap up {x = j} {y = 0 + 2 * t} (omega arith),
      )
      | no odd ↦ omega (
        arith,
        visit_down-below start 1 up t (omega arith),
        ap (visit_down start 1 up) {x = j} {y = 1 + 2 * t} (omega arith),
      )
    ]
