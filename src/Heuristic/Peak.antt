-- ===== src/Heuristic/Peak.antt =====
-- heuristic/src/fastinsertremove.cpp, fastNEH.cpp: the largest value over the machines, and why the
-- largest sum of a head and a tail is the makespan.
use pbbperm.Base.{
  ℕ, zero, suc, ◌+◌, ◌-◌, ◌≤◌, ◌<◌, max, ◌≡◌, refl, ap, ◌∙◌, subst, List, [], ◌∷◌, ◌++◌, arith,
  dec_le, dec_lt,
}
use pbbperm.Flowshop.Vectors.{Instance, push_front, push_back, heads, tails, makespan}
use pbbperm.Flowshop.Lists.{heads-append}
use pbbperm.Flowshop.Paths.{
  start, push_front-start, start-ge, push_front_mono, push_back_last, push_back_next,
  start-push_back-le,
}

-- `n` rounds of `top=std::max(top,val)` over the machines from `j` on
unfoldable pub peak : ℕ → ℕ → (ℕ → ℕ) → ℕ → ℕ
peak zero j val top = top
peak (suc n) j val top = peak n (suc j) val (max top (val j))

pub peak_congr :
    (n j : ℕ) (f g : ℕ → ℕ) (top : ℕ)
    → ((i : ℕ) → j ≤ i → i < j + n → f i ≡ g i)
    → peak n j f top ≡ peak n j g top
unfolding peak
peak_congr zero j f g top e = refl
peak_congr (suc n) j f g top e =
    ap (λ v. peak n (suc j) f (max top v)) (e j (omega arith) (omega arith))
    ∙ peak_congr n (suc j) f g (max top (g j)) (λ i lo hi. e i (omega arith) (omega arith))

pub peak-le :
    (n j : ℕ) (f : ℕ → ℕ) (top x : ℕ)
    → top ≤ x
    → ((i : ℕ) → j ≤ i → i < j + n → f i ≤ x)
    → peak n j f top ≤ x
unfolding peak
peak-le zero j f top x h le = h
peak-le (suc n) j f top x h le =
    peak-le n (suc j) f (max top (f j)) x (omega (arith, le j (omega arith) (omega arith)))
      (λ i lo hi. le i (omega arith) (omega arith))

peak-ge_top : (n j : ℕ) (f : ℕ → ℕ) (top : ℕ) → top ≤ peak n j f top
unfolding peak
peak-ge_top zero j f top = omega arith
peak-ge_top (suc n) j f top = omega (arith, peak-ge_top n (suc j) f (max top (f j)))

pub peak-ge : (n j : ℕ) (f : ℕ → ℕ) (top i : ℕ) → j ≤ i → i < j + n → f i ≤ peak n j f top
unfolding peak
peak-ge zero j f top i lo hi = absurd (omega arith)
peak-ge (suc n) j f top i lo hi = elim (dec_le (suc j) i) [
  | yes later ↦ peak-ge n (suc j) f (max top (f j)) i later (omega arith)
  | no first ↦
      let e : j ≡ i = omega arith in
      subst (λ k. f k ≤ peak n (suc j) f (max top (f j))) e
        (omega (arith, peak-ge_top n (suc j) f (max top (f j))))
]

pub peak-max : (n j : ℕ) (f : ℕ → ℕ) (top : ℕ) → peak n j f top ≡ max top (peak n j f 0)
unfolding peak
peak-max zero j f top = omega arith
peak-max (suc n) j f top =
    omega (arith, peak-max n (suc j) f (max top (f j)), peak-max n (suc j) f (max 0 (f j)))

module _ (inst : Instance) where
  -- A vector that grows along the machines.
  abbrev pub Grows : (ℕ → ℕ) → Type 0
  Grows f = (i j : ℕ) → i ≤ j → j < inst.nb_machines → f i ≤ f j

  pub heads-Grows : (jobs : List ℕ) (f : ℕ → ℕ) → Grows f → Grows (heads inst f jobs)
  unfolding heads
  heads-Grows [] f g = g
  heads-Grows (job ∷ jobs) f g =
      heads-Grows jobs (push_front inst job f) (λ i j h hj. push_front_mono inst job f i j h)

  start-push_back-peak :
      (job x : ℕ) (f t : ℕ → ℕ)
      → ((j : ℕ) → j < inst.nb_machines → f j + push_back inst job t j ≤ x)
      → (j : ℕ) → j < inst.nb_machines
      → start inst job f j + push_back inst job t j ≤ x
  unfolding start
  start-push_back-peak job x f t room zero h = room 0 h
  start-push_back-peak job x f t room (suc j) h = omega (
    arith,
    room (suc j) h,
    push_front-start inst job f j,
    push_back_next inst job t j h,
    start-push_back-peak job x f t room j (omega arith),
  )

  push_back-ge :
      (job : ℕ) (t : ℕ → ℕ) (j : ℕ)
      → j < inst.nb_machines
      → t j + inst.temps_job j job ≤ push_back inst job t j
  push_back-ge job t j h = elim (dec_lt (suc j) inst.nb_machines) [
    | yes inner ↦ omega (arith, push_back_next inst job t j inner)
    | no last ↦ omega (arith, push_back_last inst job t j (omega arith))
  ]

  -- One job before the tails: the largest sum stays the same.
  peak-push :
      (job : ℕ) (f t : ℕ → ℕ)
      → peak inst.nb_machines 0 (λ j. push_front inst job f j + t j) 0
        ≡ peak inst.nb_machines 0 (λ j. f j + push_back inst job t j) 0
  peak-push job f t =
      let low = peak inst.nb_machines 0 (λ j. f j + push_back inst job t j) 0 in
      let high = peak inst.nb_machines 0 (λ j. push_front inst job f j + t j) 0 in
      let le : high ≤ low = peak-le inst.nb_machines 0 _ 0 low (omega arith) (λ j lo hi. omega (
        arith,
        push_front-start inst job f j,
        push_back-ge job t j (omega arith),
        start-push_back-peak job low f t
            (λ i hi. peak-ge inst.nb_machines 0 _ 0 i (omega arith) (omega arith)) j (omega arith),
      )) in
      let ge : low ≤ high = peak-le inst.nb_machines 0 _ 0 high (omega arith) (λ j lo hi. omega (
        arith,
        start-ge inst job f j,
        start-push_back-le inst job high f t
            (λ i hi. peak-ge inst.nb_machines 0 _ 0 i (omega arith) (omega arith))
            (inst.nb_machines - suc j) j (omega arith),
      )) in
      omega arith

  -- A schedule that starts from a growing vector ends with the largest sum of a head and a tail.
  pub heads-peak :
      (jobs : List ℕ) (f : ℕ → ℕ)
      → 0 < inst.nb_machines
      → Grows f
      → heads inst f jobs (inst.nb_machines - 1)
        ≡ peak inst.nb_machines 0 (λ j. f j + tails inst (λ i. 0) jobs j) 0
  unfolding heads tails
  heads-peak [] f pos g =
      let top = peak inst.nb_machines 0 (λ j. f j + 0) 0 in
      let ge : f (inst.nb_machines - 1) + 0 ≤ top =
        peak-ge inst.nb_machines 0 (λ j. f j + 0) 0 (inst.nb_machines - 1) (omega arith)
          (omega arith) in
      let le : top ≤ f (inst.nb_machines - 1) =
        peak-le inst.nb_machines 0 _ 0 _ (omega arith)
          (λ i lo hi. omega (arith, g i (inst.nb_machines - 1) (omega arith) (omega arith))) in
      omega arith
  heads-peak (job ∷ jobs) f pos g =
      heads-peak jobs (push_front inst job f) pos (λ i j h hj. push_front_mono inst job f i j h)
      ∙ peak-push job f (tails inst (λ i. 0) jobs)

  -- The makespan of a schedule in two parts, from the heads of the first and the tails of the second.
  pub makespan-append-peak :
      (front back : List ℕ)
      → 0 < inst.nb_machines
      → makespan inst (front ++ back)
        ≡ peak inst.nb_machines 0 (λ j. heads inst (λ i. 0) front j + tails inst (λ i. 0) back j) 0
  unfolding makespan
  makespan-append-peak front back pos =
      ap (λ f. f (inst.nb_machines - 1)) (heads-append inst front back (λ i. 0))
      ∙ heads-peak back (heads inst (λ i. 0) front) pos
          (heads-Grows front (λ i. 0) (λ i j h hj. omega arith))
