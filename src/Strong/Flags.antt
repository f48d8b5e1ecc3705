-- ===== src/Strong/Flags.antt =====
-- bounds/src/bound_fsp_strong.cpp: the flags of `setFlags` and the jobs without one.
use mathlib.Core.List.{
  append-nil, Permᴰ, Mem, Memᴰ, Mem-prop, Perm-prop, mem-cons_of_mem, eq-or-mem_of_mem-cons,
}
use mathlib.Core.List.Perm
use mathlib.Core.Logic.{∥∥₁_elim}
use pbbperm.Base.{
  ℕ, zero, suc, ◌+◌, ◌-◌, ◌≤◌, ◌<◌, ◌≡◌, ◌≢◌, refl, ap, ◌∙◌, sym, subst₂, List, [], ◌∷◌, ◌++◌, Perm,
  arith, if◌then◌else◌, Bool, true, false, Bool-cases, inl, inr, ℤ, pos, negsuc, slice,
  slice_split_front, write, ℕ_discrete, ap₂, ◌==◌, ltb, slice_split,
}
use pbbperm.Flowshop.Vectors.{Instance}
use pbbperm.Strong.Schedule.{is_zero, flag_cells, set_flags}
use pbbperm.Strong.Johnson.{IsSorted, First}
use pbbperm.Strong.Pairs.{unscheduled}

module _ (flag : ℕ → ℤ) where
  pub unscheduled-append :
      (xs ys : List ℕ) → unscheduled flag (xs ++ ys) ≡ unscheduled flag xs ++ unscheduled flag ys
  unfolding unscheduled
  unscheduled-append [] ys = refl
  unscheduled-append (x ∷ xs) ys = elim (Bool-cases (is_zero (flag x))) [
    | inl e ↦ rw e (ap (◌∷◌ x) (unscheduled-append xs ys))
    | inr e ↦ rw e (unscheduled-append xs ys)
  ]

  keep-cons :
      (b c : Bool) (x y : ℕ) (xs ys : List ℕ)
      → b ≡ c
      → x ≡ y
      → Perm xs ys
      → Perm (if b then x ∷ xs else xs) (if c then y ∷ ys else ys)
  keep-cons true true x y xs ys e same p = Perm.cons' same p
  keep-cons true false x y xs ys e same p = absurd (ground (arith, e))
  keep-cons false true x y xs ys e same p = absurd (ground (arith, e))
  keep-cons false false x y xs ys e same p = p

  keep-swap :
      (b c : Bool) (x y : ℕ) (xs : List ℕ)
      → Perm
          (if b then x ∷ (if c then y ∷ xs else xs) else (if c then y ∷ xs else xs))
          (if c then y ∷ (if b then x ∷ xs else xs) else (if b then x ∷ xs else xs))
  keep-swap true true x y xs = Perm.swap y x xs
  keep-swap true false x y xs = Perm.refl _
  keep-swap false true x y xs = Perm.refl _
  keep-swap false false x y xs = Perm.refl _

  pub slice-unscheduled :
      (n i : ℕ) (perm : ℕ → ℕ)
      → ((j : ℕ) → i ≤ j → j < i + n → is_zero (flag (perm j)) ≡ true)
      → unscheduled flag (slice n i perm) ≡ slice n i perm
  unfolding unscheduled slice
  slice-unscheduled zero i perm all = refl
  slice-unscheduled (suc n) i perm all =
      let here = all i (omega arith) (omega arith) in
      let rest = slice-unscheduled n (suc i) perm (λ j lo hi. all j (omega arith) (omega arith)) in
      rw here (ap (◌∷◌ (perm i)) rest)

  pub slice-scheduled :
      (n i : ℕ) (perm : ℕ → ℕ)
      → ((j : ℕ) → i ≤ j → j < i + n → is_zero (flag (perm j)) ≡ false)
      → unscheduled flag (slice n i perm) ≡ []
  unfolding unscheduled slice
  slice-scheduled zero i perm all = refl
  slice-scheduled (suc n) i perm all =
      let here = all i (omega arith) (omega arith) in
      let rest = slice-scheduled n (suc i) perm (λ j lo hi. all j (omega arith) (omega arith)) in
      rw here rest

  Permᴰ-unscheduled :
      {xs ys : List ℕ} → Permᴰ xs ys → Perm (unscheduled flag xs) (unscheduled flag ys)
  unfolding unscheduled
  Permᴰ-unscheduled Permᴰ.nil = Perm.refl _
  Permᴰ-unscheduled (Permᴰ.cons x p) =
      keep-cons _ _ _ _ _ _ (ap (λ i. is_zero (flag i)) x) x (Permᴰ-unscheduled p)
  Permᴰ-unscheduled (Permᴰ.swap {a} {b} {l = l} x y) =
      subst₂ (λ p q. Perm (unscheduled flag (a ∷ b ∷ l)) (unscheduled flag (p ∷ q ∷ l))) y x
        (keep-swap (is_zero (flag a)) (is_zero (flag b)) a b (unscheduled flag l))
  Permᴰ-unscheduled (Permᴰ.trans p q) = Perm.trans (Permᴰ-unscheduled p) (Permᴰ-unscheduled q)

  pub unscheduled-perm :
      {xs ys : List ℕ} → Perm xs ys → Perm (unscheduled flag xs) (unscheduled flag ys)
  unscheduled-perm p = ∥∥₁_elim p Perm-prop (λ q. Permᴰ-unscheduled q)

  keep-mem :
      (b : Bool) (x : ℕ) (xs ys : List ℕ) (y : ℕ)
      → ((z : ℕ) → Mem z xs → Mem z ys)
      → Mem y (if b then x ∷ xs else xs)
      → Mem y (x ∷ ys)
  keep-mem true x xs ys y sub m =
      ∥∥₁_elim (eq-or-mem_of_mem-cons m) Mem-prop
        (λ o. elim o [ inl e ↦ ∣ Memᴰ.head e ∣₁ | inr later ↦ mem-cons_of_mem x (sub y later) ])
  keep-mem false x xs ys y sub m = mem-cons_of_mem x (sub y m)

  mem-unscheduled : (xs : List ℕ) (y : ℕ) → Mem y (unscheduled flag xs) → Mem y xs
  unfolding unscheduled
  mem-unscheduled [] y m = m
  mem-unscheduled (x ∷ xs) y m =
      keep-mem (is_zero (flag x)) x (unscheduled flag xs) xs y (mem-unscheduled xs) m

  keep-IsSorted :
      (inst : Instance) (u v : ℕ) (lag : ℕ → ℕ) (b : Bool) (x : ℕ) (xs : List ℕ)
      → First inst u v lag x xs
      → IsSorted inst u v lag xs
      → IsSorted inst u v lag (if b then x ∷ xs else xs)
  keep-IsSorted inst u v lag true x xs first ok = (first, ok)
  keep-IsSorted inst u v lag false x xs first ok = ok

  -- The jobs without a flag stay sorted.
  pub unscheduled-IsSorted :
      (inst : Instance) (u v : ℕ) (lag : ℕ → ℕ) (xs : List ℕ)
      → IsSorted inst u v lag xs
      → IsSorted inst u v lag (unscheduled flag xs)
  unfolding unscheduled
  unscheduled-IsSorted inst u v lag [] ok = ok
  unscheduled-IsSorted inst u v lag (x ∷ xs) ok =
      keep-IsSorted inst u v lag (is_zero (flag x)) x (unscheduled flag xs)
        (λ y m. ok.0 y (mem-unscheduled xs y m)) (unscheduled-IsSorted inst u v lag xs ok.1)

different : (a b : ℕ) → a ≢ b → (a == b) ≡ false
different a b ne = elim (Bool-cases (a == b)) [
  | inl same ↦ absurd (ne (ground (arith, same)))
  | inr e ↦ e
]

module _ (value : ℕ → ℤ) (marks : (job : ℕ) → is_zero (value job) ≡ false) where
  pick-marked :
      (c : Bool) (a b : ℤ)
      → is_zero a ≡ false
      → is_zero b ≡ false
      → is_zero (if c then a else b) ≡ false
  pick-marked true a b ha hb = ha
  pick-marked false a b ha hb = hb

  pub flag_cells-keeps :
      (n j : ℕ) (perm : ℕ → ℕ) (flag : ℕ → ℤ) (x : ℕ)
      → is_zero (flag x) ≡ false
      → is_zero (flag_cells value n j perm flag x) ≡ false
  unfolding flag_cells
  flag_cells-keeps zero j perm flag x h = h
  flag_cells-keeps (suc n) j perm flag x h =
      flag_cells-keeps n (suc j) perm _ x
        (pick-marked (perm j == x) (value (perm j)) (flag x) (marks (perm j)) h)

  pub flag_cells-marks :
      (n j : ℕ) (perm : ℕ → ℕ) (flag : ℕ → ℤ) (i : ℕ)
      → j ≤ i
      → i < j + n
      → is_zero (flag_cells value n j perm flag (perm i)) ≡ false
  unfolding flag_cells
  flag_cells-marks zero j perm flag i lo hi = absurd (omega arith)
  flag_cells-marks (suc n) j perm flag i lo hi = elim (ℕ_discrete j i) [
    | yes e ↦
        let same : (perm j == perm i) ≡ true = ground (arith, ap perm e) in
        flag_cells-keeps n (suc j) perm (write flag (perm j) (value (perm j))) (perm i)
          (ap (λ b. is_zero (if b then value (perm j) else flag (perm i))) same ∙ marks (perm j))
    | no ne ↦ flag_cells-marks n (suc j) perm _ i (omega arith) (omega arith)
  ]

  pub flag_cells-stays :
      (n j : ℕ) (perm : ℕ → ℕ) (flag : ℕ → ℤ) (x : ℕ)
      → ((i : ℕ) → j ≤ i → i < j + n → perm i ≢ x)
      → flag_cells value n j perm flag x ≡ flag x
  unfolding flag_cells
  flag_cells-stays zero j perm flag x other = refl
  flag_cells-stays (suc n) j perm flag x other =
      let here : (perm j == x) ≡ false =
        different (perm j) x (other j (omega arith) (omega arith)) in
      flag_cells-stays n (suc j) perm (write flag (perm j) (value (perm j))) x
        (λ i lo hi. other i (omega arith) (omega arith))
      ∙ ap (λ b. if b then value (perm j) else flag x) here

-- The cells of a schedule hold different jobs of the instance.
pub record IsSchedule (inst : Instance) (permutation : ℕ → ℕ) : Type 0 where
  pub in_range : (i : ℕ) → i < inst.nb_job → permutation i < inst.nb_job
  pub distinct : (i j : ℕ) → i < j → j < inst.nb_job → permutation i ≢ permutation j

module _ (inst : Instance) (permutation : ℕ → ℕ) (front limite2 : ℕ) (ordered : front ≤ limite2)
    (inside : limite2 ≤ inst.nb_job) (ok : IsSchedule inst permutation) (memory : ℕ → ℤ) where
  abbrev flags : ℕ → ℤ
  flags = set_flags inst permutation front limite2 memory

  front_flag : (job : ℕ) → is_zero (negsuc 0) ≡ false
  unfolding is_zero
  front_flag job = refl

  back_flag : (job : ℕ) → is_zero (pos (job + 1)) ≡ false
  unfolding is_zero
  back_flag job = ground arith

  -- The jobs without a flag are those of the open cells.
  pub set_flags-unscheduled :
      unscheduled
        (set_flags inst permutation front limite2 memory)
        (slice inst.nb_job 0 permutation)
      ≡ slice (limite2 - front) front permutation
  unfolding set_flags
  set_flags-unscheduled =
      let blank : ℕ → ℤ = λ job. if ltb job inst.nb_job then pos 0 else memory job in
      let fronted = flag_cells (λ job. negsuc 0) front 0 permutation blank in
      let behind = inst.nb_job - limite2 in
      let open_cells = limite2 - front in
      let before : unscheduled flags (slice front 0 permutation) ≡ [] =
        slice-scheduled flags front 0 permutation (λ j lo hi.
          flag_cells-keeps (λ job. pos (job + 1)) back_flag behind limite2 permutation fronted
            (permutation j)
            (flag_cells-marks (λ job. negsuc 0) front_flag front 0 permutation blank j lo
              (omega arith))) in
      let after : unscheduled flags (slice behind limite2 permutation) ≡ [] =
        slice-scheduled flags behind limite2 permutation (λ j lo hi.
          flag_cells-marks (λ job. pos (job + 1)) back_flag behind limite2 permutation fronted j lo
            hi) in
      let open_zero : (j : ℕ)
          → front ≤ j
          → j < front + open_cells
          → is_zero (flags (permutation j)) ≡ true =
        λ j lo hi.
          ap is_zero (
            flag_cells-stays (λ job. pos (job + 1)) back_flag behind limite2 permutation fronted
              (permutation j) (λ i li hi'. λ e. ok.distinct j i (omega arith) (omega arith) (sym e))
            ∙ flag_cells-stays (λ job. negsuc 0) front_flag front 0 permutation blank
                (permutation j) (λ i li hi'. ok.distinct i j (omega arith) (omega arith)))
          ∙ blank_zero (permutation j) (ok.in_range j (omega arith)) in
      let parts : slice inst.nb_job 0 permutation
          ≡ slice front 0 permutation
            ++ (slice open_cells front permutation ++ slice behind limite2 permutation) =
        ap (λ n. slice n 0 permutation) {x = inst.nb_job} {y = front + (open_cells + behind)}
          (omega arith)
        ∙ slice_split_front front (open_cells + behind) permutation
        ∙ ap (◌++◌ (slice front 0 permutation)) (
            slice_split open_cells behind front permutation
            ∙ ap (λ k. slice open_cells front permutation ++ slice behind k permutation)
                {x = front + open_cells} {y = limite2} (omega arith)) in
      ap (unscheduled flags) parts
      ∙ unscheduled-append flags (slice front 0 permutation) _
      ∙ ap
          (λ l.
            l
            ++ unscheduled flags
                (slice open_cells front permutation ++ slice behind limite2 permutation))
          before
      ∙ unscheduled-append flags (slice open_cells front permutation) _
      ∙ ap₂ ◌++◌ (slice-unscheduled flags open_cells front permutation open_zero) after
      ∙ append-nil _
    where
      blank_zero :
          (job : ℕ)
          → job < inst.nb_job
          → is_zero (if ltb job inst.nb_job then pos 0 else memory job) ≡ true
      blank_zero job h =
          let inside : ltb job inst.nb_job ≡ true = ground arith in
          ap (λ b. is_zero (if b then pos 0 else memory job)) inside ∙ (unfold is_zero in refl)
