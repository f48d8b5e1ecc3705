-- ===== src/Sorting/Rounds.antt =====
-- common/include/misc.h: the one loop of the gnome sort does what two loops do, one over the cells and
-- an inner one for the job that moves down.
use pbbperm.Base.{
  ℕ, zero, suc, ◌+◌, ◌-◌, ◌*◌, ◌≤◌, ◌<◌, ◌≡◌, refl, ap, ◌∙◌, sym, Bool, true, false, some, arith,
  leb, ◌==◌, if◌then◌else◌, Bool-cases, inl, inr,
}
use pbbperm.Sorting.{swap_before, Gnome, gnome_round, gnome_loop, gnome_sort}

module _ (above : ℕ → ℕ → Bool) where
  -- The job at cell `i` moves down while the job before it belongs above it.
  unfoldable pub sink : ℕ → (ℕ → ℕ) → ℕ → ℕ
  sink zero arr = arr
  sink (suc i) arr =
      let sunk = sink i (swap_before (suc i) arr) in
      if above (arr i) (arr (suc i)) then sunk else arr

  -- `n` cells from `i` on
  unfoldable pub sink_all : ℕ → ℕ → (ℕ → ℕ) → ℕ → ℕ
  unfolding sink
  sink_all zero i arr = arr
  sink_all (suc n) i arr = sink_all n (suc i) (sink i arr)

  gnome_round-stop :
      (i j : ℕ) (arr : ℕ → ℕ)
      → above (arr i) (arr (suc i)) ≡ false
      → gnome_round above (record { i = suc i; j = j; arr = arr })
        ≡ record { i = j; j = suc j; arr = arr }
  unfolding gnome_round
  gnome_round-stop i j arr e = let back : suc i - 1 ≡ i = omega arith in rw (back, e) refl

  gnome_round-first :
      (j : ℕ) (arr : ℕ → ℕ)
      → above (arr 0) (arr 1) ≡ true
      → gnome_round above (record { i = 1; j = j; arr = arr })
        ≡ record { i = j; j = suc j; arr = swap_before 1 arr }
  unfolding gnome_round
  gnome_round-first j arr e = rw e refl

  gnome_round-down :
      (i j : ℕ) (arr : ℕ → ℕ)
      → above (arr (suc i)) (arr (suc (suc i))) ≡ true
      → gnome_round above (record { i = suc (suc i); j = j; arr = arr })
        ≡ record { i = suc i; j = j; arr = swap_before (suc (suc i)) arr }
  unfolding gnome_round
  gnome_round-down i j arr e =
      let back : suc (suc i) - 1 ≡ suc i = omega arith in
      let inner : (suc i == 0) ≡ false = ground arith in rw (back, e) (rw inner refl)

  gnome_loop-inside :
      (fuel to : ℕ) (s : Gnome)
      → s.i ≤ to
      → gnome_loop above (suc fuel) to s ≡ gnome_loop above fuel to (gnome_round above s)
  unfolding gnome_loop
  gnome_loop-inside fuel to s h =
      let in_range : leb s.i to ≡ true = ground arith in rw in_range refl

  -- A job moves down in at most as many rounds as its cell says.
  gnome_loop-sink :
      (i fuel to j : ℕ) (arr : ℕ → ℕ)
      → suc i ≤ to
      → (m : ℕ) × (fuel ≤ m)
        × (gnome_loop above (fuel + suc i) to (record { i = suc i; j = j; arr = arr })
            ≡ gnome_loop above m to (record { i = j; j = suc j; arr = sink (suc i) arr }))
  unfolding sink
  gnome_loop-sink zero fuel to j arr h = elim (Bool-cases (above (arr 0) (arr 1))) [
    | inl down ↦ (
      fuel,
      omega arith,
      ap (λ n. gnome_loop above n to (record { i = 1; j = j; arr = arr })) {x = fuel + 1}
            {y = suc fuel} (omega arith)
          ∙ gnome_loop-inside fuel to _ h
          ∙ ap (gnome_loop above fuel to) (gnome_round-first j arr down)
          ∙ ap
              (λ (b : Bool).
                gnome_loop above fuel to
                  (record { i = j; j = suc j; arr = if b then swap_before 1 arr else arr }))
              (sym down),
    )
    | inr stays ↦ (
      fuel,
      omega arith,
      ap (λ n. gnome_loop above n to (record { i = 1; j = j; arr = arr })) {x = fuel + 1}
            {y = suc fuel} (omega arith)
          ∙ gnome_loop-inside fuel to _ h
          ∙ ap (gnome_loop above fuel to) (gnome_round-stop 0 j arr stays)
          ∙ ap
              (λ (b : Bool).
                gnome_loop above fuel to
                  (record { i = j; j = suc j; arr = if b then swap_before 1 arr else arr }))
              (sym stays),
    )
  ]
  gnome_loop-sink (suc i) fuel to j arr h =
      let swapped = swap_before (suc (suc i)) arr in
      let one : gnome_loop above (fuel + suc (suc i)) to
            (record { i = suc (suc i); j = j; arr = arr })
          ≡ gnome_loop above (fuel + suc i) to
              (gnome_round above (record { i = suc (suc i); j = j; arr = arr })) =
        ap (λ n. gnome_loop above n to (record { i = suc (suc i); j = j; arr = arr }))
          {x = fuel + suc (suc i)} {y = suc (fuel + suc i)} (omega arith)
        ∙ gnome_loop-inside (fuel + suc i) to _ h in
      let result : Bool → Gnome =
        λ b. record { i = j; j = suc j; arr = if b then sink (suc i) swapped else arr } in
      elim (Bool-cases (above (arr (suc i)) (arr (suc (suc i))))) [
        | inl down ↦
            let (m, more, rest) = gnome_loop-sink i fuel to j swapped (omega arith) in
            (
              m,
              more,
              one
                  ∙ ap (gnome_loop above (fuel + suc i) to) (gnome_round-down i j arr down)
                  ∙ rest
                  ∙ ap (λ b. gnome_loop above m to (result b)) (sym down),
            )
        | inr stays ↦ (
          fuel + suc i,
          omega arith,
          one
              ∙ ap (gnome_loop above (fuel + suc i) to) (gnome_round-stop (suc i) j arr stays)
              ∙ ap (λ b. gnome_loop above (fuel + suc i) to (result b)) (sym stays),
        )
      ]

  gnome_loop-sink_all :
      (c fuel i to : ℕ) (arr : ℕ → ℕ)
      → i + c ≡ to
      → c * suc to < fuel
      → gnome_loop above fuel to (record { i = suc i; j = suc (suc i); arr = arr })
        ≡ some (sink_all c (suc i) arr)
  unfolding sink_all
  gnome_loop-sink_all c zero i to arr e h = absurd (omega arith)
  gnome_loop-sink_all zero (suc fuel) i to arr e h =
      unfold gnome_loop in (let past : leb (suc i) to ≡ false = ground arith in rw past refl)
  gnome_loop-sink_all (suc c) (suc fuel) i to arr e h =
      let (m, more, run) =
        gnome_loop-sink i (suc fuel - suc i) to (suc (suc i)) arr (omega arith) in
      ap (λ n. gnome_loop above n to (record { i = suc i; j = suc (suc i); arr = arr }))
        {x = suc fuel} {y = suc fuel - suc i + suc i} (omega arith)
      ∙ run
      ∙ gnome_loop-sink_all c m (suc i) to (sink (suc i) arr) (omega arith) (omega arith)

  -- From cell 0 the sort ends, within as many rounds as the square of the number of cells.
  pub gnome_sort-sink_all :
      (fuel to : ℕ) (arr : ℕ → ℕ)
      → suc to * suc to ≤ fuel
      → gnome_sort above fuel 0 to arr ≡ some (sink_all to 1 arr)
  unfolding gnome_sort
  gnome_sort-sink_all fuel to arr h =
      gnome_loop-sink_all to fuel 0 to arr (omega arith) (omega arith)
