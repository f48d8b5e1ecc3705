-- ===== src/Sorting/Sorted.antt =====
-- common/include/misc.h: the gnome sort ends, sorts, and keeps the jobs of the array.
use mathlib.Core.List.Perm
use pbbperm.Base.{
  ℕ, zero, suc, ◌+◌, ◌-◌, ◌*◌, ◌≤◌, ◌<◌, ◌≡◌, ◌≢◌, refl, ap, ap₂, ◌∙◌, sym, subst, ◌∷◌, ◌++◌, Perm,
  Bool, true, false, some, arith, if◌then◌else◌, slice, slice_congr, slice_split_front, ℕ_discrete,
  ℤ,
}
use pbbperm.Sorting.{swap_before, gtb_ℤ, gnome_sort_by_key_inc}
use pbbperm.Sorting.Ints.{gtb_ℤ-asym, gtb_ℤ-trans}
use pbbperm.Sorting.Rounds.{sink, sink_all, gnome_sort-sink_all}

swap_before-perm :
    (arr : ℕ → ℕ) (i n : ℕ) → suc i < n → Perm (slice n 0 (swap_before (suc i) arr)) (slice n 0 arr)
unfolding slice
swap_before-perm arr i n h =
    let m = n - suc (suc i) in
    let swapped = swap_before (suc i) arr in
    let cut : (a : ℕ → ℕ) → slice n 0 a ≡ slice i 0 a ++ slice (suc (suc m)) i a = λ a.
      ap (λ k. slice k 0 a) {x = n} {y = i + suc (suc m)} (omega arith)
      ∙ slice_split_front i (suc (suc m)) a in
    let front : slice i 0 swapped ≡ slice i 0 arr =
      slice_congr i 0 swapped arr (λ j lo hi. ground arith) in
    let behind : slice m (suc (suc i)) swapped ≡ slice m (suc (suc i)) arr =
      slice_congr m (suc (suc i)) swapped arr (λ j lo hi. ground arith) in
    let first : swapped i ≡ arr (suc i) = ground arith in
    let second : swapped (suc i) ≡ arr i = ground arith in
    let middle : slice (suc (suc m)) i swapped ≡ arr (suc i) ∷ (arr i ∷ slice m (suc (suc i)) arr) =
      ap (λ x. x ∷ (swapped (suc i) ∷ slice m (suc (suc i)) swapped)) first
      ∙ ap (λ x. arr (suc i) ∷ (x ∷ slice m (suc (suc i)) swapped)) second
      ∙ ap (λ l. arr (suc i) ∷ (arr i ∷ l)) behind in
    subst (λ l. Perm l (slice n 0 arr))
      (sym (
        cut swapped
        ∙ ap (λ l. l ++ slice (suc (suc m)) i swapped) front
        ∙ ap (◌++◌ (slice i 0 arr)) middle))
      (subst (Perm (slice i 0 arr ++ arr (suc i) ∷ (arr i ∷ slice m (suc (suc i)) arr)))
        (sym (cut arr))
        (Perm.append_left (slice i 0 arr)
          (Perm.swap (arr i) (arr (suc i)) (slice m (suc (suc i)) arr))))

pick-perm :
    (b : Bool) (n : ℕ) (p q arr : ℕ → ℕ)
    → Perm (slice n 0 p) (slice n 0 arr)
    → Perm (slice n 0 q) (slice n 0 arr)
    → Perm (slice n 0 (if b then p else q)) (slice n 0 arr)
pick-perm true n p q arr hp hq = hp
pick-perm false n p q arr hp hq = hq

sink-perm :
    (above : ℕ → ℕ → Bool) (n i : ℕ) (arr : ℕ → ℕ)
    → i < n
    → Perm (slice n 0 (sink above i arr)) (slice n 0 arr)
unfolding sink
sink-perm above n zero arr h = Perm.refl _
sink-perm above n (suc i) arr h =
    pick-perm (above (arr i) (arr (suc i))) n (sink above i (swap_before (suc i) arr)) arr arr
      (Perm.trans (sink-perm above n i (swap_before (suc i) arr) (omega arith))
        (swap_before-perm arr i n h))
      (Perm.refl _)

sink_all-perm :
    (above : ℕ → ℕ → Bool) (n m i : ℕ) (arr : ℕ → ℕ)
    → i + m ≤ n
    → Perm (slice n 0 (sink_all above m i arr)) (slice n 0 arr)
unfolding sink_all
sink_all-perm above n zero i arr h = Perm.refl _
sink_all-perm above n (suc m) i arr h =
    Perm.trans (sink_all-perm above n m (suc i) (sink above i arr) (omega arith))
      (sink-perm above n i arr (omega arith))

module _ (above : ℕ → ℕ → Bool) (asym : (x y : ℕ) → above x y ≡ true → above y x ≡ false)
    (trans : (x y z : ℕ) → above x y ≡ false → above y z ≡ false → above x z ≡ false) where
  -- The cells up to `top` are sorted, but for the one at `i`, which may be too high.
  abbrev SortedBut : ℕ → ℕ → (ℕ → ℕ) → Type 0
  SortedBut i top arr = (a b : ℕ) → a < b → b ≤ top → b ≢ i → above (arr a) (arr b) ≡ false

  -- The cells up to `top` are sorted.
  abbrev SortedTo : ℕ → (ℕ → ℕ) → Type 0
  SortedTo top arr = (a b : ℕ) → a < b → b ≤ top → above (arr a) (arr b) ≡ false

  pick_sorted :
      (b : Bool) (top : ℕ) (p q : ℕ → ℕ)
      → (b ≡ true → SortedTo top p)
      → (b ≡ false → SortedTo top q)
      → SortedTo top (if b then p else q)
  pick_sorted true top p q hp hq = hp refl
  pick_sorted false top p q hp hq = hq refl

  sink-SortedTo :
      (i top : ℕ) (arr : ℕ → ℕ) → i ≤ top → SortedBut i top arr → SortedTo top (sink above i arr)
  unfolding sink
  sink-SortedTo zero top arr h s = λ a b lt hb. s a b lt hb (λ e. absurd (omega arith))
  sink-SortedTo (suc i) top arr h s =
      let swapped = swap_before (suc i) arr in
      let low : swapped i ≡ arr (suc i) = ground arith in
      let high : swapped (suc i) ≡ arr i = ground arith in
      let other : (c : ℕ) → c ≢ i → c ≢ suc i → swapped c ≡ arr c = λ c no no'. ground arith in
      pick_sorted (above (arr i) (arr (suc i))) top (sink above i swapped) arr
        (λ higher. sink-SortedTo i top swapped (omega arith) (λ a b lt hb ne.
          elim (ℕ_discrete b (suc i)) [
            | yes e ↦ elim (ℕ_discrete a i) [
              | yes e' ↦
                  ap₂ above (ap swapped e' ∙ low) (ap swapped e ∙ high)
                  ∙ asym (arr i) (arr (suc i)) higher
              | no below ↦
                  ap₂ above (other a below (λ x. absurd (omega arith))) (ap swapped e ∙ high)
                  ∙ s a i (omega arith) (omega arith) (λ x. absurd (omega arith))
            ]
            | no ne' ↦
                let last : swapped b ≡ arr b = other b ne ne' in
                elim (ℕ_discrete a i) [
                  | yes e' ↦ ap₂ above (ap swapped e' ∙ low) last ∙ s (suc i) b (omega arith) hb ne'
                  | no no' ↦ elim (ℕ_discrete a (suc i)) [
                    | yes e' ↦ ap₂ above (ap swapped e' ∙ high) last ∙ s i b (omega arith) hb ne'
                    | no no'' ↦ ap₂ above (other a no' no'') last ∙ s a b lt hb ne'
                  ]
                ]
          ]))
        (λ lower a b lt hb. elim (ℕ_discrete b (suc i)) [
          | yes e ↦ elim (ℕ_discrete a i) [
            | yes e' ↦ ap₂ above (ap arr e') (ap arr e) ∙ lower
            | no below ↦
                ap (λ c. above (arr a) (arr c)) e
                ∙ trans (arr a) (arr i) (arr (suc i))
                    (s a i (omega arith) (omega arith) (λ x. absurd (omega arith))) lower
          ]
          | no ne ↦ s a b lt hb ne
        ])

  sink_all-SortedTo :
      (n i : ℕ) (arr : ℕ → ℕ) → SortedTo i arr → SortedTo (i + n) (sink_all above n (suc i) arr)
  unfolding sink_all
  sink_all-SortedTo zero i arr s = λ a b lt hb. s a b lt (omega arith)
  sink_all-SortedTo (suc n) i arr s =
      subst (λ top. SortedTo top (sink_all above n (suc (suc i)) (sink above (suc i) arr)))
        {x = suc i + n} (omega arith)
        (sink_all-SortedTo n (suc i) (sink above (suc i) arr) (
          sink-SortedTo (suc i) (suc i) arr (omega arith) (λ a b lt hb ne. s a b lt (omega arith))))

-- `gnomeSortByKeyInc` from cell 0 to `to` ends: it makes at most (to + 1)² rounds. It leaves the cells
-- in the order of their keys, which are any `int`, and keeps the jobs of the array.
pub gnome_sort_by_key_inc-sorted :
    (key : ℕ → ℤ) (fuel to a b : ℕ) (arr : ℕ → ℕ)
    → suc to * suc to ≤ fuel
    → a < b
    → b ≤ to
    → (out : ℕ → ℕ) × (gnome_sort_by_key_inc key fuel 0 to arr ≡ some out)
      × (gtb_ℤ (key (out a)) (key (out b)) ≡ false)
      × Perm (slice (suc to) 0 out) (slice (suc to) 0 arr)
unfolding gnome_sort_by_key_inc
gnome_sort_by_key_inc-sorted key fuel to a b arr enough lt hb =
    let above : ℕ → ℕ → Bool = λ x y. gtb_ℤ (key x) (key y) in
    (
      sink_all above to 1 arr,
      gnome_sort-sink_all above fuel to arr enough,
      sink_all-SortedTo above (λ x y. gtb_ℤ-asym (key x) (key y))
          (λ x y z. gtb_ℤ-trans (key x) (key y) (key z)) to 0 arr (λ c d h hd. absurd (omega arith))
          a b lt (omega arith),
      sink_all-perm above (suc to) to 1 arr (omega arith),
    )
