-- ===== src/Heuristic/Tabu.antt =====
-- heuristic/include/fastinsertremove.h: the list of tabu jobs or positions. The array has `nmax`
-- cells; an entry past them is written outside the array, which has no meaning in the code.
use pbbperm.Base.{
  ℕ, zero, suc, ◌+◌, ◌-◌, ◌≤◌, ◌<◌, ◌≡◌, refl, ap, ◌∙◌, Bool, true, false, ◌||◌, Option, none, some,
  arith, write, ltb, ◌==◌, if◌then◌else◌, Bool-cases, ◌⊎◌, inl, inr,
}

pub record Tabu : Type 0 where
  pub nmax : ℕ
  pub num : ℕ
  pub arr : ℕ → ℕ

-- `isTabu`, the `n` entries from `i` on
unfoldable pub listed : ℕ → ℕ → ℕ → (ℕ → ℕ) → Bool
listed zero i a arr = false
listed (suc n) i a arr = if arr i == a then true else listed n (suc i) a arr

-- `isTabu`
unfoldable pub is_tabu : Tabu → ℕ → Bool
unfolding listed
is_tabu t a = listed t.num 0 a t.arr

-- `add`
unfoldable pub add : ℕ → Tabu → Tabu
add a t = record t { num = suc t.num; arr = write t.arr t.num a }

-- `clear`
unfoldable pub clear : Tabu → Tabu
clear t = record t { num = 0; arr = λ i. if ltb i t.nmax then 0 else t.arr i }

-- `rem`: the last of the `n` first entries that is `a`
unfoldable pub last_entry : ℕ → ℕ → (ℕ → ℕ) → Option ℕ
last_entry zero a arr = none
last_entry (suc n) a arr = if arr n == a then some n else last_entry n a arr

-- `rem`: `n` rounds of `arr[j]=arr[j+1]` from `j` on
unfoldable pub close_gap : ℕ → ℕ → (ℕ → ℕ) → ℕ → ℕ
close_gap zero j arr = arr
close_gap (suc n) j arr = close_gap n (suc j) (write arr j (arr (suc j)))

-- `rem`: the branches after the search
unfoldable pub rem_at : Option ℕ → Tabu → Option Tabu
unfolding close_gap
rem_at none t = none
rem_at (some i) t = some (record t { num = t.num - 1; arr = close_gap (t.num - 2 - i) i t.arr })

-- `rem`; `none` stands for the exit of the program
unfoldable pub rem : ℕ → Tabu → Option Tabu
unfolding last_entry rem_at
rem a t = rem_at (last_entry t.num a t.arr) t

listed-congr :
    (n i a : ℕ) (arr arr' : ℕ → ℕ)
    → ((j : ℕ) → i ≤ j → j < i + n → arr j ≡ arr' j)
    → listed n i a arr ≡ listed n i a arr'
unfolding listed
listed-congr zero i a arr arr' e = refl
listed-congr (suc n) i a arr arr' e =
    let rest = listed-congr n (suc i) a arr arr' (λ j lo hi. e j (omega arith) (omega arith)) in
    ground (arith, rest, e i (omega arith) (omega arith))

listed-snoc :
    (n i a : ℕ) (arr : ℕ → ℕ)
    → listed (suc n) i a arr ≡ (if arr (i + n) == a then true else listed n i a arr)
unfolding listed
listed-snoc zero i a arr = ap (λ k. if arr k == a then true else false) {y = i + 0} (omega arith)
listed-snoc (suc n) i a arr =
    ground (arith, listed-snoc n (suc i) a arr, ap arr {x = suc i + n} {y = i + suc n})

-- After `add` the list has its entries and the new one.
pub is_tabu-add : (a b : ℕ) (t : Tabu) → is_tabu (add a t) b ≡ (is_tabu t b || (a == b))
unfolding is_tabu add
is_tabu-add a b t = ground (
  arith,
  listed-snoc t.num 0 b (write t.arr t.num a),
  listed-congr t.num 0 b (write t.arr t.num a) t.arr (λ j lo hi. ground arith),
)

last_entry-listed :
    (n a : ℕ) (arr : ℕ → ℕ)
    → ((last_entry n a arr ≡ none) × (listed n 0 a arr ≡ false))
      ⊎ ((i : ℕ) × (last_entry n a arr ≡ some i) × (listed n 0 a arr ≡ true))
unfolding last_entry
last_entry-listed zero a arr = inl (refl, unfold listed in refl)
last_entry-listed (suc n) a arr = elim (Bool-cases (arr n == a)) [
  | inl found ↦ inr (n, ground (arith, found), ground (arith, listed-snoc n 0 a arr, found))
  | inr other ↦ elim (last_entry-listed n a arr) [
    | inl missing ↦
        inl (
          ground (arith, other, missing.0),
          ground (arith, listed-snoc n 0 a arr, other, missing.1),
        )
    | inr there ↦ inr (
      there.0,
      ground (arith, other, there.1),
      ground (arith, listed-snoc n 0 a arr, other, there.2),
    )
  ]
]

some_entry : (n a : ℕ) (arr : ℕ → ℕ) → listed n 0 a arr ≡ true → suc (n - 1) ≡ n
unfolding listed
some_entry zero a arr e = absurd (ground (arith, e))
some_entry (suc n) a arr e = omega arith

-- `rem` exits exactly for what the list does not have.
pub rem-is_tabu :
    (a : ℕ) (t : Tabu)
    → ((rem a t ≡ none) × (is_tabu t a ≡ false))
      ⊎ ((t' : Tabu) × (rem a t ≡ some t') × (is_tabu t a ≡ true) × (suc t'.num ≡ t.num))
unfolding rem is_tabu
rem-is_tabu a t = elim (last_entry-listed t.num a t.arr) [
  | inl missing ↦ inl (ap (λ i. rem_at i t) missing.0, missing.1)
  | inr there ↦ inr (
    record t { num = t.num - 1; arr = close_gap (t.num - 2 - there.0) there.0 t.arr },
    ap (λ i. rem_at i t) there.1,
    there.2,
    some_entry t.num a t.arr there.2,
  )
]

-- `rem` of the entry that `add` has just made gives a list with the entries before.
pub rem-add :
    (a : ℕ) (t : Tabu)
    → (t' : Tabu) × (rem a (add a t) ≡ some t') × ((b : ℕ) → is_tabu t' b ≡ is_tabu t b)
unfolding rem is_tabu add
rem-add a t =
    let arr = write t.arr t.num a in
    let found : last_entry (suc t.num) a arr ≡ some t.num = unfold last_entry in ground arith in
    let closed : close_gap (suc t.num - 2 - t.num) t.num arr ≡ arr =
      ap (λ n. close_gap n t.num arr) {x = suc t.num - 2 - t.num} {y = 0} (omega arith)
      ∙ (unfold close_gap in refl) in
    (
      record t { num = suc t.num - 1; arr = close_gap (suc t.num - 2 - t.num) t.num arr },
      ap (λ i. rem_at i (add a t)) found,
      λ b.
          ap (listed (suc t.num - 1) 0 b) closed
          ∙ ap (λ n. listed n 0 b arr) {x = suc t.num - 1} {y = t.num} (omega arith)
          ∙ listed-congr t.num 0 b arr t.arr (λ j lo hi. ground arith),
    )
