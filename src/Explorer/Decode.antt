-- ===== src/Explorer/Decode.antt =====
-- The schedule that `prepareSchedule` decodes from an explorer's matrix.
use mathlib.Core.List.{append_assoc, perm_middle, append-nil}
use mathlib.Core.List.Perm
use pbbperm.Base.{
  ℕ, zero, suc, ◌+◌, ◌-◌, ◌≤◌, ◌<◌, ◌≡◌, ap, ap₂, sym, subst, subst₂, ◌∙◌, Bool, true, false, arith,
  if◌then◌else◌, List, [], ◌∷◌, ◌++◌, Perm, slice, slice_congr, slice-snoc, slice_split,
  slice_shift, write, absolute,
}
use pbbperm.Ivm.{Ivm}
use pbbperm.Ivm.Jobs.{IsConsistent, jobs}
use pbbperm.Subproblem.{Subproblem}
use pbbperm.Explorer.{Explorer, place_pointed, place_open, is_front, prepare_schedule}

-- The jobs that a node has fixed, in a problem of `size` jobs.
abbrev fixed : ℕ → Subproblem → List ℕ
fixed size n = slice n.front 0 n.schedule ++ slice (size - n.limit2) n.limit2 n.schedule

-- `l` jobs are fixed at the two ends.
abbrev IsFixing : ℕ → ℕ → Subproblem → Type 0
IsFixing size l n = (n.front + (size - n.limit2) ≡ l) × (n.limit2 ≤ size)

fixed_front_step :
    (size l job : ℕ) (n : Subproblem)
    → IsFixing size l n
    → l < size
    → Perm
        (fixed size (record n { schedule = write n.schedule n.front job; front = suc n.front }))
        (job ∷ fixed size n)
fixed_front_step size l job n h hl =
    let s' = write n.schedule n.front job in
    let (count, room) = h in
    let a : slice (suc n.front) 0 s' ≡ slice n.front 0 n.schedule ++ job ∷ [] =
      slice-snoc n.front 0 s'
      ∙ ap₂ (λ xs x. xs ++ x ∷ []) (slice_congr n.front 0 s' n.schedule (λ j lo hi. ground arith))
          (ground arith) in
    let b : slice (size - n.limit2) n.limit2 s' ≡ slice (size - n.limit2) n.limit2 n.schedule =
      slice_congr (size - n.limit2) n.limit2 s' n.schedule (λ j lo hi. ground arith) in
    subst (λ t. Perm t (job ∷ fixed size n))
      (sym (
        ap₂ ◌++◌ a b
        ∙ append_assoc (slice n.front 0 n.schedule) (job ∷ [])
            (slice (size - n.limit2) n.limit2 n.schedule)))
      (perm_middle (slice n.front 0 n.schedule) (slice (size - n.limit2) n.limit2 n.schedule))

fixed_back_step :
    (size l job : ℕ) (n : Subproblem)
    → IsFixing size l n
    → l < size
    → Perm
        (fixed size
          (record n { schedule = write n.schedule (n.limit2 - 1) job; limit2 = n.limit2 - 1 }))
        (job ∷ fixed size n)
fixed_back_step size l job n h hl =
    let (count, room) = h in
    let p = n.limit2 - 1 in
    let s' = write n.schedule p job in
    let a : slice n.front 0 s' ≡ slice n.front 0 n.schedule =
      slice_congr n.front 0 s' n.schedule (λ j lo hi. ground arith) in
    let width : size - p ≡ suc (size - n.limit2) = omega arith in
    let next : suc p ≡ n.limit2 = omega arith in
    let b : slice (size - p) p s' ≡ job ∷ slice (size - n.limit2) n.limit2 n.schedule =
      ap (λ k. slice k p s') width
      ∙ (unfold slice in
          ap₂ ◌∷◌ {x = s' p} {y = job} (ground arith) (
            ap (λ k. slice (size - n.limit2) k s') next
            ∙ slice_congr (size - n.limit2) n.limit2 s' n.schedule (λ j lo hi. ground arith))) in
    subst (λ t. Perm t (job ∷ fixed size n)) (sym (ap₂ ◌++◌ a b))
      (perm_middle (slice n.front 0 n.schedule) (slice (size - n.limit2) n.limit2 n.schedule))

pick :
    (P : Subproblem → Type 0) (b : Bool) (n n' : Subproblem) → P n → P n' → P (if b then n else n')
pick P true n n' h h' = h
pick P false n n' h h' = h'

place_pointed-Perm :
    (k l : ℕ) (v : Ivm) (n : Subproblem)
    → IsConsistent v
    → l + k ≡ v.line
    → IsFixing v.size l n
    → Perm (fixed v.size n ++ jobs v l) (jobs v 0)
    → let m = place_pointed k l v n in
      IsFixing v.size v.line m × Perm (fixed v.size m ++ jobs v v.line) (jobs v 0)
unfolding place_pointed
place_pointed-Perm zero l v n h e f p =
    let there : l ≡ v.line = omega arith in
    (
      subst (λ t. IsFixing v.size t n) there f,
      subst (λ t. Perm (fixed v.size n ++ jobs v t) (jobs v 0)) there p,
    )
place_pointed-Perm (suc k) l v n h e f p =
    let inside = h.in_matrix in
    let (count, room) = f in
    let job = absolute (v.job_mat l (v.pos_vect l)) in
    let step = λ (n' : Subproblem) (q : Perm (fixed v.size n') (job ∷ fixed v.size n)).
      Perm.trans (Perm.append_right (jobs v (suc l)) q) (
        Perm.trans (Perm.symm (perm_middle (fixed v.size n) (jobs v (suc l))))
          (Perm.trans (Perm.append_left (fixed v.size n) (h.rests l (omega arith))) p)) in
    let chosen : Subproblem =
      if is_front (v.dir_vect l)
      then record n { schedule = write n.schedule n.front job; front = suc n.front }
      else record n { schedule = write n.schedule (n.limit2 - 1) job; limit2 = n.limit2 - 1 } in
    let placed : IsFixing v.size (suc l) chosen
        × Perm (fixed v.size chosen) (job ∷ fixed v.size n) =
      pick (λ n'. IsFixing v.size (suc l) n' × Perm (fixed v.size n') (job ∷ fixed v.size n))
        (is_front (v.dir_vect l))
        (record n { schedule = write n.schedule n.front job; front = suc n.front })
        (record n { schedule = write n.schedule (n.limit2 - 1) job; limit2 = n.limit2 - 1 })
        ((omega arith, omega arith), fixed_front_step v.size l job n f (omega arith))
        ((omega arith, omega arith), fixed_back_step v.size l job n f (omega arith)) in
    place_pointed-Perm k (suc l) v chosen h (omega arith) placed.0 (step chosen placed.1)

append_comm : (xs ys : List ℕ) → Perm (xs ++ ys) (ys ++ xs)
append_comm [] ys = subst (Perm ys) (sym (append-nil ys)) (Perm.refl ys)
append_comm (x ∷ xs) ys =
    Perm.trans (Perm.cons x (append_comm xs ys)) (Perm.symm (perm_middle ys xs))

-- The open jobs stand between the fixed ones.
place_open-Perm :
    (v : Ivm) (m : Subproblem)
    → IsFixing v.size v.line m
    → v.line < v.size
    → Perm (slice v.size 0 (place_open v m).schedule) (fixed v.size m ++ jobs v v.line)
place_open-Perm v m f inside =
    let (count, room) = f in
    let s' = (place_open v m).schedule in
    let w = v.size - v.line in
    let b = v.size - m.limit2 in
    let whole : v.size ≡ m.front + (w + b) = omega arith in
    let there : m.front + w ≡ m.limit2 = omega arith in
    let from : 0 + m.front ≡ m.front = omega arith in
    let front_kept : slice m.front 0 s' ≡ slice m.front 0 m.schedule =
      slice_congr m.front 0 s' m.schedule (λ j lo hi. ground arith) in
    let inner : slice w m.front s' ≡ jobs v v.line =
      slice_shift w m.front 0 s' (λ i. absolute (v.job_mat v.line i))
        (λ j hj.
          let offset : m.front + j - m.front ≡ 0 + j = omega arith in
          ground (arith, ap (λ t. absolute (v.job_mat v.line t)) offset)) in
    let back_kept : slice b (m.front + w) s' ≡ slice b m.limit2 m.schedule =
      ap (λ k. slice b k s') there
      ∙ slice_congr b m.limit2 s' m.schedule (λ j lo hi. ground arith) in
    let a = slice m.front 0 m.schedule in
    let z = slice b m.limit2 m.schedule in
    let shape : slice v.size 0 s' ≡ a ++ (jobs v v.line ++ z) =
      ap (λ k. slice k 0 s') whole
      ∙ slice_split m.front (w + b) 0 s'
      ∙ ap (λ k. slice m.front 0 s' ++ slice (w + b) k s') from
      ∙ ap₂ ◌++◌ front_kept (slice_split w b m.front s' ∙ ap₂ ◌++◌ inner back_kept) in
    subst₂ (λ (xs ys : List ℕ). Perm xs ys) (sym shape) (sym (append_assoc a z (jobs v v.line)))
      (Perm.append_left a (append_comm (jobs v v.line) z))

-- Of an explorer with consistent rows, the schedule that `prepareSchedule` decodes is an order of the
-- jobs of the first row.
pub prepare_schedule-Perm :
    (s : Explorer)
    → IsConsistent s.ivm
    → Perm (slice s.ivm.size 0 (prepare_schedule s).node.schedule) (jobs s.ivm 0)
unfolding prepare_schedule slice
prepare_schedule-Perm s h =
    let v = s.ivm in
    let start : Subproblem = record s.node { front = 0; limit2 = v.size } in
    let none_back : v.size - v.size ≡ 0 = omega arith in
    let nothing : fixed v.size start ≡ [] = ap (λ k. slice k v.size start.schedule) none_back in
    let (f, p) =
      place_pointed-Perm v.line 0 v start h (omega arith) (omega arith, omega arith)
        (subst (λ t. Perm (t ++ jobs v 0) (jobs v 0)) (sym nothing) (Perm.refl _)) in
    Perm.trans (place_open-Perm v (place_pointed v.line 0 v start) f h.in_matrix) p
