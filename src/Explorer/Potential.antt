-- ===== src/Explorer/Potential.antt =====
-- How far an explorer has come: a number that every move raises.
use pbbperm.Base.{
  ℕ, zero, suc, ◌+◌, ◌-◌, ◌*◌, ◌≤◌, ◌<◌, ◌≡◌, refl, ap, subst, ◌∙◌, true, false, arith, ltb, write,
  is_negative, ℕ_discrete, ℤ, if◌then◌else◌, mul-add-le_of_lt, is_negative-negative,
}
use pbbperm.Ivm.{Ivm, pruning_cell_state, go_up, go_right, go_down, generate_line, flag_cell}

-- The weight of a position with `r` cells left.
pub coefficient : ℕ → ℕ
coefficient zero = 1
coefficient (suc r) = suc r * coefficient r + 3

-- The weighted positions of `n` lines from `k` on, and how far an explorer has come.
pub climbed : ℕ → ℕ → ℕ → (ℕ → ℕ) → ℕ
climbed size zero k p = 0
climbed size (suc n) k p = p k * coefficient (size - k) + climbed size n (suc k) p

pub progress : Ivm → ℕ
unfolding climbed
progress v = v.line + climbed v.size (suc v.line) 0 v.pos_vect

coefficient-suc : (r : ℕ) → coefficient (suc r) ≡ suc r * coefficient r + 3
unfolding coefficient
coefficient-suc r = refl

coefficient_pos : (r : ℕ) → 0 < coefficient r
unfolding coefficient
coefficient_pos zero = omega arith
coefficient_pos (suc r) = omega arith

climbed_congr :
    (size n k : ℕ) (p q : ℕ → ℕ)
    → ((i : ℕ) → k ≤ i → i < k + n → p i ≡ q i)
    → climbed size n k p ≡ climbed size n k q
unfolding climbed
climbed_congr size zero k p q h = refl
climbed_congr size (suc n) k p q h =
    let rest = climbed_congr size n (suc k) p q (λ i lo hi. h i (omega arith) (omega arith)) in
    let here = ap (λ t. t * coefficient (size - k)) (h k (omega arith) (omega arith)) in
    omega (arith, rest, here)

-- The last line apart.
climbed-last :
    (size n k : ℕ) (p : ℕ → ℕ)
    → climbed size (suc n) k p ≡ climbed size n k p + p (k + n) * coefficient (size - (k + n))
unfolding climbed
climbed-last size zero k p =
    let e : k + 0 ≡ k = omega arith in
    let same = ap (λ t. p t * coefficient (size - t)) e in omega (arith, same)
climbed-last size (suc n) k p =
    let e : suc k + n ≡ k + suc n = omega arith in
    let same = ap (λ t. p t * coefficient (size - t)) e in
    omega (arith, same, climbed-last size n (suc k) p)

-- Positions within their rows have climbed less than the weight of one more cell.
climbed-le :
    (size n k : ℕ) (p : ℕ → ℕ)
    → n + k ≤ size
    → ((i : ℕ) → k ≤ i → i < k + n → p i ≤ size - i)
    → climbed size n k p + n < coefficient (suc (size - k))
unfolding climbed
climbed-le size zero k p h room = omega (arith, coefficient_pos (suc (size - k)))
climbed-le size (suc n) k p h room =
    let rest =
      climbed-le size n (suc k) p (omega arith) (λ i lo hi. room i (omega arith) (omega arith)) in
    let e : suc (size - suc k) ≡ size - k = omega arith in
    let last = ap coefficient e in
    let first = room k (omega arith) (omega arith) in
    let here = mul-add-le_of_lt (p k) (suc (size - k)) (coefficient (size - k)) (omega arith) in
    omega (arith, rest, last, here, coefficient-suc (size - k))

-- What holds of an explorer in the loop of `next`: its line is in the matrix, the lines above point
-- within their rows and the current one at most behind its row, the end is a position, and on the
-- last line the cell is flagged.
pub record IsExploring (v : Ivm) : Type 0 where
  pub in_matrix : v.line < v.size
  pub points : (k : ℕ) → k < v.line → v.pos_vect k < v.size - k
  pub current : v.pos_vect v.line ≤ v.size - v.line
  pub end_first : v.end_vect 0 < v.size
  pub visited : suc v.line ≡ v.size → is_negative (v.job_mat v.line 0) ≡ true

pub progress-le : (v : Ivm) → IsExploring v → progress v < coefficient (suc v.size)
unfolding progress
progress-le v h =
    let e : v.size - 0 ≡ v.size = omega arith in
    let inside = h.in_matrix in
    let below : climbed v.size (suc v.line) 0 v.pos_vect + suc v.line
        < coefficient (suc (v.size - 0)) =
      climbed-le v.size (suc v.line) 0 v.pos_vect (omega arith) (λ i lo hi.
        elim (ℕ_discrete v.line i) [
          | yes here ↦ subst (λ t. v.pos_vect t ≤ v.size - t) here h.current
          | no above ↦ (let less = h.points i (omega arith) in omega arith)
        ]) in
    omega (arith, below, ap (λ t. coefficient (suc t)) e)

climbed-line :
    (size n : ℕ) (p : ℕ → ℕ)
    → climbed size (suc n) 0 p ≡ climbed size n 0 p + p n * coefficient (size - n)
climbed-line size n p =
    let e : 0 + n ≡ n = omega arith in
    climbed-last size n 0 p ∙ ap (λ t. climbed size n 0 p + p t * coefficient (size - t)) e

climbed_step :
    (size n : ℕ) (p q : ℕ → ℕ)
    → ((i : ℕ) → i < n → p i ≡ q i)
    → q n ≡ suc (p n)
    → climbed size (suc n) 0 q ≡ climbed size (suc n) 0 p + coefficient (size - n)
climbed_step size n p q same more = omega (
  arith,
  climbed-line size n p,
  climbed-line size n q,
  climbed_congr size n 0 p q (λ i lo hi. same i (omega arith)),
  ap (λ t. t * coefficient (size - n)) more,
)

coefficient-le : (r d : ℕ) → coefficient r ≤ coefficient (r + d)
unfolding coefficient
coefficient-le r zero = omega (arith, ap coefficient {x = r + 0} {y = r} (omega arith))
coefficient-le r (suc d) = omega (
  arith,
  coefficient-le r d,
  coefficient-suc (r + d),
  ap coefficient {x = r + suc d} {y = suc (r + d)} (omega arith),
  mul-add-le_of_lt 0 (suc (r + d)) (coefficient (r + d)) (omega arith),
)

-- A flagged cell is nearly as good as the next one.
abbrev bonus : Ivm → ℕ
bonus v = if pruning_cell_state v then coefficient (v.size - v.line) - 1 else 0

pub potential : Ivm → ℕ
potential v = progress v + bonus v

bonus_lt : (v : Ivm) → bonus v < coefficient (v.size - v.line)
bonus_lt v = ground (arith, coefficient_pos (v.size - v.line))

-- No explorer comes further than this.
pub limit : ℕ → ℕ
limit size = coefficient (suc size) + coefficient size

pub potential-le : (v : Ivm) → IsExploring v → potential v < limit v.size
unfolding potential limit
potential-le v h =
    let inside = h.in_matrix in
    let whole : (v.size - v.line) + v.line ≡ v.size = omega arith in
    omega (
      arith,
      progress-le v h,
      bonus_lt v,
      coefficient-le (v.size - v.line) v.line,
      ap coefficient whole,
    )

pub potential-go_right : (v : Ivm) → potential v < potential (go_right v)
unfolding potential progress go_right
potential-go_right v =
    let more =
      climbed_step v.size v.line v.pos_vect (go_right v).pos_vect (λ i h. ground arith)
        (ground arith) in
    omega (arith, more, bonus_lt v)

-- What `goUp` makes of an explorer on line `l + 1`.
unfoldable pub raised : Ivm → ℕ → Ivm
raised v l = record v {
  line = l;
  pos_vect = write v.pos_vect (suc l) 0;
  job_mat = flag_cell v.job_mat l (v.pos_vect l);
}

pub go_up-raised : (v : Ivm) (l : ℕ) → v.line ≡ suc l → go_up v ≡ raised v l
unfolding go_up raised
go_up-raised v l e =
    let test : ltb 0 v.line ≡ true = ground arith in
    let up : v.line - 1 ≡ l = omega arith in
    let kept : write v.pos_vect (suc l) 0 l ≡ v.pos_vect l = ground arith in
    rw test (
      rw up (
        rw e (
          ap
            (λ t. record v {
              line = l;
              pos_vect = write v.pos_vect (suc l) 0;
              job_mat = flag_cell v.job_mat l t;
            })
            kept)))

cell_flagged : (v : Ivm) (l : ℕ) → pruning_cell_state (raised v l) ≡ true
unfolding raised pruning_cell_state
cell_flagged v l =
    let kept : write v.pos_vect (suc l) 0 l ≡ v.pos_vect l = ground arith in
    rw kept (ground (arith, is_negative-negative (v.job_mat l (v.pos_vect l))))

pub potential-raised :
    (v : Ivm) (l : ℕ) → v.line ≡ suc l → IsExploring v → potential v < potential (raised v l)
unfolding potential progress raised
potential-raised v l e h =
    let inside = h.in_matrix in
    let current = h.current in
    let p = v.pos_vect in
    let q = write p (suc l) 0 in
    let kept = climbed_congr v.size (suc l) 0 p q (λ i lo hi. ground arith) in
    let c = coefficient (v.size - suc l) in
    let room : v.size - l ≡ suc (v.size - suc l) = omega arith in
    let flag : pruning_cell_state (raised v l) ≡ true = cell_flagged v l in
    let flagged : bonus (raised v l) ≡ coefficient (v.size - l) - 1 = rw flag refl in
    let before : progress v ≡ suc l + climbed v.size (suc (suc l)) 0 p =
      ap (λ t. t + climbed v.size (suc t) 0 p) e in
    omega (
      arith,
      kept,
      flagged,
      before,
      climbed-line v.size (suc l) p,
      ap coefficient room,
      coefficient-suc (v.size - suc l),
      mul-add-le_of_lt (p (suc l)) (suc (v.size - suc l)) c (omega (arith, ap p e)),
      bonus_lt v,
      ap (λ t. coefficient (v.size - t)) e,
    )

pub potential-go_down :
    (v : Ivm) → pruning_cell_state v ≡ false → potential v < progress (go_down v)
unfolding potential progress go_down generate_line
potential-go_down v unflagged =
    let q = (go_down v).pos_vect in
    let none : bonus v ≡ 0 = rw unflagged refl in
    omega (
      arith,
      none,
      climbed-line v.size (suc v.line) q,
      climbed_congr v.size (suc v.line) 0 v.pos_vect q (λ i lo hi. ground arith),
    )

-- The matrix and the directions do not matter for the progress.
pub progress_rows :
    (v : Ivm) (m : ℕ → ℕ → ℤ) (d : ℕ → ℤ)
    → progress (record v { job_mat = m; dir_vect = d }) ≡ progress v
unfolding progress
progress_rows v m d = refl

pub progress-le-potential : (v : Ivm) → progress v ≤ potential v
unfolding potential
progress-le-potential v = omega arith
