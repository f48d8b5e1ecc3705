-- ===== src/Explorer/Start.antt =====
-- An interval that `initAtInterval` accepts is explored to its end.
use pbbperm.Base.{
  ℕ, zero, suc, ◌+◌, ◌-◌, ◌≤◌, ◌<◌, ◌≡◌, refl, ap, subst, inl, inr, Bool, true, false, arith, ltb,
  Option, none, some, if◌then◌else◌, Bool-cases, ℕ_discrete,
}
use pbbperm.Ivm.{Ivm, before_end, generate_line, pruning_cell_state}
use pbbperm.Explorer.{
  Settings, Explorer, weak_bound_prune, compute_weak_bounds, prune, prepare_schedule,
}
use pbbperm.Explorer.Steps.{
  vectors_checked, row_checked, reset_below, unfold_lines, unfold_interval, init_at_interval, drive,
}
use pbbperm.Explorer.Potential.{IsExploring, limit}
use pbbperm.Explorer.Drive.{drive-finishes}

-- All positions are within their rows, and so is the first cell of the end.
record IsWithin (v : Ivm) : Type 0 where
  pub cells : (k : ℕ) → k < v.size → v.pos_vect k < v.size - k
  pub end_first : v.end_vect 0 < v.size

vectors_checked-within :
    (n i : ℕ) (v : Ivm)
    → vectors_checked n i v ≡ true
    → (k : ℕ) → i ≤ k
    → k < i + n
    → (v.pos_vect k < v.size - k) × (v.end_vect k < v.size - k)
unfolding vectors_checked
vectors_checked-within zero i v h k lo hi = absurd (omega arith)
vectors_checked-within (suc n) i v h k lo hi =
    let a : v.pos_vect i < v.size - i = ground arith in
    let b : v.end_vect i < v.size - i = ground arith in
    let rest : vectors_checked n (suc i) v ≡ true = ground arith in
    elim (ℕ_discrete i k) [
      | yes e ↦ subst (λ t. (v.pos_vect t < v.size - t) × (v.end_vect t < v.size - t)) e (a, b)
      | no ne ↦ vectors_checked-within n (suc i) v rest k (omega arith) (omega arith)
    ]

IsExploring-of_within : (v : Ivm) → IsWithin v → suc v.line < v.size → IsExploring v
IsExploring-of_within v h above = record {
  in_matrix = omega arith;
  points = λ k hk. h.cells k (omega arith);
  current = (let c = h.cells v.line (omega arith) in omega arith);
  end_first = h.end_first;
  visited = λ last. absurd (omega arith);
}

reset_below-IsWithin : (v : Ivm) → IsWithin v → IsWithin (reset_below v)
reset_below-IsWithin v h = record {
  cells = λ k hk. ground (arith, h.cells k hk);
  end_first = h.end_first;
}

-- A round of `unfold` does not touch the vectors.
unfold_round-IsWithin :
    (c : Settings) (s : Explorer)
    → IsWithin s.ivm
    → let v = s.ivm in
      let l = suc v.line in
      let below =
        prepare_schedule (record s { ivm = generate_line l false (record v { line = l }) }) in
      let w = (weak_bound_prune c below).ivm in IsWithin w × (w.size ≡ v.size) × (w.line ≡ l)
unfolding weak_bound_prune compute_weak_bounds prune prepare_schedule generate_line
unfold_round-IsWithin c s h = (record { cells = h.cells; end_first = h.end_first }, refl, refl)

-- An exit, or an explorer of the same size that may be driven.
abbrev IsStarted : ℕ → Option Explorer → Type 0
IsStarted size none = Unit
IsStarted size (some t) = IsExploring t.ivm × (t.ivm.size ≡ size)

unfold_lines-IsStarted :
    (n : ℕ) (c : Settings) (s : Explorer)
    → IsWithin s.ivm
    → n + s.ivm.line + 2 ≤ s.ivm.size
    → IsStarted s.ivm.size (unfold_lines n c s)
unfolding unfold_lines
unfold_lines-IsStarted zero c s h room = (IsExploring-of_within s.ivm h (omega arith), refl)
unfold_lines-IsStarted (suc n) c s h room =
    let l = suc s.ivm.line in
    let below =
      prepare_schedule (record s { ivm = generate_line l false (record s.ivm { line = l }) }) in
    let (within, size, line) = unfold_round-IsWithin c s h in
    let next_lines : IsStarted s.ivm.size (unfold_lines n c (weak_bound_prune c below)) =
      subst (λ k. IsStarted k (unfold_lines n c (weak_bound_prune c below))) size
        (unfold_lines-IsStarted n c (weak_bound_prune c below) within (omega arith)) in
    elim (Bool-cases (pruning_cell_state s.ivm)) [
      | inl flagged ↦ rw flagged (
        IsExploring-of_within (reset_below s.ivm) (reset_below-IsWithin s.ivm h) (omega arith),
        refl,
      )
      | inr unflagged ↦
          elim (Bool-cases (row_checked s.ivm.size (s.ivm.size - l) 0 (below.ivm.job_mat l))) [
            | inl fine ↦ rw unflagged (rw fine next_lines)
            | inr invalid ↦ rw unflagged (rw invalid tt)
          ]
    ]

unfold_interval-IsStarted :
    (c : Settings) (s : Explorer)
    → s.ivm.line + 2 ≤ s.ivm.size
    → IsStarted s.ivm.size (unfold_interval c s)
unfolding unfold_interval
unfold_interval-IsStarted c s room =
    let v = s.ivm in
    elim (Bool-cases (vectors_checked v.size 0 v)) [
      | inr wrong ↦ rw wrong tt
      | inl checked ↦
          let cells = vectors_checked-within v.size 0 v checked in
          let first = (cells 0 (omega arith) (omega arith)).1 in
          rw checked (
            unfold_lines-IsStarted (v.size - 2 - v.line) c s
              (record {
                cells = λ k hk. (cells k (omega arith) (omega arith)).0;
                end_first = omega arith;
              })
              (omega arith))
    ]

-- The same with the result of `initAtInterval`.
abbrev IsReady : ℕ → Option (Explorer × Bool) → Type 0
IsReady size none = Unit
IsReady size (some (t, false)) = Unit
IsReady size (some (t, true)) = IsExploring t.ivm × (t.ivm.size ≡ size)

IsStarted-IsReady :
    (size : ℕ) (o : Option Explorer)
    → IsStarted size o
    → IsReady size (elim o [ none ↦ none | some u ↦ some (u, true) ])
IsStarted-IsReady size none h = tt
IsStarted-IsReady size (some u) h = h

init_at_interval-IsReady :
    (c : Settings) (begin end : ℕ → ℕ) (s : Explorer)
    → 2 ≤ s.ivm.size
    → IsReady s.ivm.size (init_at_interval c begin end s)
unfolding init_at_interval
init_at_interval-IsReady c begin end s two =
    let v = s.ivm in
    let w : Ivm = record v {
      line = 0;
      pos_vect = λ i. if ltb i v.size then begin i else v.pos_vect i;
      end_vect = λ i. if ltb i v.size then end i else v.end_vect i;
    } in
    let t : Explorer = record s { ivm = w; simple_bounds = 0 } in
    elim (Bool-cases (before_end w)) [
      | inl more ↦ rw more (
          IsStarted-IsReady v.size (unfold_interval c t)
            (unfold_interval-IsStarted c t (omega arith)))
      | inr done ↦ rw done tt
    ]

-- An interval that `initAtInterval` accepts is explored to its end. Condition: the size is at least 2,
-- `initAtInterval` returns with `true`, and the fuel is above `limit` of the size. Then
-- `while (next());` returns an explorer that is no longer before its end.
pub init_at_interval-drive :
    (fuel : ℕ) (c : Settings) (begin end : ℕ → ℕ) (s t : Explorer)
    → 2 ≤ s.ivm.size
    → init_at_interval c begin end s ≡ some (t, true)
    → limit s.ivm.size < fuel
    → (u : Explorer) × (drive fuel fuel c t ≡ some u) × (before_end u.ivm ≡ false)
init_at_interval-drive fuel c begin end s t two e enough =
    let (exploring, size) =
      subst (IsReady s.ivm.size) e (init_at_interval-IsReady c begin end s two) in
    drive-finishes fuel c t exploring (omega (arith, ap limit size))
