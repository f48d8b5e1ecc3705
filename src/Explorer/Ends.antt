-- ===== src/Explorer/Ends.antt =====
-- The loop of `next` ends, and the exits behind it are not reached.
use pbbperm.Base.{
  ℕ, zero, suc, ◌<◌, ◌≡◌, refl, ap, sym, subst, ◌⊎◌, inl, inr, true, false, arith, Bool-cases,
  is_negative, ℕ_discrete, ℤ, is_negative-negative,
}
use pbbperm.Ivm.{
  Ivm, before_end, line_end_state, pruning_cell_state, is_last_line, go_up, go_right, go_down,
  generate_line, flag_cell,
}
use pbbperm.Ivm.Order.{before_end-first}
use pbbperm.Explorer.{Settings, Explorer, prepare_schedule, bound_leaf}
use pbbperm.Explorer.Steps.{Round, finished, found, again, branch, round}
use pbbperm.Explorer.Potential.{
  IsExploring, potential, progress, raised, go_up-raised, potential-raised, potential-go_right,
  potential-go_down, progress_rows, progress-le-potential,
}

go_right-IsExploring :
    (v : Ivm) → IsExploring v → line_end_state v ≡ false → IsExploring (go_right v)
unfolding go_right line_end_state
go_right-IsExploring v h inside = record {
  in_matrix = h.in_matrix;
  points = λ k hk. ground (arith, h.points k hk);
  current = ground arith;
  end_first = h.end_first;
  visited = h.visited;
}

raised-IsExploring : (v : Ivm) (l : ℕ) → v.line ≡ suc l → IsExploring v → IsExploring (raised v l)
unfolding raised
raised-IsExploring v l e h =
    let inside = h.in_matrix in
    record {
      in_matrix = omega arith;
      points = λ k hk. ground (arith, h.points k (omega arith));
      current = ground (arith, h.points l (omega arith));
      end_first = h.end_first;
      visited = λ last. absurd (omega arith);
    }

-- Where the explorer goes down it is above the last line.
above_last :
    (v : Ivm)
    → IsExploring v
    → line_end_state v ≡ false
    → pruning_cell_state v ≡ false
    → suc v.line < v.size
unfolding line_end_state pruning_cell_state
above_last v h inside unflagged = elim (ℕ_discrete (suc v.line) v.size) [
  | yes last ↦
      let first : v.pos_vect v.line ≡ 0 = ground arith in
      let flagged = h.visited last in
      let other = subst (λ t. is_negative (v.job_mat v.line t) ≡ false) first unflagged in
      absurd (ground arith)
  | no above ↦ (let room = h.in_matrix in omega arith)
]

go_down-IsExploring :
    (v : Ivm)
    → IsExploring v
    → line_end_state v ≡ false
    → suc (suc v.line) < v.size
    → IsExploring (go_down v)
unfolding go_down generate_line line_end_state
go_down-IsExploring v h inside room = record {
  in_matrix = omega arith;
  points = λ k hk. ground (arith, h.points k);
  current = ground arith;
  end_first = h.end_first;
  visited = λ last. absurd (omega arith);
}

flag_cell_lem : (m : ℕ → ℕ → ℤ) (l i : ℕ) → is_negative (flag_cell m l i l i) ≡ true
flag_cell_lem m l i = ground (arith, is_negative-negative (m l i))

-- The last line, with its cell flagged.
leaf-IsExploring :
    (v : Ivm)
    → IsExploring v
    → line_end_state v ≡ false
    → suc (suc v.line) ≡ v.size
    → let w = go_down v in
      IsExploring (record w { job_mat = flag_cell w.job_mat w.line (w.pos_vect w.line) })
unfolding go_down generate_line line_end_state
leaf-IsExploring v h inside last = record {
  in_matrix = omega arith;
  points = λ k hk. ground (arith, h.points k);
  current = ground arith;
  end_first = h.end_first;
  visited = λ e.
      let at : (go_down v).pos_vect (suc v.line) ≡ 0 = ground arith in
      rw at (flag_cell_lem (go_down v).job_mat (suc v.line) 0);
}

last_line : (v : Ivm) → is_last_line (go_down v) ≡ true → suc (suc v.line) ≡ v.size
unfolding is_last_line go_down generate_line
last_line v h = ground arith

not_last_line :
    (v : Ivm) → suc v.line < v.size → is_last_line (go_down v) ≡ false → suc (suc v.line) < v.size
unfolding is_last_line go_down generate_line
not_last_line v above h = ground arith

-- Moving up at the end of a line; the first line does not end before the interval does.
go_up-IsExploring :
    (v : Ivm)
    → IsExploring v
    → before_end v ≡ true
    → line_end_state v ≡ true
    → ((go_up v).size ≡ v.size) × IsExploring (go_up v) × (potential v < potential (go_up v))
unfolding line_end_state
go_up-IsExploring v h more end_line = go v.line refl
  where
    go :
        (l : ℕ)
        → v.line ≡ l
        → ((go_up v).size ≡ v.size) × IsExploring (go_up v) × (potential v < potential (go_up v))
    go zero e =
        let inside = h.in_matrix in
        let first = before_end-first v (omega arith) more in
        let last = h.end_first in let same = ap v.pos_vect e in absurd (ground (arith, same))
    go (suc l) e =
        subst (λ w. (w.size ≡ v.size) × IsExploring w × (potential v < potential w))
          (sym (go_up-raised v l e))
          (unfold raised in refl, raised-IsExploring v l e h, potential-raised v l e h)

-- What a round leaves: the explorer as it was, a node above the last line, or an explorer that
-- has come further.
abbrev pub IsRound : Explorer → Explorer × Round → Type 0
IsRound s (t, r) =
    (t.ivm.size ≡ s.ivm.size)
    × (((r ≡ finished) × (before_end t.ivm ≡ false))
        ⊎ (((r ≡ found)
              × IsExploring t.ivm
              × (suc t.ivm.line < t.ivm.size)
              × (potential s.ivm < progress t.ivm))
            ⊎ ((r ≡ again) × IsExploring t.ivm × (potential s.ivm < potential t.ivm))))

branch-IsRound :
    (c : Settings) (s : Explorer)
    → IsExploring s.ivm
    → line_end_state s.ivm ≡ false
    → pruning_cell_state s.ivm ≡ false
    → IsRound s (branch c s)
unfolding branch prepare_schedule bound_leaf
branch-IsRound c s h inside unflagged =
    let above = above_last s.ivm h inside unflagged in
    let higher = potential-go_down s.ivm unflagged in
    elim (Bool-cases (is_last_line (go_down s.ivm))) [
      | inl last ↦
          let two = last_line s.ivm last in
          let w = go_down s.ivm in
          let m = flag_cell w.job_mat w.line (w.pos_vect w.line) in
          let rises : potential s.ivm < potential (record w { job_mat = m }) = omega (
            arith,
            progress_rows w m w.dir_vect,
            progress-le-potential (record w { job_mat = m }),
          ) in
          rw last (
            unfold go_down in unfold generate_line in refl,
            inr (inr (refl, leaf-IsExploring s.ivm h inside two, rises)),
          )
      | inr not_last ↦
          let room = not_last_line s.ivm above not_last in
          rw not_last (
            unfold go_down in unfold generate_line in refl,
            inr (
                inl (
                  refl,
                  go_down-IsExploring s.ivm h inside room,
                  (unfold go_down in unfold generate_line in room),
                  higher,
                )),
          )
    ]

pub round-IsRound : (c : Settings) (s : Explorer) → IsExploring s.ivm → IsRound s (round c s)
unfolding round
round-IsRound c s h = elim (Bool-cases (before_end s.ivm)) [
  | inr done ↦ rw done (refl, inl (refl, done))
  | inl more ↦ elim (Bool-cases (line_end_state s.ivm)) [
    | inl end_line ↦ rw more (
        rw end_line (
          let (size, exploring, higher) = go_up-IsExploring s.ivm h more end_line in
          (size, inr (inr (refl, exploring, higher)))))
    | inr inside ↦ elim (Bool-cases (pruning_cell_state s.ivm)) [
      | inl flagged ↦ rw more (
          rw inside (
            rw flagged (
              unfold go_right in refl,
              inr (inr (refl, go_right-IsExploring s.ivm h inside, potential-go_right s.ivm)),
            )))
      | inr unflagged ↦ rw more (rw inside (rw unflagged (branch-IsRound c s h inside unflagged)))
    ]
  ]
]
