-- ===== src/Explorer/Drive.antt =====
-- `next` and the loop that drives it end, whatever the bounds flag.
use pbbperm.Base.{
  ℕ, zero, suc, ◌+◌, ◌-◌, ◌≤◌, ◌<◌, ◌≡◌, refl, ap, ◌∙◌, ◌⊎◌, inl, inr, Bool, true, false, arith,
  leb, Option, none, some, if◌then◌else◌,
}
use pbbperm.Ivm.{before_end}
use pbbperm.Solution.{get_best}
use pbbperm.Explorer.{Settings, Explorer, weak_bound_prune, compute_weak_bounds, prune}
use pbbperm.Explorer.Steps.{round, rounds, conclude, next, drive}
use pbbperm.Explorer.Potential.{
  IsExploring, potential, progress, limit, potential-le, progress_rows, progress-le-potential,
}
use pbbperm.Explorer.Ends.{round-IsRound}

-- What the loop of `next` leaves: a finished interval, or a node above the last line.
abbrev IsRounds : Explorer → Explorer × Bool → Type 0
IsRounds s (t, more) =
    (t.ivm.size ≡ s.ivm.size)
    × (((more ≡ false) × (before_end t.ivm ≡ false))
        ⊎ ((more ≡ true)
            × IsExploring t.ivm
            × (suc t.ivm.line < t.ivm.size)
            × (potential s.ivm < progress t.ivm)))

rounds-IsRounds :
    (fuel : ℕ) (c : Settings) (s : Explorer)
    → IsExploring s.ivm
    → limit s.ivm.size ≤ potential s.ivm + fuel
    → (t : Explorer) × (more : Bool) × (rounds fuel c s ≡ some (t, more)) × IsRounds s (t, more)
unfolding rounds
rounds-IsRounds zero c s h enough = absurd (omega (arith, potential-le s.ivm h))
rounds-IsRounds (suc fuel) c s h enough =
    let (size, how) = round-IsRound c s h in
    elim how [
      | inl (r, done) ↦ ((round c s).0, false, rw r refl, (size, inl (refl, done)))
      | inr (inl (r, exploring, above, higher)) ↦
          ((round c s).0, true, rw r refl, (size, inr (refl, exploring, above, higher)))
      | inr (inr (r, exploring, higher)) ↦
          let (t, more, e, (size', rest)) =
            rounds-IsRounds fuel c (round c s).0 exploring (omega (arith, ap limit size)) in
          (
            t,
            more,
            rw r e,
            (
              size' ∙ size,
              elim rest [
                | inl done ↦ inl done
                | inr (m, exploring', above, higher') ↦ inr (m, exploring', above, omega arith)
              ],
            ),
          )
    ]

weak_bound_prune-IsExploring :
    (c : Settings) (s : Explorer)
    → IsExploring s.ivm
    → suc s.ivm.line < s.ivm.size
    → let v = (weak_bound_prune c s).ivm in
      IsExploring v × (v.size ≡ s.ivm.size) × (v.line ≡ s.ivm.line) × (progress v ≡ progress s.ivm)
unfolding weak_bound_prune compute_weak_bounds prune
weak_bound_prune-IsExploring c s h above = (
  record {
    in_matrix = h.in_matrix;
    points = h.points;
    current = h.current;
    end_first = h.end_first;
    visited = λ last. absurd (omega arith);
  },
  refl,
  refl,
  progress_rows s.ivm _ _,
)

-- What a call of `next` leaves: a finished interval, or an explorer that has come further.
abbrev IsNext : Explorer → Explorer × Bool → Type 0
IsNext s (t, more) =
    (t.ivm.size ≡ s.ivm.size)
    × (((more ≡ false) × (before_end t.ivm ≡ false))
        ⊎ ((more ≡ true) × IsExploring t.ivm × (potential s.ivm < potential t.ivm)))

next-rounds :
    (fuel : ℕ) (c : Settings) (s : Explorer) (r : Explorer × Bool)
    → rounds fuel c (record s { local_best = get_best s.sltn 2147483647 }) ≡ some r
    → next fuel c s ≡ conclude c r
unfolding next
next-rounds fuel c s r e =
    let f : Option (Explorer × Bool) → Option (Explorer × Bool) =
      λ o. elim o [ none ↦ none | some q ↦ conclude c q ] in
    ap f e

drive-next :
    (calls fuel : ℕ) (c : Settings) (s t : Explorer) (more : Bool)
    → next fuel c s ≡ some (t, more)
    → drive (suc calls) fuel c s ≡ (if more then drive calls fuel c t else some t)
unfolding drive
drive-next calls fuel c s t more e =
    let f : Option (Explorer × Bool) → Option Explorer = λ o. elim o [
      | none ↦ none
      | some (s', again') ↦ let rest = drive calls fuel c s' in if again' then rest else some s'
    ] in
    ap f e

next-IsNext :
    (fuel : ℕ) (c : Settings) (s : Explorer)
    → IsExploring s.ivm
    → limit s.ivm.size ≤ fuel
    → (t : Explorer) × (more : Bool) × (next fuel c s ≡ some (t, more)) × IsNext s (t, more)
unfolding conclude
next-IsNext fuel c s h enough =
    let start : Explorer = record s { local_best = get_best s.sltn 2147483647 } in
    let (t, more, e, (size, how)) = rounds-IsRounds fuel c start h (omega arith) in
    elim how [
      | inl (stop, done) ↦
          (t, false, next-rounds fuel c s (t, more) e ∙ rw stop refl, (size, inl (refl, done)))
      | inr (go, exploring, above, higher) ↦
          let (pruned, same, line, progress') = weak_bound_prune-IsExploring c t exploring above in
          let u = weak_bound_prune c t in
          let deep : leb (u.ivm.size - 1) u.ivm.line ≡ false = ground arith in
          (
            u,
            true,
            next-rounds fuel c s (t, more) e ∙ rw go (rw deep refl),
            (
              same ∙ size,
              inr (refl, pruned, omega (arith, progress', progress-le-potential u.ivm)),
            ),
          )
    ]

drive_from :
    (calls fuel : ℕ) (c : Settings) (s : Explorer)
    → IsExploring s.ivm
    → limit s.ivm.size ≤ fuel
    → limit s.ivm.size < potential s.ivm + calls
    → (t : Explorer) × (drive calls fuel c s ≡ some t) × (before_end t.ivm ≡ false)
drive_from zero fuel c s h enough room = absurd (omega (arith, potential-le s.ivm h))
drive_from (suc calls) fuel c s h enough room =
    let (t, more, e, (size, how)) = next-IsNext fuel c s h enough in
    elim how [
      | inl (stop, done) ↦ (t, drive-next calls fuel c s t more e ∙ rw stop refl, done)
      | inr (go, exploring, higher) ↦
          let (u, e', done) =
            drive_from calls fuel c t exploring (omega (arith, ap limit size))
              (omega (arith, ap limit size)) in
          (u, drive-next calls fuel c s t more e ∙ rw go e', done)
    ]

-- An exploration ends, and reaches none of the exits. Condition: the line of the explorer is in the
-- matrix, the lines above point within their rows, the current one at most behind its row, the first
-- cell of the end is within its row, and on the last line the cell is flagged. With a fuel above
-- `limit` of the size for the calls and for each call, `while (next());` returns an explorer that is
-- no longer before its end, whatever the bounds and the settings.
pub drive-finishes :
    (fuel : ℕ) (c : Settings) (s : Explorer)
    → IsExploring s.ivm
    → limit s.ivm.size < fuel
    → (t : Explorer) × (drive fuel fuel c s ≡ some t) × (before_end t.ivm ≡ false)
drive-finishes fuel c s h enough = drive_from fuel fuel c s h (omega arith) (omega arith)
