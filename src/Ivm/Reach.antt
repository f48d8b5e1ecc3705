-- ===== src/Ivm/Reach.antt =====
-- multicore/src/ivm.cpp: the moves of an explorer as steps.
use pbbperm.Base.{suc, ◌<◌, ◌≡◌, false}
use pbbperm.Ivm.{Ivm, go_right, go_up, go_down, line_end_state}
use pbbperm.Ivm.Jobs.{IsConsistent, go_right-IsConsistent, go_up-IsConsistent, go_down-IsConsistent}

-- One move. The search goes down only above the last line, and not from the end of a row.
pub data Step : Ivm → Ivm → Type 0 where
  right : (v : Ivm) → Step v (go_right v)
  up : (v : Ivm) → Step v (go_up v)
  down : (v : Ivm) → suc v.line < v.size → line_end_state v ≡ false → Step v (go_down v)

-- A sequence of moves.
pub data Steps : Ivm → Ivm → Type 0 where
  stay : (v : Ivm) → Steps v v
  move : {u v w : Ivm} → Step u v → Steps v w → Steps u w

Step-IsConsistent : {v w : Ivm} → Step v w → IsConsistent v → IsConsistent w
Step-IsConsistent {v} (Step.right _) h = go_right-IsConsistent v h
Step-IsConsistent {v} (Step.up _) h = go_up-IsConsistent v h
Step-IsConsistent {v} (Step.down _ above inside) h = go_down-IsConsistent v above inside h

-- Every explorer that moves reach from one with consistent rows has consistent rows: each row down to
-- the line holds the jobs of the row above but the one that is pointed at.
pub Steps-IsConsistent : (v w : Ivm) → Steps v w → IsConsistent v → IsConsistent w
Steps-IsConsistent v _ (Steps.stay _) h = h
Steps-IsConsistent _ w (Steps.move step steps) h =
    Steps-IsConsistent _ w steps (Step-IsConsistent step h)
