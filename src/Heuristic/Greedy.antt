-- ===== src/Heuristic/Greedy.antt =====
-- heuristic/src/IG.cpp: the order of the visits, the construction, and the local searches by `kImove`
-- and by `fastBREmove`. A local search in which a move has no result has none.
pub mod Visits
pub mod Searches
use pbbperm.Base.{
  ℕ, zero, suc, ◌+◌, ◌-◌, ◌/◌, Bool, true, false, Option, none, some, ltb, if◌then◌else◌, write,
}
use pbbperm.Flowshop.Vectors.{Instance}
use pbbperm.Heuristic.Best.{best_insert}
use pbbperm.Heuristic.Moves.{Fast, Moved, Floats, heads_of, k_imove, fast_bre_move}

-- `IG`: the loop over the second half, `n` jobs from `i` on, the first at place `ind`
unfoldable pub visit_up : ℕ → ℕ → ℕ → (ℕ → ℕ) → ℕ → ℕ
visit_up zero i ind order = order
visit_up (suc n) i ind order = visit_up n (suc i) (ind + 2) (write order ind i)

-- `IG`: the loop over the first half, the jobs `n - 1` down to 0, the first at place `ind`
unfoldable pub visit_down : ℕ → ℕ → (ℕ → ℕ) → ℕ → ℕ
visit_down zero ind order = order
visit_down (suc n) ind order = visit_down n (ind + 2) (write order ind n)

-- `visitOrder`
unfoldable pub visit_order : ℕ → (ℕ → ℕ) → ℕ → ℕ
unfolding visit_up visit_down
visit_order nb_job memory =
    let start = nb_job / 2 in visit_down start 1 (visit_up (nb_job - start) start 0 memory)

module _ (inst : Instance) (floats : Floats) (memory : ℕ → ℕ) where
  -- `construction`: `n` jobs of `permOut` from `j` on, into a permutation of length `len`
  unfoldable pub construction : ℕ → ℕ → (ℕ → ℕ) → ℕ → (ℕ → ℕ) → Fast → Moved
  unfolding best_insert
  construction zero j perm len perm_out fast = record {
    perm = perm;
    len = len;
    cmax = 0;
    fast = fast;
  }
  construction (suc n) j perm len perm_out fast =
      let done = best_insert inst perm len (perm_out j) fast.tabupos fast.tables in
      construction n (suc j) done.perm done.len perm_out (record fast { tables = done.tables })

  -- A round of either local search: what a move leaves, with the search of the places after it
  unfoldable pub take_move :
      Option Moved
      → ℕ
      → (Fast → Option (Option ((ℕ → ℕ) × ℕ) × Fast))
      → Option (Option ((ℕ → ℕ) × ℕ) × Fast)
  take_move none best rest = none
  take_move (some r) best rest =
      if ltb r.cmax best then some (some (r.perm, r.cmax), r.fast) else rest r.fast

  -- `localSearchKI`: the first neighbour that is better, of `n` places from `j` on
  unfoldable pub better_by_k : ℕ → ℕ → (ℕ → ℕ) → ℕ → ℕ → Fast → Option (Option ((ℕ → ℕ) × ℕ) × Fast)
  unfolding k_imove visit_order take_move
  better_by_k zero j arr best kmax fast = some (none, fast)
  better_by_k (suc n) j arr best kmax fast =
      take_move (k_imove inst floats memory arr (visit_order inst.nb_job memory j) kmax fast) best
        (better_by_k n (suc j) arr best kmax)

  -- `localSearchKI`: at most `n` rounds
  unfoldable pub search_by_k : ℕ → (ℕ → ℕ) → ℕ → ℕ → Fast → Option ((ℕ → ℕ) × ℕ × Fast)
  unfolding better_by_k
  search_by_k zero arr best kmax fast = some (arr, best, fast)
  search_by_k (suc n) arr best kmax fast = elim (better_by_k inst.nb_job 0 arr best kmax fast) [
    | none ↦ none
    | some (none, after) ↦ some (arr, best, after)
    | some (some (tmp, c), after) ↦ search_by_k n tmp c kmax after
  ]

  -- `localSearchKI`: the permutation, the result and the state
  unfoldable pub local_search_ki : (ℕ → ℕ) → ℕ → Fast → Option ((ℕ → ℕ) × ℕ × Fast)
  unfolding search_by_k
  local_search_ki arr kmax fast =
      let (best, headed) = heads_of inst floats memory arr inst.nb_job fast in
      search_by_k 10000 arr best kmax headed

  -- `localSearchBRE`: the first neighbour that is better, of `n` positions from `i` on
  unfoldable pub better_by_move : ℕ → ℕ → (ℕ → ℕ) → ℕ → Fast → Option (Option ((ℕ → ℕ) × ℕ) × Fast)
  unfolding fast_bre_move take_move
  better_by_move zero i arr best fast = some (none, fast)
  better_by_move (suc n) i arr best fast =
      take_move (fast_bre_move inst floats memory arr i fast) best
        (better_by_move n (suc i) arr best)

  -- `localSearchBRE`: at most `n` rounds
  unfoldable pub search_by_move : ℕ → (ℕ → ℕ) → ℕ → Fast → Option ((ℕ → ℕ) × ℕ × Fast)
  unfolding better_by_move
  search_by_move zero arr best fast = some (arr, best, fast)
  search_by_move (suc n) arr best fast = elim (better_by_move inst.nb_job 0 arr best fast) [
    | none ↦ none
    | some (none, after) ↦ some (arr, best, after)
    | some (some (tmp, c), after) ↦ search_by_move n tmp c after
  ]

  -- `localSearchBRE`: the permutation, the result and the state
  unfoldable pub local_search_bre : (ℕ → ℕ) → Fast → Option ((ℕ → ℕ) × ℕ × Fast)
  unfolding search_by_move
  local_search_bre arr fast =
      let (best, headed) = heads_of inst floats memory arr inst.nb_job fast in
      search_by_move 10000 arr best headed
