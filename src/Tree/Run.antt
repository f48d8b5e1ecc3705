-- ===== src/Tree/Run.antt =====
-- A run of the search, from the root to an empty pool.
use mathlib.Core.List.{append-nil}
use pbbperm.Base.{
  ℕ, zero, suc, ◌+◌, ◌-◌, ◌≤◌, ◌<◌, ◌≡◌, refl, ap, ap₂, ◌∙◌, sym, subst, ◌⊎◌, inl, inr, Bool, true,
  false, List, [], ◌∷◌, some, Perm, arith, All, Any, slice, slice_congr, ltb, if◌then◌else◌, ◌++◌,
}
use pbbperm.Flowshop.Vectors.{makespan}
use pbbperm.Flowshop.Admissible.{IsJob}
use pbbperm.Subproblem.{Subproblem, new_subproblem}
use pbbperm.Subproblem.Child.{fixed_front, open_jobs, fixed_back}
use pbbperm.Solution.{Solution, get_best}
use pbbperm.Tree.{Config, Tree, take, next, run, set_root}
use pbbperm.Tree.Below.{Below}
use pbbperm.Tree.Cover.{IsValid}
use pbbperm.Tree.Measure.{weight, total, total-cons, total-nil}
use pbbperm.Tree.Search.{IsSearch, Covers, IsIncumbent, explore-IsSearch}

module _ (c : Config) (root : List ℕ) (initial : Solution) (hm : 0 < c.inst.nb_machines) where
  get_best_known : (s : Solution) (best : ℕ) → s.cost ≤ best → get_best s best ≡ s.cost
  unfolding get_best
  get_best_known s best h = ground arith

  -- What a call of `next` leaves: a lighter pool, or an empty one and `false`.
  abbrev IsAdvance : Tree → Tree × Bool → Type 0
  IsAdvance t (u, more) =
      IsSearch c root initial u
      × (((more ≡ true) × (total u.deq < total t.deq)) ⊎ ((more ≡ false) × (u.deq ≡ [])))

  next-IsAdvance : (t : Tree) → IsSearch c root initial t → IsAdvance t (next c t)
  unfolding next take
  next-IsAdvance t s = go t.deq refl
    where
      best : get_best t.sltn t.local_best ≡ t.sltn.cost
      best = get_best_known t.sltn t.local_best s.known

      go : (pool : List Subproblem) → t.deq ≡ pool → IsAdvance t (next c t)
      go [] e = rw e (
        record {
          valid = tt;
          size = s.size;
          known = omega (arith, best);
          covers = subst (Covers c root initial t.sltn.cost) e s.covers;
          incumbent = s.incumbent;
        },
        inr (refl, refl),
      )
      go (n ∷ rest) e =
          let valid = subst (All (IsValid c.inst root)) e s.valid in
          let (found, lighter) =
            explore-IsSearch c root initial hm n _ valid.0 valid.1 s.size best
              (subst (Covers c root initial t.sltn.cost) e s.covers) s.incumbent in
          rw e (found, inl (refl, lighter))

  run-IsSearch :
      (fuel : ℕ) (t : Tree)
      → IsSearch c root initial t
      → total t.deq < fuel
      → (r : Tree) × (run fuel c t ≡ some r) × (r.deq ≡ []) × IsSearch c root initial r
  unfolding run
  run-IsSearch zero t s h = absurd (omega arith)
  run-IsSearch (suc fuel) t s h =
      let (s', how) = next-IsAdvance t s in
      elim how [
        | inl (more, lighter) ↦
            let (r, e, empty, done) = run-IsSearch fuel (next c t).0 s' (omega arith) in
            (r, rw more e, empty, done)
        | inr (stop, empty) ↦ ((next c t).0, rw stop refl, empty, s')
      ]

module _ (c : Config) (perm : ℕ → ℕ) (t : Tree) (two : 2 ≤ c.inst.nb_job) where
  abbrev jobs : List ℕ
  jobs = slice c.inst.nb_job 0 perm

  abbrev root_node : Subproblem
  root_node =
      let fresh = new_subproblem c.inst.nb_job c.memory in
      record fresh {
        schedule = λ i. if ltb i c.inst.nb_job then perm i else fresh.schedule i;
        cost = 0;
      }

  root-fixed_front : fixed_front root_node ≡ []
  unfolding new_subproblem slice
  root-fixed_front = refl

  root-fixed_back : fixed_back root_node ≡ []
  unfolding new_subproblem slice
  root-fixed_back =
      let none_left : c.inst.nb_job - c.inst.nb_job ≡ 0 = omega arith in
      ap (λ k. slice k c.inst.nb_job root_node.schedule) none_left

  root-open_jobs : open_jobs root_node ≡ jobs
  unfolding new_subproblem
  root-open_jobs =
      let whole : c.inst.nb_job - 0 ≡ c.inst.nb_job = omega arith in
      ap (λ k. slice k 0 root_node.schedule) whole
      ∙ slice_congr c.inst.nb_job 0 _ _
          (λ k lo h. let e : ltb k c.inst.nb_job ≡ true = ground arith in rw e refl)

  -- The leaves below the root are the orders of its jobs.
  root_node-Below : (order : List ℕ) → Perm order jobs → Below root_node order
  root_node-Below order p = record {
    middle = order;
    shape =
        sym (ap₂ (λ f b. f ++ (order ++ b)) root-fixed_front root-fixed_back ∙ append-nil order);
    order = subst (Perm order) (sym root-open_jobs) p;
  }

  Below-root_node : (order : List ℕ) → Below root_node order → Perm order jobs
  Below-root_node order b =
      let e =
        b.shape
        ∙ ap₂ (λ f k. f ++ (b.middle ++ k)) root-fixed_front root-fixed_back
        ∙ append-nil b.middle in
      subst (λ l. Perm l jobs) (sym e) (subst (Perm b.middle) root-open_jobs b.order)

  set_root-IsSearch :
      t.deq ≡ []
      → t.sltn.size ≡ c.inst.nb_job
      → t.sltn.cost ≤ t.local_best
      → IsSearch c jobs t.sltn (set_root c perm t)
  unfolding set_root new_subproblem
  set_root-IsSearch empty size known = record {
    valid = (
      record {
        size = refl;
        opens = omega arith;
        room = omega arith;
        under = λ order b. Below-root_node order b;
        bound = λ order ok b. omega arith;
        exact = λ one. absurd (omega arith);
      },
      subst (All (IsValid c.inst jobs)) (sym empty) tt,
    );
    size = size;
    known = known;
    covers = λ order ok p. inr (inl (root_node-Below order p));
    incumbent = inl refl;
  }

  total-set_root : t.deq ≡ [] → total (set_root c perm t).deq ≡ weight c.inst.nb_job
  unfolding set_root new_subproblem
  total-set_root empty =
      let whole : c.inst.nb_job - 0 ≡ c.inst.nb_job = omega arith in
      total-cons _ _
      ∙ ap (λ k. weight k + total t.deq) whole
      ∙ omega (arith, ap total empty, total-nil)

-- A run from the root ends, and what it ends with is optimal. The problem has a machine and two jobs
-- at least, the pool is empty before the root is set, and the best cost is at least that of the
-- incumbent. With more fuel than the full tree has nodes, `run` returns a tree with an empty pool;
-- its incumbent costs at most the makespan of each order of the root's jobs, and is the initial one
-- or such an order with its makespan.
pub run-set_root :
    (c : Config) (perm : ℕ → ℕ) (t : Tree) (fuel : ℕ) (order : List ℕ)
    → 0 < c.inst.nb_machines
    → 2 ≤ c.inst.nb_job
    → t.deq ≡ []
    → t.sltn.size ≡ c.inst.nb_job
    → t.sltn.cost ≤ t.local_best
    → weight c.inst.nb_job < fuel
    → All (IsJob c.inst) order
    → Perm order (slice c.inst.nb_job 0 perm)
    → (r : Tree) × (run fuel c (set_root c perm t) ≡ some r)
      × (r.deq ≡ [])
      × (r.sltn.cost ≤ makespan c.inst order)
      × IsIncumbent c (slice c.inst.nb_job 0 perm) t.sltn r.sltn
run-set_root c perm t fuel order hm two empty size known enough ok p =
    let root = slice c.inst.nb_job 0 perm in
    let start = set_root-IsSearch c perm t two empty size known in
    let (r, e, done, s) =
      run-IsSearch c root t.sltn hm fuel (set_root c perm t) start
        (omega (arith, total-set_root c perm t two empty)) in
    let best : r.sltn.cost ≤ makespan c.inst order = elim (s.covers order ok p) [
      | inl w ↦ w
      | inr a ↦ absurd (subst (Any (λ m. Below m order)) done a)
    ] in
    (r, e, done, best, s.incumbent)
