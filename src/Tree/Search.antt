-- ===== src/Tree/Search.antt =====
-- The search: what each `next` keeps, and what a run ends with.
use pbbperm.Base.{
  some, ℕ, suc, ◌+◌, ◌-◌, ◌*◌, ◌≤◌, ◌<◌, ◌≡◌, refl, ap, ◌∙◌, sym, subst, ◌⊎◌, inl, inr, true, false,
  List, [], ◌∷◌, Perm, arith, ltb, All, Any, Bool-cases, slice, slice_congr, if◌then◌else◌,
}
use pbbperm.Flowshop.Vectors.{makespan}
use pbbperm.Flowshop.Admissible.{IsJob}
use pbbperm.Subproblem.{Subproblem, leaf}
use pbbperm.Solution.{Solution, copied, update}
use pbbperm.Tree.{Config, Tree, bound, improve, decompose_fast, insert, explore}
use pbbperm.Tree.Below.{Below}
use pbbperm.Tree.Cover.{IsValid, Below-leaf, Below-own, jobs_of}
use pbbperm.Tree.Measure.{open_count, total, total-cons, total-insert-le, weight_pos}
use pbbperm.Tree.Decompose.{decompose_fast-IsSplit}

module _ (c : Config) (root : List ℕ) (initial : Solution) where
  -- Every order of the root's jobs costs at least `best` or is below a node of the pool.
  abbrev pub Covers : ℕ → List Subproblem → Type 0
  Covers best pool =
      (jobs : List ℕ)
      → All (IsJob c.inst) jobs
      → Perm jobs root
      → (best ≤ makespan c.inst jobs) ⊎ Any (λ m. Below m jobs) pool

  -- The incumbent is still the initial one, or an order of the root's jobs with its makespan.
  abbrev pub IsIncumbent : Solution → Type 0
  IsIncumbent s =
      (s ≡ initial)
      ⊎ ((s.cost ≡ makespan c.inst (slice s.size 0 s.perm)) × Perm (slice s.size 0 s.perm) root)

  -- What holds between two calls of `next`.
  pub record IsSearch (t : Tree) : Type 0 where
    pub valid : All (IsValid c.inst root) t.deq
    pub size : t.sltn.size ≡ c.inst.nb_job
    pub known : t.sltn.cost ≤ t.local_best
    pub covers : Covers t.sltn.cost t.deq
    pub incumbent : IsIncumbent t.sltn

  -- A better candidate replaces the incumbent.
  updated : (ℕ → ℕ) → ℕ → Solution → Solution
  updated candidate cost s = record s {
    cost = cost;
    perm = λ i. if ltb i s.size then candidate i else s.perm i;
  }

  update-updated :
      (candidate : ℕ → ℕ) (cost : ℕ) (s : Solution)
      → cost < s.cost
      → (update (some candidate) cost s).0 ≡ updated candidate cost s
  unfolding update updated copied
  update-updated candidate cost s h = let e : ltb cost s.cost ≡ true = ground arith in rw e refl

  updated-perm :
      (candidate : ℕ → ℕ) (cost : ℕ) (s : Solution)
      → slice s.size 0 (updated candidate cost s).perm ≡ slice s.size 0 candidate
  unfolding updated
  updated-perm candidate cost s =
      slice_congr s.size 0 _ _ (λ k lo h. let e : ltb k s.size ≡ true = ground arith in rw e refl)

  insert-IsValid :
      (ns : List Subproblem) (best : ℕ) (pool : List Subproblem)
      → All (IsValid c.inst root) ns
      → All (IsValid c.inst root) pool
      → All (IsValid c.inst root) (insert ns best pool)
  unfolding insert
  insert-IsValid [] best pool h h' = h'
  insert-IsValid (n ∷ ns) best pool h h' = elim (Bool-cases (ltb n.cost best)) [
    | inl e ↦ rw e (h.0, insert-IsValid ns best pool h.1 h')
    | inr e ↦ rw e (insert-IsValid ns best pool h.1 h')
  ]

  insert-kept :
      (ns : List Subproblem) (best : ℕ) (pool : List Subproblem) (jobs : List ℕ)
      → Any (λ m. Below m jobs) pool
      → Any (λ m. Below m jobs) (insert ns best pool)
  unfolding insert
  insert-kept [] best pool jobs h = h
  insert-kept (n ∷ ns) best pool jobs h = elim (Bool-cases (ltb n.cost best)) [
    | inl e ↦ rw e (inr (insert-kept ns best pool jobs h))
    | inr e ↦ rw e (insert-kept ns best pool jobs h)
  ]

  insert-cover :
      (ns : List Subproblem) (best : ℕ) (pool : List Subproblem) (jobs : List ℕ)
      → All (IsValid c.inst root) ns
      → All (IsJob c.inst) jobs
      → Any (λ m. Below m jobs) ns
      → (best ≤ makespan c.inst jobs) ⊎ Any (λ m. Below m jobs) (insert ns best pool)
  unfolding insert
  insert-cover [] best pool jobs h ok b = absurd b
  insert-cover (n ∷ ns) best pool jobs h ok b = elim (Bool-cases (ltb n.cost best)) [
    | inl e ↦ rw e (elim b [
      | inl here ↦ inr (inl here)
      | inr there ↦ elim (insert-cover ns best pool jobs h.1 ok there) [
        | inl w ↦ inl w
        | inr a ↦ inr (inr a)
      ]
    ])
    | inr e ↦ rw e (elim b [
      | inl here ↦ let below = h.0.bound jobs ok here in inl (ground arith)
      | inr there ↦ insert-cover ns best pool jobs h.1 ok there
    ])
  ]

  module _ (hm : 0 < c.inst.nb_machines) (n : Subproblem) (t : Tree) (v : IsValid c.inst root n)
      (valid : All (IsValid c.inst root) t.deq) (size : t.sltn.size ≡ c.inst.nb_job)
      (agrees : t.local_best ≡ t.sltn.cost) (covers : Covers t.sltn.cost (n ∷ t.deq))
      (incumbent : IsIncumbent t.sltn) where
    -- The tree keeps the invariant, and the pool weighs less than with the node in it.
    abbrev IsStep : Tree → Type 0
    IsStep u = IsSearch u × (total u.deq < total (n ∷ t.deq))

    pruned-IsStep : bound n t.local_best ≡ false → IsStep t
    unfolding bound
    pruned-IsStep e = (
      record {
        valid = valid;
        size = size;
        known = omega arith;
        covers = λ jobs ok p. elim (covers jobs ok p) [
          | inl w ↦ inl w
          | inr (inl here) ↦ let below = v.bound jobs ok here in inl (ground arith)
          | inr (inr there) ↦ inr there
        ];
        incumbent = incumbent;
      },
      omega (arith, total-cons n t.deq, weight_pos (open_count n)),
    )

    leaf-IsStep :
        bound n t.local_best ≡ true
        → leaf n ≡ true
        → IsStep (improve n (record t { leaves = suc t.leaves }))
    unfolding bound leaf improve updated
    leaf-IsStep better is_leaf =
        let one : n.limit2 ≡ suc n.front = ground arith in
        let cheaper : n.cost < t.sltn.cost = ground arith in
        let upd = update-updated n.schedule n.cost t.sltn cheaper in
        let now : (update (some n.schedule) n.cost t.sltn).0.cost ≡ n.cost =
          ap (λ s. s.cost) upd ∙ unfold updated in refl in
        let same : slice t.sltn.size 0 (updated n.schedule n.cost t.sltn).perm ≡ jobs_of n =
          updated-perm n.schedule n.cost t.sltn
          ∙ ap (λ k. slice k 0 n.schedule) (size ∙ sym v.size) in
        let opens = v.opens in
        (
          record {
            valid = valid;
            size = ap (λ s. s.size) upd ∙ (unfold updated in size);
            known = omega (arith, now);
            covers = λ jobs ok p. elim (covers jobs ok p) [
              | inl w ↦ inl (omega (arith, now))
              | inr (inl here) ↦
                  let value = v.exact one in
                  let same = ap (makespan c.inst) (Below-leaf n jobs one v.room here) in
                  inl (omega (arith, now))
              | inr (inr there) ↦ inr there
            ];
            incumbent = inr (
                subst
                  (λ s.
                    (s.cost ≡ makespan c.inst (slice s.size 0 s.perm))
                    × Perm (slice s.size 0 s.perm) root)
                  (sym upd)
                  (
                    v.exact one ∙ ap (makespan c.inst) (sym same),
                    subst (λ l. Perm l root) (sym same)
                        (v.under (jobs_of n) (Below-own n (omega arith) v.room)),
                  ));
          },
          omega (arith, total-cons n t.deq, weight_pos (open_count n)),
        )

    branched-IsStep :
        leaf n ≡ false
        → let r = decompose_fast c n t in
          let u = r.1 in
          IsSearch (record u {
            deq = insert r.0 u.local_best u.deq;
            tot_decomposed = suc u.tot_decomposed;
            simple_bounds = u.simple_bounds + 2 * (n.limit2 - n.front);
          })
          × (total (insert r.0 u.local_best u.deq) < total (n ∷ t.deq))
    branched-IsStep not_leaf =
        let (split, pool, sol, best) = decompose_fast-IsSplit c root hm n v t not_leaf in
        let r = decompose_fast c n t in
        let u = r.1 in
        let cost : u.sltn.cost ≡ t.sltn.cost = ap (λ s. s.cost) sol in
        (
          record {
            valid =
                insert-IsValid r.0 u.local_best u.deq split.valid
                  (subst (All (IsValid c.inst root)) (sym pool) valid);
            size = ap (λ s. s.size) sol ∙ size;
            known = omega arith;
            covers = λ jobs ok p. elim (covers jobs ok p) [
              | inl w ↦ inl (omega arith)
              | inr (inl here) ↦ elim (split.cover jobs ok here) [
                | inl w ↦ inl (omega arith)
                | inr a ↦ elim (insert-cover r.0 u.local_best u.deq jobs split.valid ok a) [
                  | inl w ↦ inl (omega arith)
                  | inr b ↦ inr b
                ]
              ]
              | inr (inr there) ↦ inr (
                  insert-kept r.0 u.local_best u.deq jobs
                    (subst (Any (λ m. Below m jobs)) (sym pool) there))
            ];
            incumbent = subst IsIncumbent (sym sol) incumbent;
          },
          let lighter = split.lighter in
              omega
                (arith, total-cons n t.deq, ap total pool, total-insert-le r.0 u.local_best u.deq),
        )

    -- Exploring a node of a pool keeps the invariant, and the pool gets lighter.
    pub explore-IsSearch : IsStep (explore c n t)
    unfolding explore
    explore-IsSearch = elim (Bool-cases (bound n t.local_best)) [
      | inr e ↦ rw e (pruned-IsStep e)
      | inl e ↦ elim (Bool-cases (leaf n)) [
        | inl e' ↦ rw e (rw e' (leaf-IsStep e e'))
        | inr e' ↦ rw e (rw e' (branched-IsStep e'))
      ]
    ]
