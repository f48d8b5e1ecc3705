-- ===== src/Solution/Best.antt =====
-- What a sequence of updates of the incumbent leaves. The lock makes each call one step, so the
-- updates of several threads are some sequence of them.
use native.Mathlib.Nat.{le_refl}
use pbbperm.Base.{
  ℕ, Option, ◌≤◌, ◌≡◌, refl, List, [], ◌∷◌, arith, ltb, All, Bool-cases, ◌⊎◌, inl, inr, Any,
}
use pbbperm.Solution.{Solution, update, update_cost}

-- A call of `update` or of `updateCost`.
pub data Call : Type 0 where
  update_call : Option (ℕ → ℕ) → ℕ → Call
  cost_call : ℕ → Call

abbrev pub call_cost : Call → ℕ
call_cost (update_call candidate cost) = cost
call_cost (cost_call cost) = cost

-- The incumbent after the calls, the first of the list first.
unfoldable pub after_calls : List Call → Solution → Solution
unfolding update update_cost
after_calls [] s = s
after_calls (update_call candidate cost ∷ calls) s = after_calls calls (update candidate cost s).0
after_calls (cost_call cost ∷ calls) s = after_calls calls (update_cost cost s).0

after_calls-le_initial : (calls : List Call) (s : Solution) → (after_calls calls s).cost ≤ s.cost
unfolding after_calls
after_calls-le_initial [] s = le_refl _
after_calls-le_initial (update_call candidate cost ∷ calls) s =
    ground (arith, after_calls-le_initial calls (update candidate cost s).0)
after_calls-le_initial (cost_call cost ∷ calls) s =
    ground (arith, after_calls-le_initial calls (update_cost cost s).0)

after_calls-le :
    (calls : List Call) (s : Solution) → All (λ k. (after_calls calls s).cost ≤ call_cost k) calls
unfolding after_calls
after_calls-le [] s = tt
after_calls-le (update_call candidate cost ∷ calls) s = (
  ground (arith, after_calls-le_initial calls (update candidate cost s).0),
  after_calls-le calls (update candidate cost s).0,
)
after_calls-le (cost_call cost ∷ calls) s = (
  ground (arith, after_calls-le_initial calls (update_cost cost s).0),
  after_calls-le calls (update_cost cost s).0,
)

after_calls-found :
    (calls : List Call) (s : Solution)
    → ((after_calls calls s).cost ≡ s.cost)
      ⊎ Any (λ k. (after_calls calls s).cost ≡ call_cost k) calls
unfolding after_calls
after_calls-found [] s = inl refl
after_calls-found (update_call candidate cost ∷ calls) s =
    elim (after_calls-found calls (update candidate cost s).0) [
      | inl e ↦ elim (Bool-cases (ltb cost s.cost)) [
        | inl better ↦ inr (inl (ground (arith, e)))
        | inr worse ↦ inl (ground (arith, e))
      ]
      | inr found ↦ inr (inr found)
    ]
after_calls-found (cost_call cost ∷ calls) s =
    elim (after_calls-found calls (update_cost cost s).0) [
      | inl e ↦ elim (Bool-cases (ltb cost s.cost)) [
        | inl better ↦ inr (inl (ground (arith, e)))
        | inr worse ↦ inl (ground (arith, e))
      ]
      | inr found ↦ inr (inr found)
    ]

-- After any sequence of updates the cost of the incumbent is the least of the initial cost and the
-- costs that were offered: it is at most each of them, and is one of them.
pub after_calls-best :
    (calls : List Call) (s : Solution)
    → ((after_calls calls s).cost ≤ s.cost)
      × All (λ k. (after_calls calls s).cost ≤ call_cost k) calls
      × (((after_calls calls s).cost ≡ s.cost)
          ⊎ Any (λ k. (after_calls calls s).cost ≡ call_cost k) calls)
after_calls-best calls s =
    (after_calls-le_initial calls s, after_calls-le calls s, after_calls-found calls s)
