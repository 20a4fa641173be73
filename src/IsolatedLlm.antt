-- ===== src/IsolatedLlm.antt =====
-- core/isolated_llm.py: the control-flow budget of a session's questions. A cost is a whole number of
-- bits.
pub mod Queries
pub mod Bounds
pub mod Adapter
use trustmem.Prelude.{
  ℕ, zero, suc, ◌+◌, ◌-◌, ◌≡◌, Bool, true, false, List, [], ◌∷◌, arith, ltb, if◌then◌else◌, ◌⊎◌,
  inr, refl,
}

pub record ControlFlowBudget : Type 0 where
  pub max_bits : ℕ
  pub remaining : ℕ
  pub query_count : ℕ
  pub exhausted : Bool

abbrev pub budget_of : ℕ → ControlFlowBudget
budget_of n = record { max_bits = n; remaining = n; query_count = 0; exhausted = false }

-- `remaining <= 0`
abbrev spent_out : ℕ → Bool
spent_out zero = true
spent_out (suc n) = false

unfoldable pub consume : ControlFlowBudget → ℕ → ControlFlowBudget × Bool
consume b cost =
    if b.exhausted
    then (b, false)
    else if ltb b.remaining cost
    then (record b { exhausted = true }, false)
    else (
      record b {
        remaining = b.remaining - cost;
        query_count = suc b.query_count;
        exhausted = spent_out (b.remaining - cost);
      },
      true,
    )

unfoldable pub reset_budget : ControlFlowBudget → ControlFlowBudget
reset_budget b = record b { remaining = b.max_bits; query_count = 0; exhausted = false }

-- Questions at the given costs, one after the other: the budget after them, the bits granted, and
-- the number of the questions granted.
unfoldable pub consume_all : ControlFlowBudget → List ℕ → ControlFlowBudget × ℕ × ℕ
consume_all b [] = (b, 0, 0)
consume_all b (cost ∷ costs) =
    let (b', granted) = consume b cost in
    let rest = consume_all b' costs in if granted then (rest.0, cost + rest.1, suc rest.2) else rest

-- Whatever the questions cost, the bits granted are exactly those that left the budget, so they
-- never exceed it, and every question granted is counted. Once the budget is exhausted nothing is
-- granted.
pub consume_all_accounted :
    (b : ControlFlowBudget) (costs : List ℕ)
    → ((consume_all b costs).1 + (consume_all b costs).0.remaining ≡ b.remaining)
      × ((consume_all b costs).0.query_count ≡ b.query_count + (consume_all b costs).2)
      × ((b.exhausted ≡ false) ⊎ ((consume_all b costs).2 ≡ 0))
unfolding consume_all consume
consume_all_accounted b [] = (omega arith, omega arith, inr refl)
consume_all_accounted b (cost ∷ costs) =
    ground (arith, consume_all_accounted (consume b cost).0 costs)
