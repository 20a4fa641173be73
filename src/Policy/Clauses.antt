-- ===== src/Policy/Clauses.antt =====
-- core/policy.py: the policy of a memory, as a text.
use Prim.Native.String.{◌++◌ as append}
use trustmem.Prelude.{ℕ, zero, suc, ◌-◌, String, List, [], ◌∷◌, ◌++◌, map}
use trustmem.Labels.{
  MemoryLabel, Role, planner, retriever, analyst, executor, auditor, external, Layer, directive,
  conclusion, reasoning,
}
use trustmem.Labels.Lattice.{clearance_level}
use trustmem.Prelude.Sorting.{sorted}
use trustmem.Policy.Digits.{decimal}
use trustmem.Policy.Words.{
  Tag, is_agent, has_role, has_clearance, at_epoch, on_task, in_group, ancestor_of, descendant_of,
  attribute,
}

-- `role.value`
abbrev pub role_value : Role → String
role_value planner = "Planner"
role_value retriever = "Retriever"
role_value analyst = "Analyst"
role_value executor = "Executor"
role_value auditor = "Auditor"
role_value external = "External"

-- `sep.join(parts)`
unfoldable pub join : String → List String → String
join sep [] = ""
join sep (s ∷ []) = s
join sep (s ∷ t ∷ parts) = append s (append sep (join sep (t ∷ parts)))

unfoldable pub parenthesised : List String → String
unfolding join
parenthesised parts = append "(" (append (join " or " parts) ")")

-- `range(lo, lo + n)`
unfoldable pub range : ℕ → ℕ → List ℕ
range lo zero = []
range lo (suc n) = lo ∷ range (suc lo) n

-- The alternatives of a memory's collaboration groups, as one clause, or none.
unfoldable pub group_clauses : List String → List String
unfolding parenthesised sorted
group_clauses [] = []
group_clauses (g ∷ groups) = parenthesised (map (attribute in_group) (sorted (g ∷ groups))) ∷ []

abbrev pub readers : Tag → String → List String
readers relation owner =
    attribute is_agent owner
    ∷ attribute relation owner
    ∷ attribute has_role (role_value auditor)
    ∷ []

unfoldable pub layer_clauses : Layer → String → List String → List String
unfolding group_clauses attribute
layer_clauses reasoning owner groups =
    group_clauses groups ++ (parenthesised (readers ancestor_of owner) ∷ [])
layer_clauses directive owner groups =
    group_clauses groups ++ (parenthesised (readers descendant_of owner) ∷ [])
layer_clauses conclusion owner groups =
    parenthesised (group_clauses groups ++ readers ancestor_of owner) ∷ []

unfoldable pub policy_clauses : MemoryLabel → List String
unfolding layer_clauses decimal range
policy_clauses mem =
    let level = clearance_level mem.sensitivity in
    parenthesised (map (λ i. attribute has_clearance (decimal i)) (range level (4 - level)))
    ∷ attribute on_task mem.task_binding
    ∷ (layer_clauses mem.layer mem.owner_agent mem.collab_group
        ++ (attribute at_epoch (decimal mem.epoch) ∷ []))

unfoldable pub policy_from_label : MemoryLabel → String
unfolding policy_clauses join
policy_from_label mem = join " and " (policy_clauses mem)
