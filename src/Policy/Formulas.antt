-- ===== src/Policy/Formulas.antt =====
-- core/policy.py: the text of a policy as a formula.
use trustmem.Prelude.{ℕ, ◌-◌, String, List, [], ◌∷◌, ◌++◌, map}
use trustmem.Prelude.Sorting.{sorted}
use trustmem.Labels.{MemoryLabel, Layer, directive, conclusion, reasoning, auditor}
use trustmem.Labels.Lattice.{clearance_level}
use trustmem.Abe.Formula.{Atom, word, group, Conjunction, atom, both, Disjunction, branch, either}
use trustmem.Policy.Words.{
  Tag, is_agent, has_role, has_clearance, at_epoch, on_task, in_group, ancestor_of, descendant_of,
  attribute,
}
use trustmem.Policy.Digits.{decimal}
use trustmem.Policy.Clauses.{role_value, range}

-- Both have a meaning for lists that are not empty.
unfoldable pub all_list : List Atom → Conjunction
all_list [] = atom (word "")
all_list (a ∷ []) = atom a
all_list (a ∷ b ∷ atoms) = both a (all_list (b ∷ atoms))

unfoldable pub any_list : List Atom → Disjunction
any_list [] = branch (atom (word ""))
any_list (a ∷ []) = branch (atom a)
any_list (a ∷ b ∷ atoms) = either (atom a) (any_list (b ∷ atoms))

abbrev pub words : Tag → List String → List Atom
words t values = map (λ v. word (attribute t v)) values

unfoldable pub group_atoms : List String → List Atom
unfolding any_list
group_atoms [] = []
group_atoms (g ∷ groups) = group (any_list (words in_group (sorted (g ∷ groups)))) ∷ []

abbrev pub reader_atoms : Tag → String → List Atom
reader_atoms relation owner =
    word (attribute is_agent owner)
    ∷ word (attribute relation owner)
    ∷ word (attribute has_role (role_value auditor))
    ∷ []

unfoldable pub layer_atoms : Layer → String → List String → List Atom
unfolding group_atoms any_list
layer_atoms reasoning owner groups =
    group_atoms groups ++ (group (any_list (reader_atoms ancestor_of owner)) ∷ [])
layer_atoms directive owner groups =
    group_atoms groups ++ (group (any_list (reader_atoms descendant_of owner)) ∷ [])
layer_atoms conclusion owner groups =
    group (any_list (group_atoms groups ++ reader_atoms ancestor_of owner)) ∷ []

abbrev pub numbers : Tag → List ℕ → List Atom
numbers t ns = map (λ n. word (attribute t (decimal n))) ns

unfoldable pub policy_atoms : MemoryLabel → List Atom
unfolding layer_atoms any_list
policy_atoms mem =
    let level = clearance_level mem.sensitivity in
    group (any_list (numbers has_clearance (range level (4 - level))))
    ∷ word (attribute on_task mem.task_binding)
    ∷ (layer_atoms mem.layer mem.owner_agent mem.collab_group
        ++ (word (attribute at_epoch (decimal mem.epoch)) ∷ []))
