-- ===== src/Policy/Enforcement.antt =====
-- core/policy.py, core/crypto/abe.py, core/pdp.py: what the encryption enforces of the decision
-- point's rules.
use Prim.Native.Char.{Char}
use trustmem.Prelude.{ℕ, Option, Bool, true, ◌&&◌, ◌≡◌, contains, ◌==◌, arith}
use trustmem.Labels.{AgentLabel, MemoryLabel}
use trustmem.Labels.Lattice.{clearance_leb}
use trustmem.Topology.{Networkx, Topology}
use trustmem.Pdp.Hard.{layer_readable}
use trustmem.Abe.Access.{policy_satisfied}
use trustmem.Abe.Formula.{branch, eval_or-put_or}
use trustmem.Policy.Clauses.{policy_from_label}
use trustmem.Policy.Formulas.{all_list, policy_atoms}
use trustmem.Policy.Texts.{IsNamed, policy_tokens}
use trustmem.Policy.Values.{grouped, issued, not_empty, policy_value}
use trustmem.Verdict.{all_passed}
use trustmem.Pdp.Hard.{hard_checks, ok_need_to_know}

module _ (nx : Networkx) (agent : AgentLabel) (topo : Topology nx) where
  module _ (is_alphanumeric : Char → Bool) (mem : MemoryLabel) where
    -- Where the names in a memory's label are words, an agent's attributes satisfy the memory's
    -- policy exactly when its clearance reaches the sensitivity, the task is one of its own, it
    -- shares a group with the memory (unless that has none, or is a conclusion), the decision
    -- point's rule on layers admits it, and the two epochs are the same.
    pub policy_satisfied_exactly :
        IsNamed is_alphanumeric mem
        → policy_satisfied is_alphanumeric (policy_from_label mem) (issued nx agent topo) ≡ (
            clearance_leb mem.sensitivity agent.clearance
            && (contains mem.task_binding agent.task_domain
                && (grouped nx agent topo mem.layer mem
                    && (layer_readable nx topo agent mem && agent.epoch == mem.epoch))))
    unfolding policy_satisfied
    policy_satisfied_exactly named =
        let text = policy_tokens is_alphanumeric mem named in
        let run =
          eval_or-put_or (issued nx agent topo) (branch (all_list (policy_atoms mem))) (text.1) in
        rw (text.0, not_empty is_alphanumeric mem named, run) (policy_value nx agent topo mem)

    -- Where the names in a memory's label are words: an agent that passes the decision point's hard
    -- checks on the memory, and whose epoch is the memory's, satisfies the memory's policy.
    pub hard_checks-policy_satisfied :
        (now : ℕ) (epoch_current : Option ℕ)
        → IsNamed is_alphanumeric mem
        → all_passed (hard_checks nx topo agent mem now epoch_current) ≡ true
        → agent.epoch ≡ mem.epoch
        → policy_satisfied is_alphanumeric (policy_from_label mem) (issued nx agent topo) ≡ true
    unfolding hard_checks ok_need_to_know
    hard_checks-policy_satisfied now epoch_current named passed same =
        ground (arith, policy_satisfied_exactly named, passed, same)
