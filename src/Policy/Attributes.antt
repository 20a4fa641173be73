-- ===== src/Policy/Attributes.antt =====
-- core/policy.py: the attributes that an agent is issued, and what is anchored with them.
use trustmem.Prelude.{ℕ, String, List, [], ◌∷◌, ◌++◌, map}
use trustmem.Labels.{AgentLabel}
use trustmem.Labels.Lattice.{clearance_level, trust_level}
use trustmem.Topology.{Networkx, Topology, ancestors, descendants}
use trustmem.Prelude.Sorting.{sorted}
use trustmem.Policy.Digits.{decimal}
use trustmem.Policy.Words.{
  is_agent, has_role, has_clearance, at_epoch, on_task, in_group, ancestor_of, descendant_of,
  attribute,
}
use trustmem.Policy.Clauses.{role_value}

module _ (nx : Networkx) where
  unfoldable pub agent_attributes : AgentLabel → Topology nx → List String
  unfolding attribute decimal sorted
  agent_attributes agent topo =
      (attribute is_agent agent.agent_id
        ∷ attribute has_role (role_value agent.role)
        ∷ attribute has_clearance (decimal (clearance_level agent.clearance))
        ∷ attribute at_epoch (decimal agent.epoch)
        ∷ [])
      ++ (map (attribute on_task) (sorted agent.task_domain)
          ++ (map (attribute in_group) (sorted agent.collab_group)
              ++ (map (attribute ancestor_of) (sorted (descendants nx topo agent.agent_id))
                  ++ map (attribute descendant_of) (sorted (ancestors nx topo agent.agent_id)))))

-- What is anchored when a key is issued.
pub record KeyBinding : Type 0 where
  pub agent_id : String
  pub prompt_hash : String
  pub epoch : ℕ
  pub attributes : List String
  pub clearance : ℕ
  pub trust_intrinsic : ℕ

unfoldable pub key_binding_payload : AgentLabel → List String → KeyBinding
unfolding sorted
key_binding_payload agent attrs = record {
  agent_id = agent.agent_id;
  prompt_hash = agent.prompt_hash;
  epoch = agent.epoch;
  attributes = sorted attrs;
  clearance = clearance_level agent.clearance;
  trust_intrinsic = trust_level agent.trust_intrinsic;
}
