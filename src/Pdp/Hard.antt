-- ===== src/Pdp/Hard.antt =====
-- core/pdp.py: the engine's switches, the visibility of the cognitive layers, and the six checks
-- that no mode lifts.
use mathlib.Core.Option.{get_or}
use trustmem.Prelude.{
  ℕ, String, Bool, true, false, ◌&&◌, ◌||◌, not, Option, none, List, [], ◌∷◌, leb, str_eq, contains,
  intersects, nonempty,
}
use trustmem.Labels.{
  AgentLabel, MemoryLabel, Role, auditor, Layer, directive, conclusion, reasoning, Lifecycle,
  active, agent_in_ttl, memory_in_ttl,
}
use trustmem.Labels.Lattice.{clearance_leb}
use trustmem.Topology.{Networkx, Topology, is_ancestor_of, is_descendant_of}
use trustmem.Session.{Session}
use trustmem.Verdict.{
  allow, Rule, blp_simple_security, need_to_know, cognitive_layer, ttl, epoch, lifecycle, bypass,
  Action, Check, Decision,
}

module _ (nx : Networkx) where
  pub record Pdp : Type 0 where
    pub topo : Topology nx
    pub hide_enabled : Bool
    pub bypass_all : Bool

abbrev pub check : Rule → Bool → Check
check r b = record { rule = r; passed = b }

-- `_bypass`
unfoldable pub bypassed : Action → String → String → Session → Decision
bypassed action subject object sess = record {
  verdict = allow;
  action = action;
  subject = subject;
  object = object;
  checks = check bypass true ∷ [];
  denied_by = none;
  session_id = sess.session_id;
  hideable = true;
  pending_absorb = none;
}

abbrev pub is_auditor : Role → Bool
is_auditor auditor = true
is_auditor r = false

abbrev pub is_active : Lifecycle → Bool
is_active active = true
is_active l = false

module _ (nx : Networkx) where
  unfoldable pub layer_rule : Topology nx → Layer → AgentLabel → MemoryLabel → Bool
  layer_rule topo directive agent mem = is_descendant_of nx topo agent.agent_id mem.owner_agent
  layer_rule topo conclusion agent mem =
      intersects agent.collab_group mem.collab_group
      || is_ancestor_of nx topo agent.agent_id mem.owner_agent
  layer_rule topo reasoning agent mem = is_ancestor_of nx topo agent.agent_id mem.owner_agent

  unfoldable pub layer_readable : Topology nx → AgentLabel → MemoryLabel → Bool
  layer_readable topo agent mem =
      str_eq agent.agent_id mem.owner_agent
      || is_auditor agent.role
      || layer_rule topo mem.layer agent mem

  unfoldable pub ok_need_to_know : AgentLabel → MemoryLabel → Bool
  ok_need_to_know agent mem =
      contains mem.task_binding agent.task_domain
      && (not (nonempty mem.collab_group) || intersects agent.collab_group mem.collab_group)

  unfoldable pub hard_checks : Topology nx → AgentLabel → MemoryLabel → ℕ → Option ℕ → List Check
  hard_checks topo agent mem now epoch_current =
      check blp_simple_security (clearance_leb mem.sensitivity agent.clearance)
      ∷ check need_to_know (ok_need_to_know agent mem)
      ∷ check cognitive_layer (layer_readable topo agent mem)
      ∷ check ttl (agent_in_ttl agent now && memory_in_ttl mem now)
      ∷ check epoch (leb (get_or epoch_current mem.epoch) agent.epoch)
      ∷ check lifecycle (is_active mem.lifecycle)
      ∷ []
