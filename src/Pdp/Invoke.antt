-- ===== src/Pdp/Invoke.antt =====
-- core/pdp.py: `can_invoke`.
use mathlib.Core.Option.{get_or}
use trustmem.Prelude.{
  String, Bool, true, false, ◌&&◌, ◌||◌, not, Option, none, some, List, [], ◌∷◌, ◌++◌,
  if◌then◌else◌, str_eq, contains, nonempty, lookup, any,
}
use trustmem.Labels.{
  AgentLabel, MemoryLabel, Clearance, l0_public, Trust, t3_high, tool_required_trust, egress_tools,
  egress_readers,
}
use trustmem.Labels.Lattice.{trust_leb, clearance_leb, meet_trust, trusts, max_clearance}
use trustmem.Topology.{Networkx}
use trustmem.Session.{Session, has_hitl}
use trustmem.Capability.{CapabilityLevel, dangerous_level, system_level, capability_level}
use trustmem.Verdict.{
  Verdict, allow, confirm, deny, tool_scope, p_t_control_flow, p_t_provenance, p_t_consult_derived,
  flow_egress, flow_egress_args, system_capability, human_in_the_loop, Denial, by_rule, invoke,
  Check, Decision, all_passed, first_failed,
}
use trustmem.Pdp.Hard.{Pdp, check, bypassed}

pub record InvokeCall : Type 0 where
  pub agent : AgentLabel
  pub tool : String
  pub action_fingerprint : String
  pub provenance : List MemoryLabel
  pub arg_labels : List MemoryLabel

-- `TOOL_REQUIRED_TRUST.get(tool, Trust.T3_HIGH)`
unfoldable pub required_trust : String → Trust
required_trust tool = get_or (lookup tool tool_required_trust) t3_high

-- `EGRESS_READERS.get(tool)`, or L0 where it is not registered.
unfoldable pub egress_readers_of : String → Clearance
egress_readers_of tool = get_or (lookup tool egress_readers) l0_public

-- `max(int(m.sensitivity) for m in arg_labels)`
unfoldable pub max_sensitivity : List MemoryLabel → Clearance
max_sensitivity [] = l0_public
max_sensitivity (x ∷ xs) = max_clearance x.sensitivity (max_sensitivity xs)

unfoldable pub provenance_checks : InvokeCall → List Check
provenance_checks c =
    if nonempty c.provenance
    then check p_t_provenance (trust_leb (required_trust c.tool) (meet_trust (trusts c.provenance)))
      ∷ check p_t_consult_derived (not (any (λ x. x.derived_from_consult) c.provenance))
      ∷ []
    else check p_t_provenance true ∷ []

unfoldable pub egress_checks : InvokeCall → Session → List Check
egress_checks c sess =
    if contains c.tool egress_tools
    then check flow_egress (clearance_leb sess.c_eff (egress_readers_of c.tool))
      ∷ (if nonempty c.arg_labels
          then check flow_egress_args
              (clearance_leb (max_sensitivity c.arg_labels) (egress_readers_of c.tool))
            ∷ []
          else [])
    else check flow_egress true ∷ []

unfoldable pub hard_invoke_checks : InvokeCall → Session → List Check
hard_invoke_checks c sess =
    check tool_scope (contains c.tool c.agent.tool_scope)
    ∷ check p_t_control_flow (trust_leb (required_trust c.tool) sess.t_eff_ctl)
    ∷ (provenance_checks c ++ egress_checks c sess)

abbrev pub invoke_decision :
    Verdict → InvokeCall → Session → List Check → Option Denial → Bool → Decision
invoke_decision v c sess ck denied_by hideable = record {
  verdict = v;
  action = invoke c.tool;
  subject = c.agent.agent_id;
  object = if str_eq c.action_fingerprint "" then c.tool else c.action_fingerprint;
  checks = ck;
  denied_by = denied_by;
  session_id = sess.session_id;
  hideable = hideable;
  pending_absorb = none;
}

abbrev pub is_system : CapabilityLevel → Bool
is_system system_level = true
is_system l = false

abbrev pub is_dangerous : CapabilityLevel → Bool
is_dangerous dangerous_level = true
is_dangerous l = false

module _ (nx : Networkx) where
  unfoldable pub can_invoke : Pdp nx → InvokeCall → Session → Decision
  can_invoke pdp c sess =
      let hard = hard_invoke_checks c sess in
      let level = capability_level c.tool in
      let need_hitl = is_dangerous level in
      let ok_hitl = not need_hitl || has_hitl sess c.action_fingerprint in
      let ck = hard ++ check human_in_the_loop ok_hitl ∷ [] in
      let system = hard ++ check system_capability false ∷ [] in
      if pdp.bypass_all
      then bypassed (invoke c.tool) c.agent.agent_id
          (if str_eq c.action_fingerprint "" then c.tool else c.action_fingerprint) sess
      else if is_system level
      then invoke_decision deny c sess system (some (by_rule system_capability)) true
      else if need_hitl && all_passed hard && not ok_hitl
      then invoke_decision confirm c sess ck (some (by_rule human_in_the_loop)) false
      else if all_passed ck
      then invoke_decision allow c sess ck none true
      else invoke_decision deny c sess ck (first_failed ck) true
